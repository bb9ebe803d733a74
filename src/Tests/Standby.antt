-- ===== src/Tests/Standby.antt =====
-- A standby pool of one run, its settings, and the end of that run.
use actor_runtime.Base.{ℕ, ◌+◌, ◌≤◌, ◌≡◌, refl, true, none, arith}
use actor_runtime.Base.Results.{ok}
use actor_runtime.Base.Json.{boolean, object, field, end}
use actor_runtime.Jobs.Registry
use actor_runtime.Entities.Actor.{ActorStandbyRecord}
use actor_runtime.Runs.World.{World, emit, flush_log}
use actor_runtime.Standby.Pool.{
  PoolSettings, Pool, count, reserve, release, idle_timer_fires, retire_outdated, add_run,
  arm_idle_timer, remove_from_pool,
}
use actor_runtime.Standby.Pool.Sound.{open_leases, finishes}
use actor_runtime.Standby.Pool.Reach.{
  here, next, reserves, releases, idles, empty_pool, open_leases-le-most, finished_serves_none,
}
use actor_runtime.Standby.Pool.Newest.{IsNewest, reserve_lem}
use actor_runtime.Standby.Config.{standby_defaults, merge_standby_update, merge_fields, checked}
use actor_runtime.Standby.Config.Valid.{
  IsValid, body_of, merge_standby_update-IsValid, merge_standby_update-body_of,
}

abbrev settings : PoolSettings
settings = record { desired_requests = 3; max_requests = 4; idle_timeout_secs = 300 }

abbrev one_request : Pool
one_request = (reserve settings "b1" "0.0.1" empty_pool).0

open_leases-le-most_example : open_leases 0 one_request.leases ≤ 4
open_leases-le-most_example =
    open_leases-le-most {U = ℕ} 4 one_request 0 (omega arith)
      (next here (reserves settings "b1" "0.0.1" empty_pool refl))

-- The request is done, and nobody comes for five minutes.
abbrev idle : Pool
idle = idle_timer_fires 0 (release 10 settings 0 one_request)

finished_serves_none_example :
    (open_leases 0 idle.leases ≡ 0) × (count 0 idle.pool ≡ 0) × (finishes 0 idle.effects ≡ 1)
unfolding reserve retire_outdated add_run release arm_idle_timer idle_timer_fires remove_from_pool
finished_serves_none_example =
    finished_serves_none {U = ℕ} 4 idle 0 (omega arith)
      (next
        (next (next here (reserves settings "b1" "0.0.1" empty_pool refl))
          (releases 10 settings 0 one_request))
        (idles 0 (release 10 settings 0 one_request)))
      (omega arith)

-- A newer build serves by the time of the second request.
reserve_lem_example :
    IsNewest 4 "b2" one_request (reserve settings "b2" "0.0.2" one_request).1
    × ((reserve settings "b2" "0.0.2" one_request).0.next_ticket ≤ one_request.next_ticket + 2)
reserve_lem_example = reserve_lem settings "b2" "0.0.2" one_request

-- Another handler writes the log while the container is on its way out.
abbrev others : World ℕ → World ℕ
others = emit (flush_log "run1")

abbrev enabled : ActorStandbyRecord
enabled = record standby_defaults { is_enabled = true }

merge_standby_update-IsValid_example : IsValid enabled
unfolding merge_standby_update merge_fields checked
merge_standby_update-IsValid_example =
    merge_standby_update-IsValid (λ s. s) (object (field "isEnabled" (boolean true) end)) none
      enabled refl

merge_standby_update-body_of_example :
    merge_standby_update (λ s. s) (body_of enabled) none ≡ ok enabled
merge_standby_update-body_of_example =
    merge_standby_update-body_of (λ s. s) enabled none
      (omega arith, omega arith, omega arith, omega arith) refl
