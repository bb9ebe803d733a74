-- ===== src/Jobs/Gate.antt =====
-- `transitionJobStatus` of src/services/job-status.ts, the read-modify-write that every status write
-- of a build or run goes through.
use actor_runtime.Base.{String, ◌≡◌, not, Option, none, some, if◌then◌else◌}
use actor_runtime.Jobs.Status.{JobStatus, is_terminal_job_status, allowed_next}
use actor_runtime.Jobs.Registry
use actor_runtime.Jobs.Registry.{Registry}

-- `T extends { status: JobStatus }`: a record's status, and `{ ...record, status }`.
pub record HasStatus (T : Type 0) : Type 0 where
  pub status : T → JobStatus
  pub with_status : JobStatus → T → T
  pub status-with_status : (s : JobStatus) (t : T) → status (with_status s t) ≡ s

module _ {T : Type 0} (h : HasStatus T) where
  open h use {status, with_status}

  -- A patch is what `{ ...current, ...patch }` does to the record; the status goes over it.
  unfoldable pub gate : JobStatus → (T → T) → T → T
  gate next patch current =
      if is_terminal_job_status (status current)
      then current
      else (if not (allowed_next (status current) next)
          then current
          else with_status next (patch current))

  unfoldable pub transition_job_status :
      Registry T → String → JobStatus → (T → T) → Registry T × Option T
  transition_job_status r id next patch =
      Registry.update r id (elim [ none ↦ none | some current ↦ some (gate next patch current) ])
