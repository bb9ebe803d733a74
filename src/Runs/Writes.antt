-- ===== src/Runs/Writes.antt =====
-- The writes that handlers of src/services make to run records while another handler waits: a status
-- write through the gate, or an update that leaves the status as it is (a status message, telemetry,
-- a charge, a restart count). Creating, deleting and resurrecting a run are not among them.
use actor_runtime.Base.{
  String, ◌≡◌, ◌⊎◌, inl, inr, refl, Option, none, some, List, [], ◌∷◌, arith, ◌===◌, eq_iff,
  Bool-cases,
}
use actor_runtime.Jobs.Status.{JobStatus, aborting, aborted, is_terminal_job_status}
use actor_runtime.Jobs.Registry
use actor_runtime.Jobs.Registry.{Registry, on_record, get-update}
use actor_runtime.Jobs.Gate.{gate}
use actor_runtime.Jobs.Progress.{status-gate, allowed_next_of_aborting, allowed_next_of_terminal}
use actor_runtime.Entities.Run.{RunRecord}
use actor_runtime.Runs.World.{World, run_status, with_runs}

pub data RunWrite (U : Type 0) : Type 0 where
  gated : JobStatus → (RunRecord U → RunRecord U) → RunWrite U
  plain :
      (f : RunRecord U → RunRecord U) → ((r : RunRecord U) → (f r).status ≡ r.status) → RunWrite U

module _ {U : Type 0} where
  pub apply_write : RunWrite U → RunRecord U → RunRecord U
  apply_write (gated next patch) r = gate run_status next patch r
  apply_write (plain f keeps) r = f r

  -- The writes of an interleaving, each with the run that it is to.
  pub interfere : List (String × RunWrite U) → World U → World U
  interfere [] w = w
  interfere ((id, x) ∷ xs) w =
      interfere xs (with_runs (Registry.update w.runs id (on_record (apply_write x))).0 w)

  -- The run's record is there and has one of the two statuses of an abort.
  abbrev pub IsAborting : Option (RunRecord U) → Type 0
  IsAborting none = ⊥
  IsAborting (some r) = (r.status ≡ aborting) ⊎ (r.status ≡ aborted)

  apply_write-IsAborting :
      (x : RunWrite U) (r : RunRecord U) → IsAborting (some r) → IsAborting (some (apply_write x r))
  unfolding apply_write
  apply_write-IsAborting (gated next patch) r h = ground (
    arith,
    status-gate run_status next patch r,
    allowed_next_of_aborting next,
    allowed_next_of_terminal aborted next (unfold is_terminal_job_status in refl),
  )
  apply_write-IsAborting (plain f keeps) r h = ground (arith, keeps r)

  update-IsAborting :
      (x : RunWrite U) (id j : String) (w : World U)
      → IsAborting (Registry.get w.runs j)
      → IsAborting (Registry.get (Registry.update w.runs id (on_record (apply_write x))).0 j)
  update-IsAborting x id j w h =
      rw (get-update w.runs id j (on_record (apply_write x))) (elim (Bool-cases (id === j)) [
        | inl same ↦ rw (same, (eq_iff id j).0 same) (moved (Registry.get w.runs j) h)
        | inr other ↦ rw other h
      ])
    where
      moved : (o : Option (RunRecord U)) → IsAborting o → IsAborting (on_record (apply_write x) o)
      moved none k = k
      moved (some r) k = apply_write-IsAborting x r k

  -- Whatever the other handlers write, a run that is being aborted stays so or is aborted.
  pub interfere-IsAborting :
      (xs : List (String × RunWrite U)) (w : World U) (j : String)
      → IsAborting (Registry.get w.runs j)
      → IsAborting (Registry.get (interfere xs w).runs j)
  unfolding interfere
  interfere-IsAborting [] w j h = h
  interfere-IsAborting ((id, x) ∷ xs) w j h =
      interfere-IsAborting xs
        (with_runs (Registry.update w.runs id (on_record (apply_write x))).0 w) j
        (update-IsAborting x id j w h)
