-- ===== src/Runs/Ended.antt =====
-- A run that has ended: which writes of src/services/runs.ts and migrations.ts can still change how.
pub mod Parts
pub mod Exit
pub mod Charges
pub mod Steps
use actor_runtime.Base.{
  ℕ, String, ◌≡◌, refl, ◌∙◌, Bool, true, false, Option, none, some, List, arith, ◌===◌, eq_iff,
  if◌then◌else◌, Bool-cases, inl, inr,
}
use actor_runtime.Base.Dict.{Dict}
use actor_runtime.Jobs.Status.{JobStatus, is_terminal_job_status, same_status}
use actor_runtime.Jobs.Registry
use actor_runtime.Jobs.Registry.{Registry, on_record, get-update}
use actor_runtime.Jobs.Gate.{gate, transition_job_status}
use actor_runtime.Entities.Run.{RunRecord, Telemetry}
use actor_runtime.Runs.World.{World, run_status, with_runs}

module _ {U : Type 0} where
  -- The same outcome: status, end and exit code.
  pub record SameEnd (r r' : RunRecord U) : Type 0 where
    pub status : r'.status ≡ r.status
    pub finished_at : r'.finished_at ≡ r.finished_at
    pub exit_code : r'.exit_code ≡ r.exit_code

  pub SameEnd-refl : (r : RunRecord U) → SameEnd r r
  SameEnd-refl r = record { status = refl; finished_at = refl; exit_code = refl }

  pub SameEnd-trans : {r s t : RunRecord U} → SameEnd r s → SameEnd s t → SameEnd r t
  SameEnd-trans h k = record {
    status = k.status ∙ h.status;
    finished_at = k.finished_at ∙ h.finished_at;
    exit_code = k.exit_code ∙ h.exit_code;
  }

  -- Every run that has ended in the first registry is in the second with the same outcome.
  pub record KeepsEnded (rs rs' : Registry (RunRecord U)) : Type 0 where
    pub at :
        (id : String) (r : RunRecord U)
        → Registry.get rs id ≡ some r
        → is_terminal_job_status r.status ≡ true
        → (r' : RunRecord U) × (Registry.get rs' id ≡ some r') × SameEnd r r'

  pub KeepsEnded-refl : (rs : Registry (RunRecord U)) → KeepsEnded rs rs
  KeepsEnded-refl rs = record { at = λ id r e t. (r, e, SameEnd-refl r) }

  pub KeepsEnded-trans :
      (rs rs' rs'' : Registry (RunRecord U))
      → KeepsEnded rs rs'
      → KeepsEnded rs' rs''
      → KeepsEnded rs rs''
  KeepsEnded-trans rs rs' rs'' h k = record {
    at = λ id r e t.
        let (r', e', s') = h.at id r e t in
        let (r'', e'', s'') = k.at id r' e' (rw s'.status t) in (r'', e'', SameEnd-trans s' s'');
  }

  -- A mutator that does this to one ended record.
  pub record Freezes (m : Option (RunRecord U) → Option (RunRecord U)) : Type 0 where
    pub at :
        (r : RunRecord U)
        → is_terminal_job_status r.status ≡ true
        → (r' : RunRecord U) × (m (some r) ≡ some r') × SameEnd r r'

  pub update-KeepsEnded :
      (rs : Registry (RunRecord U)) (id : String) (m : Option (RunRecord U) → Option (RunRecord U))
      → Freezes m
      → KeepsEnded rs (Registry.update rs id m).0
  update-KeepsEnded rs id m h = record {
    at = λ j r e t. rw (get-update rs id j m) (elim (Bool-cases (id === j)) [
      | inl same ↦ rw (same, (eq_iff id j).0 same, e) (h.at r t)
      | inr other ↦ rw (other, e) (r, refl, SameEnd-refl r)
    ]);
  }
