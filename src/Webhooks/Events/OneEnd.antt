-- ===== src/Webhooks/Events/OneEnd.antt =====
-- The events that the status writes of one job give rise to: the gate of src/services/job-status.ts
-- together with `jobEventTypes` of src/services/webhook-dispatches.ts.
use actor_runtime.Base.{
  ◌≡◌, refl, true, false, Option, none, some, List, [], ◌∷◌, ◌++◌, arith, Bool-cases, inl, inr, ◌⊎◌,
}
use mathlib.Core.List.{append-nil}
use actor_runtime.Jobs.Status.{JobStatus, is_terminal_job_status, allowed_next, same_status}
use actor_runtime.Jobs.Gate.{HasStatus, gate}
use actor_runtime.Jobs.Progress.{
  Request, writes, status-gate, writes_of_terminal, gate-eq-if, allowed_next_of_terminal,
}
use actor_runtime.Entities.Webhook.{
  EventType, run_succeeded, run_failed, run_timed_out, run_aborted, build_succeeded, build_failed,
  build_timed_out, build_aborted,
}
use actor_runtime.Webhooks.Events.{
  JobGroup, run, build, run_terminal_event, build_terminal_event, job_event_types,
}

abbrev pub terminal_event_of : JobGroup → JobStatus → Option EventType
terminal_event_of run = run_terminal_event
terminal_event_of build = build_terminal_event

abbrev pub event_list : Option EventType → List EventType
event_list none = []
event_list (some e) = e ∷ []

module _ {T : Type 0} (h : HasStatus T) (group : JobGroup) where
  open h use {status}

  -- The events of the writes of one record, in the order of the writes.
  abbrev pub events_of : List (Request h) → T → List EventType
  events_of [] t = []
  events_of ((next, patch) ∷ qs) t =
      job_event_types (some (status t)) (status (gate h next patch t)) group
        (terminal_event_of group)
      ++ events_of qs (gate h next patch t)

-- The event that tells of an end.
pub data IsEndEvent : JobGroup → JobStatus → EventType → Type 0 where
  run_has_succeeded : IsEndEvent run JobStatus.succeeded run_succeeded
  run_has_failed : IsEndEvent run JobStatus.failed run_failed
  run_has_timed_out : IsEndEvent run JobStatus.timed_out run_timed_out
  run_is_aborted : IsEndEvent run JobStatus.aborted run_aborted
  build_has_succeeded : IsEndEvent build JobStatus.succeeded build_succeeded
  build_has_failed : IsEndEvent build JobStatus.failed build_failed
  build_has_timed_out : IsEndEvent build JobStatus.timed_out build_timed_out
  build_is_aborted : IsEndEvent build JobStatus.aborted build_aborted

-- No event of a live job, one of an ended one.
abbrev pub OneEnd : JobGroup → JobStatus → List EventType → Type 0
OneEnd group last events =
    ((is_terminal_job_status last ≡ false) × (events ≡ []))
    ⊎ ((e : EventType) × IsEndEvent group last e × (events ≡ e ∷ []))

end_event :
    (group : JobGroup) (s : JobStatus) → OneEnd group s (event_list (terminal_event_of group s))
unfolding run_terminal_event build_terminal_event is_terminal_job_status
end_event run JobStatus.ready = inl (refl, refl)
end_event build JobStatus.ready = inl (refl, refl)
end_event run JobStatus.succeeded = inr (run_succeeded, run_has_succeeded, refl)
end_event run JobStatus.failed = inr (run_failed, run_has_failed, refl)
end_event run JobStatus.timed_out = inr (run_timed_out, run_has_timed_out, refl)
end_event run JobStatus.aborted = inr (run_aborted, run_is_aborted, refl)
end_event build JobStatus.succeeded = inr (build_succeeded, build_has_succeeded, refl)
end_event build JobStatus.failed = inr (build_failed, build_has_failed, refl)
end_event build JobStatus.timed_out = inr (build_timed_out, build_has_timed_out, refl)
end_event build JobStatus.aborted = inr (build_aborted, build_is_aborted, refl)
end_event run JobStatus.running = inl (refl, refl)
end_event run JobStatus.aborting = inl (refl, refl)
end_event build JobStatus.running = inl (refl, refl)
end_event build JobStatus.aborting = inl (refl, refl)

-- A record whose status is what it was raises nothing.
quiet :
    (group : JobGroup) (s : JobStatus)
    → job_event_types (some s) s group (terminal_event_of group) ≡ []
unfolding job_event_types same_status run_terminal_event build_terminal_event is_terminal_job_status
quiet run s = ground arith
quiet build s = ground arith

-- A live record that moves on raises the event of its end, if it ends.
moved :
    (group : JobGroup) (a b : JobStatus)
    → is_terminal_job_status a ≡ false
    → allowed_next a b ≡ true
    → job_event_types (some a) b group (terminal_event_of group)
      ≡ event_list (terminal_event_of group b)
unfolding job_event_types same_status run_terminal_event build_terminal_event is_terminal_job_status
    allowed_next
moved run a b live h = ground arith
moved build a b live h = ground arith

live_no_event :
    (group : JobGroup) (s : JobStatus)
    → is_terminal_job_status s ≡ false
    → terminal_event_of group s ≡ none
unfolding run_terminal_event build_terminal_event is_terminal_job_status
live_no_event run s live = ground arith
live_no_event build s live = ground arith

module _ {T : Type 0} (h : HasStatus T) (group : JobGroup) where
  open h use {status}

  refused :
      (next : JobStatus) (patch : T → T) (t : T)
      → allowed_next (status t) next ≡ false
      → gate h next patch t ≡ t
  refused next patch t e = rw (gate-eq-if h next patch t, e) refl

  -- A record that has ended raises nothing more.
  ended_quiet :
      (qs : List (Request h)) (t : T)
      → is_terminal_job_status (status t) ≡ true
      → events_of h group qs t ≡ []
  ended_quiet [] t e = refl
  ended_quiet ((next, patch) ∷ qs) t e =
      rw (refused next patch t (allowed_next_of_terminal (status t) next e), quiet group (status t))
        (ended_quiet qs t e)

  accepted_status :
      (next : JobStatus) (patch : T → T) (t : T)
      → allowed_next (status t) next ≡ true
      → status (gate h next patch t) ≡ next
  accepted_status next patch t e = rw (status-gate h next patch t, e) refl

  events_of_last :
      (qs : List (Request h)) (t : T)
      → is_terminal_job_status (status t) ≡ false
      → events_of h group qs t ≡ event_list (terminal_event_of group (status (writes h qs t)))
  events_of_last [] t live = rw (live_no_event group (status t) live) refl
  events_of_last ((next, patch) ∷ qs) t live = elim (Bool-cases (allowed_next (status t) next)) [
    | inr no' ↦ rw (refused next patch t no', quiet group (status t)) (events_of_last qs t live)
    | inl yes' ↦
        let there : status (gate h next patch t) ≡ next = accepted_status next patch t yes' in
        elim (Bool-cases (is_terminal_job_status next)) [
          | inl ended ↦
              let over : is_terminal_job_status (status (gate h next patch t)) ≡ true =
                rw there ended in
              rw
                (
                  ended_quiet qs (gate h next patch t) over,
                  writes_of_terminal h qs (gate h next patch t) over,
                  there,
                  moved group (status t) next live yes',
                  append-nil (event_list (terminal_event_of group next)),
                )
                refl
          | inr still ↦
              let goes_on : is_terminal_job_status (status (gate h next patch t)) ≡ false =
                rw there still in
              rw
                (
                  events_of_last qs (gate h next patch t) goes_on,
                  there,
                  moved group (status t) next live yes',
                  live_no_event group next still,
                )
                refl
        ]
  ]

  -- Whatever status writes are requested on a live run or build and in whatever order, they raise no
  -- event while it is live, and exactly one once it has ended: that of a run or of a build, and
  -- SUCCEEDED, FAILED, TIMED_OUT or ABORTED as its last status is.
  pub events_of_live :
      (qs : List (Request h)) (t : T)
      → is_terminal_job_status (status t) ≡ false
      → OneEnd group (status (writes h qs t)) (events_of h group qs t)
  events_of_live qs t live =
      rw (events_of_last qs t live) (end_event group (status (writes h qs t)))
