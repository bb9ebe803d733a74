-- ===== src/Jobs/Status.antt =====
-- src/services/job-status.ts: the statuses of a build or run and the gate of every status write.
use actor_runtime.Base.{Bool, true, false}

pub data JobStatus : Type 0 where
  ready running succeeded failed aborting aborted timed_out : JobStatus

-- TERMINAL_JOB_STATUSES.has(status)
unfoldable pub is_terminal_job_status : JobStatus → Bool
is_terminal_job_status succeeded = true
is_terminal_job_status failed = true
is_terminal_job_status aborted = true
is_terminal_job_status timed_out = true
is_terminal_job_status ready = false
is_terminal_job_status running = false
is_terminal_job_status aborting = false

-- ALLOWED_NEXT[current].has(next)
unfoldable pub allowed_next : JobStatus → JobStatus → Bool
allowed_next ready running = true
allowed_next ready aborting = true
allowed_next ready aborted = true
allowed_next running succeeded = true
allowed_next running failed = true
allowed_next running timed_out = true
allowed_next running aborting = true
allowed_next running aborted = true
allowed_next aborting aborted = true
allowed_next _ _ = false

-- `a === b` on statuses.
unfoldable pub same_status : JobStatus → JobStatus → Bool
same_status ready ready = true
same_status running running = true
same_status succeeded succeeded = true
same_status failed failed = true
same_status aborting aborting = true
same_status aborted aborted = true
same_status timed_out timed_out = true
same_status _ _ = false
