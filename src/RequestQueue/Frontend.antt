-- ===== src/RequestQueue/Frontend.antt =====
-- What the repository uses of Crawlee: a request, `getRequestId`, and the `RequestQueue` frontend.
-- The frontend is third-party code, so its state and its methods are parameters.
use actor_runtime.Base.{ℕ, String, Bool, Option, List}

-- The fields that src/services/request-queues.ts reads and writes. `Other` is what it passes on unread
-- (`userData`, `headers`).
pub record Request (Other : Type 0) : Type 0 where
  pub unique_key : String
  pub url : String
  pub method : String
  pub payload : Option String
  pub retry_count : ℕ
  pub error_messages : List String
  pub user_data : Other
  pub headers : Other
  pub handled_at : Option ℕ
  pub no_retry : Bool
  pub loaded_url : Option String

-- What `addRequest`, `markRequestAsHandled` and `reclaimRequest` report.
pub record OperationInfo : Type 0 where
  pub request_id : String
  pub was_already_present : Bool
  pub was_already_handled : Bool

pub record Frontend (Other : Type 0) : Type 1 where
  pub Queue : Type 0
  pub get_request_id : String → String
  -- `fetchNextRequest` marks what it returns as in progress.
  pub fetch_next_request : Queue → Queue × Option (Request Other)
  pub get_request : Queue → String → Option (Request Other)
  pub add_request : Queue → Request Other → Bool → Queue × OperationInfo
  -- `null` when the request is not in progress.
  pub mark_request_as_handled : Queue → Request Other → Queue × Option OperationInfo
  pub reclaim_request : Queue → Request Other → Bool → Queue × Option OperationInfo
