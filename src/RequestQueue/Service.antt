-- ===== src/RequestQueue/Service.antt =====
-- src/services/request-queues.ts over one buffer and its queue. `none` where the source answers with
-- `undefined`. A frontend call that rejects is not modelled.
use actor_runtime.Base.{
  ℕ, String, Bool, true, false, Option, none, some, List, [], ◌∷◌, map, ltb, length, take, last?,
  or_else, or_option, is_some, ◌===◌, if◌then◌else◌,
}
use actor_runtime.RequestQueue.Frontend.{Request, OperationInfo, Frontend}
use actor_runtime.RequestQueue.Buffer.{
  RequestQueueBuffer, Others, remember_added, peek_head, lock_head, lock_expires_at_for,
  find_live_handle, drain_until_found, release_from_buffers, take_all_handed_out, unique_key_for,
  list_seen_request_ids, has_handed_out_requests, id_of,
}

-- `Partial<RequestInput>`, the fields that `mergeUpdates` reads.
pub record Updates (Other : Type 0) : Type 0 where
  pub retry_count : Option ℕ
  pub error_messages : Option (List String)
  pub user_data : Option Other
  pub headers : Option Other
  pub handled_at : Option ℕ
  pub no_retry : Option Bool

pub record RequestListItem : Type 0 where
  pub id : String
  pub retry_count : ℕ
  pub unique_key : String
  pub url : String
  pub method : String
  pub lock_expires_at : Option ℕ

pub record RequestFullSchema (Other : Type 0) : Type 0 where
  pub item : RequestListItem
  pub payload : Option String
  pub error_messages : List String
  pub headers : Other
  pub user_data : Other
  pub handled_at : Option ℕ
  pub no_retry : Bool
  pub loaded_url : Option String

module _ {Other : Type 0} where
  pub merge_updates : Request Other → Updates Other → Request Other
  merge_updates r u = record r {
    retry_count = or_else u.retry_count r.retry_count;
    error_messages = or_else u.error_messages r.error_messages;
    user_data = or_else u.user_data r.user_data;
    headers = or_else u.headers r.headers;
    handled_at = or_option u.handled_at r.handled_at;
    no_retry = or_else u.no_retry r.no_retry;
  }

  unfoldable pub to_list_item : String → Request Other → Option ℕ → RequestListItem
  to_list_item request_id r lock_expires_at = record {
    id = request_id;
    retry_count = r.retry_count;
    unique_key = r.unique_key;
    url = r.url;
    method = r.method;
    lock_expires_at = lock_expires_at;
  }

  unfoldable pub to_full_schema : String → Request Other → RequestFullSchema Other
  unfolding to_list_item
  to_full_schema request_id r = record {
    item = to_list_item request_id r none;
    payload = r.payload;
    error_messages = r.error_messages;
    headers = r.headers;
    user_data = r.user_data;
    handled_at = r.handled_at;
    no_retry = r.no_retry;
    loaded_url = r.loaded_url;
  }

  abbrev pub handled : Option (Request Other) → Bool
  handled none = false
  handled (some r) = is_some r.handled_at

-- The answer when the frontend says that the request is not in progress.
abbrev pub already_handled : String → OperationInfo
already_handled request_id = record {
  request_id = request_id;
  was_already_present = true;
  was_already_handled = true;
}

-- The ids after `start`: none if it is unknown. An empty start is no start.
unfoldable pub after_id : String → List String → List String
after_id start [] = []
after_id start (id ∷ ids) = let rest = after_id start ids in if id === start then ids else rest

abbrev pub from_start : Option String → List String → List String
from_start none ids = ids
from_start (some start) ids = if start === "" then ids else after_id start ids

pub record IdPage : Type 0 where
  pub ids : List String
  pub next_cursor : Option String

unfoldable pub page_ids : ℕ → Option String → List String → IdPage
unfolding after_id
page_ids limit start all_ids =
    let rest = from_start start all_ids in
    let page = take limit rest in
    record {
      ids = page;
      next_cursor = if ltb (length page) (length rest) then last? page else none;
    }

module _ {Other : Type 0} (f : Frontend Other) where
  open f use {
    Queue, get_request_id, get_request, add_request, mark_request_as_handled, reclaim_request,
  }

  pub record Store : Type 0 where
    pub buffer : RequestQueueBuffer Other
    pub queue : Queue

  pub add_one : Request Other → Bool → Store → Store × OperationInfo
  add_one request forefront s =
      let (q, info) = add_request s.queue request forefront in
      let live = get_request q request.unique_key in
      (
        record { buffer = remember_added f request.unique_key s.buffer; queue = q },
        record info {
          was_already_handled = if info.was_already_present then handled live else false;
        },
      )

  pub get_head : Others f → ℕ → ℕ → Store → Store × List RequestListItem
  get_head others rounds limit s =
      let (b, q, items) = peek_head f others rounds limit s.buffer s.queue in
      (record { buffer = b; queue = q }, map (λ r. to_list_item (id_of f r) r none) items)

  pub lock_head_items : Others f → ℕ → ℕ → ℕ → ℕ → Store → Store × Bool × List RequestListItem
  lock_head_items others rounds now limit lock_secs s =
      let (b, q, items) = lock_head f others rounds now limit lock_secs s.buffer s.queue in
      (
        record { buffer = b; queue = q },
        has_handed_out_requests b,
        map (λ r. to_list_item (id_of f r) r (lock_expires_at_for b (id_of f r))) items,
      )

  pub get_request_by_id : String → Store → Option (RequestFullSchema Other)
  get_request_by_id request_id s = elim (unique_key_for s.buffer request_id) [
    | none ↦ none
    | some key ↦ elim (get_request s.queue key) [
      | none ↦ none
      | some live ↦ some (to_full_schema request_id live)
    ]
  ]

  abbrev last_resort : String → RequestQueueBuffer Other → Queue → Option (Request Other)
  last_resort request_id b q = elim (unique_key_for b request_id) [
    | none ↦ none
    | some key ↦ get_request q key
  ]

  -- A live handle, else what draining the queue finds, else the latest state of a known request.
  unfoldable pub resolve_handle_for_update :
      Others f → String → Store → Store × Option (Request Other)
  resolve_handle_for_update others request_id s = elim (find_live_handle f s.buffer request_id) [
    | some known ↦ (s, some known)
    | none ↦
        let (b, q, drained) = drain_until_found f others request_id s.buffer s.queue in
        (record { buffer = b; queue = q }, or_option drained (last_resort request_id b q))
  ]

  unfoldable pub mark_handled :
      Others f → String → Updates Other → Store → Store × Option OperationInfo
  mark_handled others request_id updates s =
      let (s', handle) = resolve_handle_for_update others request_id s in
      elim handle [
        | none ↦ (s', none)
        | some r ↦
            let (q, result) = mark_request_as_handled s'.queue (merge_updates r updates) in
            (
              record { buffer = release_from_buffers f request_id s'.buffer; queue = q },
              some (or_else result (already_handled request_id)),
            )
      ]

  unfoldable pub reclaim :
      Others f → String → Updates Other → Bool → Store → Store × Option OperationInfo
  reclaim others request_id updates forefront s =
      let (s', handle) = resolve_handle_for_update others request_id s in
      elim handle [
        | none ↦ (s', none)
        | some r ↦
            let (q, result) = reclaim_request s'.queue (merge_updates r updates) forefront in
            (
              record { buffer = release_from_buffers f request_id s'.buffer; queue = q },
              some (or_else result (already_handled request_id)),
            )
      ]

  unfoldable pub release_lock : String → Bool → Store → Store
  release_lock request_id forefront s = elim (find_live_handle f s.buffer request_id) [
    | none ↦ s
    | some r ↦ record {
      buffer = release_from_buffers f request_id s.buffer;
      queue = (reclaim_request s.queue r forefront).0;
    }
  ]

  unfoldable pub reclaim_all : List (Request Other) → Queue → Queue
  reclaim_all [] q = q
  reclaim_all (r ∷ rs) q = reclaim_all rs (reclaim_request q r false).0

  unfoldable pub unlock_all : Store → Store × ℕ
  unfolding reclaim_all
  unlock_all s =
      let (b, released) = take_all_handed_out s.buffer in
      (record { buffer = b; queue = reclaim_all released s.queue }, length released)

  unfoldable pub items_of : List String → Store → List (RequestFullSchema Other)
  items_of [] s = []
  items_of (id ∷ ids) s =
      let rest = items_of ids s in
      elim (get_request_by_id id s) [ none ↦ rest | some item ↦ item ∷ rest ]

  -- `options.cursor ?? options.exclusiveStartId` is the start.
  unfoldable pub list_requests :
      Option ℕ
      → Option String
      → Option String
      → Store
      → List (RequestFullSchema Other) × Option String
  list_requests limit cursor exclusive_start_id s =
      let page =
        page_ids (or_else limit 1000) (or_option cursor exclusive_start_id)
          (list_seen_request_ids s.buffer) in
      (items_of page.ids s, page.next_cursor)
