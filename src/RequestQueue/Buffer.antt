-- ===== src/RequestQueue/Buffer.antt =====
-- src/storage/request-queue/buffer.ts: `RequestQueueBuffer`. A method returns the new buffer and the
-- new state of the queue that it wraps. A loop waits for the queue in each round, between its test and
-- its push, and the source has no lock there: what other calls do in each of these waits is an argument.
-- `topUp` makes as many rounds at most as its argument says.
use actor_runtime.Base.{
  ℕ, zero, suc, ◌+◌, ◌*◌, String, Bool, true, false, ◌&&◌, Option, none, some, List, [], ◌∷◌, ◌++◌,
  map, ltb, length, take, drop, find_first, ◌===◌, if◌then◌else◌,
}
use actor_runtime.Base.Dict.{Dict, lookup, insert, erase, has, values}
use actor_runtime.RequestQueue.Frontend.{Request, Frontend}

abbrev pub buffer_cap : ℕ
buffer_cap = 1000

abbrev pub drain_cap : ℕ
drain_cap = 1000

pub record HandedOut (Other : Type 0) : Type 0 where
  pub request : Request Other
  pub lock_expires_at : ℕ

pub record RequestQueueBuffer (Other : Type 0) : Type 0 where
  pub staged : List (Request Other)
  pub handed_out : Dict (HandedOut Other)
  pub unique_key_index : Dict String
  pub insertion_order : List String

module _ {Other : Type 0} where
  abbrev pub empty_buffer : RequestQueueBuffer Other
  empty_buffer = record {
    staged = [];
    handed_out = [];
    unique_key_index = [];
    insertion_order = [];
  }

  unfoldable pub remember : String → String → RequestQueueBuffer Other → RequestQueueBuffer Other
  remember request_id unique_key b = if has request_id b.unique_key_index then b else record b {
    unique_key_index = insert request_id unique_key b.unique_key_index;
    insertion_order = b.insertion_order ++ request_id ∷ [];
  }

  abbrev pub unique_key_for : RequestQueueBuffer Other → String → Option String
  unique_key_for b request_id = lookup request_id b.unique_key_index

  abbrev pub list_seen_request_ids : RequestQueueBuffer Other → List String
  list_seen_request_ids b = b.insertion_order

  abbrev pub buffer_size : RequestQueueBuffer Other → ℕ
  buffer_size b = length b.staged + length b.handed_out

  unfoldable pub lock_expires_at_for : RequestQueueBuffer Other → String → Option ℕ
  lock_expires_at_for b request_id = elim (lookup request_id b.handed_out) [
    | none ↦ none
    | some h ↦ some h.lock_expires_at
  ]

  abbrev pub has_handed_out_requests : RequestQueueBuffer Other → Bool
  has_handed_out_requests b = ltb 0 (length b.handed_out)

  abbrev pub handed_out_requests : RequestQueueBuffer Other → List (Request Other)
  handed_out_requests b = map (λ h. h.request) (values b.handed_out)

  unfoldable pub take_all_handed_out :
      RequestQueueBuffer Other → RequestQueueBuffer Other × List (Request Other)
  take_all_handed_out b = (record b { handed_out = [] }, handed_out_requests b)

  pub all_outstanding : RequestQueueBuffer Other → List (Request Other)
  all_outstanding b = b.staged ++ handed_out_requests b

module _ {Other : Type 0} (f : Frontend Other) where
  open f use {Queue, get_request_id, fetch_next_request}

  abbrev pub id_of : Request Other → String
  id_of r = get_request_id r.unique_key

  unfoldable pub remember_added : String → RequestQueueBuffer Other → RequestQueueBuffer Other
  unfolding remember
  remember_added unique_key b = remember (get_request_id unique_key) unique_key b

  -- this.remember(...); this.staged.push(next)
  unfoldable pub stage : Request Other → RequestQueueBuffer Other → RequestQueueBuffer Other
  stage next b =
      let b' = remember (id_of next) next.unique_key b in
      record b' { staged = b'.staged ++ next ∷ [] }

  -- What others do to the buffer and the queue in each round's wait, by the rounds that are left after it.
  abbrev pub Others : Type 0
  Others = ℕ → RequestQueueBuffer Other × Queue → RequestQueueBuffer Other × Queue

  unfoldable pub top_up :
      Others → ℕ → ℕ → RequestQueueBuffer Other → Queue → RequestQueueBuffer Other × Queue
  top_up others zero limit b q = (b, q)
  top_up others (suc rounds) limit b q =
      elim (ltb (length b.staged) limit && ltb (buffer_size b) buffer_cap) [
        | false ↦ (b, q)
        | true ↦
            let (q', next) = fetch_next_request q in
            let (b'', q'') = others rounds (b, q') in
            elim next [ none ↦ (b'', q'') | some r ↦ top_up others rounds limit (stage r b'') q'' ]
      ]

  unfoldable pub peek_head :
      Others
      → ℕ
      → ℕ
      → RequestQueueBuffer Other
      → Queue
      → RequestQueueBuffer Other × Queue × List (Request Other)
  peek_head others rounds limit b q =
      let (b', q') = top_up others rounds limit b q in (b', q', take limit b'.staged)

  unfoldable pub hand_out :
      ℕ → List (Request Other) → Dict (HandedOut Other) → Dict (HandedOut Other)
  hand_out lock_expires_at [] m = m
  hand_out lock_expires_at (r ∷ rs) m =
      hand_out lock_expires_at rs
        (insert (id_of r) (record { request = r; lock_expires_at = lock_expires_at }) m)

  -- `now` is the time after the last wait.
  unfoldable pub lock_head :
      Others
      → ℕ
      → ℕ
      → ℕ
      → ℕ
      → RequestQueueBuffer Other
      → Queue
      → RequestQueueBuffer Other × Queue × List (Request Other)
  lock_head others rounds now limit lock_secs b q =
      let (b', q') = top_up others rounds limit b q in
      let taken = take limit b'.staged in
      (
        record b' {
          staged = drop limit b'.staged;
          handed_out = hand_out (now + lock_secs * 1000) taken b'.handed_out;
        },
        q',
        taken,
      )

  unfoldable pub find_live_handle : RequestQueueBuffer Other → String → Option (Request Other)
  find_live_handle b request_id = elim (lookup request_id b.handed_out) [
    | some h ↦ some h.request
    | none ↦ find_first (λ r. id_of r === request_id) b.staged
  ]

  abbrev pub get_live_handle : RequestQueueBuffer Other → String → Option (Request Other)
  get_live_handle = find_live_handle

  unfoldable pub drain :
      Others
      → ℕ
      → String
      → RequestQueueBuffer Other
      → Queue
      → RequestQueueBuffer Other × Queue × Option (Request Other)
  drain others zero request_id b q = (b, q, none)
  drain others (suc rounds) request_id b q = elim (ltb (buffer_size b) buffer_cap) [
    | false ↦ (b, q, none)
    | true ↦
        let (q', next) = fetch_next_request q in
        let (b'', q'') = others rounds (b, q') in
        elim next [
          | none ↦ (b'', q'', none)
          | some r ↦ elim (id_of r === request_id) [
            | true ↦ (stage r b'', q'', some r)
            | false ↦ drain others rounds request_id (stage r b'') q''
          ]
        ]
  ]

  unfoldable pub drain_until_found :
      Others
      → String
      → RequestQueueBuffer Other
      → Queue
      → RequestQueueBuffer Other × Queue × Option (Request Other)
  drain_until_found others request_id b q = elim (find_live_handle b request_id) [
    | some r ↦ (b, q, some r)
    | none ↦ drain others drain_cap request_id b q
  ]

  -- Removes the first staged request of the id, as `findIndex` and `splice` do.
  unfoldable pub unstage : String → List (Request Other) → List (Request Other)
  unstage request_id [] = []
  unstage request_id (r ∷ rs) =
      let rest = unstage request_id rs in if id_of r === request_id then rs else r ∷ rest

  unfoldable pub release_from_buffers : String → RequestQueueBuffer Other → RequestQueueBuffer Other
  release_from_buffers request_id b = record b {
    handed_out = erase request_id b.handed_out;
    staged = unstage request_id b.staged;
  }
