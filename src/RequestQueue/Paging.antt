-- ===== src/RequestQueue/Paging.antt =====
-- The cursor of `listRequests` of src/services/request-queues.ts, over the ids in insertion order.
use actor_runtime.Base.{
  ℕ, zero, suc, String, ◌≢◌, Option, none, some, List, [], ◌∷◌, ◌++◌, All, or_else,
}
use actor_runtime.RequestQueue.Frontend.{Frontend}
use actor_runtime.RequestQueue.Buffer.{list_seen_request_ids}
use actor_runtime.RequestQueue.Service.{
  RequestFullSchema, page_ids, Store, list_requests, get_request_by_id,
}

-- No id twice.
abbrev pub Distinct : List String → Type 0
Distinct [] = Unit
Distinct (id ∷ ids) = All (λ j. j ≢ id) ids × Distinct ids

-- A client that follows `nextCursor` from the first page on, for a number of pages at most.
pub follow : ℕ → ℕ → Option String → List String → List String
follow zero limit start ids = []
follow (suc n) limit start ids =
    let page = page_ids limit start ids in
    elim page.next_cursor [ none ↦ page.ids | some c ↦ page.ids ++ follow n limit (some c) ids ]

abbrev NonEmpty : List String → Type 0
NonEmpty = All (λ j. j ≢ "")

abbrev pub prepend : {A : Type 0} → Option A → List A → List A
prepend none rest = rest
prepend (some a) rest = a ∷ rest

-- The values that `g` has for the ids, in their order.
abbrev pub collect : {A : Type 0} → (String → Option A) → List String → List A
collect g [] = []
collect g (id ∷ ids) = prepend (g id) (collect g ids)

module _ {Other : Type 0} (f : Frontend Other) where
  -- A client of `listRequests` that follows `nextCursor`, for a number of pages at most.
  pub follow_requests : ℕ → Option ℕ → Option String → Store f → List (RequestFullSchema Other)
  follow_requests zero limit cursor s = []
  follow_requests (suc n) limit cursor s =
      let (items, next_cursor) = list_requests f limit cursor none s in
      elim next_cursor [ none ↦ items | some c ↦ items ++ follow_requests n limit (some c) s ]

  module _ (limit : Option ℕ) (s : Store f) where
    abbrev get : String → Option (RequestFullSchema Other)
    get id = get_request_by_id f id s

    abbrev followed : ℕ → Option String → List String
    followed n cursor = follow n (or_else limit 1000) cursor (list_seen_request_ids s.buffer)
