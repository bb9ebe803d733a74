-- ===== src/Jobs/Registry.antt =====
-- src/storage/registry.ts over the key-value store that it wraps. Each method is the body that the
-- per-id mutex runs without interruption, so one call is one step. A change listener must not throw
-- and must not write; what a listener is told is the list `notices`, newest first.
use actor_runtime.Base.{
  String, ◌≡◌, refl, Bool, true, Option, none, some, List, ◌∷◌, arith, ◌===◌, if◌then◌else◌,
}
use actor_runtime.Base.Dict.{Dict, lookup, insert, erase, values, lookup-insert, lookup-erase}

pub record Registry (T : Type 0) : Type 0 where
  pub store : Dict T
  pub listening : Bool
  pub notices : List (Option T × Option T)

module _ {T : Type 0} where
  -- store.setValue(id, value): null deletes the record.
  abbrev pub set_value : String → Option T → Dict T → Dict T
  set_value id none m = erase id m
  set_value id (some t) m = insert id t m

  abbrev pub notify : Option T → Option T → Registry T → Registry T
  notify previous next r =
      if r.listening then record r { notices = (previous, next) ∷ r.notices } else r

  -- A mutator that leaves a missing record missing.
  abbrev pub on_record : (T → T) → Option T → Option T
  on_record f none = none
  on_record f (some t) = some (f t)

  unfoldable pub get : Registry T → String → Option T
  get r id = lookup id r.store

  unfoldable pub set : Registry T → String → T → Registry T
  set r id value =
      notify (lookup id r.store) (some value) (record r { store = insert id value r.store })

  unfoldable pub update : Registry T → String → (Option T → Option T) → Registry T × Option T
  update r id mutator =
      let current = lookup id r.store in
      let next = mutator current in
      (notify current next (record r { store = set_value id next r.store }), next)

  unfoldable pub delete : Registry T → String → Registry T
  delete r id = record r { store = erase id r.store }

  unfoldable pub on_change : Registry T → Registry T
  on_change r = record r { listening = true }

  unfoldable pub list : Registry T → List T
  list r = values r.store

  pub get-set :
      (r : Registry T) (id j : String) (t : T)
      → get (set r id t) j ≡ (if id === j then some t else get r j)
  unfolding get set
  get-set r id j t = ground (arith, lookup-insert id j t r.store)

  lookup-set_value :
      (id j : String) (v : Option T) (m : Dict T)
      → lookup j (set_value id v m) ≡ (if id === j then v else lookup j m)
  lookup-set_value id j none m = lookup-erase id j m
  lookup-set_value id j (some t) m = lookup-insert id j t m

  -- A read after a read-modify-write sees the mutator's result on that id and nothing new elsewhere.
  pub get-update :
      (r : Registry T) (id j : String) (f : Option T → Option T)
      → get (update r id f).0 j ≡ (if id === j then f (get r id) else get r j)
  unfolding get update
  get-update r id j f = ground (arith, lookup-set_value id j (f (lookup id r.store)) r.store)

  pub get-delete :
      (r : Registry T) (id j : String) → get (delete r id) j ≡ (if id === j then none else get r j)
  unfolding get delete
  get-delete r id j = lookup-erase id j r.store

  pub result-update :
      (r : Registry T) (id : String) (f : Option T → Option T) → (update r id f).1 ≡ f (get r id)
  unfolding get update
  result-update r id f = refl

  -- A listener is told of every update with the record before and after it.
  pub notices-update :
      (r : Registry T) (id : String) (f : Option T → Option T)
      → r.listening ≡ true
      → (update r id f).0.notices ≡ (get r id, f (get r id)) ∷ r.notices
  unfolding get update
  notices-update r id f h = ground arith
