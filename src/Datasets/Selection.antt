-- ===== src/Datasets/Selection.antt =====
-- Which fields of an item a projection keeps (src/services/dataset-projection.ts).
use text.Mathlib.Text.{starts_with}
use actor_runtime.Base.{
  ◌⊎◌, ◌↔◌, ◌≢◌, String, ◌≡◌, refl, Bool, true, false, not, ◌&&◌, ◌||◌, Option, none, some, List,
  [], ◌∷◌, arith, includes, ◌===◌, if◌then◌else◌, eq_iff, Bool-cases, inl, inr, ap, ◌∙◌,
}
use actor_runtime.Base.Dict.{Dict, lookup, keys, lookup-insert}
use actor_runtime.Datasets.{
  Value, null, undefined, string, scalar, array, object, no_values, value, no_fields, field,
  is_empty_value, DatasetProjectionOptions, is_dropped, kept_value, put, keys_of, keys_from,
  project_keys, project_item,
}

-- What the loop does to one key.
abbrev step : DatasetProjectionOptions → Dict Value → String → Dict Value → Dict Value
step o item key result =
    if is_dropped o key then result else put key (kept_value o (lookup key item)) result

abbrev overlay : Option Value → Option Value → Option Value
overlay none x = x
overlay (some w) x = some w

result_for : DatasetProjectionOptions → Dict Value → String → Option Value → Option Value
result_for o item key before =
    if is_dropped o key then before else overlay (kept_value o (lookup key item)) before

lookup-put :
    (key j : String) (v : Option Value) (result : Dict Value)
    → lookup j (put key v result)
      ≡ (if key === j then overlay v (lookup j result) else lookup j result)
lookup-put key j none result = ground arith
lookup-put key j (some w) result = lookup-insert key j w result

lookup-step :
    (o : DatasetProjectionOptions) (item : Dict Value) (key j : String) (result : Dict Value)
    → lookup j (step o item key result)
      ≡ (if key === j then result_for o item j (lookup j result) else lookup j result)
unfolding result_for
lookup-step o item key j result = elim (Bool-cases (key === j)) [
  | inl same ↦
      let equal = (eq_iff key j).0 same in
      elim (Bool-cases (is_dropped o key)) [
        | inl dropped ↦ rw (same, dropped, rw equal at dropped) refl
        | inr stays ↦
            rw (same, stays, rw equal at stays)
              (rw (lookup-put key j (kept_value o (lookup key item)) result, same) (rw equal refl))
      ]
  | inr other ↦ elim (Bool-cases (is_dropped o key)) [
    | inl dropped ↦ rw (other, dropped) refl
    | inr stays ↦
        rw (other, stays)
          (rw (lookup-put key j (kept_value o (lookup key item)) result, other) refl)
  ]
]

-- Two rounds on one key give what one gives.
result_for_twice :
    (o : DatasetProjectionOptions) (item : Dict Value) (key : String) (before : Option Value)
    → result_for o item key (result_for o item key before) ≡ result_for o item key before
unfolding result_for
result_for_twice o item key before = elim (Bool-cases (is_dropped o key)) [
  | inl dropped ↦ rw dropped refl
  | inr stays ↦ rw stays (twice (kept_value o (lookup key item)))
]
  where
    twice : (v : Option Value) → overlay v (overlay v before) ≡ overlay v before
    twice none = refl
    twice (some w) = refl

-- The tests of two rounds together.
two_rounds :
    (g : Option Value → Option Value) (a b : Bool) (x : Option Value)
    → g (g x) ≡ g x
    → (if b then g (if a then g x else x) else (if a then g x else x)) ≡ (if a || b then g x else x)
two_rounds g true true x h = h
two_rounds g true false x h = refl
two_rounds g false true x h = refl
two_rounds g false false x h = refl

lookup-project_keys :
    (o : DatasetProjectionOptions) (item : Dict Value) (ks : List String) (result : Dict Value)
    (j : String)
    → lookup j (project_keys o item ks result)
      ≡ (if includes ks j then result_for o item j (lookup j result) else lookup j result)
unfolding project_keys
lookup-project_keys o item [] result j = refl
lookup-project_keys o item (key ∷ ks) result j =
    rw (lookup-project_keys o item ks (step o item key result) j, lookup-step o item key j result)
      (two_rounds (result_for o item j) (key === j) (includes ks j) (lookup j result)
        (result_for_twice o item j (lookup j result)))

lookup_outside :
    (j : String) (item : Dict Value) → includes (keys item) j ≡ false → lookup j item ≡ none
unfolding lookup
lookup_outside j [] h = refl
lookup_outside j ((i, v) ∷ item) h = ground (arith, lookup_outside j item)

-- The named fields, or all of them where none are named.
abbrev pub selected_from : List String → String → Bool
selected_from [] key = true
selected_from (f ∷ fs) key = includes (f ∷ fs) key

abbrev pub is_selected : DatasetProjectionOptions → String → Bool
is_selected o key = selected_from o.fields key

result_for-none :
    (o : DatasetProjectionOptions) (item : Dict Value) (j : String)
    → result_for o item j none ≡ (if is_dropped o j then none else kept_value o (lookup j item))
unfolding result_for
result_for-none o item j = elim (Bool-cases (is_dropped o j)) [
  | inl dropped ↦ rw dropped refl
  | inr stays ↦ rw stays (same (kept_value o (lookup j item)))
]
  where
    same : (v : Option Value) → overlay v none ≡ v
    same none = refl
    same (some w) = refl

all_keys :
    (o : DatasetProjectionOptions) (item : Dict Value) (j : String)
    → (if includes (keys item) j
        then (if is_dropped o j then none else kept_value o (lookup j item))
        else none)
      ≡ (if is_dropped o j then none else kept_value o (lookup j item))
all_keys o item j = elim (Bool-cases (includes (keys item) j)) [
  | inl inside ↦ rw inside refl
  | inr outside ↦ elim (Bool-cases (is_dropped o j)) [
    | inl dropped ↦ rw (outside, dropped) refl
    | inr stays ↦ rw (outside, stays, lookup_outside j item outside) refl
  ]
]

field-project_item :
    (o : DatasetProjectionOptions) (item : Dict Value) (key : String)
    → lookup key (project_item o item) ≡ (
        if is_selected o key && not (is_dropped o key)
        then kept_value o (lookup key item)
        else none)
unfolding project_item lookup
field-project_item o item key =
    rw (lookup-project_keys o item (keys_of o item) [] key, result_for-none o item key)
      (by_fields o.fields)
  where
    guard :
        (b d : Bool) (x : Option Value)
        → (if b then (if d then none else x) else none) ≡ (if b && not d then x else none)
    guard b d x = ground arith

    by_fields :
        (fs : List String)
        → (if includes (keys_from fs item) key
            then (if is_dropped o key then none else kept_value o (lookup key item))
            else none)
          ≡ (if selected_from fs key && not (is_dropped o key)
              then kept_value o (lookup key item)
              else none)
    by_fields [] =
        all_keys o item key ∙ guard true (is_dropped o key) (kept_value o (lookup key item))
    by_fields (f ∷ fs) =
        guard (includes (f ∷ fs) key) (is_dropped o key) (kept_value o (lookup key item))

-- Neither null nor undefined, and not an empty text, array or object.
abbrev pub IsFilled : Value → Type 0
IsFilled v =
    (v ≢ null) × (v ≢ undefined) × (v ≢ string "") × (v ≢ array no_values) × (v ≢ object no_fields)

-- The conditions on a field of an item that stays.
abbrev pub Stays : DatasetProjectionOptions → String → Value → Type 0
Stays o key v =
    ((o.fields ≡ []) ⊎ (includes o.fields key ≡ true))
    × (includes o.omit key ≡ false)
    × ((o.clean ≡ true) ⊎ (o.skip_hidden ≡ true) → starts_with key "#" ≡ false)
    × ((o.clean ≡ true) ⊎ (o.skip_empty ≡ true) → IsFilled v)

is_empty_value_iff : (v : Value) → (is_empty_value v ≡ false) ↔ IsFilled v
unfolding is_empty_value
is_empty_value_iff null = (λ h. absurd (cc h), λ p. absurd (p.0 refl))
is_empty_value_iff undefined = (λ h. absurd (cc h), λ p. absurd (p.1 refl))
is_empty_value_iff (string t) = (
  λ h. (λ e. cc e, λ e. cc e, λ e. cc (h, ap is_empty_value e), λ e. cc e, λ e. cc e),
  λ p. elim (Bool-cases (t === "")) [
    | inl empty ↦ absurd (p.2 (ap (λ u. string u) ((eq_iff t "").0 empty)))
    | inr full ↦ full
  ],
)
is_empty_value_iff (scalar t) =
    (λ h. (λ e. cc e, λ e. cc e, λ e. cc e, λ e. cc e, λ e. cc e), λ p. refl)
is_empty_value_iff (array no_values) = (λ h. absurd (cc h), λ p. absurd (p.3 refl))
is_empty_value_iff (array (value v vs)) =
    (λ h. (λ e. cc e, λ e. cc e, λ e. cc e, λ e. cc (ap is_empty_value e), λ e. cc e), λ p. refl)
is_empty_value_iff (object no_fields) = (λ h. absurd (cc h), λ p. absurd (p.4 refl))
is_empty_value_iff (object (field k v fs)) =
    (λ h. (λ e. cc e, λ e. cc e, λ e. cc e, λ e. cc e, λ e. cc (ap is_empty_value e)), λ p. refl)

selected_iff :
    (fs : List String) (key : String)
    → (selected_from fs key ≡ true) ↔ ((fs ≡ []) ⊎ (includes fs key ≡ true))
selected_iff [] key = (λ h. inl refl, λ p. refl)
selected_iff (f ∷ fs) key = (λ h. inr h, λ p. back p)
  where
    back : ((f ∷ fs ≡ []) ⊎ (includes (f ∷ fs) key ≡ true)) → includes (f ∷ fs) key ≡ true
    back (inl e) = absurd (cc e)
    back (inr h) = h

-- `(a || b) && c` is false exactly if `a` and `b` each rule `c` out.
guarded_iff : (a b c : Bool) → ((a || b) && c ≡ false) ↔ ((a ≡ true) ⊎ (b ≡ true) → c ≡ false)
guarded_iff true b c = (λ h _. h, λ f. f (inl refl))
guarded_iff false true c = (λ h _. h, λ f. f (inr refl))
guarded_iff false false c = (λ h p. absurd (neither p), λ f. refl)
  where
    neither : (◌≡◌ {A = Bool} false true) ⊎ (◌≡◌ {A = Bool} false true) → ⊥
    neither (inl e) = cc e
    neither (inr e) = cc e

or_false : (a b : Bool) → (a || b ≡ false) ↔ ((a ≡ false) × (b ≡ false))
or_false a b = ground arith

some_value : (x y : Value) → some x ≡ some y → x ≡ y
some_value x y e = cc

-- When the tests of one field let a value through.
through_iff :
    (o : DatasetProjectionOptions) (chosen dropped : Bool) (x : Option Value) (v : Value)
    → ((if chosen && not dropped then kept_value o x else none) ≡ some v) ↔ (
        (x ≡ some v)
        × (chosen ≡ true)
        × (dropped ≡ false)
        × (((o.clean || o.skip_empty) && is_empty_value v) ≡ false))
through_iff o false dropped x v = (λ h. absurd (cc h), λ p. absurd (cc (p.1)))
through_iff o true true x v = (λ h. absurd (cc h), λ p. absurd (cc (p.2)))
through_iff o true false none v = (λ h. absurd (cc h), λ p. absurd (cc (p.0)))
through_iff o true false (some u) v =
    elim (Bool-cases ((o.clean || o.skip_empty) && is_empty_value u)) [
      | inl empty ↦
          rw empty (λ h. absurd (cc h), λ p. absurd (clash (rw (some_value u v p.0) at empty) p.3))
      | inr full ↦ rw full (λ h. (h, refl, refl, rw (some_value u v h) at full), λ p. p.0)
    ]
  where
    clash :
        ((o.clean || o.skip_empty) && is_empty_value v) ≡ true
        → ((o.clean || o.skip_empty) && is_empty_value v) ≡ false
        → ⊥
    clash a b = cc

-- A projected item has a field with a value exactly if the item has it with that value, it is named or no
-- field is, it is not omitted, it does not begin with `#` where hidden ones are skipped, and it is not
-- empty where empty ones are skipped.
pub lookup-project_item :
    (o : DatasetProjectionOptions) (item : Dict Value) (key : String) (v : Value)
    → (lookup key (project_item o item) ≡ some v) ↔ ((lookup key item ≡ some v) × Stays o key v)
lookup-project_item o item key v =
    let through = through_iff o (is_selected o key) (is_dropped o key) (lookup key item) v in
    let selected = selected_iff o.fields key in
    let dropped =
      or_false (includes o.omit key) ((o.clean || o.skip_hidden) && starts_with key "#") in
    let hidden = guarded_iff o.clean o.skip_hidden (starts_with key "#") in
    let emptied = guarded_iff o.clean o.skip_empty (is_empty_value v) in
    let filled = is_empty_value_iff v in
    rw (field-project_item o item key) (
      λ h.
          let (there, chosen, stays, full) = through.0 h in
          let (not_omitted, not_hidden) = dropped.0 stays in
          (
            there,
            (
              selected.0 chosen,
              not_omitted,
              hidden.0 not_hidden,
              λ skips. filled.0 (emptied.0 full skips),
            ),
          ),
      λ p.
          let stays : Stays o key v = p.1 in
          through.1 (
            p.0,
            selected.1 stays.0,
            dropped.1 (stays.1, hidden.1 stays.2),
            emptied.1 (λ skips. filled.1 (stays.3 skips)),
          ),
    )
