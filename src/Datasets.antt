-- ===== src/Datasets.antt =====
-- src/services/dataset-projection.ts: what the API leaves of the items of a dataset page. An item is an
-- object of JSON values. The order of an object's keys is that of their insertion, which is JavaScript's
-- for keys that are not integers.
pub mod Selection
use text.Mathlib.Text.{starts_with}
use actor_runtime.Base.{
  String, ◌≡◌, Bool, true, false, not, ◌&&◌, ◌||◌, Option, none, some, List, [], ◌∷◌, ◌++◌, map,
  includes, ◌===◌, if◌then◌else◌,
}
use actor_runtime.Base.Dict.{Dict, lookup, insert, keys}

mutual
  -- A number or a Boolean is a `scalar`, by its text.
  pub data Value : Type 0 where
    null undefined : Value
    string : String → Value
    scalar : String → Value
    array : Values → Value
    object : Fields → Value

  pub data Values : Type 0 where
    no_values : Values
    value : Value → Values → Values

  pub data Fields : Type 0 where
    no_fields : Fields
    field : String → Value → Fields → Fields

pub record DatasetProjectionOptions : Type 0 where
  pub fields : List String
  pub omit : List String
  pub unwind : Option String
  pub clean : Bool
  pub skip_hidden : Bool
  pub skip_empty : Bool

unfoldable pub is_empty_value : Value → Bool
is_empty_value null = true
is_empty_value undefined = true
is_empty_value (string t) = t === ""
is_empty_value (scalar t) = false
is_empty_value (array no_values) = true
is_empty_value (array (value v vs)) = false
is_empty_value (object no_fields) = true
is_empty_value (object (field k v fs)) = false

abbrev pub unwound : Dict Value → String → Values → List (Dict Value)
unwound item name no_values = []
unwound item name (value v vs) = insert name v item ∷ unwound item name vs

abbrev unwound_or_whole : Dict Value → String → Values → List (Dict Value)
unwound_or_whole item name no_values = item ∷ []
unwound_or_whole item name (value v vs) = unwound item name (value v vs)

abbrev unwind_value : Dict Value → String → Option Value → List (Dict Value)
unwind_value item name (some (array vs)) = unwound_or_whole item name vs
unwind_value item name _ = item ∷ []

unfoldable pub unwind_item : Dict Value → String → List (Dict Value)
unwind_item item name = unwind_value item name (lookup name item)

abbrev pub keys_from : List String → Dict Value → List String
keys_from [] item = keys item
keys_from (f ∷ fs) item = f ∷ fs

abbrev pub keys_of : DatasetProjectionOptions → Dict Value → List String
keys_of o item = keys_from o.fields item

-- The first two tests of the loop, on the key alone.
abbrev pub is_dropped : DatasetProjectionOptions → String → Bool
is_dropped o key = includes o.omit key || (o.clean || o.skip_hidden) && starts_with key "#"

-- The last two, on the value.
abbrev pub kept_value : DatasetProjectionOptions → Option Value → Option Value
kept_value o none = none
kept_value o (some v) = if (o.clean || o.skip_empty) && is_empty_value v then none else some v

abbrev pub put : String → Option Value → Dict Value → Dict Value
put key none result = result
put key (some v) result = insert key v result

unfoldable pub project_keys :
    DatasetProjectionOptions → Dict Value → List String → Dict Value → Dict Value
project_keys o item [] result = result
project_keys o item (key ∷ ks) result =
    project_keys o item ks
      (if is_dropped o key then result else put key (kept_value o (lookup key item)) result)

unfoldable pub project_item : DatasetProjectionOptions → Dict Value → Dict Value
unfolding project_keys
project_item o item = project_keys o item (keys_of o item) []

abbrev unwind_all : String → List (Dict Value) → List (Dict Value)
unwind_all name [] = []
unwind_all name (item ∷ items) = unwind_item item name ++ unwind_all name items

-- An empty `unwind` is none.
abbrev unwind_by : Option String → List (Dict Value) → List (Dict Value)
unwind_by none items = items
unwind_by (some name) items = if name === "" then items else unwind_all name items

pub apply_dataset_projection : List (Dict Value) → DatasetProjectionOptions → List (Dict Value)
unfolding project_item unwind_item
apply_dataset_projection items o = map (project_item o) (unwind_by o.unwind items)
