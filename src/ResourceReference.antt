-- ===== src/ResourceReference.antt =====
-- src/services/resource-reference.ts: the `:actorId`-like segment of a path and whom it names.
-- `String.prototype.toLowerCase` is a parameter.
use Prim.Native.Char.{code}
use actor_runtime.Base.{
  ℕ, zero, suc, String, Bool, true, false, ◌&&◌, ◌||◌, Option, none, some, leb, ◌==◌, ◌===◌,
  if◌then◌else◌,
}
use actor_runtime.Entities.Storage.{UserRecord}

pub data ResourceOwnerReference : Type 0 where
  self : ResourceOwnerReference
  user_id username : String → ResourceOwnerReference

pub data ResourceReference : Type 0 where
  id : String → ResourceReference
  named : ResourceOwnerReference → String → ResourceReference
  empty_name : ResourceReference

-- What stands before and after the first occurrence of a character; `none` where there is none.
unfoldable pub split_first : ℕ → String → Option (String × String)
split_first sep String.[] = none
split_first sep (String.◌∷◌ c s) =
    let rest : Option (String × String) = elim (split_first sep s) [
      | none ↦ none
      | some (before, after) ↦ some (String.◌∷◌ c before, after)
    ] in
    if code c == sep then some ("", s) else rest

is_alphanumeric : ℕ → Bool
is_alphanumeric c = leb b'a' c && leb c b'z' || leb b'A' c && leb c b'Z' || leb b'0' c && leb c b'9'

-- Exactly `n` letters and digits.
alphanumerics : ℕ → String → Bool
unfolding is_alphanumeric
alphanumerics zero String.[] = true
alphanumerics zero (String.◌∷◌ c s) = false
alphanumerics (suc n) String.[] = false
alphanumerics (suc n) (String.◌∷◌ c s) = is_alphanumeric (code c) && alphanumerics n s

-- /^[a-zA-Z0-9]{17}$/
unfoldable pub is_apify_id : String → Bool
unfolding alphanumerics
is_apify_id = alphanumerics 17

owner_of : String → ResourceOwnerReference
owner_of prefix =
    if prefix === "" then self else (if is_apify_id prefix then user_id prefix else username prefix)

named_reference : String × String → ResourceReference
unfolding owner_of
named_reference (prefix, name) = if name === "" then empty_name else named (owner_of prefix) name

-- `/` before `~`.
unfoldable pub parse_resource_reference : String → ResourceReference
unfolding split_first named_reference
parse_resource_reference maybe_id = elim (split_first b'/' maybe_id) [
  | some parts ↦ named_reference parts
  | none ↦ elim (split_first b'~' maybe_id) [
    | some parts ↦ named_reference parts
    | none ↦ id maybe_id
  ]
]

module _ (to_lower_case : String → String) where
  abbrev pub normalize_name : String → String
  normalize_name = to_lower_case

  unfoldable pub is_caller_owner : UserRecord → ResourceOwnerReference → Bool
  is_caller_owner user self = true
  is_caller_owner user (user_id u) = u === user.id
  is_caller_owner user (username n) = normalize_name n === normalize_name user.username
