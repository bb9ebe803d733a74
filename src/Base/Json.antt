-- ===== src/Base/Json.antt =====
-- A parsed JSON body, and the integers in it. A number that is not whole is kept as its text.
use Prim.Native.Nat.{ℕ}
use Prim.Native.String.{String}
use mathlib.Core.Bool.{Bool, true, false}
use mathlib.Core.Option.{Option, none, some}
use actor_runtime.Base.Tests.{ltb, ◌===◌, if◌then◌else◌}

-- `negsuc n` is -(n + 1).
pub data ℤ : Type 0 where
  pos : ℕ → ℤ
  negsuc : ℕ → ℤ

abbrev pub pos_part : ℤ → ℕ
pos_part (pos n) = n
pos_part (negsuc n) = 0

-- `z < n`
abbrev pub below : ℤ → ℕ → Bool
below (pos m) n = ltb m n
below (negsuc m) n = true

-- `y < z`
abbrev pub less : ℤ → ℤ → Bool
less y (pos n) = below y n
less (pos m) (negsuc n) = false
less (negsuc m) (negsuc n) = ltb n m

mutual
  pub data Json : Type 0 where
    null : Json
    boolean : Bool → Json
    integer : ℤ → Json
    fractional : String → Json
    string : String → Json
    array : Items → Json
    object : Fields → Json

  pub data Items : Type 0 where
    nil : Items
    cons : Json → Items → Items

  pub data Fields : Type 0 where
    end : Fields
    field : String → Json → Fields → Fields

-- `body[key]`: the last of several fields of one name is what `JSON.parse` keeps.
unfoldable pub get_field : String → Fields → Option Json
get_field key end = none
get_field key (field k v rest) = elim (get_field key rest) [
  | some w ↦ some w
  | none ↦ if k === key then some v else none
]
