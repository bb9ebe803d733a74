-- ===== src/ActorMemory.antt =====
-- `resolveRunMemory` of src/services/actor-memory.ts: the memory a run gets. `calculateRunDynamicMemory`
-- of `@apify/actor-memory-expression` is not the repository's code: it is the parameter `evaluate`,
-- which gives `none` where the call, or the parse of the input before it, throws.
pub mod Bounds
use actor_runtime.Base.{
  ℕ, String, ◌≡◌, Bool, true, false, not, ◌&&◌, Option, none, some, List, [], ◌∷◌, ◌++◌, ltb, ◌==◌,
  or_else, if◌then◌else◌,
}
use actor_runtime.Entities.Build.{ActorMemorySettings, MemoryDefault}

-- The lines that the function logs.
pub data MemoryLine : Type 0 where
  could_not_evaluate : ℕ → MemoryLine
  adjusted_by_min : ℕ → ℕ → MemoryLine
  adjusted_by_max : ℕ → ℕ → MemoryLine

pub record RunMemory : Type 0 where
  pub memory_mbytes : ℕ
  pub log_lines : List MemoryLine

pub record RunMemoryContext (Input : Type 0) : Type 0 where
  pub requested_memory_mbytes : Option ℕ
  pub fallback_memory_mbytes : ℕ
  pub input : Input

abbrev pub default_of : Option ActorMemorySettings → Option MemoryDefault
default_of none = none
default_of (some s) = s.default_memory_mbytes

abbrev pub min_of : Option ActorMemorySettings → Option ℕ
min_of none = none
min_of (some s) = s.min_memory_mbytes

abbrev pub max_of : Option ActorMemorySettings → Option ℕ
max_of none = none
max_of (some s) = s.max_memory_mbytes

-- The two tests of the clamp, the lower bound's first.
unfoldable pub clamp_memory : Option ℕ → Option ℕ → ℕ → ℕ
clamp_memory none none m = m
clamp_memory none (some hi) m = if ltb hi m then hi else m
clamp_memory (some lo) none m = if ltb m lo then lo else m
clamp_memory (some lo) (some hi) m = if ltb m lo then lo else (if ltb hi m then hi else m)

abbrev pub equals_option : ℕ → Option ℕ → Bool
equals_option m none = false
equals_option m (some n) = m == n

abbrev pub adjustment : Option ℕ → ℕ → ℕ → List MemoryLine
adjustment min_memory unclamped m =
    if m == unclamped
    then []
    else (if equals_option m min_memory
        then adjusted_by_min unclamped m ∷ []
        else adjusted_by_max unclamped m ∷ [])

module _ {Input : Type 0} (evaluate : MemoryDefault → RunMemoryContext Input → Option ℕ) where
  -- What the caller asked for, or else the Actor's default expression, or else the fallback.
  unfoldable pub unclamped_memory :
      Option MemoryDefault → RunMemoryContext Input → ℕ × List MemoryLine
  unclamped_memory none c = (or_else c.requested_memory_mbytes c.fallback_memory_mbytes, [])
  unclamped_memory (some e) c = elim c.requested_memory_mbytes [
    | some m ↦ (m, [])
    | none ↦ elim (evaluate e c) [
      | some m ↦ (m, [])
      | none ↦ (c.fallback_memory_mbytes, could_not_evaluate c.fallback_memory_mbytes ∷ [])
    ]
  ]

  unfoldable pub resolve_run_memory :
      Option ActorMemorySettings → RunMemoryContext Input → RunMemory
  resolve_run_memory settings c =
      let (unclamped, lines) = unclamped_memory (default_of settings) c in
      let m = clamp_memory (min_of settings) (max_of settings) unclamped in
      record { memory_mbytes = m; log_lines = lines ++ adjustment (min_of settings) unclamped m }
