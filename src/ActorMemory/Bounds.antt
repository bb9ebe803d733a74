-- ===== src/ActorMemory/Bounds.antt =====
-- The bounds of `.actor/actor.json` on a run's memory (src/services/actor-memory.ts).
use actor_runtime.Base.{ℕ, ◌≤◌, ◌<◌, ◌≡◌, Option, none, some, arith, ltb, if◌then◌else◌}
use actor_runtime.Entities.Build.{ActorMemorySettings, MemoryDefault}
use actor_runtime.ActorMemory.{
  RunMemoryContext, clamp_memory, default_of, min_of, max_of, unclamped_memory, resolve_run_memory,
}

-- At least the lower bound, where there is one.
abbrev pub AtLeast : Option ℕ → ℕ → Type 0
AtLeast none m = Unit
AtLeast (some lo) m = lo ≤ m

-- At most the upper bound, where there is one.
abbrev pub AtMost : Option ℕ → ℕ → Type 0
AtMost none m = Unit
AtMost (some hi) m = m ≤ hi

-- The bounds do not contradict each other.
abbrev pub Consistent : Option ℕ → Option ℕ → Type 0
Consistent none hi = Unit
Consistent (some lo) none = Unit
Consistent (some lo) (some hi) = lo ≤ hi

clamp_memory_bounds :
    (lo hi : Option ℕ) (m : ℕ)
    → Consistent lo hi
    → AtLeast lo (clamp_memory lo hi m) × AtMost hi (clamp_memory lo hi m)
unfolding clamp_memory
clamp_memory_bounds none none m h = (tt, tt)
clamp_memory_bounds none (some hi) m h = (tt, ground arith)
clamp_memory_bounds (some lo) none m h = (ground arith, tt)
clamp_memory_bounds (some lo) (some hi) m h = (ground arith, ground arith)

clamp_memory_contradiction :
    (lo hi m : ℕ) → hi < lo → clamp_memory (some lo) (some hi) m ≡ (if ltb m lo then lo else hi)
unfolding clamp_memory
clamp_memory_contradiction lo hi m h = ground arith

-- A value that already keeps both bounds is left alone.
clamp_memory_id : (lo hi : Option ℕ) (m : ℕ) → AtLeast lo m → AtMost hi m → clamp_memory lo hi m ≡ m
unfolding clamp_memory
clamp_memory_id none none m h k = ground arith
clamp_memory_id none (some hi) m h k = ground arith
clamp_memory_id (some lo) none m h k = ground arith
clamp_memory_id (some lo) (some hi) m h k = ground arith

module _ {Input : Type 0} (evaluate : MemoryDefault → RunMemoryContext Input → Option ℕ) where
  takes_requested :
      (d : Option MemoryDefault) (c : RunMemoryContext Input) (m : ℕ)
      → c.requested_memory_mbytes ≡ some m
      → (unclamped_memory evaluate d c).0 ≡ m
  unfolding unclamped_memory
  takes_requested none c m e = rw e
  takes_requested (some x) c m e = rw e

  -- Whatever the caller asks for and the Actor's expression gives, the run's memory keeps the Actor's
  -- bounds if these do not contradict each other.
  pub resolve_run_memory_bounds :
      (settings : Option ActorMemorySettings) (c : RunMemoryContext Input)
      → Consistent (min_of settings) (max_of settings)
      → AtLeast (min_of settings) (resolve_run_memory evaluate settings c).memory_mbytes
        × AtMost (max_of settings) (resolve_run_memory evaluate settings c).memory_mbytes
  unfolding resolve_run_memory
  resolve_run_memory_bounds settings c consistent =
      clamp_memory_bounds (min_of settings) (max_of settings)
        (unclamped_memory evaluate (default_of settings) c).0 consistent

  -- A requested memory within the bounds is given unchanged.
  pub resolve_run_memory_requested :
      (settings : Option ActorMemorySettings) (c : RunMemoryContext Input) (m : ℕ)
      → c.requested_memory_mbytes ≡ some m
      → AtLeast (min_of settings) m
      → AtMost (max_of settings) m
      → (resolve_run_memory evaluate settings c).memory_mbytes ≡ m
  unfolding resolve_run_memory
  resolve_run_memory_requested settings c m e h k =
      rw (takes_requested (default_of settings) c m e)
        (clamp_memory_id (min_of settings) (max_of settings) m h k)

  -- Where the bounds contradict each other, a requested memory below the lower bound is raised to it, and
  -- any other is lowered to the upper one, which is below the lower.
  pub resolve_run_memory_contradiction :
      (s : ActorMemorySettings) (c : RunMemoryContext Input) (lo hi m : ℕ)
      → s.min_memory_mbytes ≡ some lo
      → s.max_memory_mbytes ≡ some hi
      → hi < lo
      → c.requested_memory_mbytes ≡ some m
      → (resolve_run_memory evaluate (some s) c).memory_mbytes ≡ (if ltb m lo then lo else hi)
  unfolding resolve_run_memory
  resolve_run_memory_contradiction s c lo hi m el eh h e =
      rw (takes_requested s.default_memory_mbytes c m e, el, eh)
        (clamp_memory_contradiction lo hi m h)
