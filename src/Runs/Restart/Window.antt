-- ===== src/Runs/Restart/Window.antt =====
-- How many times of a list fall in a window of one minute.
use actor_runtime.Base.{
  ℕ, ◌+◌, ◌-◌, ◌≤◌, ◌<◌, ◌≡◌, ◌&&◌, List, [], ◌∷◌, ◌++◌, arith, ltb, leb, length, keep,
  if◌then◌else◌,
}

-- The times in [start, start + 60000).
abbrev pub in_window : ℕ → List ℕ → ℕ
in_window start [] = 0
in_window start (t ∷ ts) =
    let rest = in_window start ts in if leb start t && ltb t (start + 60000) then rest + 1 else rest

pub in_window-append :
    (start : ℕ) (ts us : List ℕ)
    → in_window start (ts ++ us) ≡ in_window start ts + in_window start us
in_window-append start [] us = omega arith
in_window-append start (t ∷ ts) us = ground (arith, in_window-append start ts us)

-- A window that holds `now` counts no more than what is less than a minute before `now`.
pub in_window-le :
    (start now : ℕ) (ts : List ℕ)
    → start ≤ now
    → now < start + 60000
    → in_window start ts ≤ length (keep (λ time. ltb (now - time) 60000) ts)
in_window-le start now [] h k = omega arith
in_window-le start now (t ∷ ts) h k = ground (arith, in_window-le start now ts h k)

-- One more time keeps every window at three or fewer, when at most two are recent.
pub window_step :
    (start now : ℕ) (ts : List ℕ)
    → in_window start ts ≤ 3
    → length (keep (λ time. ltb (now - time) 60000) ts) < 3
    → in_window start (ts ++ now ∷ []) ≤ 3
window_step start now ts h k =
    ground (arith, in_window-append start ts (now ∷ []), in_window-le start now ts)
