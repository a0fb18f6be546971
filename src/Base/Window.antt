-- ===== src/Base/Window.antt =====
-- Sliding windows over time stamps: the filter that both rate limiters of the program run, and how
-- it relates to the whole history of stamps.
use gensoulkyo.Base.{
  ℕ, suc, ◌+◌, ◌≤◌, ◌≡◌, refl, Bool, List, [], ◌∷◌, ◌++◌, arith, ltb, if◌then◌else◌, length,
}

-- A stamp is inside the window at `now` while less than `window` has passed since it.
abbrev pub recent : ℕ → ℕ → ℕ → Bool
recent window now stamp = ltb now (stamp + window)

unfoldable pub prune : ℕ → ℕ → List ℕ → List ℕ
prune window now [] = []
prune window now (stamp ∷ rest) =
    let kept = prune window now rest in if recent window now stamp then stamp ∷ kept else kept

-- How many stamps are inside the window.
unfoldable pub in_window : ℕ → ℕ → List ℕ → ℕ
in_window window now [] = 0
in_window window now (stamp ∷ rest) =
    let others = in_window window now rest in if recent window now stamp then suc others else others

pub length-prune :
    (window now : ℕ) (stamps : List ℕ)
    → length (prune window now stamps) ≡ in_window window now stamps
unfolding prune in_window
length-prune window now [] = refl
length-prune window now (stamp ∷ rest) = ground (arith, length-prune window now rest)

-- What was dropped earlier is outside the window later.
pub in_window-prune :
    (window now later : ℕ) (stamps : List ℕ)
    → now ≤ later
    → in_window window later (prune window now stamps) ≡ in_window window later stamps
unfolding prune in_window
in_window-prune window now later [] h = refl
in_window-prune window now later (stamp ∷ rest) h =
    ground (arith, in_window-prune window now later rest h)

pub in_window-append :
    (window now : ℕ) (xs ys : List ℕ)
    → in_window window now (xs ++ ys) ≡ in_window window now xs + in_window window now ys
unfolding in_window
in_window-append window now [] ys = omega arith
in_window-append window now (x ∷ xs) ys = ground (arith, in_window-append window now xs ys)

pub in_window-le-length :
    (window now : ℕ) (stamps : List ℕ) → in_window window now stamps ≤ length stamps
unfolding in_window
in_window-le-length window now [] = omega arith
in_window-le-length window now (stamp ∷ rest) = ground (arith, in_window-le-length window now rest)
