-- ===== src/Core/RoomLimiter/Tests.antt =====
-- The theorems on the room-creation limit (runtime/core/room_creation_limiter.go) at concrete calls.
use gensoulkyo.Base.{ℕ, String, List, [], ◌∷◌, ◌≡◌, refl, arith, ltb, differ, trim_space}
use gensoulkyo.Base.Window.{in_window}
use gensoulkyo.Core.RoomLimiter.{new_limiter, allow_room_creation}
use gensoulkyo.Core.RoomLimiter.Exact.{run, grants, allow_exact}

-- A third call within the window of 100 is refused; a later one is not.
abbrev calls : List (String × ℕ)
calls = ("ann", 10) ∷ (" ann", 20) ∷ ("ann", 30) ∷ ("bob", 40) ∷ ("ann", 115) ∷ []

allow_exact_example :
    (allow_room_creation (run (new_limiter 2 100) calls) "ann" 125).1
    ≡ ltb (in_window 100 125 (grants "ann" (new_limiter 2 100) calls)) (new_limiter 2 100).limit
unfolding trim_space
allow_exact_example =
    allow_exact 2 100 calls "ann" 125 (omega arith) (differ refl)
      (omega arith, (omega arith, (omega arith, (omega arith, (omega arith, tt))))) (omega arith)
