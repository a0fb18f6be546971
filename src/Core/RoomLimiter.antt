-- ===== src/Core/RoomLimiter.antt =====
-- The limit on room creation: runtime/core/room_creation_limiter.go. Time is a number of
-- nanoseconds, an argument of each call.
pub mod Exact
mod Tests
use gensoulkyo.Base.{
  ℕ, ◌≤◌, ◌<◌, ◌+◌, String, Bool, true, false, ◌||◌, Option, none, some, List, [], ◌∷◌, ◌++◌, ◌==◌,
  trim_space, Dict, lookup, insert, or_else, eqb, ltb, leb, if◌then◌else◌, length,
}
use gensoulkyo.Base.Window.{prune}

-- memoryRoomCreationLimiter; a window that is not positive is 0 here.
pub record Limiter : Type 0 where
  pub limit : ℕ
  pub window : ℕ
  pub hits : Dict (List ℕ)

-- NewMemoryRoomCreationLimiter; a limit that is not positive is 0 here.
unfoldable pub new_limiter : ℕ → ℕ → Limiter
new_limiter limit window = record {
  limit = if eqb limit 0 then 5 else limit;
  window = window;
  hits = [];
}

abbrev pub hits_of : Limiter → String → List ℕ
hits_of l user = or_else (lookup user l.hits) []

unfoldable pub allow_room_creation : Limiter → String → ℕ → Limiter × Bool
allow_room_creation l user_id now =
    let user = trim_space user_id in
    let kept = prune l.window now (hits_of l user) in
    if user == "" || eqb l.window 0
    then (l, true)
    else if leb l.limit (length kept)
    then (record l { hits = insert user kept l.hits }, false)
    else (record l { hits = insert user (kept ++ now ∷ []) l.hits }, true)

-- What a configured limiter answers: the interface may also fail.
pub data Answer : Type 0 where
  answer : Bool → Answer
  failed : Answer

-- checkRoomCreationLimitLocked: whether the request is refused as rate-limited, and how many
-- failures of the limiter are recorded. A missing limiter is none.
unfoldable pub check_room_creation_limit : Option Answer → ℕ → Bool × ℕ
check_room_creation_limit none failures = (false, failures)
check_room_creation_limit (some failed) failures = (false, failures + 1)
check_room_creation_limit (some (answer true)) failures = (false, failures)
check_room_creation_limit (some (answer false)) failures = (true, failures)
