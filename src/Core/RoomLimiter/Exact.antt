-- ===== src/Core/RoomLimiter/Exact.antt =====
-- The limiter of runtime/core/room_creation_limiter.go against the history of what it has granted.
use gensoulkyo.Base.{
  ℕ, ◌≤◌, ◌<◌, ◌≡◌, refl, ◌≢◌, String, Bool, true, false, ◌&&◌, List, [], ◌∷◌, ◌++◌, arith, ◌==◌,
  eq_iff, ltb, trim_space, lookup, insert, lookup-insert, if◌then◌else◌, length, length-append,
  append_assoc, append-nil, Bool-cases, inl, inr, ◌∙◌, sym,
}
use gensoulkyo.Base.Window.{
  prune, in_window, length-prune, in_window-prune, in_window-append, in_window-le-length,
}
use gensoulkyo.Core.RoomLimiter.{Limiter, new_limiter, hits_of, allow_room_creation}

pub run : Limiter → List (String × ℕ) → Limiter
run l [] = l
run l ((user_id, now) ∷ calls) = run (allow_room_creation l user_id now).0 calls

-- The times at which a user's room creations were granted, by trimmed name.
pub grants : String → Limiter → List (String × ℕ) → List ℕ
grants user l [] = []
grants user l ((user_id, now) ∷ calls) =
    let (l', granted) = allow_room_creation l user_id now in
    let rest = grants user l' calls in
    if granted && trim_space user_id == user then now ∷ rest else rest

-- The clock does not go back: no call is before `start`, or before the call ahead of it.
abbrev pub Ascending : ℕ → List (String × ℕ) → Type 0
Ascending start [] = Unit
Ascending start ((user_id, now) ∷ calls) = (start ≤ now) × Ascending now calls

-- The time of the last call.
abbrev pub last_time : ℕ → List (String × ℕ) → ℕ
last_time start [] = start
last_time start ((user_id, now) ∷ calls) = last_time now calls

-- The hits of a user are as many, in any later window, as the grants in `history`.
record Tracks (l : Limiter) (user : String) (start : ℕ) (history : List ℕ) : Type 0 where
  exact :
      (later : ℕ)
      → start ≤ later
      → in_window l.window later (hits_of l user) ≡ in_window l.window later history
  bounded : length (hits_of l user) ≤ l.limit

abbrev add_grant : Bool → ℕ → List ℕ → List ℕ
add_grant granted now history = if granted then history ++ now ∷ [] else history

hits_of-insert :
    (l : Limiter) (k j : String) (stamps : List ℕ)
    → hits_of (record l { hits = insert k stamps l.hits }) j
      ≡ (if k == j then stamps else hits_of l j)
hits_of-insert l k j stamps = elim (Bool-cases (k == j)) [
  | inl same ↦ rw (lookup-insert k j stamps l.hits, same)
  | inr other ↦ rw (lookup-insert k j stamps l.hits, other)
]

limit-allow :
    (l : Limiter) (user_id : String) (now : ℕ)
    → ((allow_room_creation l user_id now).0.limit ≡ l.limit)
      × ((allow_room_creation l user_id now).0.window ≡ l.window)
unfolding allow_room_creation
limit-allow l user_id now = ground arith

allow-Tracks :
    (l : Limiter) (user user_id : String) (start now : ℕ) (history : List ℕ)
    → user ≢ ""
    → 0 < l.window
    → start ≤ now
    → Tracks l user start history
    → let (l', granted) = allow_room_creation l user_id now in
      Tracks l' user now (add_grant (granted && trim_space user_id == user) now history)
unfolding allow_room_creation in_window
allow-Tracks l user user_id start now history named open_ h t =
    let who = trim_space user_id in
    let kept = prune l.window now (hits_of l who) in
    record {
      exact = λ later k. ground (
        arith,
        eq_iff who user,
        eq_iff who "",
        t.exact later,
        hits_of-insert l who user kept,
        hits_of-insert l who user (kept ++ now ∷ []),
        in_window-prune l.window now later (hits_of l who) k,
        in_window-append l.window later kept (now ∷ []),
        in_window-append l.window later history (now ∷ []),
      );
      bounded = ground (
        arith,
        eq_iff who user,
        eq_iff who "",
        hits_of-insert l who user kept,
        hits_of-insert l who user (kept ++ now ∷ []),
        length-prune l.window now (hits_of l who),
        in_window-le-length l.window now (hits_of l who),
        length-append kept (now ∷ []),
        t.bounded,
      );
    }

-- Appending the grants of a run to a history, call by call.
history_glue :
    (b : Bool) (now : ℕ) (history rest : List ℕ)
    → add_grant b now history ++ rest ≡ history ++ (if b then now ∷ rest else rest)
history_glue true now history rest = append_assoc history (now ∷ []) rest
history_glue false now history rest = refl

run-Tracks :
    (l : Limiter) (user : String) (start : ℕ) (calls : List (String × ℕ)) (history : List ℕ)
    → user ≢ ""
    → 0 < l.window
    → Ascending start calls
    → Tracks l user start history
    → Tracks (run l calls) user (last_time start calls) (history ++ grants user l calls)
unfolding run grants
run-Tracks l user start [] history named on asc t = rw (append-nil history) t
run-Tracks l user start ((user_id, now) ∷ calls) history named on asc t =
    let (l', granted) = allow_room_creation l user_id now in
    let own = granted && trim_space user_id == user in
    rw (sym (history_glue own now history (grants user l' calls))) (
      run-Tracks l' user now calls (add_grant own now history) named
        (rw (limit-allow l user_id now).1 on) asc.1
        (allow-Tracks l user user_id start now history named on asc.0 t))

run-settings :
    (l : Limiter) (calls : List (String × ℕ))
    → ((run l calls).limit ≡ l.limit) × ((run l calls).window ≡ l.window)
unfolding run
run-settings l [] = (refl, refl)
run-settings l ((user_id, now) ∷ calls) =
    let (same_limit, same_window) = limit-allow l user_id now in
    let ih = run-settings (allow_room_creation l user_id now).0 calls in
    (ih.0 ∙ same_limit, ih.1 ∙ same_window)

new-Tracks : (limit window : ℕ) (user : String) → Tracks (new_limiter limit window) user 0 []
unfolding new_limiter lookup
new-Tracks limit window user = record { exact = λ later h. refl; bounded = omega arith }

window-new : (limit window : ℕ) → (new_limiter limit window).window ≡ window
unfolding new_limiter
window-new limit window = refl

-- The decision of one call, by the stamps inside the window.
decision :
    (l : Limiter) (user_id : String) (now : ℕ)
    → trim_space user_id ≢ ""
    → 0 < l.window
    → (allow_room_creation l user_id now).1
      ≡ ltb (in_window l.window now (hits_of l (trim_space user_id))) l.limit
unfolding allow_room_creation
decision l user_id now named on = ground (
  arith,
  eq_iff (trim_space user_id) "",
  length-prune l.window now (hits_of l (trim_space user_id)),
)

-- On a clock that does not go back, a new limiter with a window grants a room creation to a user
-- with a name exactly when fewer than `limit` of the room creations that it has granted to this
-- user, by trimmed name, lie inside the window that ends at the call.
pub allow_exact :
    (limit window : ℕ) (calls : List (String × ℕ)) (user_id : String) (now : ℕ)
    → 0 < window
    → trim_space user_id ≢ ""
    → Ascending 0 calls
    → last_time 0 calls ≤ now
    → let l = new_limiter limit window in
      (allow_room_creation (run l calls) user_id now).1
      ≡ ltb (in_window window now (grants (trim_space user_id) l calls)) l.limit
allow_exact limit window calls user_id now on named asc late =
    let l = new_limiter limit window in
    let who = trim_space user_id in
    let (same_limit, same_window) = run-settings l calls in
    let size = window-new limit window in
    let t = run-Tracks l who 0 calls [] named (rw size on) asc (new-Tracks limit window who) in
    let same = rw (same_window, size) at (t.exact now late) in
    decision (run l calls) user_id now named (rw (same_window, size) on)
    ∙ rw (same_limit, same_window, size, same)

-- On a clock that does not go back, at no time after the calls does the window hold more than
-- `limit` room creations that a new limiter has granted to one user.
pub grants_bounded :
    (limit window : ℕ) (calls : List (String × ℕ)) (user : String) (now : ℕ)
    → 0 < window
    → user ≢ ""
    → Ascending 0 calls
    → last_time 0 calls ≤ now
    → let l = new_limiter limit window in in_window window now (grants user l calls) ≤ l.limit
unfolding in_window new_limiter
grants_bounded limit window calls user now on named asc late =
    let l = new_limiter limit window in
    let (same_limit, same_window) = run-settings l calls in
    let size = window-new limit window in
    let t = run-Tracks l user 0 calls [] named (rw size on) asc (new-Tracks limit window user) in
    let same = rw (same_window, size) at (t.exact now late) in
    omega (
      arith,
      same,
      same_limit,
      t.bounded,
      in_window-le-length window now (hits_of (run l calls) user),
    )
