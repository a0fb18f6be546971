-- ===== src/Core/Draft/Auto.antt =====
-- The picks that a timeout makes: autoDraftPick and resolveDraftTimeoutLocked of
-- runtime/core/battle_draft.go.
use gensoulkyo.Base.{
  ℕ, ◌+◌, ◌≡◌, ◌≢◌, refl, String, Bool, true, false, ◌||◌, Option, none, some, List, [], ◌∷◌, ◌==◌,
  eq_iff, Dict, lookup, contains, if◌then◌else◌, arith, Bool-cases, Option-cases, ◌⊎◌, inl, inr,
  eq_refl, subst,
}
use gensoulkyo.Core.Cards.{member_of}
use gensoulkyo.Core.Chance.{deterministic_unit}
use gensoulkyo.Core.Draft.{
  scored_before, draft_card_taken, best_of, best_remaining, auto_draft_pick, fill_seat, auto_seat,
}
use gensoulkyo.Core.DraftMatch.{Match, Round}
use gensoulkyo.Core.Draft.Picks.{IsRound, insert-IsRound}

-- A card that is not taken is nobody's pick.
taken_lem :
    (picks : Dict String) (u c : String)
    → draft_card_taken picks c ≡ false
    → lookup u picks ≢ some c
unfolding draft_card_taken lookup
taken_lem [] u c free = ground arith
taken_lem ((k, x) ∷ picks) u c free = ground (arith, free, eq_iff x c, taken_lem picks u c)

either-P :
    (P : String → Type 0) (b : Bool) (x y : ℕ × String) → P x.1 → P y.1 → P (if b then x else y).1
either-P P true x y p q = p
either-P P false x y p q = q

-- The best of scored cards is one of them.
best_lem :
    (P : String → Type 0) (o : Option (ℕ × String)) (x : ℕ × String)
    → P x.1
    → ((y : ℕ × String) → o ≡ some y → P y.1)
    → P (best_of o x).1
best_lem P none x p q = p
best_lem P (some y) x p q = either-P P (scored_before x y) x y p (q y refl)

module _ (sha256_hex : String → String) (m : Match) (r : Round) where
  pub best_remaining_lem :
      (cards : List String) (scored : ℕ) (best : ℕ × String)
      → best_remaining sha256_hex m r cards scored ≡ some best
      → (member_of best.1 cards ≡ true) × (draft_card_taken r.picks best.1 ≡ false)
  unfolding best_remaining
  best_remaining_lem [] scored best found = absurd (ground (arith, found))
  best_remaining_lem (c ∷ cards) scored best found =
      let unit =
        deterministic_unit sha256_hex m.server_seed r.choice_deadline_tick "draft_auto" scored in
      let later = best_remaining sha256_hex m r cards (scored + 1) in
      elim (Bool-cases (draft_card_taken r.picks c)) [
        | inl taken ↦
            let (among, free) =
              best_remaining_lem cards scored best (ground (arith, found, taken)) in
            (ground (arith, among), free)
        | inr free ↦
            let same : best_of later (unit, c) ≡ best = ground (arith, found, free) in
            let here : member_of c (c ∷ cards) ≡ true = ground (arith, eq_refl c) in
            subst (λ b. (member_of b.1 (c ∷ cards) ≡ true) × (draft_card_taken r.picks b.1 ≡ false))
              same
              (best_lem
                (λ x. (member_of x (c ∷ cards) ≡ true) × (draft_card_taken r.picks x ≡ false)) later
                (unit, c) (here, free)
                (λ y at.
                  let (among, open_card) = best_remaining_lem cards (scored + 1) y at in
                  (ground (arith, among), open_card)))
      ]

  auto_draft_pick_lem :
      (c : String)
      → auto_draft_pick sha256_hex m r ≡ some c
      → (member_of c r.candidates ≡ true) × (draft_card_taken r.picks c ≡ false)
  unfolding auto_draft_pick
  auto_draft_pick_lem c found = elim (Option-cases (best_remaining sha256_hex m r r.candidates 0)) [
    | inl missing ↦ absurd (ground (arith, found, missing))
    | inr ((unit, card), best) ↦
        let same : card ≡ c = ground (arith, found, best) in
        subst (λ x. (member_of x r.candidates ≡ true) × (draft_card_taken r.picks x ≡ false)) same
          (best_remaining_lem r.candidates 0 (unit, card) best)
  ]

-- The seats and the candidates of a round, which a timeout does not move.
pub record SameSeats (r r' : Round) : Type 0 where
  pub first : r'.first_user ≡ r.first_user
  pub second : r'.second_user ≡ r.second_user
  pub candidates : r'.candidates ≡ r.candidates

fill-IsRound :
    (m : Match) (r : Round) (user_id : String) (o : Option String)
    → IsRound r
    → (user_id ≡ r.first_user) ⊎ ((user_id ≡ r.second_user) × (user_id ≢ ""))
    → ((c : String)
        → o ≡ some c
        → (member_of c r.candidates ≡ true) × (draft_card_taken r.picks c ≡ false))
    → let r' = (fill_seat (m, r) user_id o).1 in IsRound r' × SameSeats r r'
unfolding fill_seat
fill-IsRound m r user_id none inv seat free =
    (inv, record { first = refl; second = refl; candidates = refl })
fill-IsRound m r user_id (some c) inv seat free =
    let (among, open_card) = free c refl in
    (
      insert-IsRound r user_id c inv seat among (λ u other. taken_lem r.picks u c open_card),
      record { first = refl; second = refl; candidates = refl },
    )

-- The pick that a timeout makes for a seat leaves a right round right.
pub auto_seat-IsRound :
    (sha256_hex : String → String) (m : Match) (r : Round) (user_id : String)
    → IsRound r
    → (user_id ≡ r.first_user) ⊎ (user_id ≡ r.second_user)
    → let r' = (auto_seat sha256_hex (m, r) user_id).1 in IsRound r' × SameSeats r r'
unfolding auto_seat
auto_seat-IsRound sha256_hex m r user_id inv seat =
    elim (Bool-cases (user_id == "" || contains user_id r.picks)) [
      | inl filled ↦ rw filled (inv, record { first = refl; second = refl; candidates = refl })
      | inr empty ↦ rw empty (
          fill-IsRound m r user_id (auto_draft_pick sha256_hex m r) inv
            (ground (arith, seat, empty, eq_iff user_id "")) (auto_draft_pick_lem sha256_hex m r))
    ]
