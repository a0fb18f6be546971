-- ===== src/Core/Draft/Seats.antt =====
-- The seats that a deadline fills: autoDraftPick and resolveDraftTimeoutLocked of
-- runtime/core/battle_draft.go.
use gensoulkyo.Base.{
  ℕ, ◌≡◌, ◌≢◌, refl, sym, String, true, false, ◌||◌, Option, none, some, List, [], ◌∷◌, ◌==◌,
  eq_iff, Dict, lookup, lookup-insert_self, lookup-insert_ne, insert, contains, arith, Bool-cases,
  Option-cases, ◌⊎◌, inl, inr, ◌∙◌, ap,
}
use gensoulkyo.Core.Cards.{member_of}
use gensoulkyo.Core.Draft.{draft_card_taken, best_remaining, auto_draft_pick, auto_seat, fill_seat}
use gensoulkyo.Core.Draft.Auto.{best_remaining_lem}
use gensoulkyo.Core.DraftMatch.{Match, Round}

-- Every candidate of a round is somebody's pick.
unfoldable pub IsExhausted : Round → Type 0
IsExhausted r = (c : String) → member_of c r.candidates ≡ true → draft_card_taken r.picks c ≡ true

-- What a round becomes when seats are filled: the picks stay and the rest of it too.
pub record Filled (r r' : Round) : Type 0 where
  pub boss : r'.boss_id ≡ r.boss_id
  pub index : r'.round_index ≡ r.round_index
  pub first : r'.first_user ≡ r.first_user
  pub second : r'.second_user ≡ r.second_user
  pub candidates : r'.candidates ≡ r.candidates
  pub picked : (u c : String) → lookup u r.picks ≡ some c → lookup u r'.picks ≡ some c
  pub taken : (c : String) → draft_card_taken r.picks c ≡ true → draft_card_taken r'.picks c ≡ true

pub Filled-refl : (r : Round) → Filled r r
Filled-refl r = record {
  boss = refl;
  index = refl;
  first = refl;
  second = refl;
  candidates = refl;
  picked = λ u c h. h;
  taken = λ c h. h;
}

pub Filled-trans : (r r' r'' : Round) → Filled r r' → Filled r' r'' → Filled r r''
Filled-trans r r' r'' p q = record {
  boss = q.boss ∙ p.boss;
  index = q.index ∙ p.index;
  first = q.first ∙ p.first;
  second = q.second ∙ p.second;
  candidates = q.candidates ∙ p.candidates;
  picked = λ u c h. q.picked u c (p.picked u c h);
  taken = λ c h. q.taken c (p.taken c h);
}

pub granted-Filled : (r r' : Round) → Filled r r' → Filled r (record r' { granted = true })
granted-Filled r r' f = record {
  boss = f.boss;
  index = f.index;
  first = f.first;
  second = f.second;
  candidates = f.candidates;
  picked = f.picked;
  taken = f.taken;
}

-- A new pick takes no card back.
insert-taken :
    (picks : Dict String) (u c x : String)
    → lookup u picks ≡ none
    → draft_card_taken picks x ≡ true
    → draft_card_taken (insert u c picks) x ≡ true
unfolding draft_card_taken lookup insert
insert-taken [] u c x missing taken = ground arith
insert-taken ((k, y) ∷ picks) u c x missing taken =
    ground (arith, missing, taken, insert-taken picks u c x)

pick-Filled :
    (r : Round) (u c : String)
    → lookup u r.picks ≡ none
    → Filled r (record r { picks = insert u c r.picks })
pick-Filled r u c missing = record {
  boss = refl;
  index = refl;
  first = refl;
  second = refl;
  candidates = refl;
  picked = λ v d h. lookup-insert_ne u v c r.picks (λ (same : u ≡ v). cc (same, missing, h)) ∙ h;
  taken = λ x h. insert-taken r.picks u c x missing h;
}

-- A seat of a round after it was filled.
record Seated (r r' : Round) (u : String) : Type 0 where
  filled : Filled r r'
  seat : u ≢ "" → member_of "" r.candidates ≡ false → (contains u r'.picks ≡ true) ⊎ IsExhausted r'

fill-Seated :
    (m : Match) (r : Round) (u : String) (o : Option String)
    → lookup u r.picks ≡ none
    → (member_of "" r.candidates ≡ false → o ≡ none → IsExhausted r)
    → Seated r (fill_seat (m, r) u o).1 u
unfolding fill_seat
fill-Seated m r u none missing over = record {
  filled = Filled-refl r;
  seat = λ named real. inr (over real refl);
}
fill-Seated m r u (some card) missing over = record {
  filled = pick-Filled r u card missing;
  seat = λ named real. inl (ground (arith, lookup-insert_self u card r.picks));
}

-- What holds of a seat holds still when another is filled.
Filled-seat :
    (r r' : Round) (u : String)
    → Filled r r'
    → (contains u r.picks ≡ true) ⊎ IsExhausted r
    → (contains u r'.picks ≡ true) ⊎ IsExhausted r'
unfolding IsExhausted
Filled-seat r r' u f (inl picked) = elim (Option-cases (lookup u r.picks)) [
  | inl missing ↦ absurd (ground (arith, missing, picked))
  | inr (c, found) ↦ inl (ground (arith, f.picked u c found))
]
Filled-seat r r' u f (inr over) = inr (λ c among. f.taken c (over c (rw (sym f.candidates) among)))

module _ (sha256_hex : String → String) where
  -- Where no card remains, every one is taken.
  none_remains :
      (m : Match) (r : Round) (cards : List String) (scored : ℕ) (c : String)
      → best_remaining sha256_hex m r cards scored ≡ none
      → member_of c cards ≡ true
      → draft_card_taken r.picks c ≡ true
  unfolding best_remaining
  none_remains m r [] scored c empty among = absurd (ground (arith, among))
  none_remains m r (d ∷ cards) scored c empty among =
      elim (Bool-cases (draft_card_taken r.picks d)) [
        | inr free ↦ absurd (ground (arith, empty, free))
        | inl taken ↦
            ground (arith, empty, taken, among, eq_iff d c, none_remains m r cards scored c)
      ]

  auto_draft_pick-none :
      (m : Match) (r : Round)
      → member_of "" r.candidates ≡ false
      → auto_draft_pick sha256_hex m r ≡ none
      → IsExhausted r
  unfolding auto_draft_pick IsExhausted
  auto_draft_pick-none m r real unpicked c among =
      elim (Option-cases (best_remaining sha256_hex m r r.candidates 0)) [
        | inl over ↦ none_remains m r r.candidates 0 c over among
        | inr ((unit, card), best) ↦
            let blank : card ≡ "" = ground (arith, unpicked, best, eq_iff card "") in
            let (held, _) = best_remaining_lem sha256_hex m r r.candidates 0 (unit, card) best in
            absurd (cc (ap (λ x. member_of x r.candidates) blank, held, real))
      ]

  -- Filling a seat that has a name: it has a pick then, or no candidate was left for it.
  auto_seat-Seated :
      (m : Match) (r : Round) (u : String) → Seated r (auto_seat sha256_hex (m, r) u).1 u
  unfolding auto_seat
  auto_seat-Seated m r u = elim (Bool-cases (u == "" || contains u r.picks)) [
    | inl filled ↦ rw filled (record {
      filled = Filled-refl r;
      seat = λ named real. inl (ground (arith, filled, named, eq_iff u ""));
    })
    | inr empty ↦ rw empty (
        fill-Seated m r u (auto_draft_pick sha256_hex m r) (ground (arith, empty))
          (auto_draft_pick-none m r))
  ]

  -- Both seats, one after the other.
  pub both :
      (m : Match) (r : Round) (u : String)
      → (u ≡ r.first_user) ⊎ (u ≡ r.second_user)
      → u ≢ ""
      → member_of "" r.candidates ≡ false
      → let r' =
          (auto_seat sha256_hex (auto_seat sha256_hex (m, r) r.first_user) r.second_user).1 in
        Filled r r' × ((contains u r'.picks ≡ true) ⊎ IsExhausted r')
  both m r u seat named real =
      let one = auto_seat sha256_hex (m, r) r.first_user in
      let two = auto_seat sha256_hex one r.second_user in
      let p = auto_seat-Seated m r r.first_user in
      let q = auto_seat-Seated one.0 one.1 r.second_user in
      (
        Filled-trans r one.1 two.1 p.filled q.filled,
        elim seat [
          | inl same ↦
              Filled-seat one.1 two.1 u q.filled
                (rw same (p.seat (λ blank. named (same ∙ blank)) real))
          | inr same ↦
              rw same (q.seat (λ blank. named (same ∙ blank)) (rw p.filled.candidates real))
        ],
      )

  pub both-Filled :
      (m : Match) (r : Round)
      → Filled r (auto_seat sha256_hex (auto_seat sha256_hex (m, r) r.first_user) r.second_user).1
  both-Filled m r =
      let one = auto_seat sha256_hex (m, r) r.first_user in
      let two = auto_seat sha256_hex one r.second_user in
      Filled-trans r one.1 two.1 (auto_seat-Seated m r r.first_user).filled
        (auto_seat-Seated one.0 one.1 r.second_user).filled
