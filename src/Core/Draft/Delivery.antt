-- ===== src/Core/Draft/Delivery.antt =====
-- What a grant gives the players: grantDraftLocked and grantCardToPlayer of runtime/core/battle_draft.go.
use gensoulkyo.Base.{
  ℕ, ◌≡◌, ◌≢◌, refl, sym, String, true, false, some, List, [], ◌∷◌, ◌++◌, ◌==◌, eq_iff, eq_refl,
  lookup, lookup-insert, lookup-insert_self, insert, ltb, length, arith, Bool-cases, Option-cases,
  ◌⊎◌, inl, inr, ◌∙◌,
}
use gensoulkyo.Core.Cards.{member_of}
use gensoulkyo.Core.Draft.{grant_pick, grant_seat, grant_named, grant_draft}
use gensoulkyo.Core.DraftMatch.{Match, Round, Player, append_match_event, grant_card_to_player}

-- A card is in the hand or waits for a place there.
pub Owns : Player → String → Type 0
Owns p c = (member_of c p.hand ≡ true) ⊎ (member_of c p.pending_grants ≡ true)

pub HasCard : Match → String → String → Type 0
HasCard m u c = (p : Player) × (lookup u m.players ≡ some p) × Owns p c

member_last : (c : String) (cards : List String) → member_of c (cards ++ c ∷ []) ≡ true
member_last c [] = ground (arith, eq_refl c)
member_last c (d ∷ cards) = ground (arith, member_last c cards)

member_first :
    (c d : String) (cards : List String)
    → member_of c cards ≡ true
    → member_of c (cards ++ d ∷ []) ≡ true
member_first c d [] among = absurd (ground (arith, among))
member_first c d (e ∷ cards) among = ground (arith, among, member_first c d cards)

given-Owns : (p : Player) (c : String) → c ≢ "" → Owns (grant_card_to_player p c).0 c
unfolding Owns grant_card_to_player
given-Owns p c real = elim (Bool-cases (ltb (length p.hand) 4)) [
  | inl room ↦ inl (ground (arith, room, real, eq_iff c "", member_last c p.hand))
  | inr full ↦ inr (ground (arith, full, real, eq_iff c "", member_last c p.pending_grants))
]

kept-Owns : (p : Player) (c d : String) → Owns p c → Owns (grant_card_to_player p d).0 c
unfolding Owns grant_card_to_player
kept-Owns p c d (inl held) = inl (ground (arith, held, member_first c d p.hand))
kept-Owns p c d (inr waits) = inr (ground (arith, waits, member_first c d p.pending_grants))

grant_pick-players :
    (m : Match) (tick : ℕ) (u c : String) (p : Player)
    → (grant_pick m tick u c (some p)).players ≡ insert u (grant_card_to_player p c).0 m.players
unfolding grant_pick append_match_event
grant_pick-players m tick u c p = ground arith

-- The player of a user in a match is one of which `P` holds.
abbrev Has : (Player → Type 0) → Match → String → Type 0
Has P m u = (p : Player) × (lookup u m.players ≡ some p) × P p

-- What a player keeps when cards are given, it keeps through the grant to a seat.
grant_named-kept :
    (P : Player → Type 0) (m : Match) (r : Round) (tick : ℕ) (v u : String)
    → ((p : Player) (d : String) → P p → P (grant_card_to_player p d).0)
    → Has P m u
    → Has P (grant_named m r tick v) u
unfolding grant_named grant_seat grant_pick
grant_named-kept P m r tick v u keeps (p, found, owns) = elim (Bool-cases (v == "")) [
  | inl blank ↦ rw blank (p, found, owns)
  | inr named ↦ elim (Option-cases (lookup v r.picks)) [
    | inl missing ↦ rw (named, missing) (p, found, owns)
    | inr (d, picked) ↦ elim (Option-cases (lookup v m.players)) [
      | inl absent ↦ rw (named, picked, absent) (p, found, owns)
      | inr (q, there) ↦
          let q' = (grant_card_to_player q d).0 in
          elim (Bool-cases (v == u)) [
            | inl same ↦
                let alike : q ≡ p = ground (arith, same, eq_iff v u, found, there) in
                rw (named, picked, there, grant_pick-players m tick v d q)
                  (q', lookup-insert v u q' m.players ∙ rw same refl, keeps q d (rw alike owns))
            | inr other ↦
                rw (named, picked, there, grant_pick-players m tick v d q)
                  (p, lookup-insert v u q' m.players ∙ rw other found, owns)
          ]
    ]
  ]
]

grant_named-given :
    (m : Match) (r : Round) (tick : ℕ) (u c : String) (p : Player)
    → u ≢ ""
    → lookup u r.picks ≡ some c
    → c ≢ ""
    → lookup u m.players ≡ some p
    → Has (λ q. Owns q c) (grant_named m r tick u) u
unfolding grant_named grant_seat
grant_named-given m r tick u c p named picked real there =
    let written : (u == "") ≡ false = ground (arith, named, eq_iff u "") in
    rw (written, picked, there, grant_pick-players m tick u c p)
      (
        (grant_card_to_player p c).0,
        lookup-insert_self u (grant_card_to_player p c).0 m.players,
        given-Owns p c real,
      )

-- A seat's pick is in the hand of its player after the grant, or waits for a place there.
pub grant_draft-HasCard :
    (m : Match) (r : Round) (tick : ℕ) (u c : String) (p : Player)
    → (u ≡ r.first_user) ⊎ (u ≡ r.second_user)
    → u ≢ ""
    → lookup u r.picks ≡ some c
    → c ≢ ""
    → lookup u m.players ≡ some p
    → HasCard (grant_draft m r tick) u c
unfolding grant_draft HasCard grant_named
grant_draft-HasCard m r tick u c p seat named picked real there = elim seat [
  | inl same ↦
      grant_named-kept (λ q. Owns q c) (grant_named m r tick r.first_user) r tick r.second_user u
        (λ q d owns. kept-Owns q c d owns)
        (rw (sym same) (grant_named-given m r tick u c p named picked real there))
  | inr same ↦
      let (q, still, _) =
        grant_named-kept (λ q. Unit {0}) m r tick r.first_user u (λ q d e. tt) (p, there, tt) in
      rw (sym same)
        (grant_named-given (grant_named m r tick r.first_user) r tick u c q named picked real still)
]
