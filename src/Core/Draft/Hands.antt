-- ===== src/Core/Draft/Hands.antt =====
-- Cards that wait for a free slot of a hand: promotePendingGrants of runtime/core/battle_draft.go.
use gensoulkyo.Base.{
  ◌≤◌, ◌≡◌, refl, String, List, [], ◌∷◌, ◌++◌, append_assoc, ltb, length, length-append, arith,
  Bool-cases, ◌⊎◌, inl, inr, ◌∙◌,
}
use gensoulkyo.Core.DraftMatch.{Player, promote, promote_pending_grants}

promote_lem :
    (hand pending : List String)
    → length hand ≤ 4
    → let (h, p) = promote hand pending in
      (h ++ p ≡ hand ++ pending) × (length h ≤ 4) × ((p ≡ []) ⊎ (length h ≡ 4))
unfolding promote
promote_lem hand [] fits = (refl, fits, inl refl)
promote_lem hand (c ∷ cs) fits = elim (Bool-cases (ltb (length hand) 4)) [
  | inr full ↦ rw full (refl, fits, inr (ground (arith, full)))
  | inl room ↦
      let (same, small, done) =
        promote_lem (hand ++ c ∷ []) cs (ground (arith, room, length-append hand (c ∷ []))) in
      rw room (same ∙ append_assoc hand (c ∷ []) cs, small, done)
]

-- Promotion keeps the order and the number of a player's cards, held and waiting, never holds more
-- than four, and leaves a card waiting only where the hand is full.
pub promote_keeps :
    (p : Player)
    → length p.hand ≤ 4
    → let q = promote_pending_grants p in
      (q.hand ++ q.pending_grants ≡ p.hand ++ p.pending_grants)
      × (length q.hand ≤ 4)
      × ((q.pending_grants ≡ []) ⊎ (length q.hand ≡ 4))
unfolding promote_pending_grants
promote_keeps p fits = promote_lem p.hand p.pending_grants fits
