-- ===== src/Core/Draft/Picks.antt =====
-- The invariant of a round of runtime/core/battle_draft.go and the picks that keep it.
use gensoulkyo.Base.{
  ◌≡◌, ◌≢◌, refl, String, true, not, ◌&&◌, Option, none, some, [], ◌∷◌, ◌==◌, eq_iff, Dict, lookup,
  insert, lookup-insert, eqb, length, arith, Bool-cases, ◌⊎◌, inl, inr, eq_refl, subst,
}
use gensoulkyo.Core.Cards.{member_of}
use gensoulkyo.Core.DraftPicks.{
  Picked, ok, err, PickPayload, second_role, pick_role, pick_as, pick_card_id, pick_in,
  draft_pick_card_id, apply_mixed_pool_draft_pick,
}
use gensoulkyo.Core.DraftMatch.{Match, Round, Event, Role}

-- A round whose picks are of its seats, each a candidate, no card twice, and whose seats are of two
-- users.
pub record IsRound (r : Round) : Type 0 where
  pub named : r.first_user ≢ ""
  pub apart : r.first_user ≢ r.second_user
  pub seated :
      (u c : String)
      → lookup u r.picks ≡ some c
      → ((u ≡ r.first_user) ⊎ ((u ≡ r.second_user) × (u ≢ ""))) × (member_of c r.candidates ≡ true)
  pub distinct : (u v c : String) → lookup u r.picks ≡ some c → lookup v r.picks ≡ some c → u ≡ v

-- The open or last round of a match, if any, is right.
unfoldable pub IsDraft : Match → Type 0
IsDraft m = (r : Round) → m.draft ≡ some r → IsRound r

-- A card that nobody has picked, put under a seat.
module _ (r : Round) (user_id card_id : String) (inv : IsRound r)
    (seat : (user_id ≡ r.first_user) ⊎ ((user_id ≡ r.second_user) × (user_id ≢ "")))
    (candidate : member_of card_id r.candidates ≡ true)
    (free : (u : String) → u ≢ user_id → lookup u r.picks ≢ some card_id) where
  pub insert-IsRound : IsRound (record r { picks = insert user_id card_id r.picks })
  insert-IsRound = record {
    named = inv.named;
    apart = inv.apart;
    seated = λ u c found. elim (Bool-cases (user_id == u)) [
      | inl mine ↦
          let same : user_id ≡ u = (eq_iff user_id u).0 mine in
          let card : card_id ≡ c = ground (arith, lookup-insert user_id u card_id r.picks) in
          rw (← same, ← card) (seat, candidate)
      | inr other ↦ inv.seated u c (ground (arith, lookup-insert user_id u card_id r.picks))
    ];
    distinct = λ u v c at_u at_v.
        let fu = lookup-insert user_id u card_id r.picks in
        let fv = lookup-insert user_id v card_id r.picks in
        ground
          (arith, fu, fv, eq_iff user_id u, eq_iff user_id v, free u, free v, inv.distinct u v c);
  }

-- A map of one entry has no second key.
single :
    (picks : Dict String) (u v c d : String)
    → length picks ≡ 1
    → lookup u picks ≡ some c
    → lookup v picks ≡ some d
    → u ≡ v
unfolding lookup
single [] u v c d one at_u at_v = absurd (omega (arith, one))
single ((k, x) ∷ []) u v c d one at_u at_v = ground (arith, eq_iff k u, eq_iff k v, at_u, at_v)
single (e ∷ f ∷ more) u v c d one at_u at_v = absurd (omega (arith, one))

none-found : (picks : Dict String) (u c : String) → length picks ≡ 0 → lookup u picks ≢ some c
unfolding lookup
none-found [] u c empty = ground arith
none-found (e ∷ more) u c empty = absurd (omega (arith, empty))

taken-refused : (c : String) (role : Role) → second_role (some c) c ≢ ok role
taken-refused c role = ground (arith, eq_refl c)

-- What a role says of the user and of the cards that others have.
role_lem :
    (r : Round) (user_id card_id : String) (role : Role)
    → IsRound r
    → pick_role r user_id card_id ≡ ok role
    → ((user_id ≡ r.first_user) ⊎ ((user_id ≡ r.second_user) × (user_id ≢ "")))
      × ((u : String) → u ≢ user_id → lookup u r.picks ≢ some card_id)
unfolding pick_role
role_lem r user_id card_id role inv given =
    elim (Bool-cases (user_id == r.first_user && eqb (length r.picks) 0)) [
      | inl is_first ↦ (
        inl (ground (arith, is_first, eq_iff user_id r.first_user)),
        λ u other. none-found r.picks u card_id (ground (arith, is_first)),
      )
      | inr not_first ↦
          let is_second : (not (r.second_user == "")
                && user_id == r.second_user
                && eqb (length r.picks) 1)
              ≡ true =
            ground (arith, given, not_first) in
          let chosen : second_role (lookup r.first_user r.picks) card_id ≡ ok role =
            ground (arith, given, not_first, is_second) in
          (
            inr (ground (arith, is_second, eq_iff user_id r.second_user, eq_iff r.second_user "")),
            λ u other at_u.
                let here = (inv.seated u card_id at_u).0 in
                elim here [
                  | inr (at_second, _) ↦
                      ground (arith, at_second, other, is_second, eq_iff user_id r.second_user)
                  | inl at_first ↦
                      let taken : lookup r.first_user r.picks ≡ some card_id =
                        rw (← at_first) at_u in
                      taken-refused card_id role (rw taken at (chosen))
                ],
          )
    ]

pick_as-IsRound :
    (m : Match) (r : Round) (user_id card_id : String) (o : Picked Role) (m' : Match) (e : Event)
    (r' : Round)
    → IsRound r
    → pick_role r user_id card_id ≡ o
    → pick_as m r user_id card_id o ≡ ok (m', e)
    → m'.draft ≡ some r'
    → IsRound r'
unfolding pick_as
pick_as-IsRound m r user_id card_id (err x) m' e r' inv seat_role given here =
    absurd (ground (arith, given))
pick_as-IsRound m r user_id card_id (ok role) m' e r' inv seat_role given here =
    let (seat, free) = role_lem r user_id card_id role inv seat_role in
    elim (Bool-cases (member_of card_id r.candidates)) [
      | inr other ↦ absurd (ground (arith, given, other))
      | inl candidate ↦
          let now : record r { picks = insert user_id card_id r.picks } ≡ r' =
            ground (arith, given, candidate, here) in
          subst IsRound now (insert-IsRound r user_id card_id inv seat candidate free)
    ]

card-IsDraft :
    (m : Match) (r : Round) (user_id : String) (o : Picked String) (m' : Match) (e : Event)
    → IsRound r
    → pick_card_id m r user_id o ≡ ok (m', e)
    → (r' : Round) → m'.draft ≡ some r'
    → IsRound r'
unfolding pick_card_id
card-IsDraft m r user_id (err x) m' e inv given r' here = absurd (ground (arith, given))
card-IsDraft m r user_id (ok card_id) m' e inv given r' here =
    pick_as-IsRound m r user_id card_id (pick_role r user_id card_id) m' e r' inv refl given here

pick_in-IsDraft :
    (m : Match) (o : Option Round) (user_id : String) (payload : PickPayload) (m' : Match)
    (e : Event)
    → ((r : Round) → o ≡ some r → IsRound r)
    → pick_in m o user_id payload ≡ ok (m', e)
    → (r' : Round) → m'.draft ≡ some r'
    → IsRound r'
unfolding pick_in pick_card_id
pick_in-IsDraft m none user_id payload m' e inv given r' here = absurd (ground (arith, given))
pick_in-IsDraft m (some r) user_id payload m' e inv given r' here = elim (Bool-cases r.granted) [
  | inl closed ↦ absurd (ground (arith, given, closed))
  | inr running ↦
      card-IsDraft m r user_id (draft_pick_card_id r payload) m' e (inv r refl)
        (ground (arith, given, running)) r' here
]

-- A pick leaves a right round right.
pub pick-IsDraft :
    (m : Match) (user_id : String) (payload : PickPayload) (m' : Match) (e : Event)
    → IsDraft m
    → apply_mixed_pool_draft_pick m user_id payload ≡ ok (m', e)
    → IsDraft m'
unfolding apply_mixed_pool_draft_pick IsDraft
pick-IsDraft m user_id payload m' e inv given =
    pick_in-IsDraft m m.draft user_id payload m' e inv given
