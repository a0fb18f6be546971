-- ===== src/Core/Draft/Rounds.antt =====
-- The rounds that a match can reach: the reports, picks and timeouts of runtime/core/battle_draft.go.
use gensoulkyo.Base.{
  ℕ, ◌≡◌, ◌≢◌, refl, sym, String, Bool, true, false, not, ◌&&◌, ◌||◌, some, ◌==◌, eq_iff, ltb, eqb,
  arith, Bool-cases, ◌⊎◌, inl, inr, subst,
}
use gensoulkyo.Core.DraftPicks.{swapped, tied, record_draft_defeat}
use gensoulkyo.Core.DraftMatch.{Match, Round, append_match_event, seated_before, sorted_player_ids}
use gensoulkyo.Core.Draft.Picks.{IsRound}

-- A round with the same picks and candidates, whose seats include the old ones.
module _ (r r' : Round) (inv : IsRound r) (picks : r'.picks ≡ r.picks)
    (candidates : r'.candidates ≡ r.candidates) (named : r'.first_user ≢ "")
    (apart : r'.first_user ≢ r'.second_user)
    (stays : (u : String)
      → (u ≡ r.first_user) ⊎ ((u ≡ r.second_user) × (u ≢ ""))
      → (u ≡ r'.first_user) ⊎ ((u ≡ r'.second_user) × (u ≢ ""))) where
  pub reseated : IsRound r'
  reseated = record {
    named = named;
    apart = apart;
    seated = λ u c found.
        let (seat, candidate) = inv.seated u c (rw (← picks) found) in
        (stays u seat, rw candidates candidate);
    distinct = λ u v c at_u at_v. inv.distinct u v c (rw (← picks) at_u) (rw (← picks) at_v);
  }

pub some-IsRound : (r r' : Round) → IsRound r → some r ≡ some r' → IsRound r'
some-IsRound r r' inv same = subst IsRound (ground (arith, same)) inv

module _ (r : Round) (user_id : String) (tick : ℕ) (inv : IsRound r) (named : user_id ≢ "")
    (other : user_id ≢ r.first_user) (unseated : r.second_user ≡ "") where
  swapped-IsRound : IsRound (swapped r user_id tick)
  swapped-IsRound =
      reseated r (swapped r user_id tick) inv refl refl named other
        (λ u seat. ground (arith, seat, unseated, inv.named))

  tied-IsRound : (seated : Bool) → IsRound (tied seated r user_id)
  tied-IsRound true =
      reseated r (tied true r user_id) inv refl refl named other
        (λ u seat. ground (arith, seat, unseated, inv.named))
  tied-IsRound false =
      reseated r (tied false r user_id) inv refl refl inv.named (λ same. other (sym same))
        (λ u seat. ground (arith, seat, unseated))

  second-IsRound : IsRound (record r { second_user = user_id })
  second-IsRound =
      reseated r (record r { second_user = user_id }) inv refl refl inv.named
        (λ same. other (sym same)) (λ u seat. ground (arith, seat, unseated))

-- A report leaves a right round right, from a user with a name.
pub record-IsDraft :
    (m : Match) (r : Round) (user_id : String) (tick : ℕ)
    → IsRound r
    → m.draft ≡ some r
    → user_id ≢ ""
    → (r' : Round) → (record_draft_defeat m r user_id tick).draft ≡ some r'
    → IsRound r'
unfolding record_draft_defeat append_match_event
record-IsDraft m r user_id tick inv here named r' =
    let again : Bool =
      r.granted
      || user_id == r.first_user
      || (not (r.second_user == "") && user_id == r.second_user) in
    let seated = seated_before (sorted_player_ids m) user_id r.first_user in
    elim (Bool-cases again) [
      | inl skipped ↦ rw (skipped, here) (some-IsRound r r' inv)
      | inr reports ↦
          let other : user_id ≢ r.first_user =
            ground (arith, reports, eq_iff user_id r.first_user) in
          elim (Bool-cases (r.second_user == "")) [
            | inr full ↦ rw (reports, full, here) (some-IsRound r r' inv)
            | inl empty ↦
                let unseated : r.second_user ≡ "" = (eq_iff r.second_user "").0 empty in
                elim (Bool-cases (ltb tick r.first_defeat_tick)) [
                  | inl earlier ↦
                      rw (reports, empty, earlier)
                        (some-IsRound _ r'
                          (swapped-IsRound r user_id tick inv named other unseated))
                  | inr not_earlier ↦ elim (Bool-cases (eqb tick r.first_defeat_tick)) [
                    | inl equal ↦
                        rw (reports, empty, not_earlier, equal)
                          (some-IsRound _ r'
                            (tied-IsRound r user_id tick inv named other unseated seated))
                    | inr later ↦
                        rw (reports, empty, not_earlier, later)
                          (some-IsRound _ r'
                            (second-IsRound r user_id tick inv named other unseated))
                  ]
                ]
          ]
    ]
