-- ===== src/Core/Draft/Grants.antt =====
-- When the cards of a draft reach the hands: grantDraftLocked of runtime/core/battle_draft.go.
use gensoulkyo.Base.{
  ℕ, ◌≤◌, ◌<◌, ◌≡◌, ◌≢◌, refl, String, true, false, Option, none, some, [], ◌∷◌, ◌==◌, eq_iff,
  eq_refl, ltb, eqb, arith, Bool-cases, inl, inr, ◌∙◌, length, sym, ap, subst, List, All, or_else,
  if◌then◌else◌,
}
use gensoulkyo.Core.Draft.{
  grant_draft, resolve, resolve_draft_timeout, report_in, report_boss_defeat, auto_seat,
}
use gensoulkyo.Core.DraftPicks.{
  ok, err, not_designated, PickPayload, apply_mixed_pool_draft_pick, pick_in, pick_card_id, pick_as,
  pick_role, draft_pick_card_id, record_draft_defeat, swapped,
}
use gensoulkyo.Core.DraftMatch.{Match, Round, append_match_event}
use gensoulkyo.Core.Draft.Reached.{
  Call, report, report, pick, pick, simulate, simulate, step, run, after_pick,
}
use gensoulkyo.Core.Draft.Seats.{both-Filled}
use gensoulkyo.Core.Draft.Deadline.{resolve_due}

-- A report of the boss that a round is about; any pick and any simulated tick.
abbrev pub IsOfBoss : String → Call → Type 0
IsOfBoss boss (report user_id boss_id tick) = boss ≡ boss_id
IsOfBoss boss (pick user_id payload) = Unit
IsOfBoss boss (simulate tick) = Unit

recorded :
    (m : Match) (r : Round) (user_id : String) (tick : ℕ)
    → r.granted ≡ true
    → ((record_draft_defeat m r user_id tick).draft ≡ m.draft)
      × ((record_draft_defeat m r user_id tick).players ≡ m.players)
unfolding record_draft_defeat append_match_event
recorded m r user_id tick granted = ground (arith, granted)

module _ (sha256_hex : String → String) where
  reported :
      (m : Match) (o : Option Round) (r : Round) (user_id boss_id : String) (tick : ℕ)
      → o ≡ some r
      → r.granted ≡ true
      → r.boss_id ≡ boss_id
      → let after =
          or_else
            (if m.mode_id == "battle_royale"
              then some (report_in sha256_hex m o user_id boss_id tick)
              else none)
            m in
        (after.draft ≡ m.draft) × (after.players ≡ m.players)
  unfolding report_in
  reported m none r user_id boss_id tick here granted same = absurd (ground (arith, here))
  reported m (some q) r user_id boss_id tick here granted same =
      let given : q.granted ≡ true = ground (arith, here, granted) in
      let met : (q.boss_id == boss_id) ≡ true =
        ground (arith, here, same, eq_iff q.boss_id boss_id) in
      ground (arith, met, recorded m q user_id tick given)

  -- A call on a match whose round is granted.
  granted_step :
      (m : Match) (r : Round) (call : Call)
      → m.draft ≡ some r
      → r.granted ≡ true
      → IsOfBoss r.boss_id call
      → let after = step sha256_hex m call in (after.draft ≡ m.draft) × (after.players ≡ m.players)
  unfolding step report_boss_defeat resolve_draft_timeout resolve apply_mixed_pool_draft_pick
      pick_in after_pick
  granted_step m r (report user_id boss_id tick) here granted same =
      reported m m.draft r user_id boss_id tick here granted same
  granted_step m r (pick user_id payload) here granted same = ground (arith, here, granted)
  granted_step m r (simulate tick) here granted same = ground (arith, here, granted)

  granted_run :
      (m : Match) (r : Round) (calls : List Call)
      → m.draft ≡ some r
      → r.granted ≡ true
      → All (IsOfBoss r.boss_id) calls
      → let after = run sha256_hex m calls in (after.draft ≡ m.draft) × (after.players ≡ m.players)
  unfolding run
  granted_run m r [] here granted of = (refl, refl)
  granted_run m r (call ∷ calls) here granted (now, more) =
      let (draft, players) = granted_step m r call here granted now in
      let (draft', players') =
        granted_run (step sha256_hex m call) r calls (draft ∙ here) granted more in
      (draft' ∙ draft, players' ∙ players)

  -- Once the simulation has reached the deadline of a round, its cards are given for good: whatever
  -- picks, further deadlines and reports of the same boss follow, the round and the players with
  -- their hands stay as that tick left them.
  pub grant_once :
      (m : Match) (r : Round) (tick : ℕ) (calls : List Call)
      → m.draft ≡ some r
      → r.choice_deadline_tick ≤ tick
      → All (IsOfBoss r.boss_id) calls
      → let closed = step sha256_hex m (simulate tick) in
        let after = run sha256_hex closed calls in
        (after.draft ≡ closed.draft) × (after.players ≡ closed.players)
  unfolding grant_draft
  grant_once m r tick calls here due of = elim (Bool-cases r.granted) [
    | inl granted ↦
        let closed = step sha256_hex m (simulate tick) in
        let (draft, _) = granted_step m r (simulate tick) here granted tt in
        granted_run closed r calls (draft ∙ here) granted of
    | inr waiting ↦
        let m' : Match = record m { tick = tick } in
        let two = auto_seat sha256_hex (auto_seat sha256_hex (m', r) r.first_user) r.second_user in
        let closed : Round = record two.1 { granted = true } in
        let f = both-Filled sha256_hex m' r in
        granted_run (step sha256_hex m (simulate tick)) closed calls
          (ap (λ (after : Match). after.draft) (resolve_due sha256_hex m r tick here waiting due))
          refl (subst (λ boss. All (IsOfBoss boss) calls) (sym f.boss) of)
  ]

refused-in :
    (m : Match) (r : Round) (user_id card_id : String) (payload : PickPayload)
    → r.granted ≡ false
    → draft_pick_card_id r payload ≡ ok card_id
    → pick_role r user_id card_id ≡ err not_designated
    → pick_in m (some r) user_id payload ≡ err not_designated
unfolding pick_in pick_card_id pick_as
refused-in m r user_id card_id payload running card refused = ground (arith, running, card, refused)

-- Where the first picker has picked alone and another player's earlier defeat is reported then, this
-- player is in the first seat, the first picker in the second one, with the only pick, and the
-- player in the first seat is refused every card.
pub late_first_blocked :
    (m : Match) (r : Round) (user_id card_id other_card : String) (tick : ℕ) (payload : PickPayload)
    → m.draft ≡ some r
    → r.granted ≡ false
    → r.second_user ≡ ""
    → r.picks ≡ (r.first_user, other_card) ∷ []
    → user_id ≢ r.first_user
    → tick < r.first_defeat_tick
    → draft_pick_card_id r payload ≡ ok card_id
    → let after = record_draft_defeat m r user_id tick in
      ((r' : Round) × (after.draft ≡ some r')
        × (r'.first_user ≡ user_id)
        × (r'.second_user ≡ r.first_user)
        × (r'.picks ≡ (r.first_user, other_card) ∷ []))
      × (apply_mixed_pool_draft_pick after user_id payload ≡ err not_designated)
unfolding apply_mixed_pool_draft_pick pick_role record_draft_defeat append_match_event
    draft_pick_card_id
late_first_blocked m r user_id card_id other_card tick payload here running alone picks other
      earlier card =
    let no_first : (user_id == r.first_user) ≡ false =
      ground (arith, other, eq_iff user_id r.first_user) in
    let before : ltb tick r.first_defeat_tick ≡ true = ground arith in
    let empty : (r.second_user == "") ≡ true = ground (arith, alone, eq_iff r.second_user "") in
    let m' = record_draft_defeat m r user_id tick in
    let moved : m'.draft ≡ some (swapped r user_id tick) =
      rw (running, no_first, empty, before) refl in
    let one : eqb (length r.picks) 0 ≡ false = rw picks refl in
    let refused : pick_role (swapped r user_id tick) user_id card_id ≡ err not_designated =
      ground (arith, eq_refl user_id, one, no_first) in
    (
      (swapped r user_id tick, moved, refl, refl, picks),
      rw moved
          (refused-in m' (swapped r user_id tick) user_id card_id payload running card refused),
    )
