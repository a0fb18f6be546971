-- ===== src/Core/Draft/Reached.antt =====
-- Every draft that a match reaches: reports of boss defeats, picks and expired deadlines in any order, as
-- runtime/core/battle_draft.go and applyModeActionLocked of runtime/core/service.go take them.
use gensoulkyo.Base.{
  ℕ, ◌≡◌, ◌≢◌, refl, sym, String, Bool, true, false, not, ◌||◌, Option, none, some, List, [], ◌∷◌,
  ◌==◌, lookup, or_else, ltb, if◌then◌else◌, All, arith, inl, inr, subst, ◌∙◌,
}
use gensoulkyo.Core.Draft.{
  grant_draft, maybe_grant, maybe_grant_draft, auto_seat, resolve, resolve_draft_timeout,
  open_draft_round, report_in, report_boss_defeat,
}
use gensoulkyo.Core.DraftPicks.{Picked, ok, err, PickPayload, apply_mixed_pool_draft_pick}
use gensoulkyo.Core.DraftMatch.{Match, Round, Event, append_match_event}
use gensoulkyo.Core.Draft.Rounds.{some-IsRound, reseated, record-IsDraft}
use gensoulkyo.Core.Draft.Picks.{IsRound, IsDraft, pick-IsDraft}
use gensoulkyo.Core.Draft.Auto.{auto_seat-IsRound}

either-IsDraft : (b : Bool) (m m' : Match) → IsDraft m → IsDraft m' → IsDraft (if b then m else m')
either-IsDraft true m m' p q = p
either-IsDraft false m m' p q = q

none-in : (u c : String) → lookup u [] ≢ some c
unfolding lookup
none-in u c = ground arith

-- A round without picks, of one named seat.
fresh-IsRound : (r : Round) → r.first_user ≢ "" → r.second_user ≡ "" → r.picks ≡ [] → IsRound r
unfolding lookup
fresh-IsRound r named alone empty = record {
  named = named;
  apart = λ same. named (same ∙ alone);
  seated = λ u c found. absurd (none-in u c (rw empty at found));
  distinct = λ u v c at_u. absurd (none-in u c (rw empty at at_u));
}

granted-IsRound : (r : Round) → IsRound r → IsRound (record r { granted = true })
granted-IsRound r inv =
    reseated r (record r { granted = true }) inv refl refl inv.named inv.apart (λ u seat. seat)

grant-IsDraft : (m : Match) (r : Round) (tick : ℕ) → IsRound r → IsDraft (grant_draft m r tick)
unfolding grant_draft IsDraft
grant-IsDraft m r tick inv r' at = subst IsRound (ground (arith, at)) (granted-IsRound r inv)

maybe-IsDraft :
    (m : Match) (o : Option Round)
    → m.draft ≡ o
    → ((r : Round) → o ≡ some r → IsRound r)
    → IsDraft (maybe_grant m o)
unfolding maybe_grant IsDraft
maybe-IsDraft m none here inv = λ r' at. absurd (ground (arith, here, at))
maybe-IsDraft m (some r) here inv =
    either-IsDraft _ m (grant_draft m r m.tick) (λ r' at. inv r' (ground (arith, here, at)))
      (grant-IsDraft m r m.tick (inv r refl))

pub data Call : Type 0 where
  report : String → String → ℕ → Call
  pick : String → PickPayload → Call
  simulate : ℕ → Call

-- A report comes from a user with a name.
abbrev pub IsNamed : Call → Type 0
IsNamed (report user_id boss_id tick) = user_id ≢ ""
IsNamed (pick user_id payload) = Unit
IsNamed (simulate tick) = Unit

-- The end of applyModeActionLocked: the event of an accepted pick is told before the grant.
unfoldable pub after_pick : Match → Picked (Match × Event) → Match
after_pick m (err e) = m
after_pick m (ok (m', event)) = maybe_grant_draft (append_match_event m' event)

module _ (sha256_hex : String → String) where
  open-IsDraft :
      (m : Match) (user_id boss_id : String) (tick : ℕ)
      → user_id ≢ ""
      → IsDraft (open_draft_round sha256_hex m user_id boss_id tick)
  unfolding open_draft_round append_match_event IsDraft
  open-IsDraft m user_id boss_id tick named r' = some-IsRound _ r' (fresh-IsRound _ named refl refl)

  report_in-IsDraft :
      (m : Match) (o : Option Round) (user_id boss_id : String) (tick : ℕ)
      → m.draft ≡ o
      → ((r : Round) → o ≡ some r → IsRound r)
      → user_id ≢ ""
      → IsDraft (report_in sha256_hex m o user_id boss_id tick)
  unfolding report_in IsDraft append_match_event
  report_in-IsDraft m none user_id boss_id tick here inv named =
      open-IsDraft m user_id boss_id tick named
  report_in-IsDraft m (some r) user_id boss_id tick here inv named =
      either-IsDraft (r.boss_id == boss_id) _ _
        (record-IsDraft m r user_id tick (inv r refl) here named)
        (either-IsDraft (not r.granted) _ _ (λ r' at. inv r' (ground (arith, here, at)))
          (open-IsDraft m user_id boss_id tick named))

  resolve-IsDraft :
      (m : Match) (o : Option Round)
      → m.draft ≡ o
      → ((r : Round) → o ≡ some r → IsRound r)
      → IsDraft (resolve sha256_hex m o)
  unfolding resolve IsDraft
  resolve-IsDraft m none here inv = λ r' at. absurd (ground (arith, here, at))
  resolve-IsDraft m (some r) here inv =
      let one = auto_seat sha256_hex (m, r) r.first_user in
      let (first_right, kept) =
        auto_seat-IsRound sha256_hex m r r.first_user (inv r refl) (inl refl) in
      let two = auto_seat sha256_hex one r.second_user in
      let (both_right, _) =
        auto_seat-IsRound sha256_hex one.0 one.1 r.second_user first_right
          (inr (sym kept.second)) in
      either-IsDraft (r.granted || ltb m.tick r.choice_deadline_tick) m
        (grant_draft two.0 two.1 m.tick) (λ r' at. inv r' (ground (arith, here, at)))
        (grant-IsDraft two.0 two.1 m.tick both_right)

  -- A call of the draft: a report of a boss defeat, a pick, or the simulation reaching a tick.
  unfoldable pub step : Match → Call → Match
  step m (report user_id boss_id tick) =
      or_else (report_boss_defeat sha256_hex m user_id boss_id tick) m
  step m (pick user_id payload) = after_pick m (apply_mixed_pool_draft_pick m user_id payload)
  step m (simulate tick) = resolve_draft_timeout sha256_hex (record m { tick = tick })

  unfoldable pub run : Match → List Call → Match
  run m [] = m
  run m (call ∷ calls) = run (step m call) calls

  reported-IsDraft :
      (b : Bool) (m m' : Match)
      → IsDraft m
      → IsDraft m'
      → IsDraft (or_else (if b then some m' else none) m)
  reported-IsDraft true m m' p q = q
  reported-IsDraft false m m' p q = p

  after_pick-IsDraft :
      (m : Match) (user_id : String) (payload : PickPayload) (o : Picked (Match × Event))
      → apply_mixed_pool_draft_pick m user_id payload ≡ o
      → IsDraft m
      → IsDraft (after_pick m o)
  unfolding after_pick maybe_grant_draft append_match_event IsDraft
  after_pick-IsDraft m user_id payload (err e) given inv = inv
  after_pick-IsDraft m user_id payload (ok (m', event)) given inv =
      maybe-IsDraft (append_match_event m' event) m'.draft refl
        (pick-IsDraft m user_id payload m' event inv given)

  step-IsDraft : (m : Match) (call : Call) → IsNamed call → IsDraft m → IsDraft (step m call)
  unfolding step report_boss_defeat resolve_draft_timeout IsDraft
  step-IsDraft m (report user_id boss_id tick) named inv =
      reported-IsDraft (m.mode_id == "battle_royale") m _ inv
        (report_in-IsDraft m m.draft user_id boss_id tick refl inv named)
  step-IsDraft m (pick user_id payload) named inv =
      after_pick-IsDraft m user_id payload (apply_mixed_pool_draft_pick m user_id payload) refl inv
  step-IsDraft m (simulate tick) named inv =
      resolve-IsDraft (record m { tick = tick }) m.draft refl inv

  run-keeps :
      (m : Match) (calls : List Call) → All IsNamed calls → IsDraft m → IsDraft (run m calls)
  unfolding run
  run-keeps m [] named inv = inv
  run-keeps m (call ∷ calls) (here, more) inv =
      run-keeps (step m call) calls more (step-IsDraft m call here inv)

  -- After any sequence of reports from named users, picks and simulated ticks, from a match without a
  -- draft, the round has two different seats at most, every pick is of a seat and of a candidate, and
  -- no two seats have picked the same card.
  pub run-IsDraft :
      (m : Match) (calls : List Call) → m.draft ≡ none → All IsNamed calls → IsDraft (run m calls)
  unfolding IsDraft
  run-IsDraft m calls before named =
      run-keeps m calls named (λ r at. absurd (ground (arith, before, at)))
