-- ===== src/Core/Draft/Waiting.antt =====
-- What leaves the hands alone until the cards are granted: the reports and the picks of
-- runtime/core/battle_draft.go.
use gensoulkyo.Base.{
  ℕ, ◌≡◌, refl, String, true, not, ◌||◌, Option, none, some, arith, Bool-cases, ◌⊎◌, inl, inr, ◌∙◌,
}
use gensoulkyo.Core.Draft.{
  draft_all_picked, grant_draft, maybe_grant, maybe_grant_draft, open_draft_round, report_in,
  report_boss_defeat,
}
use gensoulkyo.Core.DraftPicks.{
  Picked, ok, err, PickPayload, apply_mixed_pool_draft_pick, pick_in, pick_card_id, pick_as,
  pick_role, draft_pick_card_id, record_draft_defeat,
}
use gensoulkyo.Core.DraftMatch.{Match, Round, Event, Role, append_match_event}
use gensoulkyo.Core.Draft.Reached.{report, report, pick, pick, step, after_pick}

record-players :
    (m : Match) (r : Round) (user_id : String) (tick : ℕ)
    → (record_draft_defeat m r user_id tick).players ≡ m.players
unfolding record_draft_defeat append_match_event
record-players m r user_id tick = ground arith

report_in-players :
    (sha256_hex : String → String) (m : Match) (o : Option Round) (user_id boss_id : String)
    (tick : ℕ)
    → (report_in sha256_hex m o user_id boss_id tick).players ≡ m.players
unfolding report_in open_draft_round append_match_event
report_in-players sha256_hex m none user_id boss_id tick = refl
report_in-players sha256_hex m (some r) user_id boss_id tick =
    ground (arith, record-players m r user_id tick)

-- The round of a match is granted and both its seats have picked.
pub IsComplete : Match → Type 0
IsComplete m = (r : Round) × (m.draft ≡ some r) × (r.granted ≡ true) × (draft_all_picked r ≡ true)

maybe-players :
    (m : Match) (o : Option Round)
    → ((maybe_grant m o).players ≡ m.players) ⊎ IsComplete (maybe_grant m o)
unfolding maybe_grant grant_draft draft_all_picked IsComplete
maybe-players m none = inl refl
maybe-players m (some r) = elim (Bool-cases (r.granted || not (draft_all_picked r))) [
  | inl waits ↦ rw waits (inl refl)
  | inr complete ↦
      rw complete (inr (record r { granted = true }, refl, refl, ground (arith, complete)))
]

pick_as-players :
    (m : Match) (r : Round) (user_id card_id : String) (o : Picked Role) (m' : Match) (e : Event)
    → pick_as m r user_id card_id o ≡ ok (m', e)
    → m'.players ≡ m.players
unfolding pick_as
pick_as-players m r user_id card_id (err x) m' e given = absurd (ground (arith, given))
pick_as-players m r user_id card_id (ok role) m' e given = ground (arith, given)

pick_card_id-players :
    (m : Match) (r : Round) (user_id : String) (o : Picked String) (m' : Match) (e : Event)
    → pick_card_id m r user_id o ≡ ok (m', e)
    → m'.players ≡ m.players
unfolding pick_card_id
pick_card_id-players m r user_id (err x) m' e given = absurd (ground (arith, given))
pick_card_id-players m r user_id (ok card_id) m' e given =
    pick_as-players m r user_id card_id (pick_role r user_id card_id) m' e given

pick_in-players :
    (m : Match) (o : Option Round) (user_id : String) (payload : PickPayload) (m' : Match)
    (e : Event)
    → pick_in m o user_id payload ≡ ok (m', e)
    → m'.players ≡ m.players
unfolding pick_in
pick_in-players m none user_id payload m' e given = absurd (ground (arith, given))
pick_in-players m (some r) user_id payload m' e given =
    pick_card_id-players m r user_id (draft_pick_card_id r payload) m' e (ground (arith, given))

after_pick-players :
    (m : Match) (o : Picked (Match × Event))
    → ((m' : Match) (e : Event) → o ≡ ok (m', e) → m'.players ≡ m.players)
    → ((after_pick m o).players ≡ m.players) ⊎ IsComplete (after_pick m o)
unfolding after_pick maybe_grant_draft append_match_event
after_pick-players m (err e) same = inl refl
after_pick-players m (ok (m', e)) same = elim (maybe-players (append_match_event m' e) m'.draft) [
  | inl kept ↦ inl (kept ∙ same m' e refl)
  | inr complete ↦ inr complete
]

-- A report changes no hand, and a pick changes none unless it leaves the round granted with the picks
-- of both seats.
pub hands_wait :
    (sha256_hex : String → String) (m : Match) (user_id boss_id : String) (tick : ℕ)
    (payload : PickPayload)
    → ((step sha256_hex m (report user_id boss_id tick)).players ≡ m.players)
      × (((step sha256_hex m (pick user_id payload)).players ≡ m.players)
          ⊎ IsComplete (step sha256_hex m (pick user_id payload)))
unfolding step report_boss_defeat apply_mixed_pool_draft_pick
hands_wait sha256_hex m user_id boss_id tick payload = (
  ground (arith, report_in-players sha256_hex m m.draft user_id boss_id tick),
  after_pick-players m (pick_in m m.draft user_id payload)
      (λ m' e. pick_in-players m m.draft user_id payload m' e),
)
