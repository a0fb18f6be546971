-- ===== src/Core/DraftPicks.antt =====
-- The reports of a defeat and the picks of runtime/core/battle_draft.go: recordDraftDefeatLocked and
-- applyMixedPoolDraftPickLocked.
use gensoulkyo.Base.{
  ℕ, ◌+◌, String, Bool, true, not, ◌&&◌, ◌||◌, Option, none, some, ◌==◌, lookup, insert, trim_space,
  ltb, eqb, if◌then◌else◌, length,
}
use gensoulkyo.Base.Int64.{lt64}
use gensoulkyo.Core.Cards.{member_of}
use gensoulkyo.Core.Chance.{get_elem?}
use gensoulkyo.Core.DraftMatch.{
  Round, reordered, same_tick, already_drawn, round_full, Role, first, second, Event, draft_open,
  draft_skipped, draft_pick, Match, append_match_event, sorted_player_ids, seated_before,
}

-- TickRate * 30
abbrev pub choice_ticks : ℕ
choice_ticks = 1800

-- An earlier defeat that is reported later takes the first seat.
abbrev pub swapped : Round → String → ℕ → Round
swapped r user_id tick = record r {
  second_user = r.first_user;
  first_user = user_id;
  first_defeat_tick = tick;
  choice_deadline_tick = tick + choice_ticks;
}

-- A defeat on the same tick takes the first seat where its user comes before the other.
abbrev pub tied : Bool → Round → String → Round
tied seated r user_id = record r {
  second_user = if seated then r.first_user else user_id;
  first_user = if seated then user_id else r.first_user;
  same_tick_tiebreak = true;
}

-- recordDraftDefeatLocked
unfoldable pub record_draft_defeat : Match → Round → String → ℕ → Match
record_draft_defeat m r user_id tick =
    let earlier = swapped r user_id tick in
    let equal = tied (seated_before (sorted_player_ids m) user_id r.first_user) r user_id in
    if r.granted
      || user_id == r.first_user
      || (not (r.second_user == "") && user_id == r.second_user)
    then append_match_event m (draft_skipped already_drawn user_id tick r.round_index)
    else if not (r.second_user == "")
    then append_match_event m (draft_skipped round_full user_id tick r.round_index)
    else if ltb tick r.first_defeat_tick
    then append_match_event (record m { draft = some earlier }) (draft_open reordered earlier tick)
    else if eqb tick r.first_defeat_tick
    then append_match_event (record m { draft = some equal }) (draft_open same_tick equal tick)
    else record m { draft = some (record r { second_user = user_id }) }

-- The payload of a pick: the rendered card id, and the index where it is an integer.
pub record PickPayload : Type 0 where
  pub card_id : String
  pub candidate_index : Option ℕ

pub data PickError : Type 0 where
  no_open_round index_out_of_range card_required card_taken not_designated not_candidate : PickError

pub data Picked {ℓ} (A : Type ℓ) : Type ℓ where
  ok : A → Picked A
  err : PickError → Picked A

abbrev candidate_or_error : Option String → Picked String
candidate_or_error none = err index_out_of_range
candidate_or_error (some card_id) = ok card_id

-- draftPickCardID
unfoldable pub draft_pick_card_id : Round → PickPayload → Picked String
draft_pick_card_id r payload =
    let trimmed = trim_space payload.card_id in
    let card_id = if trimmed == "<nil>" then "" else trimmed in
    if not (card_id == "") then ok card_id else elim payload.candidate_index [
      | none ↦ err card_required
      | some i ↦
          let found = candidate_or_error (get_elem? r.candidates i) in
          if lt64 i 0 then err index_out_of_range else found
    ]

-- The second picker's role, with the first picker's card if there is one.
abbrev pub second_role : Option String → String → Picked Role
second_role none card_id = ok second
second_role (some taken) card_id = if card_id == taken then err card_taken else ok second

-- The seat that a user may pick for now, with the card.
unfoldable pub pick_role : Round → String → String → Picked Role
pick_role r user_id card_id =
    if user_id == r.first_user && eqb (length r.picks) 0
    then ok first
    else if not (r.second_user == "") && user_id == r.second_user && eqb (length r.picks) 1
    then second_role (lookup r.first_user r.picks) card_id
    else err not_designated

-- applyMixedPoolDraftPickLocked from the role on.
unfoldable pub pick_as : Match → Round → String → String → Picked Role → Picked (Match × Event)
pick_as m r user_id card_id (err e) = err e
pick_as m r user_id card_id (ok role) =
    if not (member_of card_id r.candidates)
    then err not_candidate
    else ok (
      record m { draft = some (record r { picks = insert user_id card_id r.picks }) },
      draft_pick role user_id card_id m.tick,
    )

unfoldable pub pick_card_id : Match → Round → String → Picked String → Picked (Match × Event)
pick_card_id m r user_id (err e) = err e
pick_card_id m r user_id (ok card_id) = pick_as m r user_id card_id (pick_role r user_id card_id)

unfoldable pub pick_in : Match → Option Round → String → PickPayload → Picked (Match × Event)
pick_in m none user_id payload = err no_open_round
pick_in m (some r) user_id payload =
    let picked = pick_card_id m r user_id (draft_pick_card_id r payload) in
    if r.granted then err no_open_round else picked

-- applyMixedPoolDraftPickLocked
unfoldable pub apply_mixed_pool_draft_pick : Match → String → PickPayload → Picked (Match × Event)
apply_mixed_pool_draft_pick m user_id payload = pick_in m m.draft user_id payload
