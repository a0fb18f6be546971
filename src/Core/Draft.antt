-- ===== src/Core/Draft.antt =====
-- The grants, timeouts and reports of the battle-royale card draft of runtime/core/battle_draft.go.
-- Ticks are numbers: a report with a negative tick is refused before. The projection of a round onto
-- ModeState, which repeats it, is left out.
pub mod Picks
pub mod Rounds
pub mod Auto
pub mod Reached
pub mod Hands
pub mod Delivery
pub mod Seats
pub mod Deadline
pub mod Grants
pub mod Waiting
use gensoulkyo.Base.{
  ℕ, zero, suc, ◌+◌, ◌-◌, ◌*◌, String, str_append, padded, Bool, true, false, not, ◌&&◌, ◌||◌,
  Option, none, some, List, [], ◌∷◌, ◌++◌, ◌==◌, Dict, lookup, insert, or_else, contains,
  trim_space, ltb, leb, eqb, if◌then◌else◌, length, keep_last,
}
use gensoulkyo.Base.Int64.{lt64}
use gensoulkyo.Core.Cards.{member_of}
use gensoulkyo.Core.Chance.{deterministic_unit, get_elem?}
use gensoulkyo.Core.DraftPool.{
  before, sort_strings, build_mixed_pool, mixed_pool_hash, draw_mixed_pool_candidates,
}
use gensoulkyo.Core.DraftMatch.{
  Player, Round, opened, reordered, same_tick, draft_in_progress, already_drawn, round_full, Role,
  first, second, Event, draft_open, draft_skipped, draft_pick, draft_timeout, card_grant_deferred,
  draft_grant, Match, append_match_event, grant_card_to_player, sorted_player_ids, decks_of,
  seated_before,
}
use gensoulkyo.Core.DraftPicks.{choice_ticks, record_draft_defeat}

-- draftAllPicked
unfoldable pub draft_all_picked : Round → Bool
draft_all_picked r =
    not (r.first_user == "")
    && contains r.first_user r.picks
    && not (r.second_user == "")
    && contains r.second_user r.picks

unfoldable pub grant_pick : Match → ℕ → String → String → Option Player → Match
grant_pick m tick user_id card_id none = m
grant_pick m tick user_id card_id (some p) =
    let (granted, in_hand) = grant_card_to_player p card_id in
    let held : Match = record m { players = insert user_id granted m.players } in
    let told =
      if in_hand
      then held
      else append_match_event held (card_grant_deferred user_id card_id tick) in
    append_match_event told (draft_grant user_id card_id tick)

-- One seat of grantDraftLocked.
unfoldable pub grant_seat : Match → ℕ → String → Option String → Match
grant_seat m tick user_id none = m
grant_seat m tick user_id (some card_id) =
    grant_pick m tick user_id card_id (lookup user_id m.players)

unfoldable pub grant_named : Match → Round → ℕ → String → Match
grant_named m r tick user_id =
    let seated = grant_seat m tick user_id (lookup user_id r.picks) in
    if user_id == "" then m else seated

-- grantDraftLocked
unfoldable pub grant_draft : Match → Round → ℕ → Match
grant_draft m r tick =
    let granted = grant_named (grant_named m r tick r.first_user) r tick r.second_user in
    record granted { draft = some (record r { granted = true }) }

unfoldable pub maybe_grant : Match → Option Round → Match
maybe_grant m none = m
maybe_grant m (some r) =
    let granted = grant_draft m r m.tick in
    if r.granted || not (draft_all_picked r) then m else granted

-- maybeGrantDraftLocked
unfoldable pub maybe_grant_draft : Match → Match
maybe_grant_draft m = maybe_grant m m.draft

-- draftCardTaken
unfoldable pub draft_card_taken : Dict String → String → Bool
draft_card_taken [] card_id = false
draft_card_taken ((user_id, picked) ∷ picks) card_id =
    if picked == card_id then true else draft_card_taken picks card_id

-- Whether a scored card comes before another: by its unit, then by its id.
abbrev pub scored_before : ℕ × String → ℕ × String → Bool
scored_before (u, a) (v, b) = if eqb u v then before a b else ltb u v

-- The best of the scored cards.
abbrev pub best_of : Option (ℕ × String) → ℕ × String → ℕ × String
best_of none x = x
best_of (some y) x = if scored_before x y then x else y

unfoldable pub fill_seat : Match × Round → String → Option String → Match × Round
fill_seat (m, r) user_id none = (m, r)
fill_seat (m, r) user_id (some card_id) = (
  append_match_event m (draft_timeout user_id card_id m.tick),
  record r { picks = insert user_id card_id r.picks },
)

module _ (sha256_hex : String → String) where
  -- The card of the remaining ones that comes first; `scored` counts the remaining ones before.
  unfoldable pub best_remaining : Match → Round → List String → ℕ → Option (ℕ × String)
  best_remaining m r [] scored = none
  best_remaining m r (card_id ∷ more) scored =
      let unit =
        deterministic_unit sha256_hex m.server_seed r.choice_deadline_tick "draft_auto" scored in
      let skipped = best_remaining m r more scored in
      let later = best_remaining m r more (scored + 1) in
      if draft_card_taken r.picks card_id then skipped else some (best_of later (unit, card_id))

  -- autoDraftPick; none is the blank card
  unfoldable pub auto_draft_pick : Match → Round → Option String
  auto_draft_pick m r = elim (best_remaining m r r.candidates 0) [
    | none ↦ none
    | some (unit, card_id) ↦ if card_id == "" then none else some card_id
  ]

  -- One seat of resolveDraftTimeoutLocked.
  unfoldable pub auto_seat : Match × Round → String → Match × Round
  auto_seat (m, r) user_id =
      let filled = fill_seat (m, r) user_id (auto_draft_pick m r) in
      if user_id == "" || contains user_id r.picks then (m, r) else filled

  unfoldable pub resolve : Match → Option Round → Match
  resolve m none = m
  resolve m (some r) =
      let (told, picked) = auto_seat (auto_seat (m, r) r.first_user) r.second_user in
      let granted = grant_draft told picked m.tick in
      if r.granted || ltb m.tick r.choice_deadline_tick then m else granted

  -- resolveDraftTimeoutLocked
  unfoldable pub resolve_draft_timeout : Match → Match
  resolve_draft_timeout m = resolve m m.draft

  -- openDraftRoundLocked
  unfoldable pub open_draft_round : Match → String → String → ℕ → Match
  open_draft_round m first_user boss_id tick =
      let round_index = m.draft_round_seq + 1 in
      let pool = build_mixed_pool (decks_of m.players (sorted_player_ids m)) in
      let r : Round = record {
        round_index = round_index;
        boss_id = boss_id;
        candidates = draw_mixed_pool_candidates sha256_hex m.server_seed pool round_index tick;
        pool_hash = mixed_pool_hash sha256_hex pool;
        first_user = first_user;
        second_user = "";
        first_defeat_tick = tick;
        same_tick_tiebreak = false;
        picks = [];
        granted = false;
        choice_deadline_tick = tick + choice_ticks;
      } in
      append_match_event (record m { draft = some r; draft_round_seq = round_index })
        (draft_open opened r tick)

  unfoldable pub report_in : Match → Option Round → String → String → ℕ → Match
  report_in m none user_id boss_id tick = open_draft_round m user_id boss_id tick
  report_in m (some r) user_id boss_id tick =
      if r.boss_id == boss_id
      then record_draft_defeat m r user_id tick
      else if not r.granted
      then append_match_event m (draft_skipped draft_in_progress user_id tick r.round_index)
      else open_draft_round m user_id boss_id tick

  -- reportBossDefeatLocked; none is the refusal of another mode
  unfoldable pub report_boss_defeat : Match → String → String → ℕ → Option Match
  report_boss_defeat m user_id boss_id tick =
      let reported = report_in m m.draft user_id boss_id tick in
      if m.mode_id == "battle_royale" then some reported else none
