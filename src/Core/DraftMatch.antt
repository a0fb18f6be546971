-- ===== src/Core/DraftMatch.antt =====
-- The match that a draft of runtime/core/battle_draft.go works on: the players with their hands, the
-- round and the log of events.
use gensoulkyo.Base.{
  ℕ, suc, ◌+◌, String, Bool, true, false, Option, none, some, List, [], ◌∷◌, ◌++◌, ◌==◌, Dict,
  lookup, ltb, if◌then◌else◌, length, keep_last,
}
use gensoulkyo.Core.DraftPool.{sort_strings}

-- playerState, less what the draft does not touch
pub record Player : Type 0 where
  pub deck_card_ids : List String
  pub hand : List String
  pub pending_grants : List String

-- draftRound
pub record Round : Type 0 where
  pub round_index : ℕ
  pub boss_id : String
  pub candidates : List String
  pub pool_hash : String
  pub first_user : String
  pub second_user : String
  pub first_defeat_tick : ℕ
  pub same_tick_tiebreak : Bool
  pub picks : Dict String
  pub granted : Bool
  pub choice_deadline_tick : ℕ

pub data OpenStatus : Type 0 where
  opened reordered same_tick : OpenStatus

pub data SkipReason : Type 0 where
  draft_in_progress already_drawn round_full : SkipReason

pub data Role : Type 0 where
  first second : Role

-- MatchEvent, by its type
pub data Event : Type 0 where
  draft_open : OpenStatus → Round → ℕ → Event
  draft_skipped : SkipReason → String → ℕ → ℕ → Event
  draft_pick : Role → String → String → ℕ → Event
  draft_timeout : String → String → ℕ → Event
  card_grant_deferred : String → String → ℕ → Event
  draft_grant : String → String → ℕ → Event

-- matchState, less what the draft does not touch
pub record Match : Type 0 where
  pub mode_id : String
  pub tick : ℕ
  pub server_seed : ℕ
  pub player_ids : List String
  pub players : Dict Player
  pub draft : Option Round
  pub draft_round_seq : ℕ
  pub next_event_seq : ℕ
  pub last_events : List (ℕ × Event)
  pub event_log : List (ℕ × Event)

-- appendMatchEventLocked
unfoldable pub append_match_event : Match → Event → Match
append_match_event m event =
    let numbered : ℕ × Event = (m.next_event_seq + 1, event) in
    record m {
      next_event_seq = m.next_event_seq + 1;
      last_events = m.last_events ++ numbered ∷ [];
      event_log = keep_last 256 (m.event_log ++ numbered ∷ []);
    }

-- grantCardToPlayer, and whether the card is in the hand at once
unfoldable pub grant_card_to_player : Player → String → Player × Bool
grant_card_to_player p card_id =
    if card_id == ""
    then (p, false)
    else if ltb (length p.hand) 4
    then (record p { hand = p.hand ++ card_id ∷ [] }, true)
    else (record p { pending_grants = p.pending_grants ++ card_id ∷ [] }, false)

-- The loop of promotePendingGrants on the cards that are pending.
unfoldable pub promote : List String → List String → List String × List String
promote hand [] = (hand, [])
promote hand (c ∷ cs) =
    let more = promote (hand ++ c ∷ []) cs in if ltb (length hand) 4 then more else (hand, c ∷ cs)

-- promotePendingGrants
unfoldable pub promote_pending_grants : Player → Player
promote_pending_grants p =
    let (hand, pending) = promote p.hand p.pending_grants in
    record p { hand = hand; pending_grants = pending }

-- sortedPlayerIDs
abbrev pub sorted_player_ids : Match → List String
sorted_player_ids m = sort_strings m.player_ids

abbrev pub decks_of : Dict Player → List String → List (List String)
decks_of players [] = []
decks_of players (id ∷ ids) =
    let rest = decks_of players ids in
    elim (lookup id players) [ none ↦ rest | some p ↦ p.deck_card_ids ∷ rest ]

-- indexOfString; a missing string has no index
abbrev pub index_of_string : List String → String → Option ℕ
index_of_string [] needle = none
index_of_string (x ∷ xs) needle =
    let rest = index_of_string xs needle in
    if x == needle then some 0 else elim rest [ none ↦ none | some i ↦ some (suc i) ]

-- indexOfString(order, a) < indexOfString(order, b), where a missing string is at -1
abbrev pub seated_before : List String → String → String → Bool
seated_before order a b = elim (index_of_string order a) [
  | none ↦ elim (index_of_string order b) [ none ↦ false | some j ↦ true ]
  | some i ↦ elim (index_of_string order b) [ none ↦ false | some j ↦ ltb i j ]
]
