-- ===== src/Core/BattleChecks.antt =====
-- What a battle result must fit: validateBattleResultCallback of
-- runtime/core/battle_result_callback.go.
use gensoulkyo.Base.{
  String, not, ◌&&◌, ◌||◌, Option, none, some, List, [], ◌∷◌, map, ◌==◌, Dict, lookup, insert,
  trim_space, eqb, if◌then◌else◌,
}
use gensoulkyo.Base.Int64.{lt64}
use gensoulkyo.Core.Cards.{member_of}
use gensoulkyo.Core.StringSet.{same_string_set}
use gensoulkyo.Core.BattleMatch.{
  ResultError, battle_server, invalid_mode, invalid_request, Seat, Allocation, Match, Report,
  Callback, Service,
}

unfoldable pub allocation_player_ids : Allocation → List String
allocation_player_ids a = map (λ (p : Seat). p.player_id) a.players

abbrev pub first_named : String → String → String
first_named a b = if a == "" then b else a

-- The ruleset that a result must name; the constant RulesetVersion is the protocol package's.
unfoldable pub expected_ruleset : String → Match → Allocation → String
expected_ruleset default_rules m a =
    first_named (trim_space m.ruleset_version)
      (first_named (trim_space a.ruleset_version) default_rules)

-- validateBattleResultCallback, for an allocation that is there
unfoldable pub validate_with : String → Callback → Match → Allocation → Option ResultError
validate_with default_rules req m a =
    let match_rules = trim_space m.ruleset_version in
    let allocation_rules = trim_space a.ruleset_version in
    if not (a.match_id == m.match_id)
    then some battle_server
    else if req.mode_id == ""
    then some invalid_request
    else if not (req.mode_id == m.mode_id) || not (req.mode_id == a.mode_id)
    then some invalid_mode
    else if not (match_rules == "")
        && not (allocation_rules == "")
        && not (match_rules == allocation_rules)
    then some battle_server
    else if req.ruleset_version == ""
    then some invalid_request
    else if not (req.ruleset_version == expected_ruleset default_rules m a)
    then some invalid_request
    else if trim_space req.state_hash == ""
    then some invalid_request
    else if lt64 m.server_seed 0 || lt64 a.server_seed 0 || not (eqb m.server_seed a.server_seed)
    then some battle_server
    else if not (eqb req.match_seed a.server_seed)
    then some invalid_request
    else if not (
        same_string_set (map (λ (p : Report). trim_space p.player_id) req.players)
          (allocation_player_ids a))
    then some invalid_request
    else if not (trim_space req.winner_player_id == "")
        && not (member_of (trim_space req.winner_player_id) (allocation_player_ids a))
    then some invalid_request
    else none

-- validateBattleResultCallback
unfoldable pub validate_battle_result_callback :
    String → Callback → Match → Option Allocation → Option ResultError
validate_battle_result_callback default_rules req m none = some battle_server
validate_battle_result_callback default_rules req m (some a) = validate_with default_rules req m a

-- The fields as ApplyBattleResultCallback trims them.
unfoldable pub trimmed : Callback → Callback
trimmed req = record {
  match_id = trim_space req.match_id;
  mode_id = trim_space req.mode_id;
  ruleset_version = trim_space req.ruleset_version;
  match_seed = req.match_seed;
  winner_player_id = trim_space req.winner_player_id;
  state_hash = trim_space req.state_hash;
  players = map (λ (p : Report). record p { player_id = trim_space p.player_id }) req.players;
}

abbrev pub or_this : Option Allocation → Option Allocation → Option Allocation
or_this none b = b
or_this (some a) b = some a

-- The allocation of a match: the service's, or the match's own.
unfoldable pub allocation_of : Service → String → Match → Option Allocation
allocation_of s match_id m = or_this (lookup match_id s.allocations) m.battle_allocation

unfoldable pub seats_map : List Seat → Dict String → Dict String
seats_map [] ids = ids
seats_map (p ∷ ps) ids = seats_map ps (insert p.player_id p.user_id ids)

abbrev pub seats_of : Option Allocation → List Seat
seats_of none = []
seats_of (some a) = a.players
