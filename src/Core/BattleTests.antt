-- ===== src/Core/BattleTests.antt =====
-- Runs of what battle servers send to runtime/core: callbacks, their freshness and their results.
use gensoulkyo.Base.{
  ℕ, ◌+◌, ◌<◌, ◌≡◌, ◌≢◌, ◌↔◌, refl, arith, String, true, false, Option, none, some, List, [], ◌∷◌,
  All, inl, inr, lookup, trim_space, differ, length,
}
use gensoulkyo.Core.Callback.{
  Callbacks, accepted, parse_int64, new_window, verify_battle_callback, retention, max_nonces,
}
use gensoulkyo.Core.Callback.Replay.{Call, step, run, new_callbacks}
use gensoulkyo.Core.Callback.Edge.{replay_refused, replay_at_edge}
use gensoulkyo.Core.StringSet.{same_string_set}
use gensoulkyo.Core.StringSet.Bags.{SameIds, same_string_set_iff}
use gensoulkyo.Core.StringSet.Counts.{HasNames}
use gensoulkyo.Core.BattleResult.{apply_battle_result_callback}
use gensoulkyo.Core.BattleMatch.{
  running, Match, Fighter, Allocation, Callback, Service, Response, answered,
}
use gensoulkyo.Core.BattleResult.Repeats.{repeat_unchanged}
use gensoulkyo.Core.BattleResult.Payments.{failed_settlement_lost}

abbrev hmac : String → String → String
hmac secret text = "5f"

abbrev lower : String → String
lower text = text

abbrev digest : String → String
digest text = "9f86d081884c7d65"

abbrev call : ℕ → Call
call at = record {
  server = "one";
  raw_body = "{}";
  timestamp = "1300";
  nonce = "n";
  signature = "5f";
  at = at;
}

replay_refused_example :
    (step hmac lower
      (run hmac lower
        (step hmac lower (run hmac lower (new_callbacks "s") []) (call 1000000000000)).0
        [])
      (call 1000000000001)).1
    ≢ accepted
unfolding step verify_battle_callback trim_space
    gensoulkyo.Core.Callback.battle_callback_signature_valid
    gensoulkyo.Core.Callback.battle_callback_signature
    gensoulkyo.Core.Callback.battle_callback_timestamp_fresh parse_int64
    gensoulkyo.Core.Callback.fresh_seconds gensoulkyo.Base.Int64.lt64 gensoulkyo.Base.Int64.sub64
    gensoulkyo.Core.Callback.check_nonce gensoulkyo.Core.Callback.allow_nonce lookup
    gensoulkyo.Core.Callback.drop_expired run
replay_refused_example =
    replay_refused hmac lower "s" [] [] (call 1000000000000) (call 1000000000001) refl (differ refl)
      refl refl refl (inl (omega arith, tt, omega arith))

replay_at_edge_example :
    (step hmac lower
      (step hmac lower (new_callbacks "s") (call 1000000000000)).0
      (record (call 1000000000000) { at = 1000000000000 + retention })).1
    ≡ accepted
unfolding step verify_battle_callback trim_space
    gensoulkyo.Core.Callback.battle_callback_signature_valid
    gensoulkyo.Core.Callback.battle_callback_signature
    gensoulkyo.Core.Callback.battle_callback_timestamp_fresh parse_int64
    gensoulkyo.Core.Callback.fresh_seconds gensoulkyo.Base.Int64.lt64 gensoulkyo.Base.Int64.sub64
    gensoulkyo.Core.Callback.check_nonce gensoulkyo.Core.Callback.allow_nonce lookup
    gensoulkyo.Core.Callback.drop_expired
replay_at_edge_example =
    replay_at_edge hmac lower (new_callbacks "s") (call 1000000000000) refl (differ refl) refl
      (omega arith) refl

same_string_set_iff_example : (same_string_set ("a" ∷ " b" ∷ []) ("b" ∷ "a" ∷ []) ≡ true) ↔ (
    HasNames ("a" ∷ " b" ∷ [])
    × HasNames ("b" ∷ "a" ∷ [])
    × SameIds ("a" ∷ " b" ∷ []) ("b" ∷ "a" ∷ []))
same_string_set_iff_example = same_string_set_iff ("a" ∷ " b" ∷ []) ("b" ∷ "a" ∷ [])

abbrev fighter : Fighter
fighter = record { score = 250; graze_count = 12; last_seq = 4; damage_dealt = 0 }

abbrev allocation : Allocation
allocation = record {
  match_id = "m";
  mode_id = "duel";
  battle_server_id = "one";
  ruleset_version = "";
  players =
      record { player_id = "p1"; user_id = "ann" }
      ∷ record { player_id = "p2"; user_id = "bob" }
      ∷ [];
  server_seed = 9;
}

abbrev fight : Match
fight = record {
  match_id = "m";
  mode_id = "duel";
  ruleset_version = "";
  status = running;
  server_seed = 9;
  player_ids = "ann" ∷ "bob" ∷ [];
  players = ("ann", fighter) ∷ ("bob", fighter) ∷ [];
  battle_allocation = none;
  battle_result_hash = "";
  battle_result_replay = "";
  battle_result_key_id = "";
  battle_result_at = 0;
  ended_at = 0;
  event_log = [];
}

abbrev service : Service
service = record {
  matches = ("m", fight) ∷ [];
  allocations = ("m", allocation) ∷ [];
  wallets = ("ann", []) ∷ ("bob", []) ∷ [];
  settlements = [];
}

abbrev result : Callback
result = record {
  match_id = "m";
  mode_id = "duel";
  ruleset_version = "r1";
  match_seed = 9;
  winner_player_id = "p1";
  state_hash = "h";
  players =
      record { player_id = "p2"; damage_dealt = 5 }
      ∷ record { player_id = "p1"; damage_dealt = 0 }
      ∷ [];
}

repeat_unchanged_example :
    let after = (apply_battle_result_callback digest "r1" false service result 5).0 in
    (r' : Response) × (apply_battle_result_callback digest "r1" true after result 6
      ≡ (after, answered r'))
    × (r'.duplicate ≡ true)
unfolding apply_battle_result_callback trim_space lookup gensoulkyo.Base.Int64.lt64 same_string_set
    gensoulkyo.Core.BattleChecks.trimmed gensoulkyo.Core.BattleResult.apply_to
    gensoulkyo.Core.BattleChecks.validate_battle_result_callback
    gensoulkyo.Core.BattleChecks.allocation_of gensoulkyo.Core.BattleChecks.validate_with
    gensoulkyo.Core.BattleChecks.expected_ruleset gensoulkyo.Core.BattleChecks.allocation_player_ids
    gensoulkyo.Core.BattleResult.apply_valid gensoulkyo.Core.BattleResult.settle_from_winner
    gensoulkyo.Core.StringSet.count_up gensoulkyo.Core.StringSet.count_down
    gensoulkyo.Core.StringSet.all_zero gensoulkyo.Base.value gensoulkyo.Base.insert
repeat_unchanged_example = repeat_unchanged digest "r1" false true service result 5 6 _ refl

failed_settlement_lost_example :
    let after = (apply_battle_result_callback digest "r1" true service result 5).0 in
    (after.wallets ≡ service.wallets)
    × (after.settlements ≡ service.settlements)
    × ((r : Response) × (apply_battle_result_callback digest "r1" false after result 6
          ≡ (after, answered r))
        × (r.duplicate ≡ true))
unfolding apply_battle_result_callback trim_space lookup gensoulkyo.Base.Int64.lt64 same_string_set
    gensoulkyo.Core.BattleChecks.trimmed gensoulkyo.Core.BattleResult.apply_to
    gensoulkyo.Core.BattleChecks.validate_battle_result_callback
    gensoulkyo.Core.BattleChecks.allocation_of gensoulkyo.Core.BattleChecks.validate_with
    gensoulkyo.Core.BattleChecks.expected_ruleset gensoulkyo.Core.BattleChecks.allocation_player_ids
    gensoulkyo.Core.BattleResult.apply_valid gensoulkyo.Core.BattleResult.settle_from_winner
    gensoulkyo.Core.StringSet.count_up gensoulkyo.Core.StringSet.count_down
    gensoulkyo.Core.StringSet.all_zero gensoulkyo.Base.value gensoulkyo.Base.insert
failed_settlement_lost_example = failed_settlement_lost digest "r1" false service result 5 6 refl
