-- ===== src/Core/BattleMatch.antt =====
-- The data of a battle and its result: matchState, the allocation of a battle server, the result that
-- it reports and the settlements, of runtime/core/types.go, service.go and battle_result_callback.go.
use gensoulkyo.Base.{ℕ, String, Bool, Option, List, Dict}

pub data Status : Type 0 where
  loading running ended abandoned expired : Status

pub data Outcome : Type 0 where
  win loss draw : Outcome

pub data ResultError : Type 0 where
  not_found battle_server invalid_mode invalid_request match_state store_failed : ResultError

-- What the settlement reads of a playerState.
pub record Fighter : Type 0 where
  pub score : ℕ
  pub graze_count : ℕ
  pub last_seq : ℕ
  pub damage_dealt : ℕ

-- BattleAllocationPlayer
pub record Seat : Type 0 where
  pub player_id : String
  pub user_id : String

-- BattleServerAllocation
pub record Allocation : Type 0 where
  pub match_id : String
  pub mode_id : String
  pub battle_server_id : String
  pub ruleset_version : String
  pub players : List Seat
  pub server_seed : ℕ

pub data Event : Type 0 where
  battle_result_verified match_ended : Event

-- matchState
pub record Match : Type 0 where
  pub match_id : String
  pub mode_id : String
  pub ruleset_version : String
  pub status : Status
  pub server_seed : ℕ
  pub player_ids : List String
  pub players : Dict Fighter
  pub battle_allocation : Option Allocation
  pub battle_result_hash : String
  pub battle_result_replay : String
  pub battle_result_key_id : String
  pub battle_result_at : ℕ
  pub ended_at : ℕ
  pub event_log : List Event

-- BattleResultPlayer
pub record Report : Type 0 where
  pub player_id : String
  pub damage_dealt : ℕ

-- BattleResultCallback; the seed is a uint64.
pub record Callback : Type 0 where
  pub match_id : String
  pub mode_id : String
  pub ruleset_version : String
  pub match_seed : ℕ
  pub winner_player_id : String
  pub state_hash : String
  pub players : List Report

-- RewardItem
pub data Reward : Type 0 where
  points chest_keys card_dust : ℕ → Reward

-- MatchEndEvent
pub record Settlement : Type 0 where
  pub match_id : String
  pub user_id : String
  pub result : Outcome
  pub score : ℕ
  pub replay_id : String
  pub rewards : List Reward

-- The service: `wallets` are those of its users.
pub record Service : Type 0 where
  pub matches : Dict Match
  pub allocations : Dict Allocation
  pub wallets : Dict (Dict ℕ)
  pub settlements : Dict Settlement

-- BattleResultCallbackResponse
pub record Response : Type 0 where
  pub winner_user_id : String
  pub points : Dict ℕ
  pub replay_id : String
  pub duplicate : Bool

pub data Answer : Type 0 where
  answered : Response → Answer
  refused : ResultError → Answer
