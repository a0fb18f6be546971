-- ===== src/Core/BattleResult.antt =====
-- The result of a battle as a battle server reports it: ApplyBattleResultCallback and what it calls in
-- runtime/core/battle_result_callback.go, with buildSettlementLocked and applyRewardsLocked of
-- runtime/core/service.go. Scores, graze counts and damage are not negative. Of a settlement the result,
-- the score and the rewards are kept; tasks, events, leaderboards and certification, the audit rows
-- and the fields of ModeState, which repeat the result, are left out. Whether the durable store accepts
-- the settled match is an argument.
pub mod Closed
pub mod Repeats
pub mod Payments
use gensoulkyo.Base.{
  ℕ, ◌+◌, ◌/◌, String, str_append, decimal, Bool, true, false, not, ◌&&◌, ◌||◌, Option, none, some,
  List, [], ◌∷◌, ◌++◌, map, ◌==◌, Dict, lookup, insert, value, or_else, trim_space, ltb, leb, eqb,
  if◌then◌else◌,
}
use gensoulkyo.Base.Int64.{add64, lt64}
use gensoulkyo.Core.Cards.{member_of}
use gensoulkyo.Core.Chance.{short_hash}
use gensoulkyo.Core.StringSet.{same_string_set}
use gensoulkyo.Core.BattleMatch.{
  Status, running, ended, Outcome, win, loss, draw, ResultError, not_found, battle_server,
  invalid_mode, invalid_request, match_state, store_failed, Fighter, Seat, Allocation,
  battle_result_verified, match_ended, Match, Report, Callback, Reward, points, chest_keys,
  card_dust, Settlement, Service, Response, Answer, answered, answered, refused, refused,
}
use gensoulkyo.Core.BattleChecks.{
  validate_battle_result_callback, trimmed, allocation_of, seats_map, seats_of,
}

-- `if entry.DamageDealt > 0`
unfoldable pub report_damage : Dict Fighter → Option String → ℕ → Dict Fighter
report_damage players none damage = players
report_damage players (some user_id) damage = elim (lookup user_id players) [
  | none ↦ players
  | some f ↦
      if eqb damage 0 then players else insert user_id (record f { damage_dealt = damage }) players
]

unfoldable pub report_all : Dict String → Dict Fighter → List Report → Dict Fighter
report_all ids players [] = players
report_all ids players (r ∷ reports) =
    report_all ids (report_damage players (lookup r.player_id ids) r.damage_dealt) reports

abbrev pub result_of : String → String → Outcome
result_of winner user_id = if winner == "" then draw else if user_id == winner then win else loss

-- The rewards of buildSettlementLocked
unfoldable pub rewards_of : Fighter → Outcome → List Reward
rewards_of f result =
    points (add64 100 (f.score / 10))
    ∷ (elim result [ win ↦ chest_keys 1 ∷ [] | loss ↦ [] | draw ↦ [] ]
        ++ (if leb 10 f.graze_count then card_dust (f.graze_count / 10) ∷ [] else []))

abbrev pub credit : String → ℕ → Dict ℕ → Dict ℕ
credit key amount wallet =
    if lt64 0 amount then insert key (add64 (value key wallet) amount) wallet else wallet

-- One reward of applyRewardsLocked
unfoldable pub apply_reward : Reward → Dict ℕ → Dict ℕ
apply_reward (points n) wallet = credit "points" n wallet
apply_reward (chest_keys n) wallet = credit "chest_keys" n wallet
apply_reward (card_dust n) wallet = credit "card_dust" n wallet

-- applyRewardsLocked
unfoldable pub apply_rewards : List Reward → Dict ℕ → Dict ℕ
apply_rewards [] wallet = wallet
apply_rewards (r ∷ rewards) wallet = apply_rewards rewards (apply_reward r wallet)

-- settlementKey
abbrev pub settlement_key : String → String → String
settlement_key match_id user_id = str_append match_id (str_append ":" user_id)

-- The match as settleMatchFromWinnerLocked ends it.
abbrev pub ended_match : Match → ℕ → Match
ended_match m now = record m { status = ended; ended_at = now }

module _ (sha256_hex : String → String) where
  -- playerIDForUser
  unfoldable pub player_id_for_user : String → String → String
  player_id_for_user match_id user_id =
      str_append "p-" (short_hash sha256_hex (str_append match_id (str_append ":" user_id)))

  unfoldable pub users_map : String → List String → Dict String → Dict String
  users_map match_id [] ids = ids
  users_map match_id (u ∷ users) ids =
      users_map match_id users (insert (player_id_for_user match_id u) u ids)

  -- matchPlayerIDMapLocked
  unfoldable pub match_player_id_map : Service → Match → Dict String
  match_player_id_map s m =
      users_map m.match_id m.player_ids (seats_map (seats_of (lookup m.match_id s.allocations)) [])

  -- buildSettlementLocked
  unfoldable pub build_settlement : Match → String → Fighter → Outcome → Settlement
  build_settlement m user_id f result = record {
    match_id = m.match_id;
    user_id = user_id;
    result = result;
    score = f.score;
    replay_id = str_append "replay_" (
        str_append m.match_id (
          str_append "_" (
            short_hash sha256_hex (
              str_append user_id (
                str_append ":"
                  (str_append (decimal f.last_seq) (str_append ":" (decimal f.score))))))));
    rewards = rewards_of f result;
  }

  unfoldable pub settle_user :
      Service → Match → String → String → Option Fighter → Option (Dict ℕ) → Service
  settle_user s m winner user_id none wallet = s
  settle_user s m winner user_id (some f) none = s
  settle_user s m winner user_id (some f) (some wallet) =
      let settlement = build_settlement m user_id f (result_of winner user_id) in
      record s {
        settlements = insert (settlement_key m.match_id user_id) settlement s.settlements;
        wallets = insert user_id (apply_rewards settlement.rewards wallet) s.wallets;
      }

  -- The loop of settleMatchFromWinnerLocked
  unfoldable pub settle_users : Service → Match → String → List String → Service
  settle_users s m winner [] = s
  settle_users s m winner (u ∷ users) =
      settle_users (settle_user s m winner u (lookup u m.players) (lookup u s.wallets)) m winner
        users

  -- battleResultCallbackResponseLocked
  unfoldable pub respond : Service → Match → Callback → Bool → Response
  respond s m req duplicate =
      let ids = match_player_id_map s m in
      let winner = trim_space req.winner_player_id in
      let user_id = or_else (lookup winner ids) "" in
      record {
        winner_user_id = user_id;
        points =
            map
              (λ (entry : String × String).
                (entry.0, if not (winner == "") && entry.0 == winner then 3 else 1))
              ids;
        replay_id = elim (lookup (settlement_key m.match_id user_id) s.settlements) [
          | none ↦ m.battle_result_replay
          | some settlement ↦
              if user_id == "" || settlement.replay_id == ""
              then m.battle_result_replay
              else settlement.replay_id
        ];
        duplicate = duplicate;
      }

  -- The user who won; the empty id is a draw.
  unfoldable pub winner_user : Service → Match → Callback → String
  winner_user s m req =
      let winner = trim_space req.winner_player_id in
      if winner == "" then "" else or_else (lookup winner (match_player_id_map s m)) ""

  -- The match with the verified result, before it is settled.
  unfoldable pub verified : Service → Match → Callback → ℕ → Match
  verified s m req now = record m {
    players = report_all (match_player_id_map s m) m.players req.players;
    battle_result_hash = req.state_hash;
    battle_result_replay = str_append "replay_" m.match_id;
    battle_result_key_id = elim (lookup m.match_id s.allocations) [
      | none ↦ "battle-local-dev"
      | some a ↦ a.battle_server_id
    ];
    battle_result_at = now;
    event_log = m.event_log ++ battle_result_verified ∷ [];
  }

  -- settleMatchFromWinnerLocked, and the response
  unfoldable pub settle_from_winner :
      Bool → Service → Match → String → Callback → ℕ → Service × Answer
  settle_from_winner store_fails s m winner req now =
      let closed = ended_match m now in
      let told = record closed { event_log = closed.event_log ++ match_ended ∷ [] } in
      let kept = record s { matches = insert req.match_id told s.matches } in
      let settled = settle_users kept told winner m.player_ids in
      if store_fails
      then (record s { matches = insert req.match_id closed s.matches }, refused store_failed)
      else (settled, answered (respond settled told req false))

  -- ApplyBattleResultCallback for a match that is there and a result that fits it
  unfoldable pub apply_valid : Bool → Service → Match → Callback → ℕ → Status → Service × Answer
  apply_valid store_fails s m req now ended =
      if m.battle_result_hash == req.state_hash
      then (s, answered (respond s m req true))
      else (s, refused match_state)
  apply_valid store_fails s m req now running =
      settle_from_winner store_fails s (verified s m req now) (winner_user s m req) req now
  apply_valid store_fails s m req now _ = (s, refused match_state)

  module _ (default_rules : String) where
    unfoldable pub apply_to : Bool → Service → Option Match → Callback → ℕ → Service × Answer
    apply_to store_fails s none req now = (s, refused not_found)
    apply_to store_fails s (some m) req now =
        elim (validate_battle_result_callback default_rules req m
          (allocation_of s req.match_id m)) [
            | some e ↦ (s, refused e)
            | none ↦ apply_valid store_fails s m req now m.status
          ]

    -- ApplyBattleResultCallback
    unfoldable pub apply_battle_result_callback : Bool → Service → Callback → ℕ → Service × Answer
    apply_battle_result_callback store_fails s raw now =
        let req = trimmed raw in
        if req.match_id == ""
        then (s, refused invalid_request)
        else apply_to store_fails s (lookup req.match_id s.matches) req now
