-- ===== src/Core/BattleResult/Closed.antt =====
-- A match that a verified result has closed, by settleMatchFromWinnerLocked of
-- runtime/core/battle_result_callback.go.
use gensoulkyo.Base.{ℕ, ◌≡◌, refl, ◌∙◌, String, Option, none, some, List, [], ◌∷◌, Dict, lookup}
use gensoulkyo.Core.BattleResult.{settle_user, settle_users}
use gensoulkyo.Core.BattleChecks.{
  validate_battle_result_callback, validate_with, allocation_of, expected_ruleset,
}
use gensoulkyo.Core.BattleMatch.{ended, Match, Callback, Service, Allocation, Fighter}

-- The parts of the service that a settlement leaves alone.
pub record Keeps (s s' : Service) : Type 0 where
  pub allocations : s'.allocations ≡ s.allocations
  pub matches : s'.matches ≡ s.matches

-- A match with the identity of another.
pub record SameMatch (m m' : Match) : Type 0 where
  pub match_id : m'.match_id ≡ m.match_id
  pub mode_id : m'.mode_id ≡ m.mode_id
  pub ruleset_version : m'.ruleset_version ≡ m.ruleset_version
  pub server_seed : m'.server_seed ≡ m.server_seed
  pub battle_allocation : m'.battle_allocation ≡ m.battle_allocation

validate-SameMatch :
    (rules : String) (req : Callback) (m m' : Match) (a : Option Allocation)
    → SameMatch m m'
    → validate_battle_result_callback rules req m' a ≡ validate_battle_result_callback rules req m a
unfolding validate_battle_result_callback validate_with expected_ruleset
validate-SameMatch rules req m m' none same = refl
validate-SameMatch rules req m m' (some a) same =
    rw (same.match_id, same.mode_id, same.ruleset_version, same.server_seed)

module _ (sha256_hex : String → String) where
  settle_user-Keeps :
      (s : Service) (m : Match) (winner u : String) (f : Option Fighter) (w : Option (Dict ℕ))
      → Keeps s (settle_user sha256_hex s m winner u f w)
  unfolding settle_user
  settle_user-Keeps s m winner u none w = record { allocations = refl; matches = refl }
  settle_user-Keeps s m winner u (some f) none = record { allocations = refl; matches = refl }
  settle_user-Keeps s m winner u (some f) (some w) = record { allocations = refl; matches = refl }

  pub settle_users-Keeps :
      (users : List String) (s : Service) (m : Match) (winner : String)
      → Keeps s (settle_users sha256_hex s m winner users)
  unfolding settle_users
  settle_users-Keeps [] s m winner = record { allocations = refl; matches = refl }
  settle_users-Keeps (u ∷ users) s m winner =
      let f = lookup u m.players in
      let w = lookup u s.wallets in
      let first = settle_user-Keeps s m winner u f w in
      let rest = settle_users-Keeps users (settle_user sha256_hex s m winner u f w) m winner in
      record {
        allocations = rest.allocations ∙ first.allocations;
        matches = rest.matches ∙ first.matches;
      }

-- What stands in the service after a result was verified, whether the store took it or not.
pub record IsClosed (rules : String) (req : Callback) (s' : Service) : Type 0 where
  pub closed : Match
  pub stands : lookup req.match_id s'.matches ≡ some closed
  pub fits :
      validate_battle_result_callback rules req closed (allocation_of s' req.match_id closed) ≡ none
  pub over : closed.status ≡ ended
  pub hash : closed.battle_result_hash ≡ req.state_hash

allocation_of-SameMatch :
    (s s' : Service) (id : String) (m m' : Match)
    → s'.allocations ≡ s.allocations
    → SameMatch m m'
    → allocation_of s' id m' ≡ allocation_of s id m
unfolding allocation_of
allocation_of-SameMatch s s' id m m' e same = rw (e, same.battle_allocation)

pub closed_lem :
    (rules : String) (req : Callback) (s s' : Service) (m m' : Match)
    → s'.allocations ≡ s.allocations
    → SameMatch m m'
    → lookup req.match_id s'.matches ≡ some m'
    → m'.status ≡ ended
    → m'.battle_result_hash ≡ req.state_hash
    → validate_battle_result_callback rules req m (allocation_of s req.match_id m) ≡ none
    → IsClosed rules req s'
closed_lem rules req s s' m m' e same stands over hash valid = record {
  closed = m';
  stands = stands;
  fits =
      rw (allocation_of-SameMatch s s' req.match_id m m' e same)
        (validate-SameMatch rules req m m' (allocation_of s req.match_id m) same ∙ valid);
  over = over;
  hash = hash;
}
