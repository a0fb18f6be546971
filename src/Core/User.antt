-- ===== src/Core/User.antt =====
-- What an identity owns in the core service: the economy's fields of userState (runtime/core/service.go),
-- with the entries of runtime/core/types.go and runtime/core/gacha.go. The maps that the source makes on
-- first use are empty maps. Numbers in wallets and inventories are 64-bit patterns.
pub mod Cards
pub mod Inventory
pub mod Upgrades
use gensoulkyo.Base.{ℕ, String, Bool, Option, List, Dict}
use gensoulkyo.Core.Cards.{Rarity}
use gensoulkyo.Core.Pity.{PityState}

-- Errors by their code; the messages are left out.
pub data CoreError : Type 0 where
  invalid_request not_found insufficient_currency insufficient_funds already_claimed : CoreError
  out_of_window out_of_stock forbidden_field : CoreError

pub data Reply {ℓ} (A : Type ℓ) : Type ℓ where
  done : A → Reply A
  refused : CoreError → Reply A

-- CardInventoryEntry; 0 is the zero time.
pub record CardEntry : Type 0 where
  pub card_id : String
  pub copies : ℕ
  pub level : ℕ
  pub first_obtained_at : ℕ

pub data Source : Type 0 where
  default gacha faith_exchange : Source

-- CharacterOwnership
pub record Ownership : Type 0 where
  pub shot_id : String
  pub chara : String
  pub source : Source
  pub dupes : ℕ
  pub obtained_at : ℕ

-- GachaPullResult; the ids that a pool does not set are empty.
pub record PullResult : Type 0 where
  pub id : String
  pub card_id : String
  pub shot_id : String
  pub chara : String
  pub name_key : String
  pub rarity : Rarity
  pub is_new : Bool
  pub dust : ℕ
  pub faith_gained : ℕ

-- GachaOpeningRecord
pub record Opening : Type 0 where
  pub opening_id : String
  pub pool_id : String
  pub count : ℕ
  pub cost_gems : ℕ
  pub server_seed : String
  pub results : List PullResult
  pub opened_at : ℕ

-- userState
pub record User : Type 0 where
  pub user_id : String
  pub wallet : Dict ℕ
  pub inventory : Dict CardEntry
  pub characters : Dict Ownership
  pub gacha_pity : Dict PityState
  pub gacha_openings : List Opening
  pub gacha_last_results : List PullResult
  pub checkin_cycle_day : ℕ
  pub checkin_streak : ℕ
  pub checkin_last_day : String
  pub checkin_claimed_days : Dict ℕ
  pub shop_purchased : Dict ℕ
  pub shop_inventory : Dict ℕ
