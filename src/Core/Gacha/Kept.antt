-- ===== src/Core/Gacha/Kept.antt =====
-- What a slot of a totem opening leaves alone, and what it keeps: runtime/core/gacha.go.
use gensoulkyo.Base.{
  ℕ, ◌≡◌, refl, String, false, Option, none, some, ◌==◌, Dict, lookup, or_else, value, value-insert,
  if◌then◌else◌, arith, Bool-cases, ◌⊎◌, inl, inr, lookup-insert,
}
use gensoulkyo.Base.Int64.{add64, non_positive}
use gensoulkyo.Core.Pity.{PityState, no_pity, apply_pity, apply_pool_pity}
use gensoulkyo.Core.Pity.Runs.{IsPity, apply_pity-IsPity}
use gensoulkyo.Core.Cards.{Rarity, in_catalog}
use gensoulkyo.Core.GachaPools.{
  Pool, Kind, card, character, card_pool, character_pool, CharacterEntry,
}
use gensoulkyo.Core.Gacha.{roll_slot, pick_shot, pick_card, give, give_card, give_shot, draw}
use gensoulkyo.Core.GachaItems.{give_entry}
use gensoulkyo.Core.User.{User}
use gensoulkyo.Core.User.Cards.{grant_card_to_user, credit_dust}
use gensoulkyo.Core.User.Inventory.{IsStocked, grant-IsStocked}

-- A purse that a draw does not touch, the audit trail and the purchases.
pub record Leaves (before after : User) : Type 0 where
  pub gems : value "gems" after.wallet ≡ value "gems" before.wallet
  pub faith : value "faith" after.wallet ≡ value "faith" before.wallet
  pub openings : after.gacha_openings ≡ before.gacha_openings

credit_dust-other :
    (wallet : Dict ℕ) (dust : ℕ) (key : String)
    → ("card_dust" == key) ≡ false
    → value key (credit_dust wallet dust) ≡ value key wallet
credit_dust-other wallet dust key other =
    ground (arith, value-insert "card_dust" key (add64 (value "card_dust" wallet) dust) wallet)

grant-other :
    (user : User) (card_id key : String) (copies now : ℕ)
    → ("card_dust" == key) ≡ false
    → let after = (grant_card_to_user user card_id copies now).0 in
      (value key after.wallet ≡ value key user.wallet)
      × (after.gacha_openings ≡ user.gacha_openings)
      × (after.gacha_pity ≡ user.gacha_pity)
      × (after.characters ≡ user.characters)
unfolding grant_card_to_user
grant-other user card_id key copies now other = elim (Bool-cases (non_positive copies)) [
  | inl none_asked ↦ rw none_asked (refl, refl, refl, refl)
  | inr positive ↦ elim (Bool-cases (in_catalog card_id)) [
    | inr unknown ↦ rw (positive, unknown) (refl, refl, refl, refl)
    | inl known ↦ rw (positive, known) (credit_dust-other user.wallet _ key other, refl, refl, refl)
  ]
]

entry-Leaves :
    (id : String) (user : User) (now : ℕ) (rarity : Rarity) (o : Option CharacterEntry)
    → Leaves user (give_entry id user now rarity o).0
unfolding give_entry
entry-Leaves id user now rarity none = record { gems = refl; faith = refl; openings = refl }
entry-Leaves id user now rarity (some e) = record { gems = refl; faith = refl; openings = refl }

-- gachaPity[poolID]
abbrev pub pity_of : User → String → PityState
pity_of user id = or_else (lookup id user.gacha_pity) no_pity

-- The counters of both shipped pools are below their limits.
unfoldable pub IsCounted : User → Type 0
IsCounted user =
    IsPity card_pool.pity (pity_of user card_pool.pool_id)
    × IsPity character_pool.pity (pity_of user character_pool.pool_id)

entry-pity :
    (id : String) (user : User) (now : ℕ) (rarity : Rarity) (o : Option CharacterEntry)
    → (give_entry id user now rarity o).0.gacha_pity ≡ user.gacha_pity
unfolding give_entry
entry-pity id user now rarity none = refl
entry-pity id user now rarity (some e) = refl

entry-inventory :
    (id : String) (user : User) (now : ℕ) (rarity : Rarity) (o : Option CharacterEntry)
    → (give_entry id user now rarity o).0.inventory ≡ user.inventory
unfolding give_entry
entry-inventory id user now rarity none = refl
entry-inventory id user now rarity (some e) = refl

module _ (sha256_hex : String → String) where
  give-IsStocked :
      (k : Kind) (id seed : String) (user : User) (now index : ℕ) (rarity : Rarity)
      → IsStocked user.inventory
      → IsStocked (give sha256_hex k id seed user now index rarity).0.inventory
  unfolding give give_card give_shot
  give-IsStocked card id seed user now index rarity stocked =
      grant-IsStocked user (pick_card sha256_hex rarity seed index) 1 now (omega arith) stocked
  give-IsStocked character id seed user now index rarity stocked =
      rw (entry-inventory id user now rarity (pick_shot sha256_hex rarity seed index)) stocked

  give-Leaves :
      (k : Kind) (id seed : String) (user : User) (now index : ℕ) (rarity : Rarity)
      → Leaves user (give sha256_hex k id seed user now index rarity).0
  unfolding give give_card give_shot
  give-Leaves card id seed user now index rarity =
      let card_id = pick_card sha256_hex rarity seed index in
      let (gems, openings, pity, characters) = grant-other user card_id "gems" 1 now refl in
      record {
        gems = gems;
        faith = (grant-other user card_id "faith" 1 now refl).0;
        openings = openings;
      }
  give-Leaves character id seed user now index rarity =
      entry-Leaves id user now rarity (pick_shot sha256_hex rarity seed index)

  give-pity :
      (k : Kind) (id seed : String) (user : User) (now index : ℕ) (rarity : Rarity)
      → (give sha256_hex k id seed user now index rarity).0.gacha_pity ≡ user.gacha_pity
  unfolding give give_card give_shot
  give-pity card id seed user now index rarity =
      (grant-other user (pick_card sha256_hex rarity seed index) "gems" 1 now refl).2
  give-pity character id seed user now index rarity =
      entry-pity id user now rarity (pick_shot sha256_hex rarity seed index)

  -- A draw of a pool moves the pool's counters and no other.
  draw-pity :
      (pool : Pool) (count : ℕ) (opening_id seed : String) (now : ℕ) (user : User) (index : ℕ)
      (id : String)
      → (rolled : Rarity) × (pity_of
            (draw sha256_hex pool count opening_id seed user now index).0
            id
          ≡ (if pool.pool_id == id
              then (apply_pity pool.pity (pity_of user pool.pool_id) rolled).0
              else pity_of user id))
  unfolding draw apply_pool_pity
  draw-pity pool count opening_id seed now user index id =
      let rolled = roll_slot sha256_hex pool count seed index in
      (
        rolled,
        rw (give-pity pool.kind _ seed _ now index _) (
            ground (
              arith,
              lookup-insert pool.pool_id id
                  (apply_pity pool.pity (pity_of user pool.pool_id) rolled).0 user.gacha_pity,
            )),
      )

  -- A draw of a shipped pool keeps the counters of both below their limits.
  pub draw-IsCounted :
      (pool : Pool) (count : ℕ) (opening_id seed : String) (now : ℕ) (user : User) (index : ℕ)
      → (pool ≡ card_pool) ⊎ (pool ≡ character_pool)
      → IsCounted user
      → IsCounted (draw sha256_hex pool count opening_id seed user now index).0
  unfolding IsCounted
  draw-IsCounted pool count opening_id seed now user index (inl is_card) (p, q) =
      let (rolled, cards) =
        draw-pity card_pool count opening_id seed now user index "gacha.cards" in
      let (other, shots) =
        draw-pity card_pool count opening_id seed now user index "gacha.characters" in
      rw (is_card, cards, shots)
        ((apply_pity-IsPity card_pool.pity (pity_of user "gacha.cards") rolled p).0, q)
  draw-IsCounted pool count opening_id seed now user index (inr is_character) (p, q) =
      let (rolled, shots) =
        draw-pity character_pool count opening_id seed now user index "gacha.characters" in
      let (other, cards) =
        draw-pity character_pool count opening_id seed now user index "gacha.cards" in
      rw (is_character, cards, shots)
        (p, (apply_pity-IsPity character_pool.pity (pity_of user "gacha.characters") rolled q).0)

  -- A draw leaves the gems, the faith and the audit trail alone.
  pub draw-Leaves :
      (pool : Pool) (count : ℕ) (opening_id seed : String) (now : ℕ) (user : User) (index : ℕ)
      → Leaves user (draw sha256_hex pool count opening_id seed user now index).0
  unfolding draw
  draw-Leaves pool count opening_id seed now user index =
      let l = give-Leaves pool.kind _ seed _ now index _ in
      record { gems = l.gems; faith = l.faith; openings = l.openings }

  -- A draw keeps the card inventory stocked.
  pub draw-IsStocked :
      (pool : Pool) (count : ℕ) (opening_id seed : String) (now : ℕ) (user : User) (index : ℕ)
      → IsStocked user.inventory
      → IsStocked (draw sha256_hex pool count opening_id seed user now index).0.inventory
  unfolding draw
  draw-IsStocked pool count opening_id seed now user index stocked =
      give-IsStocked pool.kind _ seed _ now index _ stocked
