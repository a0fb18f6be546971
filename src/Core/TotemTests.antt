-- ===== src/Core/TotemTests.antt =====
-- Runs of the economy of runtime/core: draws, the pity counters, exchanges, upgrades and purchases.
use gensoulkyo.Base.{
  ◌+◌, ◌-◌, ◌*◌, ◌≡◌, refl, arith, String, false, some, List, [], ◌∷◌, All, inr, lookup, insert,
  value, length, differ, trim_space,
}
use gensoulkyo.Core.Cards.{Rarity, common, uncommon, rare, epic, rarity_rank, dust_value_for_card}
use gensoulkyo.Core.Pity.{PityRules, no_pity}
use gensoulkyo.Core.Pity.Runs.{IsPity, Reaches, pulls, rare_within}
use gensoulkyo.Core.GachaPools.{card, card_pool, character_pool}
use gensoulkyo.Core.Gacha.{gacha_pull}
use gensoulkyo.Core.FaithExchange.{exchange_faith}
use gensoulkyo.Core.GachaItems.{PullRequest, ensure_default_characters}
use gensoulkyo.Core.Gacha.Given.{IsGiven}
use gensoulkyo.Core.Gacha.Slots.{EndsRare}
use gensoulkyo.Core.Gacha.Pulls.{pull_succeeds}
use gensoulkyo.Core.Gacha.Keeping.{IsKept, pull-IsKept}
use gensoulkyo.Core.Gacha.Exchange.{exchange_succeeds}
use gensoulkyo.Core.User.{User, CardEntry, Opening, Ownership, faith_exchange, done}
use gensoulkyo.Core.User.Cards.{UpgradeRequest, entry_or_new, grant_card_to_user, upgrade_card}
use gensoulkyo.Core.User.Inventory.{IsStocked, grant_split}
use gensoulkyo.Core.User.Upgrades.{upgrade_succeeds}
use gensoulkyo.Core.Shop.{PurchaseRequest, stamina_potion, purchase_shop_item}
use gensoulkyo.Core.Shop.Purchases.{purchase_succeeds, free_purchase, purchase_gives_no_dust}

abbrev digest : String → String
digest text = "9f86d081884c7d65"

abbrev lens : CardEntry
lens = record { card_id = "focus_lens"; copies = 1; level = 2; first_obtained_at = 1 }

abbrev pub ann : User
ann = record {
  user_id = "ann";
  wallet = ("gold", 2000) ∷ ("gems", 2000) ∷ ("card_dust", 40) ∷ ("faith", 151) ∷ [];
  inventory = ("focus_lens", lens) ∷ [];
  characters = [];
  gacha_pity = [];
  gacha_openings = [];
  gacha_last_results = [];
  checkin_cycle_day = 1;
  checkin_streak = 4;
  checkin_last_day = "a";
  checkin_claimed_days = [];
  shop_purchased = [];
  shop_inventory = [];
}

abbrev rules : PityRules
rules = record { rare_every = 3; epic_every = 4 }

fresh-IsPity : IsPity rules no_pity
fresh-IsPity = record {
  rare_below = omega arith;
  epic_below = omega arith;
  rare_fits = omega arith;
  epic_fits = omega arith;
}

abbrev rolls : List Rarity
rolls = common ∷ uncommon ∷ common ∷ common ∷ []

rare_within_example : Reaches rare (pulls rules no_pity rolls)
rare_within_example = rare_within rules no_pity rolls fresh-IsPity (omega arith)

pub ann-IsStocked : IsStocked ann.inventory
unfolding IsStocked lookup
ann-IsStocked id entry found = ground (arith, found)

ann-IsKept : IsKept ann
unfolding gensoulkyo.Core.Gacha.Kept.IsCounted lookup
ann-IsKept = record {
  stocked = ann-IsStocked;
  counted = (
    record {
      rare_below = omega arith;
      epic_below = omega arith;
      rare_fits = omega arith;
      epic_fits = omega arith;
    },
    record {
      rare_below = omega arith;
      epic_below = omega arith;
      rare_fits = omega arith;
      epic_fits = omega arith;
    },
  );
  audited = omega arith;
}

abbrev ten : PullRequest
ten = record { pool_id = "gacha.cards"; count = 10 }

abbrev two : PullRequest
two = record { pool_id = "gacha.cards"; count = 2 }

pull_succeeds_example :
    let (seq, after, reply) = gacha_pull digest 0 ann ten 5 in
    (audit : Opening) × (reply ≡ done audit)
    × (audit.cost_gems ≡ 1800)
    × (length audit.results ≡ 10)
    × All (IsGiven card) audit.results
    × ((ten.count ≡ 10) → EndsRare audit.results)
    × (value "gems" after.wallet ≡ value "gems" ann.wallet - 1800)
    × (value "faith" after.wallet ≡ value "faith" ann.wallet + 10)
unfolding trim_space value lookup gensoulkyo.Core.GachaPools.gacha_pool_by_id
pull_succeeds_example =
    pull_succeeds digest 0 ann ten 5 card_pool refl (inr refl) (omega arith) (omega arith)
      (omega arith)

pull-IsKept_example : IsKept (gacha_pull digest 0 ann ten 5).1
pull-IsKept_example = pull-IsKept digest 0 ann ten 5 ann-IsKept

exchange_succeeds_example :
    let (after, reply) = exchange_faith ann "MarisaB2" 5 in
    (reply ≡ done 150)
    × (value "faith" after.wallet ≡ value "faith" ann.wallet - 150)
    × ((owned : Ownership) × (lookup "MarisaB2" after.characters ≡ some owned)
        × (owned.chara ≡ "Marisa")
        × (owned.source ≡ faith_exchange))
unfolding gensoulkyo.Core.GachaPools.gacha_character_entry_by_shot trim_space lookup
    ensure_default_characters insert value
exchange_succeeds_example =
    exchange_succeeds ann "MarisaB2" 5
      (record { shot_id = "MarisaB2"; chara = "Marisa"; rarity = epic }) refl (differ refl) refl
      (omega arith) (omega arith)

grant_split_example :
    let (after, g) = grant_card_to_user ann "focus_lens" 3 5 in
    (g.accepted + g.overflow ≡ 3)
    × (g.accepted ≡ 1)
    × ((entry_or_new (lookup "focus_lens" after.inventory) "focus_lens" 5).copies ≡ 2)
    × (g.dust ≡ g.overflow * dust_value_for_card "focus_lens")
    × (value "card_dust" after.wallet ≡ value "card_dust" ann.wallet + g.dust)
unfolding gensoulkyo.Core.Cards.in_catalog value lookup grant_card_to_user
    gensoulkyo.Base.Int64.non_positive gensoulkyo.Base.Int64.sub64
grant_split_example =
    grant_split ann "focus_lens" 3 5 ann-IsStocked refl (omega arith) (omega arith) (omega arith)

abbrev upgrade : UpgradeRequest
upgrade = record { card_id = " focus_lens"; target_level = 3; client_result_authoritative = false }

upgrade_succeeds_example :
    let (after, reply) = upgrade_card ann upgrade 5 in
    (reply ≡ done (record { cost = 10; old_level = 2; new_level = 3 }))
    × (value "card_dust" after.wallet ≡ value "card_dust" ann.wallet - 10)
    × ((upgraded : CardEntry) × (lookup "focus_lens" after.inventory ≡ some upgraded)
        × (upgraded.level ≡ 3)
        × (upgraded.copies ≡ 1))
unfolding gensoulkyo.Core.Cards.in_catalog trim_space lookup dust_value_for_card value
upgrade_succeeds_example =
    upgrade_succeeds ann upgrade lens 5 refl refl (differ refl) refl (differ refl) (omega arith)
      (omega arith) (omega arith) (omega arith) (inr refl) (omega arith) (omega arith)

abbrev order : PurchaseRequest
order = record { item_id = "stamina_potion"; count = 3 }

purchase_succeeds_example :
    let (after, reply) = purchase_shop_item ann order in
    (reply ≡ done (record { count = 3; spent = 900 }))
    × (value "gold" after.wallet ≡ value "gold" ann.wallet - 900)
    × (value "stamina_potion" after.shop_inventory ≡ value "stamina_potion" ann.shop_inventory + 3)
unfolding gensoulkyo.Core.Shop.shop_item_by_id trim_space value lookup
purchase_succeeds_example =
    purchase_succeeds ann order stamina_potion refl (omega arith) (omega arith) (omega arith)
      (omega arith) (omega arith)

free_purchase_example :
    let (after, reply) =
      purchase_shop_item ann (record { item_id = "stamina_potion"; count = 4611686018427387904 }) in
    (reply ≡ done (record { count = 4611686018427387904; spent = 0 }))
    × (value "gold" after.wallet ≡ value "gold" ann.wallet)
unfolding gensoulkyo.Core.Shop.shop_item_by_id trim_space value lookup
free_purchase_example = free_purchase ann stamina_potion "stamina_potion" refl (omega arith)

purchase_gives_no_dust_example :
    value "card_dust" (purchase_shop_item ann order).0.wallet ≡ value "card_dust" ann.wallet
purchase_gives_no_dust_example = purchase_gives_no_dust ann order "card_dust" (differ refl)
