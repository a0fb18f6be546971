-- ===== src/Core/Cards.antt =====
-- The card catalog with its rarities: runtime/core/service.go.
use gensoulkyo.Base.{
  ℕ, ◌≤◌, String, str_append, Bool, true, false, Option, none, some, List, [], ◌∷◌, ◌==◌, Dict,
  lookup, if◌then◌else◌, arith,
}

-- The rarities that the source spells as strings.
pub data Rarity : Type 0 where
  common uncommon rare epic legendary : Rarity

abbrev pub rarity_rank : Rarity → ℕ
rarity_rank legendary = 4
rarity_rank epic = 3
rarity_rank rare = 2
rarity_rank uncommon = 1
rarity_rank common = 0

abbrev pub rarity_name : Rarity → String
rarity_name common = "common"
rarity_name uncommon = "uncommon"
rarity_name rare = "rare"
rarity_name epic = "epic"
rarity_name legendary = "legendary"

abbrev pub same_rarity : Rarity → Rarity → Bool
same_rarity common common = true
same_rarity uncommon uncommon = true
same_rarity rare rare = true
same_rarity epic epic = true
same_rarity legendary legendary = true
same_rarity _ _ = false

abbrev pub server_card_rarities : Dict Rarity
server_card_rarities =
    ("focus_lens", common)
    ∷ ("hitbox_charm", uncommon)
    ∷ ("density_surge", rare)
    ∷ ("tempo_break", uncommon)
    ∷ ("bomb_amplifier", common)
    ∷ ("guard_seal", rare)
    ∷ ("graze_engine", common)
    ∷ ("draw_sigil", common)
    ∷ ("aim_baffle", rare)
    ∷ ("purge_charm", uncommon)
    ∷ ("curve_prism", uncommon)
    ∷ ("last_arc", epic)
    ∷ ("mirror_lance", rare)
    ∷ ("purge_bell", uncommon)
    ∷ ("aegis_ward", rare)
    ∷ ("finale_arc", epic)
    ∷ ("frost_arc", uncommon)
    ∷ ("ember_lance", uncommon)
    ∷ ("iron_veil", uncommon)
    ∷ ("thunder_fall", epic)
    ∷ []

-- The keys of serverCardCatalog in the order of sortedCardCatalogIDs.
abbrev pub sorted_card_catalog_ids : List String
sorted_card_catalog_ids =
    "aegis_ward" ∷ "aim_baffle" ∷ "bomb_amplifier" ∷ "curve_prism" ∷ "density_surge" ∷ "draw_sigil"
    ∷ "ember_lance" ∷ "finale_arc" ∷ "focus_lens" ∷ "frost_arc" ∷ "graze_engine" ∷ "guard_seal"
    ∷ "hitbox_charm" ∷ "iron_veil" ∷ "last_arc" ∷ "mirror_lance" ∷ "purge_bell" ∷ "purge_charm"
    ∷ "tempo_break" ∷ "thunder_fall" ∷ []

abbrev pub member_of : String → List String → Bool
member_of x [] = false
member_of x (y ∷ ys) = if y == x then true else member_of x ys

-- serverCardRarities[cardID]
abbrev pub rarity_of : String → Option Rarity
unfolding lookup
rarity_of card_id = lookup card_id server_card_rarities

-- _, ok := serverCardCatalog[cardID]
unfoldable pub in_catalog : String → Bool
in_catalog card_id = member_of card_id sorted_card_catalog_ids

abbrev dust_value : Option Rarity → ℕ
dust_value (some legendary) = 100
dust_value (some epic) = 60
dust_value (some rare) = 25
dust_value (some uncommon) = 10
dust_value _ = 5

-- dustValueForCard
unfoldable pub dust_value_for_card : String → ℕ
dust_value_for_card card_id = dust_value (rarity_of card_id)

-- cardNameKey
unfoldable pub card_name_key : String → String
card_name_key card_id =
    if card_id == "" then "" else str_append "card." (str_append card_id ".name")

value_bounds : (r : Option Rarity) → (5 ≤ dust_value r) × (dust_value r ≤ 100)
value_bounds none = (omega arith, omega arith)
value_bounds (some common) = (omega arith, omega arith)
value_bounds (some uncommon) = (omega arith, omega arith)
value_bounds (some rare) = (omega arith, omega arith)
value_bounds (some epic) = (omega arith, omega arith)
value_bounds (some legendary) = (omega arith, omega arith)

pub dust_value_for_card-bounds :
    (card_id : String) → (5 ≤ dust_value_for_card card_id) × (dust_value_for_card card_id ≤ 100)
unfolding dust_value_for_card
dust_value_for_card-bounds card_id = value_bounds (rarity_of card_id)
