-- ===== src/Core/GachaPools.antt =====
-- The totem pools and the shots they hold: the tables of runtime/core/gacha.go.
use gensoulkyo.Base.{
  String, str_append, ◌==◌, Option, none, some, List, [], ◌∷◌, ◌++◌, Bool, true, ℕ, if◌then◌else◌,
}
use gensoulkyo.Core.Cards.{Rarity, common, uncommon, rare, epic}
use gensoulkyo.Core.Pity.{Weights, PityRules}

pub data Kind : Type 0 where
  card character : Kind

-- GachaPool, less the names and dates that no operation reads
pub record Pool : Type 0 where
  pub pool_id : String
  pub kind : Kind
  pub cost_gems : ℕ
  pub cost_ten_gems : ℕ
  pub weights : Weights
  pub pity : PityRules
  pub enabled : Bool

abbrev pub card_pool : Pool
card_pool = record {
  pool_id = "gacha.cards";
  kind = card;
  cost_gems = 200;
  cost_ten_gems = 1800;
  weights = (common, 70) ∷ (uncommon, 20) ∷ (rare, 8) ∷ (epic, 2) ∷ [];
  pity = record { rare_every = 10; epic_every = 60 };
  enabled = true;
}

abbrev pub character_pool : Pool
character_pool = record {
  pool_id = "gacha.characters";
  kind = character;
  cost_gems = 200;
  cost_ten_gems = 1800;
  weights = (common, 50) ∷ (uncommon, 30) ∷ (rare, 14) ∷ (epic, 6) ∷ [];
  pity = record { rare_every = 10; epic_every = 30 };
  enabled = true;
}

abbrev gacha_pools : List Pool
gacha_pools = card_pool ∷ character_pool ∷ []

abbrev pool_among : List Pool → String → Option Pool
pool_among [] id = none
pool_among (p ∷ ps) id = if p.pool_id == id then some p else pool_among ps id

-- gachaPoolByID
unfoldable pub gacha_pool_by_id : String → Option Pool
gacha_pool_by_id = pool_among gacha_pools

-- gachaCharacterEntry
pub record CharacterEntry : Type 0 where
  pub shot_id : String
  pub chara : String
  pub rarity : Rarity

-- The four rows of a character.
abbrev forms : String → List CharacterEntry
forms chara =
    record { shot_id = str_append chara "A1"; chara = chara; rarity = common }
    ∷ record { shot_id = str_append chara "A2"; chara = chara; rarity = uncommon }
    ∷ record { shot_id = str_append chara "B1"; chara = chara; rarity = rare }
    ∷ record { shot_id = str_append chara "B2"; chara = chara; rarity = epic }
    ∷ []

abbrev all_forms : List String → List CharacterEntry
all_forms [] = []
all_forms (chara ∷ more) = forms chara ++ all_forms more

-- gachaCharacterTable
abbrev pub gacha_character_table : List CharacterEntry
gacha_character_table = all_forms (
    "Reimu" ∷ "Marisa" ∷ "Sanae" ∷ "Sakuya" ∷ "Reisen" ∷ "Youmu" ∷ "Aya" ∷ "Seija" ∷ "Cirno"
    ∷ "Yukari" ∷ "Alice" ∷ "Remillia" ∷ "Yuyuko" ∷ [])

abbrev pub entry_among : List CharacterEntry → String → Option CharacterEntry
entry_among [] id = none
entry_among (e ∷ es) id = if e.shot_id == id then some e else entry_among es id

-- gachaCharacterEntryByShot
unfoldable pub gacha_character_entry_by_shot : String → Option CharacterEntry
gacha_character_entry_by_shot = entry_among gacha_character_table
