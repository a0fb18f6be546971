-- ===== src/Core/Pity.antt =====
-- The roll of a rarity over a pool's weights and the pity counters: rollGachaRarity, applyGachaPity
-- and gachaGuaranteedRarity of runtime/core/gacha.go, rollChestRarity and applyChestPity of
-- runtime/core/service.go. The chest's functions repeat the totem's.
pub mod Runs
use gensoulkyo.Base.{
  ℕ, zero, suc, ◌+◌, ◌-◌, String, str_append, decimal, Bool, true, false, not, ◌&&◌, List, [], ◌∷◌,
  Dict, lookup, insert, or_else, ltb, leb, eqb, if◌then◌else◌,
}
use gensoulkyo.Base.Int64.{add64, lt64}
use gensoulkyo.Core.Cards.{
  Rarity, common, uncommon, rare, epic, legendary, rarity_rank, same_rarity,
}
use gensoulkyo.Core.Float.{scale}
use gensoulkyo.Core.Chance.{deterministic_unit}

-- ChestPityRules
pub record PityRules : Type 0 where
  pub rare_every : ℕ
  pub epic_every : ℕ

-- ChestPityState; the counters are 64-bit patterns.
pub record PityState : Type 0 where
  pub rare_counter : ℕ
  pub epic_counter : ℕ

abbrev pub no_pity : PityState
no_pity = record { rare_counter = 0; epic_counter = 0 }

-- A pool's weights by rarity; the tables of the source hold small positive numbers.
abbrev pub Weights : Type 0
Weights = List (Rarity × ℕ)

-- weights[rarity]
abbrev pub weight : Weights → Rarity → ℕ
weight [] r = 0
weight ((s, w) ∷ ws) r = let rest = weight ws r in if same_rarity s r then w else rest

abbrev pub total_weight : Weights → ℕ
total_weight [] = 0
total_weight ((r, w) ∷ ws) = w + total_weight ws

-- for _, rarity := range []string{"common", ...}
unfoldable pub rarity_at : Weights → ℕ → ℕ → List Rarity → Rarity
rarity_at weights roll cursor [] = common
rarity_at weights roll cursor (r ∷ rs) =
    let w = weight weights r in
    let skipped = rarity_at weights roll cursor rs in
    let later = rarity_at weights roll (cursor + w) rs in
    if eqb w 0 then skipped else if ltb roll (cursor + w) then r else later

abbrev pub rarities : List Rarity
rarities = common ∷ uncommon ∷ rare ∷ epic ∷ legendary ∷ []

module _ (sha256_hex : String → String) where
  -- rollGachaRarity with the label "gacha:", rollChestRarity with "chest:".
  unfoldable pub roll_rarity : String → Weights → String → ℕ → Rarity
  roll_rarity label weights seed index =
      let total = total_weight weights in
      let draw = deterministic_unit sha256_hex (index + 1) (index + 1) (str_append label seed) 0 in
      if eqb total 0 then common else rarity_at weights (scale draw total) 0 rarities

  -- `for attempt := 0; attempt < 200; attempt++`, with the attempts that are left.
  unfoldable pub guaranteed_from : ℕ → Weights → String → ℕ → Rarity
  guaranteed_from zero weights seed index = rare
  guaranteed_from (suc left) weights seed index =
      let attempt = 200 - suc left in
      let rolled =
        roll_rarity "gacha:" weights (str_append seed (str_append "#guarantee" (decimal attempt)))
          index in
      let next = guaranteed_from left weights seed index in
      if leb (rarity_rank rare) (rarity_rank rolled) then rolled else next

  -- gachaGuaranteedRarity
  unfoldable pub gacha_guaranteed_rarity : Weights → String → ℕ → Rarity
  gacha_guaranteed_rarity = guaranteed_from 200

-- Whether the tier of `every` is due: the counter has reached it and the result is below it.
abbrev pub due : ℕ → ℕ → Rarity → Rarity → Bool
due every counter result tier =
    not (eqb every 0) && not (lt64 counter every) && ltb (rarity_rank result) (rarity_rank tier)

abbrev pub reset : Rarity → Rarity → ℕ → ℕ
reset result tier counter = if leb (rarity_rank tier) (rarity_rank result) then 0 else counter

-- The body of applyGachaPity on the state of one pool.
unfoldable pub apply_pity : PityRules → PityState → Rarity → PityState × Rarity
apply_pity rules state rolled =
    let rare_counter = add64 state.rare_counter 1 in
    let epic_counter = add64 state.epic_counter 1 in
    let after_epic = if due rules.epic_every epic_counter rolled epic then epic else rolled in
    let result = if due rules.rare_every rare_counter after_epic rare then rare else after_epic in
    (
      record {
        rare_counter = reset result rare rare_counter;
        epic_counter = reset result epic epic_counter;
      },
      result,
    )

-- applyGachaPity and applyChestPity
unfoldable pub apply_pool_pity :
    Dict PityState → String → PityRules → Rarity → Dict PityState × Rarity
apply_pool_pity counters pool_id rules rolled =
    let (state, result) = apply_pity rules (or_else (lookup pool_id counters) no_pity) rolled in
    (insert pool_id state counters, result)
