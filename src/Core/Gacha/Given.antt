-- ===== src/Core/Gacha/Given.antt =====
-- What a slot of a totem opening gives: the rarities that the shipped pools roll and the card or shot
-- that is picked for one, of runtime/core/gacha.go.
use gensoulkyo.Base.{
  ℕ, zero, suc, ◌+◌, ◌≤◌, ◌<◌, ◌≡◌, refl, ap, String, Bool, true, false, Option, none, some, List,
  [], ◌∷◌, lookup, or_else, eqb, if◌then◌else◌, length, All, arith, Bool-cases, inl, inr,
}
use gensoulkyo.Core.Cards.{
  Rarity, common, uncommon, rare, epic, legendary, rarity_rank, same_rarity, rarity_of,
  sorted_card_catalog_ids,
}
use gensoulkyo.Core.Chance.{pick, get_elem?}
use gensoulkyo.Core.Pity.{
  Weights, weight, total_weight, rarity_at, rarities, roll_rarity, guaranteed_from,
  gacha_guaranteed_rarity,
}
use gensoulkyo.Core.GachaPools.{Pool, Kind, card, character, CharacterEntry, gacha_character_table}
use gensoulkyo.Core.Gacha.{roll_slot, pick_shot, pick_card}
use gensoulkyo.Core.GachaItems.{has_rarity, all_if_empty, cards_of, shots_of}
use gensoulkyo.Core.User.{PullResult}

same_rarity-eq : (r s : Rarity) → same_rarity r s ≡ true → r ≡ s
same_rarity-eq r s h = ground arith

has_rarity-eq : (o : Option Rarity) (r : Rarity) → has_rarity o r ≡ true → o ≡ some r
has_rarity-eq none r h = ground arith
has_rarity-eq (some s) r h = ap (λ x. some x) (same_rarity-eq s r h)

-- A rarity that the shipped pools can give.
abbrev pub IsShipped : Rarity → Type 0
IsShipped r = rarity_rank r ≤ 3

either-IsShipped :
    (b : Bool) (r s : Rarity) → IsShipped r → IsShipped s → IsShipped (if b then r else s)
either-IsShipped true r s p q = p
either-IsShipped false r s p q = q

rarity_at-IsShipped :
    (weights : Weights) (roll cursor : ℕ) (rs : List Rarity)
    → weight weights legendary ≡ 0
    → IsShipped (rarity_at weights roll cursor rs)
unfolding rarity_at
rarity_at-IsShipped weights roll cursor [] absent = omega arith
rarity_at-IsShipped weights roll cursor (r ∷ rs) absent =
    let skipped = rarity_at-IsShipped weights roll cursor rs absent in
    let later = rarity_at-IsShipped weights roll (cursor + weight weights r) rs absent in
    ground (arith, skipped, later, absent)

module _ {ℓ} {A : Type ℓ} (P : A → Type 0) where
  get_elem?-All :
      (xs : List A) (i : ℕ) → i < length xs → All P xs → (x : A) × (get_elem? xs i ≡ some x) × P x
  get_elem?-All [] i h ps = absurd (omega (arith, h))
  get_elem?-All (x ∷ xs) zero h (p, ps) = (x, refl, p)
  get_elem?-All (x ∷ xs) (suc i) h (p, ps) = get_elem?-All xs i (omega (arith, h)) ps

  pick-All :
      (sha256_hex : String → String) (xs : List A) (seed tick : ℕ) (label : String)
      → 0 < length xs
      → All P xs
      → (x : A) × (pick sha256_hex xs seed tick label ≡ some x) × P x
  unfolding pick
  pick-All sha256_hex xs seed tick label some_candidate ps = get_elem?-All xs _ (ground arith) ps

all_if_empty_lem : (ids : List String) → 0 < length ids → all_if_empty ids ≡ ids
all_if_empty_lem [] h = absurd (omega (arith, h))
all_if_empty_lem (id ∷ ids) h = refl

pick_or_lem :
    (P : String → Type 0) (sha256_hex : String → String) (ids : List String) (seed tick : ℕ)
    (label : String)
    → 0 < length ids
    → All P ids
    → P (or_else (pick sha256_hex (all_if_empty ids) seed tick label) "")
pick_or_lem P sha256_hex ids seed tick label some_candidate ps =
    let (id, picked, p) = pick-All P sha256_hex ids seed tick label some_candidate ps in
    rw (all_if_empty_lem ids some_candidate, picked) p

cards_of-All : (r : Rarity) (ids : List String) → All (λ id. rarity_of id ≡ some r) (cards_of r ids)
cards_of-All r [] = tt
cards_of-All r (id ∷ ids) = elim (Bool-cases (has_rarity (rarity_of id) r)) [
  | inr other ↦ rw (other, All) (cards_of-All r ids)
  | inl same ↦ rw (same, All) (has_rarity-eq (rarity_of id) r same, cards_of-All r ids)
]

cards_of-nonempty : (r : Rarity) → IsShipped r → 0 < length (cards_of r sorted_card_catalog_ids)
unfolding lookup
cards_of-nonempty common h = omega arith
cards_of-nonempty uncommon h = omega arith
cards_of-nonempty rare h = omega arith
cards_of-nonempty epic h = omega arith
cards_of-nonempty legendary h = absurd (omega (arith, h))

shots_of-All : (r : Rarity) (es : List CharacterEntry) → All (λ e. e.rarity ≡ r) (shots_of r es)
shots_of-All r [] = tt
shots_of-All r (e ∷ es) = elim (Bool-cases (same_rarity e.rarity r)) [
  | inr other ↦ rw (other, All) (shots_of-All r es)
  | inl same ↦ rw (same, All) (same_rarity-eq e.rarity r same, shots_of-All r es)
]

shots_of-nonempty : (r : Rarity) → IsShipped r → 0 < length (shots_of r gacha_character_table)
shots_of-nonempty common h = omega arith
shots_of-nonempty uncommon h = omega arith
shots_of-nonempty rare h = omega arith
shots_of-nonempty epic h = omega arith
shots_of-nonempty legendary h = absurd (omega (arith, h))

-- What a result of a pool's draw is: a card of the result's rarity, or a shot's id and its character.
unfoldable pub IsGiven : Kind → PullResult → Type 0
IsGiven card result = (rarity_of result.card_id ≡ some result.rarity) × (result.faith_gained ≡ 0)
IsGiven character result =
    (e : CharacterEntry) × (e.shot_id ≡ result.shot_id)
    × (e.chara ≡ result.chara)
    × (e.rarity ≡ result.rarity)
    × (result.dust ≡ 0)

module _ (sha256_hex : String → String) where
  roll_rarity-IsShipped :
      (label : String) (weights : Weights) (seed : String) (index : ℕ)
      → weight weights legendary ≡ 0
      → IsShipped (roll_rarity sha256_hex label weights seed index)
  unfolding roll_rarity
  roll_rarity-IsShipped label weights seed index absent =
      either-IsShipped (eqb (total_weight weights) 0) _ _ (omega arith)
        (rarity_at-IsShipped weights _ 0 rarities absent)

  guaranteed_from-IsShipped :
      (left : ℕ) (weights : Weights) (seed : String) (index : ℕ)
      → weight weights legendary ≡ 0
      → IsShipped (guaranteed_from sha256_hex left weights seed index)
  unfolding guaranteed_from
  guaranteed_from-IsShipped zero weights seed index absent = omega arith
  guaranteed_from-IsShipped (suc left) weights seed index absent =
      either-IsShipped _ _ _ (roll_rarity-IsShipped "gacha:" weights _ index absent)
        (guaranteed_from-IsShipped left weights seed index absent)

  pub roll_slot-IsShipped :
      (pool : Pool) (count : ℕ) (seed : String) (index : ℕ)
      → weight pool.weights legendary ≡ 0
      → IsShipped (roll_slot sha256_hex pool count seed index)
  unfolding roll_slot gacha_guaranteed_rarity
  roll_slot-IsShipped pool count seed index absent =
      either-IsShipped _ _ _ (guaranteed_from-IsShipped 200 pool.weights seed index absent)
        (roll_rarity-IsShipped "gacha:" pool.weights seed index absent)

  pub pick_card_lem :
      (rarity : Rarity) (seed : String) (index : ℕ)
      → IsShipped rarity
      → rarity_of (pick_card sha256_hex rarity seed index) ≡ some rarity
  unfolding pick_card
  pick_card_lem rarity seed index shipped =
      pick_or_lem (λ id. rarity_of id ≡ some rarity) sha256_hex
        (cards_of rarity sorted_card_catalog_ids) _ _ _ (cards_of-nonempty rarity shipped)
        (cards_of-All rarity sorted_card_catalog_ids)

  pub pick_shot_lem :
      (rarity : Rarity) (seed : String) (index : ℕ)
      → IsShipped rarity
      → (e : CharacterEntry) × (pick_shot sha256_hex rarity seed index ≡ some e)
        × (e.rarity ≡ rarity)
  unfolding pick_shot
  pick_shot_lem rarity seed index shipped =
      pick-All (λ e. e.rarity ≡ rarity) sha256_hex (shots_of rarity gacha_character_table) _ _ _
        (shots_of-nonempty rarity shipped) (shots_of-All rarity gacha_character_table)
