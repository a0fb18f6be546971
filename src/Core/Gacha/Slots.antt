-- ===== src/Core/Gacha/Slots.antt =====
-- The slots of an opening of a shipped pool: the loop of GachaPull in
-- runtime/core/gacha.go.
use gensoulkyo.Base.{
  ℕ, zero, suc, ◌+◌, ◌≤◌, ◌<◌, ◌≡◌, refl, String, some, List, [], ◌∷◌, lookup, insert, or_else,
  length, All, arith,
}
use gensoulkyo.Core.Cards.{Rarity, legendary, rarity_rank}
use gensoulkyo.Core.Pity.{weight, PityRules, PityState, no_pity, apply_pity, apply_pool_pity}
use gensoulkyo.Core.GachaPools.{Pool, Kind, card, character}
use gensoulkyo.Core.Gacha.{roll_slot, give, give_card, give_shot, draw, draws}
use gensoulkyo.Core.GachaItems.{give_entry, joined}
use gensoulkyo.Core.User.{User, PullResult, done}
use gensoulkyo.Core.Gacha.Draws.{pity_not_below, roll_slot-rare}
use gensoulkyo.Core.Gacha.Given.{
  IsShipped, IsGiven, roll_slot-IsShipped, pick_card_lem, pick_shot_lem,
}

pity-IsShipped :
    (rules : PityRules) (state : PityState) (rolled : Rarity)
    → IsShipped rolled
    → IsShipped (apply_pity rules state rolled).1
unfolding apply_pity
pity-IsShipped rules state rolled shipped = ground arith

-- The last of the results is rare or better.
unfoldable pub EndsRare : List PullResult → Type 0
EndsRare [] = ⊥
EndsRare (r ∷ []) = 2 ≤ rarity_rank r.rarity
EndsRare (r ∷ s ∷ rs) = EndsRare (s ∷ rs)

EndsRare-cons :
    (r : PullResult) (rs : List PullResult)
    → ((length rs ≡ 0) → 2 ≤ rarity_rank r.rarity)
    → ((0 < length rs) → EndsRare rs)
    → EndsRare (r ∷ rs)
unfolding EndsRare
EndsRare-cons r [] here there = here refl
EndsRare-cons r (s ∷ rs) here there = there (omega arith)

module _ (sha256_hex : String → String) where
  give_lem :
      (k : Kind) (id seed : String) (user : User) (now index : ℕ) (rarity : Rarity)
      → IsShipped rarity
      → (result : PullResult) × ((give sha256_hex k id seed user now index rarity).1 ≡ some result)
        × IsGiven k result
        × (result.rarity ≡ rarity)
  unfolding give give_card give_shot give_entry IsGiven
  give_lem card id seed user now index rarity shipped =
      (_, refl, (pick_card_lem sha256_hex rarity seed index shipped, refl), refl)
  give_lem character id seed user now index rarity shipped =
      let (e, picked, same) = pick_shot_lem sha256_hex rarity seed index shipped in
      rw (picked, give, give_shot) (_, refl, (e, refl, refl, same, refl), refl)

  module _ (pool : Pool) (absent : weight pool.weights legendary ≡ 0) (count : ℕ)
      (opening_id seed : String) (now : ℕ) where
    rolled_lem :
        {index : ℕ}
        → count ≡ 10
        → index ≡ 9
        → 2 ≤ rarity_rank (roll_slot sha256_hex pool count seed index)
    rolled_lem ten nine = rw (ten, nine) (roll_slot-rare sha256_hex pool seed)

    -- A slot's result has what the pool gives, and the last slot of ten is rare or better.
    draw_lem :
        (user : User) (index : ℕ)
        → (result : PullResult) × ((draw sha256_hex pool count opening_id seed user now index).1
            ≡ some result)
          × IsGiven pool.kind result
          × ((count ≡ 10) → (index ≡ 9) → 2 ≤ rarity_rank result.rarity)
    unfolding draw apply_pool_pity
    draw_lem user index =
        let rolled = roll_slot sha256_hex pool count seed index in
        let state = or_else (lookup pool.pool_id user.gacha_pity) no_pity in
        let shipped =
          pity-IsShipped pool.pity state rolled
            (roll_slot-IsShipped sha256_hex pool count seed index absent) in
        let (result, given, is_given, same) =
          give_lem pool.kind _ seed
            (record user {
              gacha_pity =
                  insert pool.pool_id (apply_pity pool.pity state rolled).0 user.gacha_pity;
            })
            now index (apply_pity pool.pity state rolled).1 shipped in
        (
          result,
          given,
          is_given,
          λ ten nine.
              rw same (omega (arith, pity_not_below pool.pity state rolled, rolled_lem ten nine)),
        )

    -- The loop gives a result for each slot.
    pub draws_lem :
        (user : User) (index left : ℕ)
        → (last : User) × (results : List PullResult) × (draws sha256_hex pool count opening_id seed
              user now index left
            ≡ (last, done results))
          × (length results ≡ left)
          × All (IsGiven pool.kind) results
          × ((count ≡ 10) → (index + left ≡ 10) → 0 < left → EndsRare results)
    unfolding draws joined EndsRare
    draws_lem user index zero = (user, [], refl, refl, tt, λ _ _ h. absurd (omega (arith, h)))
    draws_lem user index (suc left) =
        let (result, drawn, given, rare_last) = draw_lem user index in
        let after = (draw sha256_hex pool count opening_id seed user now index).0 in
        let (last, results, more, size, all_given, ends) = draws_lem after (index + 1) left in
        rw (drawn, more)
          (
            last,
            result ∷ results,
            refl,
            omega (arith, size),
            (given, all_given),
            λ ten end h.
                EndsRare-cons result results
                  (λ empty. rare_last ten (omega (arith, end, size, empty)))
                  (λ more_left. ends ten (omega (arith, end)) (omega (arith, size, more_left))),
          )
