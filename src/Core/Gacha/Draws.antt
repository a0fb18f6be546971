-- ===== src/Core/Gacha/Draws.antt =====
-- What a totem opening gives: the loop of GachaPull in runtime/core/gacha.go.
use gensoulkyo.Base.{ℕ, zero, suc, ◌+◌, ◌≤◌, String, Option, none, some, List, arith}
use gensoulkyo.Core.Cards.{Rarity, rarity_rank}
use gensoulkyo.Core.Pity.{
  Weights, PityRules, PityState, guaranteed_from, gacha_guaranteed_rarity, apply_pity,
}
use gensoulkyo.Core.GachaPools.{Pool}
use gensoulkyo.Core.Gacha.{roll_slot, draw, draws}
use gensoulkyo.Core.GachaItems.{joined}
use gensoulkyo.Core.User.{User, PullResult, Reply, done, refused}

-- The pity never makes a result worse, whatever the counters.
pub pity_not_below :
    (rules : PityRules) (state : PityState) (rolled : Rarity)
    → rarity_rank rolled ≤ rarity_rank (apply_pity rules state rolled).1
unfolding apply_pity
pity_not_below rules state rolled = ground arith

module _ (sha256_hex : String → String) where
  guaranteed_from-rare :
      (left : ℕ) (weights : Weights) (seed : String) (index : ℕ)
      → 2 ≤ rarity_rank (guaranteed_from sha256_hex left weights seed index)
  unfolding guaranteed_from
  guaranteed_from-rare zero weights seed index = omega arith
  guaranteed_from-rare (suc left) weights seed index =
      ground (arith, guaranteed_from-rare left weights seed index)

  -- The last slot of ten is rolled at rare or above.
  pub roll_slot-rare :
      (pool : Pool) (seed : String) → 2 ≤ rarity_rank (roll_slot sha256_hex pool 10 seed 9)
  unfolding roll_slot gacha_guaranteed_rarity
  roll_slot-rare pool seed = ground (arith, guaranteed_from-rare 200 pool.weights seed 9)

joined-keeps :
    (P : User → Type 0) (after : User) (drawn : Option PullResult)
    (more : User × Reply (List PullResult))
    → P after
    → P more.0
    → P (joined after drawn more).0
unfolding joined
joined-keeps P after none more p q = p
joined-keeps P after (some result) (last, refused e) p q = q
joined-keeps P after (some result) (last, done results) p q = q

-- What every draw keeps, the loop keeps.
module _ (sha256_hex : String → String) (pool : Pool) (count : ℕ) (opening_id seed : String)
    (now : ℕ) (P : User → Type 0)
    (kept : (user : User) (index : ℕ)
      → P user
      → P (draw sha256_hex pool count opening_id seed user now index).0) where
  pub draws-keep :
      (left index : ℕ) (user : User)
      → P user
      → P (draws sha256_hex pool count opening_id seed user now index left).0
  unfolding draws
  draws-keep zero index user p = p
  draws-keep (suc left) index user p =
      let q = kept user index p in joined-keeps P _ _ _ q (draws-keep left (index + 1) _ q)
