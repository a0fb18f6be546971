-- ===== src/Core/Gacha/Keeping.antt =====
-- The invariant of an identity that the draws of runtime/core/gacha.go keep.
use gensoulkyo.Base.{
  ℕ, ◌+◌, ◌≤◌, ◌≡◌, refl, String, str_append, Option, none, some, [], ◌∷◌, insert, value, length,
  length-keep_last, Option-cases, ◌⊎◌, inl, inr, subst, padded, ◌++◌,
}
use gensoulkyo.Base.Int64.{sub64}
use gensoulkyo.Core.GachaPools.{Pool, card_pool, character_pool, gacha_pool_by_id}
use gensoulkyo.Core.Gacha.{
  open_pool, pull_from, gacha_pull, gacha_opening_seed, settle, pull_guard, pull_cost, proceed,
}
use gensoulkyo.Core.GachaItems.{PullRequest, ensure_default_characters}
use gensoulkyo.Core.User.{User}
use gensoulkyo.Core.User.Inventory.{IsStocked}
use gensoulkyo.Core.Gacha.Draws.{draws-keep}
use gensoulkyo.Core.Gacha.Slots.{draws_lem}
use gensoulkyo.Core.Gacha.Kept.{draw-Leaves, draw-IsStocked, draw-IsCounted, IsCounted}
use gensoulkyo.Core.Gacha.Pulls.{pool_lem, shipped-absent}

-- What every call of the totem keeps of an identity: at most two copies of a card, pity counters
-- below their limits and an audit trail of at most fifty openings.
pub record IsKept (user : User) : Type 0 where
  pub stocked : IsStocked user.inventory
  pub counted : IsCounted user
  pub audited : length user.gacha_openings ≤ 50

module _ (sha256_hex : String → String) where
  opening-keeps :
      (pool : Pool) (count cost next_seq : ℕ) (user : User) (now : ℕ)
      → (pool ≡ card_pool) ⊎ (pool ≡ character_pool)
      → IsKept user
      → IsKept (open_pool sha256_hex pool count cost next_seq user now).0
  unfolding open_pool settle IsCounted
  opening-keeps pool count cost next_seq user now shipped kept =
      let opening_id = str_append "gacha_opening_" (padded 6 next_seq) in
      let seed =
        gacha_opening_seed sha256_hex user.user_id pool.pool_id opening_id
          (length user.gacha_openings) count in
      let (last, results, drawn, size, given, ends) =
        draws_lem sha256_hex pool (shipped-absent pool shipped) count opening_id seed now user 0
          count in
      let run =
        draws-keep sha256_hex pool count opening_id seed now IsKept
          (λ u i k. record {
            stocked = draw-IsStocked sha256_hex pool count opening_id seed now u i k.stocked;
            counted =
                draw-IsCounted sha256_hex pool count opening_id seed now u i shipped k.counted;
            audited =
                rw ((draw-Leaves sha256_hex pool count opening_id seed now u i).openings) k.audited;
          })
          count 0 user kept in
      let k : IsKept last = subst (λ r. IsKept r.0) drawn run in
      rw drawn (record {
        stocked = k.stocked;
        counted = k.counted;
        audited = length-keep_last 50 (last.gacha_openings ++ _ ∷ []);
      })

  pull_from-keeps :
      (next_seq : ℕ) (ready : User) (o : Option Pool) (count now : ℕ)
      → ((pool : Pool) → o ≡ some pool → (pool ≡ card_pool) ⊎ (pool ≡ character_pool))
      → IsKept ready
      → IsKept (pull_from sha256_hex next_seq ready o count now).1
  unfolding pull_from proceed IsCounted
  pull_from-keeps next_seq ready none count now shipped kept = kept
  pull_from-keeps next_seq ready (some pool) count now shipped kept =
      let gems = value "gems" ready.wallet in
      let cost = pull_cost pool count in
      let paid : User = record ready { wallet = insert "gems" (sub64 gems cost) ready.wallet } in
      let opened =
        opening-keeps pool count cost (next_seq + 1) paid now (shipped pool refl)
          (record { stocked = kept.stocked; counted = kept.counted; audited = kept.audited }) in
      elim (Option-cases (pull_guard pool count gems)) [
        | inr (r, guarded) ↦ rw guarded kept
        | inl free ↦ rw free opened
      ]

  -- Whatever a pull asks, an identity that holds at most two copies of each card, with pity
  -- counters below their limits and at most fifty openings in the audit trail, still does after
  -- it.
  pub pull-IsKept :
      (next_seq : ℕ) (user : User) (req : PullRequest) (now : ℕ)
      → IsKept user
      → IsKept (gacha_pull sha256_hex next_seq user req now).1
  unfolding gacha_pull ensure_default_characters IsCounted
  pull-IsKept next_seq user req now kept =
      pull_from-keeps next_seq (ensure_default_characters user now) (gacha_pool_by_id _) req.count
        now (λ pool found. pool_lem _ pool found)
        (record { stocked = kept.stocked; counted = kept.counted; audited = kept.audited })
