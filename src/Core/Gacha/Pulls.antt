-- ===== src/Core/Gacha/Pulls.antt =====
-- Whole totem openings: GachaPull of runtime/core/gacha.go.
use gensoulkyo.Base.{
  ℕ, ◌+◌, ◌-◌, ◌≤◌, ◌<◌, ◌≡◌, refl, sym, ap, String, str_append, false, Option, none, some, ◌==◌,
  eq_iff, insert, value, value-insert, value-insert_self, eqb, if◌then◌else◌, length, All, arith,
  Option-cases, ◌⊎◌, inl, inr, ◌≢◌, trim_space, subst, ◌∙◌, padded,
}
use gensoulkyo.Base.Int64.{half, add64, sub64, add64_exact, sub64_exact, lt64_exact}
use gensoulkyo.Core.Cards.{legendary}
use gensoulkyo.Core.Pity.{weight}
use gensoulkyo.Core.GachaPools.{Pool, card_pool, character_pool, gacha_pool_by_id}
use gensoulkyo.Core.Gacha.{
  open_pool, pull_from, gacha_pull, gacha_opening_seed, settle, pull_guard, pull_cost, proceed,
}
use gensoulkyo.Core.GachaItems.{PullRequest, ensure_default_characters}
use gensoulkyo.Core.User.{User, Opening, done, refused, CoreError}
use gensoulkyo.Core.Gacha.Draws.{draws-keep}
use gensoulkyo.Core.Gacha.Given.{IsGiven}
use gensoulkyo.Core.Gacha.Slots.{EndsRare, draws_lem}
use gensoulkyo.Core.Gacha.Kept.{Leaves, draw-Leaves}

pub pool_lem :
    (id : String) (pool : Pool)
    → gacha_pool_by_id id ≡ some pool
    → (pool ≡ card_pool) ⊎ (pool ≡ character_pool)
unfolding gacha_pool_by_id
pool_lem id pool found = ground (arith, found)

pub shipped-absent :
    (pool : Pool) → (pool ≡ card_pool) ⊎ (pool ≡ character_pool) → weight pool.weights legendary ≡ 0
shipped-absent pool (inl is_card) = rw is_card refl
shipped-absent pool (inr is_character) = rw is_character refl

-- The gems that a number of pulls costs.
abbrev price_of : ℕ → ℕ
price_of count = if eqb count 10 then 1800 else 200

shipped-guard :
    (pool : Pool) (count gems : ℕ)
    → (pool ≡ card_pool) ⊎ (pool ≡ character_pool)
    → (count ≡ 1) ⊎ (count ≡ 10)
    → price_of count ≤ gems
    → gems < half
    → (pull_guard pool count gems ≡ none) × (pull_cost pool count ≡ price_of count)
unfolding pull_guard pull_cost
shipped-guard pool count gems (inl is_card) counted enough fits =
    rw is_card (ground (arith, lt64_exact gems (price_of count)), refl)
shipped-guard pool count gems (inr is_character) counted enough fits =
    rw is_character (ground (arith, lt64_exact gems (price_of count)), refl)

empty-pool : gacha_pool_by_id "" ≡ none
unfolding gacha_pool_by_id
empty-pool = refl

found-named : (id : String) (pool : Pool) → gacha_pool_by_id id ≡ some pool → (id == "") ≡ false
found-named id pool found = ground (arith, found, eq_iff id "", empty-pool)

Leaves-trans : {a b c : User} → Leaves a b → Leaves b c → Leaves a c
Leaves-trans l m = record {
  gems = m.gems ∙ l.gems;
  faith = m.faith ∙ l.faith;
  openings = m.openings ∙ l.openings;
}

done-refused : {A : Type 0} {a : A} {e : CoreError} → done a ≢ refused e
done-refused h = ground (arith, h)

module _ (sha256_hex : String → String) where
  -- An opening of a shipped pool gives its results and one faith for each pull, and leaves the gems.
  opening_lem :
      (pool : Pool) (count cost next_seq : ℕ) (user : User) (now : ℕ)
      → (pool ≡ card_pool) ⊎ (pool ≡ character_pool)
      → let (after, reply) = open_pool sha256_hex pool count cost next_seq user now in
        (audit : Opening) × (reply ≡ done audit)
        × (audit.cost_gems ≡ cost)
        × (length audit.results ≡ count)
        × All (IsGiven pool.kind) audit.results
        × ((count ≡ 10) → EndsRare audit.results)
        × (value "gems" after.wallet ≡ value "gems" user.wallet)
        × (value "faith" after.wallet ≡ add64 (value "faith" user.wallet) count)
  unfolding open_pool settle
  opening_lem pool count cost next_seq user now shipped =
      let opening_id = str_append "gacha_opening_" (padded 6 next_seq) in
      let seed =
        gacha_opening_seed sha256_hex user.user_id pool.pool_id opening_id
          (length user.gacha_openings) count in
      let (last, results, drawn, size, given, ends) =
        draws_lem sha256_hex pool (shipped-absent pool shipped) count opening_id seed now user 0
          count in
      let left =
        draws-keep sha256_hex pool count opening_id seed now (Leaves user)
          (λ u i l. Leaves-trans l (draw-Leaves sha256_hex pool count opening_id seed now u i))
          count 0 user (record { gems = refl; faith = refl; openings = refl }) in
      let same : Leaves user last = subst (λ r. Leaves user r.0) drawn left in
      rw drawn (
        _,
        refl,
        refl,
        size,
        given,
        λ ten. ends ten (omega (arith, ten)) (omega (arith, ten)),
        ground (
          arith,
          same.gems,
          value-insert "faith" "gems" (add64 (value "faith" last.wallet) count) last.wallet,
        ),
        rw (same.faith)
            (value-insert_self "faith" (add64 (value "faith" user.wallet) count) last.wallet),
      )

  -- One pull of a shipped pool for 200 gems or ten for 1800, by an identity that has the gems and
  -- whose gems and faith are far enough below the limit of 64 bits, gives one result for each
  -- pull, each a card or a shot of its rarity, the last of ten rare or better; the price is taken
  -- from the gems and one faith is added for each pull, whatever faith the results say that
  -- duplicates gained.
  pub pull_succeeds :
      (next_seq : ℕ) (user : User) (req : PullRequest) (now : ℕ) (pool : Pool)
      → gacha_pool_by_id (trim_space req.pool_id) ≡ some pool
      → (req.count ≡ 1) ⊎ (req.count ≡ 10)
      → price_of req.count ≤ value "gems" user.wallet
      → value "gems" user.wallet < half
      → value "faith" user.wallet + 10 < half
      → let (seq, after, reply) = gacha_pull sha256_hex next_seq user req now in
        let cost = price_of req.count in
        (audit : Opening) × (reply ≡ done audit)
        × (audit.cost_gems ≡ cost)
        × (length audit.results ≡ req.count)
        × All (IsGiven pool.kind) audit.results
        × ((req.count ≡ 10) → EndsRare audit.results)
        × (value "gems" after.wallet ≡ value "gems" user.wallet - cost)
        × (value "faith" after.wallet ≡ value "faith" user.wallet + req.count)
  unfolding gacha_pull pull_from proceed ensure_default_characters
  pull_succeeds next_seq user req now pool found counted enough gems_fit faith_fits =
      let shipped = pool_lem (trim_space req.pool_id) pool found in
      let cost = price_of req.count in
      let paid : User = record (ensure_default_characters user now) {
        wallet = insert "gems" (sub64 (value "gems" user.wallet) cost) user.wallet;
      } in
      let (audit, opened, price, size, given, ends, gems, faith) =
        opening_lem pool req.count cost (next_seq + 1) paid now shipped in
      let named = found-named (trim_space req.pool_id) pool found in
      let (free, cheap) =
        shipped-guard pool req.count (value "gems" user.wallet) shipped counted enough gems_fit in
      rw (named, found, free, cheap)
        (
          audit,
          opened,
          price,
          size,
          given,
          ends,
          gems
              ∙ value-insert_self "gems" (sub64 (value "gems" user.wallet) cost) user.wallet
              ∙ sub64_exact (value "gems" user.wallet) cost enough gems_fit,
          faith
              ∙ ap (λ f. add64 f req.count)
                  (value-insert "gems" "faith" (sub64 (value "gems" user.wallet) cost) user.wallet)
              ∙ add64_exact (value "faith" user.wallet) req.count
                  (omega (arith, counted, faith_fits)),
        )

  refused-pull :
      (next_seq : ℕ) (ready : User) (o : Option Pool) (count now : ℕ) (e : CoreError)
      → ((pool : Pool) → o ≡ some pool → (pool ≡ card_pool) ⊎ (pool ≡ character_pool))
      → (pull_from sha256_hex next_seq ready o count now).2 ≡ refused e
      → ((pull_from sha256_hex next_seq ready o count now).0 ≡ next_seq)
        × ((pull_from sha256_hex next_seq ready o count now).1 ≡ ready)
  unfolding pull_from proceed
  refused-pull next_seq ready none count now e shipped = λ refusal. (refl, refl)
  refused-pull next_seq ready (some pool) count now e shipped =
      let gems = value "gems" ready.wallet in
      let cost = pull_cost pool count in
      let (audit, opened, _, _, _, _, _, _) =
        opening_lem pool count cost (next_seq + 1)
          (record ready { wallet = insert "gems" (sub64 gems cost) ready.wallet }) now
          (shipped pool refl) in
      elim (Option-cases (pull_guard pool count gems)) [
        | inr (r, guarded) ↦ rw guarded (λ refusal. (refl, refl))
        | inl free ↦ rw (free) (λ refusal. absurd (done-refused (sym opened ∙ refusal)))
      ]

  -- A refused pull takes no id and leaves the identity as it is, with the starter shots.
  pub pull_refused :
      (next_seq : ℕ) (user : User) (req : PullRequest) (now : ℕ) (e : CoreError)
      → (gacha_pull sha256_hex next_seq user req now).2 ≡ refused e
      → ((gacha_pull sha256_hex next_seq user req now).0 ≡ next_seq)
        × ((gacha_pull sha256_hex next_seq user req now).1 ≡ ensure_default_characters user now)
  unfolding gacha_pull
  pull_refused next_seq user req now e refusal =
      refused-pull next_seq (ensure_default_characters user now) (gacha_pool_by_id _) req.count now
        e (λ pool found. pool_lem _ pool found) refusal
