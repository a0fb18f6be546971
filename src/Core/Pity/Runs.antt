-- ===== src/Core/Pity/Runs.antt =====
-- The pity counters over a run of pulls: applyGachaPity of runtime/core/gacha.go.
use gensoulkyo.Base.{◌+◌, ◌≤◌, ◌<◌, ◌≡◌, ◌⊎◌, inl, inr, List, [], ◌∷◌, length, arith}
use gensoulkyo.Base.Int64.{half, add64_exact, lt64_exact}
use gensoulkyo.Core.Cards.{Rarity, rare, epic, rarity_rank}
use gensoulkyo.Core.Pity.{PityRules, PityState, apply_pity}

-- The results of a pool's pulls in order, each with the rarity that the weights rolled.
pub pulls : PityRules → PityState → List Rarity → List Rarity
pulls rules state [] = []
pulls rules state (rolled ∷ more) =
    let (state', result) = apply_pity rules state rolled in result ∷ pulls rules state' more

-- Some result is of the tier or above it.
pub Reaches : Rarity → List Rarity → Type 0
Reaches tier [] = ⊥
Reaches tier (r ∷ rs) = (rarity_rank tier ≤ rarity_rank r) ⊎ Reaches tier rs

-- Counters below their limits, which are positive and fit in an int.
pub record IsPity (rules : PityRules) (state : PityState) : Type 0 where
  pub rare_below : state.rare_counter < rules.rare_every
  pub epic_below : state.epic_counter < rules.epic_every
  pub rare_fits : rules.rare_every < half
  pub epic_fits : rules.epic_every < half

-- What one pull does, with counters that do not wrap.
record Pull (rules : PityRules) (state next : PityState) (rolled result : Rarity) : Type 0 where
  keeps : IsPity rules next
  not_below : rarity_rank rolled ≤ rarity_rank result
  rare_step : (rarity_rank rare ≤ rarity_rank result) ⊎ (next.rare_counter ≡ state.rare_counter + 1)
  epic_step : (rarity_rank epic ≤ rarity_rank result) ⊎ (next.epic_counter ≡ state.epic_counter + 1)

apply_pity-Pull :
    (rules : PityRules) (state : PityState) (rolled : Rarity)
    → IsPity rules state
    → Pull rules state (apply_pity rules state rolled).0 rolled (apply_pity rules state rolled).1
unfolding apply_pity
apply_pity-Pull rules state rolled p =
    let r = add64_exact state.rare_counter 1 (omega (arith, p.rare_below, p.rare_fits)) in
    let e = add64_exact state.epic_counter 1 (omega (arith, p.epic_below, p.epic_fits)) in
    let r' =
      lt64_exact (state.rare_counter + 1) rules.rare_every
        (omega (arith, p.rare_below, p.rare_fits)) p.rare_fits in
    let e' =
      lt64_exact (state.epic_counter + 1) rules.epic_every
        (omega (arith, p.epic_below, p.epic_fits)) p.epic_fits in
    rw (r, e, r', e')
      record {
        keeps = record {
          rare_below = ground arith;
          epic_below = ground arith;
          rare_fits = p.rare_fits;
          epic_fits = p.epic_fits;
        };
        not_below = ground arith;
        rare_step = ground arith;
        epic_step = ground arith;
      }

-- A pull with counters below their limits leaves them below their limits, and the pity never makes
-- a result worse than the rarity that was rolled.
pub apply_pity-IsPity :
    (rules : PityRules) (state : PityState) (rolled : Rarity)
    → IsPity rules state
    → IsPity rules (apply_pity rules state rolled).0
      × (rarity_rank rolled ≤ rarity_rank (apply_pity rules state rolled).1)
apply_pity-IsPity rules state rolled p =
    let pull = apply_pity-Pull rules state rolled p in (pull.keeps, pull.not_below)

-- Whatever the weights roll, from counters below their limits, a run of pulls that brings the
-- rare counter to its limit has a rare or better result; from a counter of 0 these are
-- `rare_every` pulls.
pub rare_within :
    (rules : PityRules) (state : PityState) (rolls : List Rarity)
    → IsPity rules state
    → rules.rare_every ≤ state.rare_counter + length rolls
    → Reaches rare (pulls rules state rolls)
unfolding pulls Reaches
rare_within rules state [] p enough = absurd (omega (arith, p.rare_below, enough))
rare_within rules state (rolled ∷ more) p enough =
    let pull = apply_pity-Pull rules state rolled p in
    elim pull.rare_step [
      | inl hit ↦ inl hit
      | inr later ↦ inr (
          rare_within rules (apply_pity rules state rolled).0 more pull.keeps
            (omega (arith, later, enough)))
    ]

-- Whatever the weights roll, from counters below their limits, a run of pulls that brings the
-- epic counter to its limit has an epic or better result; from a counter of 0 these are
-- `epic_every` pulls.
pub epic_within :
    (rules : PityRules) (state : PityState) (rolls : List Rarity)
    → IsPity rules state
    → rules.epic_every ≤ state.epic_counter + length rolls
    → Reaches epic (pulls rules state rolls)
unfolding pulls Reaches
epic_within rules state [] p enough = absurd (omega (arith, p.epic_below, enough))
epic_within rules state (rolled ∷ more) p enough =
    let pull = apply_pity-Pull rules state rolled p in
    elim pull.epic_step [
      | inl hit ↦ inl hit
      | inr later ↦ inr (
          epic_within rules (apply_pity rules state rolled).0 more pull.keeps
            (omega (arith, later, enough)))
    ]
