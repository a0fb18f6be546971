-- ===== src/Core/EconomyTests.antt =====
-- The theorems on the check-in (runtime/core) at a concrete identity.
use gensoulkyo.Base.{
  ℕ, ◌+◌, ◌-◌, ◌*◌, ◌%◌, eqb, Bool-cases, ◌≤◌, ◌<◌, ◌≡◌, ◌≢◌, refl, arith, String, Bool, true,
  false, Option, none, some, List, [], ◌∷◌, All, ◌⊎◌, inl, inr, lookup, insert, value, length,
  differ, leb, ltb, ◌==◌, if◌then◌else◌, trim_space,
}
use gensoulkyo.Core.User.{done, refused, already_claimed}
use gensoulkyo.Core.Checkin.{Claim, claim_checkin, checkin_next_day, checkin_reward_for_day}
use gensoulkyo.Core.Checkin.Days.{claim_succeeds, claim_once}
use gensoulkyo.Core.TotemTests.{ann}

abbrev day_key : ℕ → String
day_key day = if eqb (day % 2) 0 then "even" else "odd"

day_key-next : (day : ℕ) → day_key day ≢ day_key (day + 1)
day_key-next day = elim (Bool-cases (eqb (day % 2) 0)) [
  | inl even ↦
      let odd : eqb ((day + 1) % 2) 0 ≡ false = ground (arith, even) in rw (even, odd) (differ refl)
  | inr odd ↦
      let even : eqb ((day + 1) % 2) 0 ≡ true = ground (arith, odd) in rw (odd, even) (differ refl)
]

claim_succeeds_example :
    let (after, reply) = claim_checkin day_key ann 4 in
    let day = checkin_next_day ann in
    (1 ≤ day)
    × (day ≤ 7)
    × ((claim : Claim) × (reply ≡ done claim) × (claim.reward ≡ checkin_reward_for_day day))
    × (value "gold" after.wallet ≡ value "gold" ann.wallet + (checkin_reward_for_day day).gold)
    × (value "ticket" after.wallet
        ≡ value "ticket" ann.wallet + (checkin_reward_for_day day).ticket)
    × (after.checkin_cycle_day ≡ (if ltb day 7 then day + 1 else 1))
    × (after.checkin_last_day ≡ "even")
    × (after.checkin_streak ≡ (if ann.checkin_last_day == "odd" then ann.checkin_streak + 1 else 1))
unfolding value lookup checkin_next_day checkin_reward_for_day gensoulkyo.Base.Int64.lt64
    gensoulkyo.Base.Int64.non_positive
claim_succeeds_example =
    claim_succeeds day_key ann 4 (differ refl) (omega arith) (omega arith) (omega arith)
      (omega arith)

abbrev claimed : Claim
claimed = record {
  day = 1;
  reward = record { gold = 100; ticket = 0 };
  streak = 1;
  next_claimable_day = 2;
}

claim_once_example :
    claim_checkin day_key (claim_checkin day_key ann 4).0 4
    ≡ ((claim_checkin day_key ann 4).0, refused already_claimed)
unfolding claim_checkin gensoulkyo.Base.Int64.lt64 checkin_next_day
    gensoulkyo.Base.Int64.non_positive checkin_reward_for_day gensoulkyo.Base.Int64.add64
claim_once_example = claim_once day_key ann 4 claimed refl
