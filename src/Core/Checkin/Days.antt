-- ===== src/Core/Checkin/Days.antt =====
-- Check-ins from day to day: ClaimCheckin of runtime/core/service.go.
use gensoulkyo.Base.{
  ℕ, zero, suc, ◌+◌, ◌-◌, ◌≤◌, ◌<◌, ◌≡◌, refl, String, false, not, ◌||◌, ◌==◌, eq_iff, eq_refl,
  Dict, value, value-insert, ltb, if◌then◌else◌, arith, Bool-cases, inl, inr, ◌≢◌, ◌∙◌,
}
use gensoulkyo.Base.Int64.{half, word, add64, lt64, non_positive, add64_exact, lt64_exact}
use gensoulkyo.Core.User.{User, CoreError, done, refused, already_claimed}
use gensoulkyo.Core.Checkin.{
  Reward, checkin_reward_for_day, checkin_next_day, Claim, credit, claim_checkin,
}

-- The day of the cycle that comes after a day.
abbrev after_day : ℕ → ℕ
after_day day = if ltb day 7 then day + 1 else 1

next_lem :
    (user : User)
    → user.checkin_cycle_day < word
    → let day = checkin_next_day user in
      (1 ≤ day)
      × (day ≤ 7)
      × ((if not (lt64 day 7) then 1 else add64 day 1) ≡ after_day day)
      × ((lt64 day 1 || lt64 7 day) ≡ false)
unfolding checkin_next_day non_positive lt64 add64
next_lem user fits = (ground arith, ground arith, ground arith, ground arith)

-- The gold and the tickets of claims on `n` days in a row, from a day of the cycle on.
unfoldable pub gold_sum : ℕ → ℕ → ℕ
gold_sum zero day = 0
gold_sum (suc n) day = (checkin_reward_for_day day).gold + gold_sum n (after_day day)

unfoldable pub ticket_sum : ℕ → ℕ → ℕ
ticket_sum zero day = 0
ticket_sum (suc n) day = (checkin_reward_for_day day).ticket + ticket_sum n (after_day day)

refused-done : {A : Type 0} {a : A} {e : CoreError} → refused e ≢ done a
refused-done h = ground (arith, h)

day_lem :
    (day : ℕ)
    → 1 ≤ day
    → day ≤ 7
    → ((if not (lt64 day 7) then 1 else add64 day 1) ≡ after_day day)
      × ((lt64 day 1 || lt64 7 day) ≡ false)
unfolding lt64 add64
day_lem day low high = (ground arith, ground arith)

cycle_lem :
    (after : User) (day : ℕ)
    → 1 ≤ day
    → day ≤ 7
    → after.checkin_cycle_day ≡ after_day day
    → checkin_next_day after ≡ after_day day
unfolding checkin_next_day non_positive lt64
cycle_lem after day low high cycle = ground arith

credit_lem :
    (wallet : Dict ℕ) (currency other : String) (amount : ℕ)
    → value currency wallet + amount < half
    → value other (credit wallet currency amount)
      ≡ (if currency == other then value currency wallet + amount else value other wallet)
unfolding credit
credit_lem wallet currency other amount fits = ground (
  arith,
  lt64_exact 0 amount,
  add64_exact (value currency wallet) amount,
  value-insert currency other (add64 (value currency wallet) amount) wallet,
  eq_iff currency other,
)

credits :
    (wallet : Dict ℕ) (reward : Reward)
    → value "gold" wallet + reward.gold < half
    → value "ticket" wallet + reward.ticket < half
    → let after = credit (credit wallet "gold" reward.gold) "ticket" reward.ticket in
      (value "gold" after ≡ value "gold" wallet + reward.gold)
      × (value "ticket" after ≡ value "ticket" wallet + reward.ticket)
credits wallet reward gold ticket =
    let first = credit_lem wallet "gold" "gold" reward.gold gold in
    let kept = credit_lem wallet "gold" "ticket" reward.gold gold in
    let paid = credit wallet "gold" reward.gold in
    (
      credit_lem paid "ticket" "gold" reward.ticket (omega (arith, kept, ticket)) ∙ first,
      omega (
        arith,
        kept,
        credit_lem paid "ticket" "ticket" reward.ticket (omega (arith, kept, ticket)),
      ),
    )

module _ (day_key : ℕ → String) where
  -- A claim on a day other than the last claimed one, where the streak and the amounts stay below the
  -- limit of 64 bits, adds the reward of the next day of the cycle, which is between 1 and 7, to
  -- the gold and the tickets of the wallet and names it in the reply; it moves the cycle on, from 7 to 1; the streak grows by one where the last claim was on the day before and
  -- starts again at 1 where it was not.
  pub claim_succeeds :
      (user : User) (today : ℕ)
      → user.checkin_last_day ≢ day_key today
      → user.checkin_cycle_day < word
      → user.checkin_streak + 1 < half
      → value "gold" user.wallet + (checkin_reward_for_day (checkin_next_day user)).gold < half
      → value "ticket" user.wallet + (checkin_reward_for_day (checkin_next_day user)).ticket < half
      → let (after, reply) = claim_checkin day_key user today in
        let day = checkin_next_day user in
        (1 ≤ day)
        × (day ≤ 7)
        × ((claim : Claim) × (reply ≡ done claim) × (claim.reward ≡ checkin_reward_for_day day))
        × (value "gold" after.wallet ≡ value "gold" user.wallet + (checkin_reward_for_day day).gold)
        × (value "ticket" after.wallet
            ≡ value "ticket" user.wallet + (checkin_reward_for_day day).ticket)
        × (after.checkin_cycle_day ≡ (if ltb day 7 then day + 1 else 1))
        × (after.checkin_last_day ≡ day_key today)
        × (after.checkin_streak
            ≡ (if user.checkin_last_day == day_key (today - 1) then user.checkin_streak + 1 else 1))
  unfolding claim_checkin
  claim_succeeds user today other fits streak gold ticket =
      let (low, high, next, inside) = next_lem user fits in
      let fresh : (user.checkin_last_day == day_key today) ≡ false =
        ground (arith, eq_iff user.checkin_last_day (day_key today)) in
      let count = add64_exact user.checkin_streak 1 streak in
      let (paid_gold, paid_ticket) =
        credits user.wallet (checkin_reward_for_day (checkin_next_day user)) gold ticket in
      rw (fresh, inside, next, count)
        (low, high, (_, refl, refl), paid_gold, paid_ticket, refl, refl, refl)

  -- A second claim on the same day is refused and changes nothing.
  pub claim_once :
      (user : User) (today : ℕ) (claim : Claim)
      → (claim_checkin day_key user today).1 ≡ done claim
      → claim_checkin day_key (claim_checkin day_key user today).0 today
        ≡ ((claim_checkin day_key user today).0, refused already_claimed)
  unfolding claim_checkin
  claim_once user today claim = elim (Bool-cases (user.checkin_last_day == day_key today)) [
    | inl claimed ↦ rw claimed (λ refusal. absurd (refused-done refusal))
    | inr fresh ↦
        elim (Bool-cases (lt64 (checkin_next_day user) 1 || lt64 7 (checkin_next_day user))) [
          | inl outside ↦ rw (fresh, outside) (λ refusal. absurd (refused-done refusal))
          | inr inside ↦ rw (fresh, inside) (λ granted. rw (eq_refl (day_key today)) refl)
        ]
  ]

  -- The identity after claims on `n` days in a row.
  pub daily : ℕ → User → ℕ → User
  daily zero user today = user
  daily (suc n) user today = daily n (claim_checkin day_key user today).0 (today + 1)

  credited :
      (user : User) (today day : ℕ) (reward : Reward)
      → user.checkin_last_day ≢ day_key today
      → checkin_next_day user ≡ day
      → checkin_reward_for_day day ≡ reward
      → 1 ≤ day
      → day ≤ 7
      → value "gold" user.wallet + reward.gold < half
      → value "ticket" user.wallet + reward.ticket < half
      → let after = (claim_checkin day_key user today).0 in
        (value "gold" after.wallet ≡ value "gold" user.wallet + reward.gold)
        × (value "ticket" after.wallet ≡ value "ticket" user.wallet + reward.ticket)
        × (after.checkin_last_day ≡ day_key today)
        × (after.checkin_cycle_day ≡ after_day day)
  unfolding claim_checkin
  credited user today day reward other at given low high gold ticket =
      let fresh : (user.checkin_last_day == day_key today) ≡ false =
        ground (arith, eq_iff user.checkin_last_day (day_key today)) in
      let (same_gold, same_ticket) = credits user.wallet reward gold ticket in
      let (next, inside) = day_lem day low high in
      rw (fresh, at, given, inside, next) (same_gold, same_ticket, refl, refl)

  -- Claims on days in a row, whose keys differ from each day to the next, the first not claimed
  -- yet, add up the rewards of the cycle from the day it stands at, given that the sums fit in 64
  -- bits.
  pub daily_rewards :
      (n : ℕ) (user : User) (today day : ℕ)
      → ((d : ℕ) → day_key d ≢ day_key (d + 1))
      → user.checkin_last_day ≢ day_key today
      → checkin_next_day user ≡ day
      → 1 ≤ day
      → day ≤ 7
      → value "gold" user.wallet + gold_sum n day < half
      → value "ticket" user.wallet + ticket_sum n day < half
      → (value "gold" (daily n user today).wallet ≡ value "gold" user.wallet + gold_sum n day)
        × (value "ticket" (daily n user today).wallet
            ≡ value "ticket" user.wallet + ticket_sum n day)
  unfolding daily gold_sum ticket_sum
  daily_rewards zero user today day differ other at low high gold ticket =
      (omega arith, omega arith)
  daily_rewards (suc n) user today day differ other at low high gold ticket =
      let after = (claim_checkin day_key user today).0 in
      let reward = checkin_reward_for_day day in
      let (more_gold, more_ticket, last, cycle) =
        credited user today day reward other at refl low high (omega (arith, gold))
          (omega (arith, ticket)) in
      let (g, t) =
        daily_rewards n after (today + 1) (after_day day) differ (rw last (differ today))
          (cycle_lem after day low high cycle) (ground arith) (ground arith)
          (omega (arith, gold, more_gold)) (omega (arith, ticket, more_ticket)) in
      (omega (arith, g, more_gold), omega (arith, t, more_ticket))
