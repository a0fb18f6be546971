-- ===== src/Core/Checkin.antt =====
-- The daily check-in: checkinRewardForDay, checkinNextDayLocked and ClaimCheckin of
-- runtime/core/service.go. The key of a UTC day, `Format("2006-01-02")`, is a parameter; the day of a
-- call is an argument.
pub mod Days
use gensoulkyo.Base.{
  ℕ, ◌-◌, String, Bool, true, false, not, ◌||◌, ◌==◌, Dict, insert, value, eqb, if◌then◌else◌,
}
use gensoulkyo.Base.Int64.{add64, lt64, non_positive}
use gensoulkyo.Core.User.{User, Reply, CoreError, done, refused, already_claimed, out_of_window}

-- CheckinReward
pub record Reward : Type 0 where
  pub gold : ℕ
  pub ticket : ℕ

-- checkinRewardForDay
unfoldable pub checkin_reward_for_day : ℕ → Reward
checkin_reward_for_day day = record {
  gold =
      if eqb day 1
      then 100
      else if eqb day 2
      then 150
      else if eqb day 3
      then 200
      else if eqb day 4
      then 250
      else if eqb day 5
      then 300
      else if eqb day 6
      then 350
      else if eqb day 7
      then 500
      else 100;
  ticket = if eqb day 3 || eqb day 7 then 1 else 0;
}

-- checkinNextDayLocked
unfoldable pub checkin_next_day : User → ℕ
checkin_next_day user =
    let cycle_day = if non_positive user.checkin_cycle_day then 1 else user.checkin_cycle_day in
    if lt64 7 cycle_day then 1 else cycle_day

-- The day, the reward and the streak of CheckinClaimView.
pub record Claim : Type 0 where
  pub day : ℕ
  pub reward : Reward
  pub streak : ℕ
  pub next_claimable_day : ℕ

-- `if amount > 0 { user.Wallet[currency] += amount }`
unfoldable pub credit : Dict ℕ → String → ℕ → Dict ℕ
credit wallet currency amount =
    if lt64 0 amount then insert currency (add64 (value currency wallet) amount) wallet else wallet

module _ (day_key : ℕ → String) where
  -- ClaimCheckin on the UTC day `today`
  unfoldable pub claim_checkin : User → ℕ → User × Reply Claim
  claim_checkin user today =
      let key = day_key today in
      let day = checkin_next_day user in
      let reward = checkin_reward_for_day day in
      let streak =
        if user.checkin_last_day == day_key (today - 1) then add64 user.checkin_streak 1 else 1 in
      let next = if not (lt64 day 7) then 1 else add64 day 1 in
      if user.checkin_last_day == key
      then (user, refused already_claimed)
      else if lt64 day 1 || lt64 7 day
      then (user, refused out_of_window)
      else (
        record user {
          wallet = credit (credit user.wallet "gold" reward.gold) "ticket" reward.ticket;
          checkin_streak = streak;
          checkin_last_day = key;
          checkin_claimed_days = insert key day user.checkin_claimed_days;
          checkin_cycle_day = next;
        },
        done (record { day = day; reward = reward; streak = streak; next_claimable_day = next }),
      )
