-- ===== src/Core/BattleResult/Payments.antt =====
-- Who is paid for a battle result: settleMatchFromWinnerLocked of
-- runtime/core/battle_result_callback.go and applyRewardsLocked of runtime/core/service.go.
use gensoulkyo.Base.{
  ℕ, ◌≡◌, refl, String, Bool, true, false, Option, none, some, ◌==◌, lookup, if_rule, Option-cases,
  inl, inr,
}
use gensoulkyo.Core.BattleResult.{
  verified, winner_user, settle_from_winner, apply_valid, apply_to, apply_battle_result_callback,
}
use gensoulkyo.Core.BattleChecks.{validate_battle_result_callback, trimmed, allocation_of}
use gensoulkyo.Core.BattleMatch.{
  Status, loading, running, ended, abandoned, expired, ResultError, store_failed, Match, Callback,
  Service, Response, Answer, answered, refused,
}
use gensoulkyo.Core.BattleResult.Repeats.{apply-Comes, apply-named, closed_again}

-- A call that is refused pays nobody.
abbrev Unpaid : Service → Service × Answer → Type 0
Unpaid s out =
    (e : ResultError)
    → out.1 ≡ refused e
    → (out.0.wallets ≡ s.wallets) × (out.0.settlements ≡ s.settlements)

module _ (sha256_hex : String → String) where
  settle-Unpaid :
      (store_fails : Bool) (s : Service) (m : Match) (winner : String) (req : Callback) (now : ℕ)
      → Unpaid s (settle_from_winner sha256_hex store_fails s m winner req now)
  unfolding settle_from_winner
  settle-Unpaid true s m winner req now e h = (refl, refl)
  settle-Unpaid false s m winner req now e h = cc

  apply_valid-Unpaid :
      (store_fails : Bool) (s : Service) (m : Match) (req : Callback) (now : ℕ) (status : Status)
      → Unpaid s (apply_valid sha256_hex store_fails s m req now status)
  unfolding apply_valid
  apply_valid-Unpaid store_fails s m req now ended =
      if_rule (Unpaid s) (m.battle_result_hash == req.state_hash) (λ same e h. (refl, refl))
        (λ other e h. (refl, refl))
  apply_valid-Unpaid store_fails s m req now running =
      settle-Unpaid store_fails s (verified sha256_hex s m req now) (winner_user sha256_hex s m req)
        req now
  apply_valid-Unpaid store_fails s m req now loading = λ e h. (refl, refl)
  apply_valid-Unpaid store_fails s m req now abandoned = λ e h. (refl, refl)
  apply_valid-Unpaid store_fails s m req now expired = λ e h. (refl, refl)

  module _ (rules : String) where
    apply_to-Unpaid :
        (store_fails : Bool) (s : Service) (o : Option Match) (req : Callback) (now : ℕ)
        → Unpaid s (apply_to sha256_hex rules store_fails s o req now)
    unfolding apply_to
    apply_to-Unpaid store_fails s none req now = λ e h. (refl, refl)
    apply_to-Unpaid store_fails s (some m) req now =
        let a = allocation_of s req.match_id m in
        elim (Option-cases (validate_battle_result_callback rules req m a)) [
          | inl valid ↦ rw (valid, apply_to) (apply_valid-Unpaid store_fails s m req now m.status)
          | inr (e, refusal) ↦ rw (refusal, apply_to) (λ e h. (refl, refl))
        ]

    apply-Unpaid :
        (store_fails : Bool) (s : Service) (raw : Callback) (now : ℕ)
        → Unpaid s (apply_battle_result_callback sha256_hex rules store_fails s raw now)
    unfolding apply_battle_result_callback
    apply-Unpaid store_fails s raw now =
        if_rule (Unpaid s) ((trimmed raw).match_id == "") (λ e e' h. (refl, refl))
          (λ e.
            apply_to-Unpaid store_fails s (lookup (trimmed raw).match_id s.matches) (trimmed raw)
              now)

    -- Where the durable store refuses the settled match, nobody is paid, and the same result, sent
    -- again, is answered as a duplicate, whatever the store does then, and pays nobody either.
    pub failed_settlement_lost :
        (store_fails : Bool) (s : Service) (raw : Callback) (now later : ℕ)
        → (apply_battle_result_callback sha256_hex rules true s raw now).1 ≡ refused store_failed
        → let after = (apply_battle_result_callback sha256_hex rules true s raw now).0 in
          (after.wallets ≡ s.wallets)
          × (after.settlements ≡ s.settlements)
          × ((r : Response) × (apply_battle_result_callback sha256_hex rules store_fails after raw
                  later
                ≡ (after, answered r))
              × (r.duplicate ≡ true))
    failed_settlement_lost store_fails s raw now later h =
        let after = (apply_battle_result_callback sha256_hex rules true s raw now).0 in
        let named = apply-named sha256_hex rules true s raw now (λ e. cc (e, h)) in
        let (wallets, settlements) = apply-Unpaid true s raw now store_failed h in
        elim (apply-Comes sha256_hex rules true s raw now) [
          | inl (e, refusal, other) ↦ absurd (other (cc (refusal, h)))
          | inr closed ↦ (
            wallets,
            settlements,
            closed_again sha256_hex rules store_fails after raw later named closed,
          )
        ]
