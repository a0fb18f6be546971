-- ===== src/Security/Envelope/Accounting.antt =====
-- The counters and the audit trail of the guard of runtime/security/business_envelope.go.
use gensoulkyo.Base.{
  ℕ, ◌+◌, ◌≤◌, ◌<◌, ◌≡◌, String, List, [], ◌∷◌, arith, if◌then◌else◌, eqb, length, length-keep_last,
}
use gensoulkyo.Base.Int64.{half, add64, add64_exact}
use gensoulkyo.Security.Envelope.{reject, record_audit, validate, validate_session}
use gensoulkyo.Security.EnvelopeState.{Guard, Envelope}
use gensoulkyo.Security.Envelope.Replay.{run}

-- What one call does to the counters; the trail is cut to its bound.
record Counted (before after : Guard) (ok : ℕ) : Type 0 where
  one : ok ≤ 1
  accepted : after.accepted ≡ (if eqb ok 0 then before.accepted else add64 before.accepted 1)
  rejected : after.rejected ≡ (if eqb ok 0 then add64 before.rejected 1 else before.rejected)
  capacity : after.max_audits ≡ before.max_audits
  trail : length after.audit_trail ≤ before.max_audits

module _ (sha256_hex : String → String) where
  validate-Counted :
      (g : Guard) (now : ℕ) (e : Envelope)
      → let (g', v) = validate sha256_hex g now e in Counted g g' (if v.ok then 1 else 0)
  unfolding validate validate_session reject record_audit
  validate-Counted g now e = grind (arith, length-keep_last)

  -- How many of the calls are accepted.
  pub accepted_count : Guard → List (ℕ × Envelope) → ℕ
  accepted_count g [] = 0
  accepted_count g ((now, e) ∷ calls) =
      let (g', v) = validate sha256_hex g now e in (if v.ok then 1 else 0) + accepted_count g' calls

  -- After any calls that keep the counters below 2 ^ 63 the guard has counted each of them once, as
  -- accepted or as rejected, and the audit trail is within its bound if it was before.
  pub run_accounts :
      (g : Guard) (calls : List (ℕ × Envelope))
      → length g.audit_trail ≤ g.max_audits
      → g.accepted + length calls < half
      → g.rejected + length calls < half
      → let after = run sha256_hex g calls in
        (after.accepted ≡ g.accepted + accepted_count g calls)
        × (after.rejected + accepted_count g calls ≡ g.rejected + length calls)
        × (length after.audit_trail ≤ g.max_audits)
  unfolding run accepted_count
  run_accounts g [] h small small' = omega arith
  run_accounts g ((now, e) ∷ calls) h small small' =
      let (g', v) = validate sha256_hex g now e in
      let c = validate-Counted g now e in
      let one = add64_exact g.accepted 1 (omega (arith, small)) in
      let other = add64_exact g.rejected 1 (omega (arith, small')) in
      let accepted : g'.accepted ≡ g.accepted + (if v.ok then 1 else 0) =
        ground (arith, c.accepted, one) in
      let rejected : g'.rejected + (if v.ok then 1 else 0) ≡ g.rejected + 1 =
        ground (arith, c.rejected, other) in
      let bound = c.one in
      omega (
        arith,
        accepted,
        rejected,
        bound,
        c.capacity,
        run_accounts g' calls (omega (arith, c.trail, c.capacity)) (omega (arith, accepted, bound))
            (omega (arith, rejected, bound)),
      )
