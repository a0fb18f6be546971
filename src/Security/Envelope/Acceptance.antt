-- ===== src/Security/Envelope/Acceptance.antt =====
-- Which calls the guard of runtime/security/business_envelope.go accepts, in terms of the envelope
-- and the clock.
use gensoulkyo.Base.{
  ℕ, ◌+◌, ◌-◌, refl, sym, ◌∙◌, ◌≤◌, ◌<◌, ◌≡◌, ◌≢◌, ◌↔◌, String, true, false, none, arith, eq_iff,
  len, is_hex, ltb,
}
use gensoulkyo.Base.Int64.{
  half, lt64, lt64_exact, sub64, sub64_exact, add64, add64_exact, non_positive, non_positive_exact,
}
use gensoulkyo.Security.Envelope.{
  normalize, session_of, precheck, check_session, reject, validate, validate_session,
}
use gensoulkyo.Security.EnvelopeState.{Guard, Envelope, SessionGuard, member}
use gensoulkyo.Security.Envelope.Replay.{accepted-checks}

-- The envelope is complete, of the guard's version, and within the clock skew.
pub record IsComplete (g : Guard) (now : ℕ) (e : Envelope) : Type 0 where
  pub session : e.session_id ≢ ""
  pub version : e.version ≡ g.version
  pub seq : 0 < e.seq
  pub timestamp : 0 < e.timestamp_ms
  pub not_stale : now ≤ e.timestamp_ms + g.max_skew_ms
  pub not_future : e.timestamp_ms ≤ now + g.max_skew_ms
  pub nonce : e.nonce ≢ ""
  pub op : e.op ≢ ""
  pub key_id : e.key_id ≢ ""
  pub mode : e.mode ≢ ""
  pub tag_length : len e.tag ≡ 64
  pub tag_hex : is_hex e.tag ≡ true

-- The envelope is new to its session.
pub record IsFresh (s : SessionGuard) (e : Envelope) : Type 0 where
  pub seq : s.last_seq < e.seq
  pub nonce : member e.nonce s.seen_nonce ≡ false

-- No field that is compared as a signed integer is negative, and the clock is past the skew.
pub record InRange (g : Guard) (now : ℕ) (e : Envelope) : Type 0 where
  pub seq : e.seq < half
  pub timestamp : e.timestamp_ms < half
  pub early : g.max_skew_ms ≤ now
  pub late : now + g.max_skew_ms < half
  pub last : (session_of g e.session_id).last_seq < half

tests_exact :
    (g : Guard) (now : ℕ) (e : Envelope)
    → InRange g now e
    → (non_positive e.seq ≡ ltb e.seq 1)
      × (non_positive e.timestamp_ms ≡ ltb e.timestamp_ms 1)
      × (lt64 e.timestamp_ms (sub64 now g.max_skew_ms) ≡ ltb (e.timestamp_ms + g.max_skew_ms) now)
      × (lt64 (add64 now g.max_skew_ms) e.timestamp_ms ≡ ltb (now + g.max_skew_ms) e.timestamp_ms)
tests_exact g now e r = (
  non_positive_exact e.seq r.seq,
  non_positive_exact e.timestamp_ms r.timestamp,
  rw (sub64_exact now g.max_skew_ms r.early (omega arith))
      (ground (arith, lt64_exact e.timestamp_ms (now - g.max_skew_ms) r.timestamp)),
  rw (add64_exact now g.max_skew_ms r.late)
      (ground (arith, lt64_exact (now + g.max_skew_ms) e.timestamp_ms)),
)

precheck-IsComplete :
    (g : Guard) (now : ℕ) (e : Envelope)
    → InRange g now e
    → precheck g now e ≡ none
    → IsComplete g now e
unfolding precheck
precheck-IsComplete g now e r h = ground (
  arith,
  tests_exact g now e r,
  eq_iff e.session_id "",
  eq_iff e.version g.version,
  eq_iff e.nonce "",
  eq_iff e.op "",
  eq_iff e.key_id "",
  eq_iff e.mode "",
)

IsComplete-precheck :
    (g : Guard) (now : ℕ) (e : Envelope)
    → InRange g now e
    → IsComplete g now e
    → precheck g now e ≡ none
unfolding precheck
IsComplete-precheck g now e r c = ground (
  arith,
  tests_exact g now e r,
  eq_iff e.session_id "",
  eq_iff e.version g.version,
  eq_iff e.nonce "",
  eq_iff e.op "",
  eq_iff e.key_id "",
  eq_iff e.mode "",
)

check_session_iff :
    (s : SessionGuard) (e : Envelope)
    → s.last_seq < half
    → e.seq < half
    → (check_session s e ≡ none) ↔ IsFresh s e
unfolding check_session
check_session_iff s e h k = (
  λ c. ground (arith, lt64_exact s.last_seq e.seq),
  λ f. ground (arith, lt64_exact s.last_seq e.seq),
)

-- Filling in the transport and the endpoint concerns no check.
precheck-normalize :
    (g : Guard) (now : ℕ) (e : Envelope) → precheck g now (normalize e) ≡ precheck g now e
unfolding precheck normalize
precheck-normalize g now e = refl

check_session-normalize :
    (g : Guard) (e : Envelope)
    → check_session (session_of g (normalize e).session_id) (normalize e)
      ≡ check_session (session_of g e.session_id) e
unfolding check_session normalize
check_session-normalize g e = refl

module _ (sha256_hex : String → String) where
  checks-accepted :
      (g : Guard) (now : ℕ) (e : Envelope)
      → precheck g now (normalize e) ≡ none
      → check_session (session_of g (normalize e).session_id) (normalize e) ≡ none
      → (validate sha256_hex g now e).1.ok ≡ true
  unfolding validate validate_session reject
  checks-accepted g now e p q = ground arith

  -- With integers that are not negative and a clock past the skew, the guard accepts a call exactly
  -- when the envelope is complete, of the guard's version and within the skew on both sides, and its
  -- seq and nonce are new to its session.
  pub accepted_iff :
      (g : Guard) (now : ℕ) (e : Envelope)
      → InRange g now e
      → ((validate sha256_hex g now e).1.ok ≡ true)
        ↔ (IsComplete g now e × IsFresh (session_of g e.session_id) e)
  accepted_iff g now e r = (
    λ h.
        let (p, q) = accepted-checks sha256_hex g now e h in
        (
          precheck-IsComplete g now e r (sym (precheck-normalize g now e) ∙ p),
          (check_session_iff (session_of g e.session_id) e r.last r.seq).0
              (sym (check_session-normalize g e) ∙ q),
        ),
    λ h. checks-accepted g now e (precheck-normalize g now e ∙ IsComplete-precheck g now e r h.0) (
        check_session-normalize g e
        ∙ (check_session_iff (session_of g e.session_id) e r.last r.seq).1 h.1),
  )
