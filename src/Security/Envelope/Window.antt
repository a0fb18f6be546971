-- ===== src/Security/Envelope/Window.antt =====
-- The nonces that the guard of runtime/security/business_envelope.go remembers of a session.
use gensoulkyo.Base.{
  ℕ, ◌≤◌, ◌≡◌, refl, String, Bool, true, false, ◌&&◌, List, [], ◌∷◌, ◌++◌, arith, ◌==◌, eq_iff,
  Bool-cases, inl, inr, if◌then◌else◌, ap, ap₂, sym, ◌∙◌, Option, lookup, length, keep_last,
  length-keep_last, keep_last_short, append-nil,
}
use gensoulkyo.Security.Envelope.{
  session_of, normalize, new_guard, validate, validate_session, reject, record_audit,
}
use gensoulkyo.Security.EnvelopeState.{Guard, Envelope, member, Audit}
use gensoulkyo.Security.Envelope.Replay.{accepted-checks, session_of-validate, run}
use gensoulkyo.Security.Envelope.Nonces.{
  IsWindow, admit-IsWindow, check_session_nonce, nonce-normalize, session_id-normalize, order-admit,
  keep_last-glue,
}

module _ (sha256_hex : String → String) where
  nonce_cap-validate :
      (g : Guard) (now : ℕ) (e : Envelope) → (validate sha256_hex g now e).0.nonce_cap ≡ g.nonce_cap
  unfolding validate validate_session reject record_audit
  nonce_cap-validate g now e = ground arith

  -- Every call, accepted or refused, keeps the window of every session well formed.
  pub validate-IsWindow :
      (g : Guard) (now : ℕ) (e : Envelope)
      → ((sid : String) → IsWindow g.nonce_cap (session_of g sid))
      → (sid : String) → IsWindow g.nonce_cap (session_of (validate sha256_hex g now e).0 sid)
  validate-IsWindow g now e w sid =
      elim (Bool-cases ((validate sha256_hex g now e).1.ok && e.session_id == sid)) [
        | inl own ↦
            let checks = accepted-checks sha256_hex g now e (ground arith) in
            let new =
              check_session_nonce (session_of g (normalize e).session_id) (normalize e) checks.1 in
            rw (session_of-validate sha256_hex g now e sid, own)
              (admit-IsWindow g.nonce_cap (session_of g e.session_id) (normalize e) (w e.session_id)
                (rw session_id-normalize at new))
        | inr other ↦ rw (session_of-validate sha256_hex g now e sid, other) (w sid)
      ]

  -- The nonces that the guard accepts for a session along the way.
  unfoldable pub accepted_nonces : String → Guard → List (ℕ × Envelope) → List String
  accepted_nonces sid g [] = []
  accepted_nonces sid g ((now, e) ∷ calls) =
      let (g', v) = validate sha256_hex g now e in
      let rest = accepted_nonces sid g' calls in
      if v.ok && e.session_id == sid then e.nonce ∷ rest else rest

  run-IsWindow :
      (g : Guard) (calls : List (ℕ × Envelope))
      → ((sid : String) → IsWindow g.nonce_cap (session_of g sid))
      → (sid : String) → IsWindow g.nonce_cap (session_of (run sha256_hex g calls) sid)
  unfolding run
  run-IsWindow g [] w sid = w sid
  run-IsWindow g ((now, e) ∷ calls) w sid =
      let g' = (validate sha256_hex g now e).0 in
      rw (nonce_cap-validate g now e) at
        (run-IsWindow g' calls (rw (nonce_cap-validate g now e) (validate-IsWindow g now e w)) sid)

  -- What a call appends to a session's queue of nonces.
  nonce_order-validate :
      (g : Guard) (now : ℕ) (e : Envelope) (sid : String)
      → ((validate sha256_hex g now e).1.ok && e.session_id == sid) ≡ true
      → (session_of (validate sha256_hex g now e).0 sid).nonce_order
        ≡ keep_last g.nonce_cap ((session_of g sid).nonce_order ++ e.nonce ∷ [])
  nonce_order-validate g now e sid own =
      let same : e.session_id ≡ sid = ground (arith, eq_iff e.session_id sid) in
      rw (
        session_of-validate sha256_hex g now e sid,
        own,
        order-admit g.nonce_cap _ (normalize e),
        nonce-normalize e,
        same,
      )

  nonce_order-run :
      (sid : String) (g : Guard) (calls : List (ℕ × Envelope))
      → length (session_of g sid).nonce_order ≤ g.nonce_cap
      → (session_of (run sha256_hex g calls) sid).nonce_order
        ≡ keep_last g.nonce_cap ((session_of g sid).nonce_order ++ accepted_nonces sid g calls)
  unfolding run accepted_nonces
  nonce_order-run sid g [] h =
      rw (append-nil (session_of g sid).nonce_order) (sym (keep_last_short g.nonce_cap _ h))
  nonce_order-run sid g ((now, e) ∷ calls) h =
      let g' = (validate sha256_hex g now e).0 in
      let order = (session_of g sid).nonce_order in
      let rest = accepted_nonces sid g' calls in
      let kept = nonce_cap-validate g now e in
      let ih = nonce_order-run sid g' calls in
      elim (Bool-cases ((validate sha256_hex g now e).1.ok && e.session_id == sid)) [
        | inl own ↦
            let next = nonce_order-validate g now e sid own in
            rw (own, accepted_nonces)
              (ih (rw (kept, next) (length-keep_last g.nonce_cap (order ++ e.nonce ∷ [])))
                ∙ keep_last-glue kept order e.nonce rest next)
        | inr other ↦
            let next = rw other at (session_of-validate sha256_hex g now e sid) in
            rw (other, accepted_nonces)
              (ih (rw (kept, next) h) ∙ ap₂ (λ n s. keep_last n (s.nonce_order ++ rest)) kept next)
      ]

IsWindow-new :
    (skew limit audits : ℕ) (sink : Option (Audit → Bool)) (sid : String)
    → IsWindow
        (new_guard skew limit audits sink).nonce_cap
        (session_of (new_guard skew limit audits sink) sid)
unfolding new_guard lookup
IsWindow-new skew limit audits sink sid = record {
  same = λ k. refl;
  distinct = tt;
  bounded = ground arith;
}

module _ (sha256_hex : String → String) where
  run_order-new :
      (skew limit audits : ℕ) (sink : Option (Audit → Bool)) (sid : String)
      (calls : List (ℕ × Envelope))
      → let g = new_guard skew limit audits sink in
        (session_of (run sha256_hex g calls) sid).nonce_order
        ≡ keep_last g.nonce_cap (accepted_nonces sha256_hex sid g calls)
  unfolding new_guard lookup
  run_order-new skew limit audits sink sid calls =
      nonce_order-run sha256_hex sid (new_guard skew limit audits sink) calls
        (IsWindow-new skew limit audits sink sid).bounded

  -- After any calls on a new guard, the set of nonces that it remembers for a session holds exactly
  -- the last `nonce_cap` nonces that it has accepted for that session.
  pub remembered_nonces :
      (skew limit audits : ℕ) (sink : Option (Audit → Bool)) (sid : String)
      (calls : List (ℕ × Envelope)) (k : String)
      → let g = new_guard skew limit audits sink in
        member k (session_of (run sha256_hex g calls) sid).seen_nonce
        ≡ member k (keep_last g.nonce_cap (accepted_nonces sha256_hex sid g calls))
  remembered_nonces skew limit audits sink sid calls k =
      let g = new_guard skew limit audits sink in
      (run-IsWindow sha256_hex g calls (IsWindow-new skew limit audits sink) sid).same k
      ∙ ap (member k) (run_order-new skew limit audits sink sid calls)

  seen_nonce_refused :
      (g : Guard) (now : ℕ) (e : Envelope)
      → member e.nonce (session_of g e.session_id).seen_nonce ≡ true
      → (validate sha256_hex g now e).1.ok ≡ false
  seen_nonce_refused g now e h = elim (Bool-cases (validate sha256_hex g now e).1.ok) [
    | inl ok ↦
        let checks = accepted-checks sha256_hex g now e ok in
        ground (
          arith,
          check_session_nonce (session_of g (normalize e).session_id) (normalize e) checks.1,
          nonce-normalize e,
          session_id-normalize e,
        )
    | inr refused ↦ refused
  ]

  -- A call whose nonce is among the last `nonce_cap` nonces that a new guard has accepted for the
  -- call's session is refused, whatever came in between.
  pub nonce_reuse_refused :
      (skew limit audits : ℕ) (sink : Option (Audit → Bool)) (calls : List (ℕ × Envelope)) (now : ℕ)
      (e : Envelope)
      → member e.nonce (
          keep_last
            (new_guard skew limit audits sink).nonce_cap
            (accepted_nonces sha256_hex e.session_id (new_guard skew limit audits sink) calls))
        ≡ true
      → (validate sha256_hex (run sha256_hex (new_guard skew limit audits sink) calls) now e).1.ok
        ≡ false
  nonce_reuse_refused skew limit audits sink calls now e h =
      seen_nonce_refused (run sha256_hex (new_guard skew limit audits sink) calls) now e
        (remembered_nonces skew limit audits sink e.session_id calls e.nonce ∙ h)
