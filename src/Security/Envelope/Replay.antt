-- ===== src/Security/Envelope/Replay.antt =====
-- Replays at the guard of runtime/security/business_envelope.go: what a call does to the sessions, and what a run of calls accepts.
use gensoulkyo.Base.{
  ℕ, ◌<◌, ◌≡◌, refl, String, Bool, true, false, ◌&&◌, none, List, [], ◌∷◌, arith, ◌==◌, eq_iff,
  lookup-insert, Bool-cases, inl, inr, if◌then◌else◌, All, insert, Dict, ap, subst, or_else, lookup,
}
use gensoulkyo.Base.Int64.{word, half, lt64, lt64_exact, non_positive}
use gensoulkyo.Security.Envelope.{
  session_of, normalize, precheck, fresh_session, check_session, admit, record_audit, reject,
  validate_session, validate,
}
use gensoulkyo.Security.EnvelopeState.{Guard, SessionGuard, Envelope}

-- An envelope that passes the checks before the lock has a positive seq.
precheck_seq :
    (g : Guard) (now : ℕ) (e : Envelope) → precheck g now e ≡ none → non_positive e.seq ≡ false
unfolding precheck
precheck_seq g now e h = ground arith

positive : (a : ℕ) → a < word → non_positive a ≡ false → a < half
unfolding non_positive lt64
positive a h k = ground arith

check_session_seq :
    (s : SessionGuard) (e : Envelope) → check_session s e ≡ none → lt64 s.last_seq e.seq ≡ true
unfolding check_session
check_session_seq s e h = ground arith

last_seq-admit : (limit : ℕ) (s : SessionGuard) (e : Envelope) → (admit limit s e).last_seq ≡ e.seq
unfolding admit
last_seq-admit limit s e = refl

session_id-normalize : (e : Envelope) → (normalize e).session_id ≡ e.session_id
unfolding normalize
session_id-normalize e = refl

seq-normalize : (e : Envelope) → (normalize e).seq ≡ e.seq
unfolding normalize
seq-normalize e = refl

abbrev session_in : Dict SessionGuard → String → SessionGuard
session_in m k = or_else (lookup k m) fresh_session

session_in-insert :
    (k j : String) (s : SessionGuard) (m : Dict SessionGuard)
    → session_in (insert k s m) j ≡ (if k == j then s else session_in m j)
session_in-insert k j s m = elim (Bool-cases (k == j)) [
  | inl same ↦ rw (lookup-insert k j s m, same)
  | inr other ↦ rw (lookup-insert k j s m, other)
]

-- Opening a session that is missing changes no session's state.
session_in-open :
    (k j : String) (m : Dict SessionGuard)
    → session_in (insert k (session_in m k) m) j ≡ session_in m j
session_in-open k j m = elim (Bool-cases (k == j)) [
  | inl same ↦
      rw (session_in-insert k j (session_in m k) m, same) (ap (session_in m) ((eq_iff k j).0 same))
  | inr other ↦ rw (session_in-insert k j (session_in m k) m, other)
]

module _ (sha256_hex : String → String) where
  -- An accepted call passed both rounds of checks.
  pub accepted-checks :
      (g : Guard) (now : ℕ) (e : Envelope)
      → (validate sha256_hex g now e).1.ok ≡ true
      → (precheck g now (normalize e) ≡ none)
        × (check_session (session_of g (normalize e).session_id) (normalize e) ≡ none)
  unfolding validate validate_session reject
  accepted-checks g now e h = ground arith

  -- What a call leaves of a session: an accepted one changes its own session, and nothing else
  -- changes.
  pub session_of-validate :
      (g : Guard) (now : ℕ) (e : Envelope) (j : String)
      → session_of (validate sha256_hex g now e).0 j ≡ (
          if (validate sha256_hex g now e).1.ok && e.session_id == j
          then admit g.nonce_cap (session_of g e.session_id) (normalize e)
          else session_of g j)
  unfolding validate validate_session reject record_audit
  session_of-validate g now e j =
      let k = (normalize e).session_id in
      let old = session_in g.sessions k in
      ground (
        arith,
        session_id-normalize e,
        session_in-open k j g.sessions,
        session_in-insert k j (admit g.nonce_cap old (normalize e)) (insert k old g.sessions),
      )

  -- The calls of a list in order, each with its clock reading.
  unfoldable pub run : Guard → List (ℕ × Envelope) → Guard
  run g [] = g
  run g ((now, e) ∷ calls) = run (validate sha256_hex g now e).0 calls

  -- The seqs that the guard accepts for a session along the way.
  unfoldable pub accepted_seqs : String → Guard → List (ℕ × Envelope) → List ℕ
  accepted_seqs sid g [] = []
  accepted_seqs sid g ((now, e) ∷ calls) =
      let (g', v) = validate sha256_hex g now e in
      let rest = accepted_seqs sid g' calls in
      if v.ok && e.session_id == sid then e.seq ∷ rest else rest

-- Each entry is greater than the one before it, and the first is greater than `low`.
abbrev pub Increasing : ℕ → List ℕ → Type 0
Increasing low [] = Unit
Increasing low (x ∷ xs) = (low < x) × Increasing x xs

abbrev pub IsInt64 : ℕ × Envelope → Type 0
IsInt64 call = call.1.seq < word

last_seq-if :
    (b : Bool) (s t : SessionGuard)
    → (if b then s else t).last_seq ≡ (if b then s.last_seq else t.last_seq)
last_seq-if true s t = refl
last_seq-if false s t = refl

module _ (sha256_hex : String → String) where
  -- A call accepted for a session has a seq above its last one, which becomes the last one.
  accepted_seq :
      (g : Guard) (now : ℕ) (e : Envelope) (sid : String)
      → e.seq < word
      → (session_of g sid).last_seq < half
      → ((validate sha256_hex g now e).1.ok && e.session_id == sid) ≡ true
      → ((session_of g sid).last_seq < e.seq) × (e.seq < half)
  accepted_seq g now e sid w below h =
      let k = (normalize e).session_id in
      ground (
        arith,
        accepted-checks sha256_hex g now e,
        session_id-normalize e,
        seq-normalize e,
        eq_iff e.session_id sid,
        precheck_seq g now (normalize e),
        positive e.seq w,
        check_session_seq (session_of g k) (normalize e),
        lt64_exact (session_of g sid).last_seq e.seq below,
      )

  last_seq-validate :
      (g : Guard) (now : ℕ) (e : Envelope) (sid : String)
      → (session_of (validate sha256_hex g now e).0 sid).last_seq ≡ (
          if (validate sha256_hex g now e).1.ok && e.session_id == sid
          then e.seq
          else (session_of g sid).last_seq)
  last_seq-validate g now e sid = rw (
    session_of-validate sha256_hex g now e sid,
    last_seq-if _ _ _,
    last_seq-admit g.nonce_cap (session_of g e.session_id) (normalize e),
    seq-normalize e,
  )

  -- Along any sequence of calls whose seqs are int64 values, from a guard whose last seq for the
  -- session is not negative, the seqs that the guard accepts for the session strictly increase and
  -- all lie above that last seq.
  pub accepted_seqs-Increasing :
      (sid : String) (g : Guard) (calls : List (ℕ × Envelope))
      → All IsInt64 calls
      → (session_of g sid).last_seq < half
      → Increasing (session_of g sid).last_seq (accepted_seqs sha256_hex sid g calls)
  unfolding accepted_seqs
  accepted_seqs-Increasing sid g [] words below = tt
  accepted_seqs-Increasing sid g ((now, e) ∷ calls) words below =
      let g' = (validate sha256_hex g now e).0 in
      let ih = accepted_seqs-Increasing sid g' calls words.1 in
      elim (Bool-cases ((validate sha256_hex g now e).1.ok && e.session_id == sid)) [
        | inl own ↦
            let (above, small) = accepted_seq g now e sid words.0 below own in
            let next = rw own at (last_seq-validate g now e sid) in
            rw (own, accepted_seqs)
              (
                above,
                subst (λ l. Increasing l (accepted_seqs sha256_hex sid g' calls)) next
                    (ih (rw next small)),
              )
        | inr other ↦
            let same = rw other at (last_seq-validate g now e sid) in
            rw (other, accepted_seqs)
              (subst (λ l. Increasing l (accepted_seqs sha256_hex sid g' calls)) same
                (ih (rw same below)))
      ]
