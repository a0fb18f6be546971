-- ===== src/Security/Envelope/Tests.antt =====
-- The theorems on the envelope guard (security/business_envelope.go) at a concrete guard and calls.
use gensoulkyo.Base.{
  ◌+◌, ◌≤◌, ℕ, String, Bool, true, false, none, List, [], ◌∷◌, ◌≡◌, refl, arith, lookup, keep_last,
  length, All, ◌↔◌, trim_space, is_hex, insert,
}
use gensoulkyo.Base.Int64.{word, half}
use gensoulkyo.Security.Envelope.{
  new_guard, session_of, validate, validate_session, reject, record_audit, precheck, normalize,
  check_session, auth_tag_prefix, session_id_hint,
}
use gensoulkyo.Security.EnvelopeState.{Guard, Envelope, member}
use gensoulkyo.Security.Envelope.Replay.{accepted_seqs-Increasing, accepted_seqs, Increasing, run}
use gensoulkyo.Security.Envelope.Window.{accepted_nonces, remembered_nonces, nonce_reuse_refused}
use gensoulkyo.Security.Envelope.Acceptance.{IsComplete, IsFresh, accepted_iff}
use gensoulkyo.Security.Envelope.Accounting.{accepted_count, run_accounts}

abbrev digest : String → String
digest text = "9f86d081884c7d65"

abbrev guard : Guard
guard = new_guard 0 2 3 none

abbrev envelope : ℕ → String → Envelope
envelope seq nonce = record {
  session_id = "session";
  version = "business-v0-scaffold";
  seq = seq;
  timestamp_ms = 1000000;
  nonce = nonce;
  op = "queue";
  key_id = "key";
  tag = "0123456789abcdef0123456789abcdef0123456789abcdef0123456789abcdef";
  mode = "shadow";
  transport = "http";
  endpoint = "/queue";
  user_id = "user";
  body_hash = "";
}

-- The third call has a seq that is not above the one before it.
abbrev calls : List (ℕ × Envelope)
calls =
    (1000000, envelope 1 "a")
    ∷ (1000001, envelope 5 "b")
    ∷ (1000002, envelope 5 "c")
    ∷ (1000003, envelope 7 "d")
    ∷ []

accepted_seqs-Increasing_example :
    Increasing (session_of guard "session").last_seq (accepted_seqs digest "session" guard calls)
unfolding new_guard lookup
accepted_seqs-Increasing_example =
    accepted_seqs-Increasing digest "session" guard calls
      (omega arith, (omega arith, (omega arith, (omega arith, tt)))) (omega arith)

run_accounts_example :
    let after = run digest guard calls in
    (after.accepted ≡ guard.accepted + accepted_count digest guard calls)
    × (after.rejected + accepted_count digest guard calls ≡ guard.rejected + length calls)
    × (length after.audit_trail ≤ guard.max_audits)
unfolding new_guard
run_accounts_example = run_accounts digest guard calls (omega arith) (omega arith) (omega arith)

remembered_nonces_example :
    member "b" (session_of (run digest guard calls) "session").seen_nonce
    ≡ member "b" (keep_last guard.nonce_cap (accepted_nonces digest "session" guard calls))
remembered_nonces_example = remembered_nonces digest 0 2 3 none "session" calls "b"

accepted_iff_example : ((validate digest guard 1000000 (envelope 1 "a")).1.ok ≡ true) ↔ (
    IsComplete guard 1000000 (envelope 1 "a")
    × IsFresh (session_of guard "session") (envelope 1 "a"))
unfolding new_guard lookup
accepted_iff_example = accepted_iff digest guard 1000000 (envelope 1 "a") (record {
  seq = omega arith;
  timestamp = omega arith;
  early = omega arith;
  late = omega arith;
  last = omega arith;
})

nonce_reuse_refused_example :
    (validate digest (run digest guard calls) 1000004 (envelope 9 "b")).1.ok ≡ false
unfolding new_guard lookup validate validate_session reject record_audit precheck normalize
    check_session accepted_nonces auth_tag_prefix session_id_hint trim_space is_hex insert
    gensoulkyo.Base.Int64.non_positive gensoulkyo.Base.Int64.sub64 gensoulkyo.Base.Int64.add64
    gensoulkyo.Security.Envelope.admit gensoulkyo.Security.Envelope.evict
nonce_reuse_refused_example =
    nonce_reuse_refused digest 0 2 3 none calls 1000004 (envelope 9 "b") refl
