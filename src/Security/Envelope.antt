-- ===== src/Security/Envelope.antt =====
-- The replay guard of the business envelopes: runtime/security/business_envelope.go.
-- The clock's reading is an argument of each call; SHA-256, of the standard library, is the
-- parameter `sha256_hex`, and an audit sink is a function that says whether it failed.
pub mod Replay
pub mod Nonces
pub mod Window
pub mod Accounting
pub mod Acceptance
mod Tests
use Prim.Native.String.{slice}
use gensoulkyo.Base.{
  ℕ, zero, suc, ◌+◌, ◌-◌, String, Bool, true, false, not, ◌||◌, ◌&&◌, Option, none, some, List, [],
  ◌∷◌, ◌++◌, ◌==◌, str_append, len, is_hex, Dict, lookup, insert, or_else, ltb, leb, eqb,
  if◌then◌else◌, length, keep_last,
}
use gensoulkyo.Base.Int64.{lt64, sub64, add64, non_positive}
use gensoulkyo.Security.EnvelopeState.{
  Reason, session_missing, version, seq_missing, timestamp, timestamp_stale, timestamp_future,
  nonce_missing, op_missing, key_id_missing, mode_missing, tag, seq_replay, nonce_replay, Code,
  envelope_invalid, envelope_replay, Envelope, Audit, Validation, SessionGuard, Guard, member,
  add_nonce, delete_nonce,
}

-- NewBusinessEnvelopeGuard, with the options' values; a value that is not positive is replaced by
-- the default. The skew is in milliseconds.
pub new_guard : ℕ → ℕ → ℕ → Option (Audit → Bool) → Guard
new_guard max_skew_ms nonce_cap max_audits sink = record {
  version = "business-v0-scaffold";
  max_skew_ms = if eqb max_skew_ms 0 then 300000 else max_skew_ms;
  nonce_cap = if eqb nonce_cap 0 then 128 else nonce_cap;
  max_audits = if eqb max_audits 0 then 64 else max_audits;
  audit_sink = sink;
  sessions = [];
  accepted = 0;
  rejected = 0;
  audit_errors = 0;
  audit_trail = [];
}

pub normalize : Envelope → Envelope
normalize e = record e {
  transport = if e.transport == "" then "unknown" else e.transport;
  endpoint = if e.endpoint == "" then e.op else e.endpoint;
}

-- `slice` stops before a character that the sixteenth byte would cut.
auth_tag_prefix : String → String
auth_tag_prefix text = if leb (len text) 16 then text else slice text 0 16

abbrev is_replay : Option Code → Bool
is_replay (some envelope_replay) = true
is_replay _ = false

abbrev pub count_failure : Option (Audit → Bool) → Audit → ℕ → ℕ
count_failure none audit n = n
count_failure (some fails) audit n = if fails audit then add64 n 1 else n

abbrev pub fresh_session : SessionGuard
fresh_session = record { last_seq = 0; seen_nonce = []; nonce_order = [] }

abbrev pub session_of : Guard → String → SessionGuard
session_of g sid = or_else (lookup sid g.sessions) fresh_session

-- The loop `for len(session.nonceOrder) > guard.nonceCap`.
pub evict : ℕ → List String → List String → List String × List String
evict limit [] seen = ([], seen)
evict limit (oldest ∷ order) seen =
    let more = evict limit order (delete_nonce oldest seen) in
    let enough : List String × List String = (oldest ∷ order, seen) in
    if ltb limit (suc (length order)) then more else enough

pub admit : ℕ → SessionGuard → Envelope → SessionGuard
admit limit session e =
    let (order, seen) =
      evict limit (session.nonce_order ++ e.nonce ∷ []) (add_nonce e.nonce session.seen_nonce) in
    record { last_seq = e.seq; seen_nonce = seen; nonce_order = order }

-- The checks before the lock is taken, in the source's order.
pub precheck : Guard → ℕ → Envelope → Option (Code × Reason)
precheck g now e =
    if e.session_id == ""
    then some (envelope_invalid, session_missing)
    else if not (e.version == g.version)
    then some (envelope_invalid, version)
    else if non_positive e.seq
    then some (envelope_invalid, seq_missing)
    else if non_positive e.timestamp_ms
    then some (envelope_invalid, timestamp)
    else if lt64 e.timestamp_ms (sub64 now g.max_skew_ms)
    then some (envelope_replay, timestamp_stale)
    else if lt64 (add64 now g.max_skew_ms) e.timestamp_ms
    then some (envelope_replay, timestamp_future)
    else if e.nonce == ""
    then some (envelope_invalid, nonce_missing)
    else if e.op == ""
    then some (envelope_invalid, op_missing)
    else if e.key_id == ""
    then some (envelope_invalid, key_id_missing)
    else if e.mode == ""
    then some (envelope_invalid, mode_missing)
    else if not (eqb (len e.tag) 64) || not (is_hex e.tag)
    then some (envelope_invalid, tag)
    else none

-- The two checks against the session, under the lock. An `int64` seq that passed `precheck` is
-- positive, and so is every `last_seq`: the order of the patterns is the order of the integers.
pub check_session : SessionGuard → Envelope → Option (Code × Reason)
check_session session e =
    if not (lt64 session.last_seq e.seq)
    then some (envelope_replay, seq_replay)
    else if member e.nonce session.seen_nonce
    then some (envelope_replay, nonce_replay)
    else none

module _ (sha256_hex : String → String) where
  pub session_id_hint : String → String
  session_id_hint sid =
      if sid == "" then "anonymous" else str_append "session:" (slice (sha256_hex sid) 0 16)

  pub record_audit : Guard → Envelope → ℕ → Bool → Option Code → Option Reason → Guard
  record_audit g e now accepted code reason =
      let audit : Audit = record {
        session_id_hint = session_id_hint e.session_id;
        user_id = e.user_id;
        transport = e.transport;
        endpoint = e.endpoint;
        op = e.op;
        key_id = e.key_id;
        version = e.version;
        seq = e.seq;
        nonce = e.nonce;
        timestamp_ms = e.timestamp_ms;
        server_time_ms = now;
        accepted = accepted;
        code = code;
        reason = reason;
        replay = is_replay code;
        body_hash = e.body_hash;
        auth_tag_prefix = auth_tag_prefix e.tag;
      } in
      record g {
        audit_trail = keep_last g.max_audits (g.audit_trail ++ audit ∷ []);
        audit_errors = count_failure g.audit_sink audit g.audit_errors;
      }

  -- rejectLocked
  pub reject : Guard → Envelope → ℕ → Code × Reason → Guard × Validation
  reject g e now (code, reason) = (
    record_audit (record g { rejected = add64 g.rejected 1 }) e now false (some code) (some reason),
    record {
      ok = false;
      code = some code;
      reason = some reason;
      replay = is_replay (some code);
      seq = e.seq;
      nonce = e.nonce;
    },
  )

  -- The part of Validate under the lock.
  pub validate_session : Guard → Envelope → ℕ → Guard × Validation
  validate_session g e now =
      let session = session_of g e.session_id in
      let opened = record g { sessions = insert e.session_id session g.sessions } in
      elim (check_session session e) [
        | some why ↦ reject opened e now why
        | none ↦ (
          record_audit
              (record opened {
                sessions = insert e.session_id (admit g.nonce_cap session e) opened.sessions;
                accepted = add64 g.accepted 1;
              })
              e now true none none,
          record {
            ok = true;
            code = none;
            reason = none;
            replay = false;
            seq = e.seq;
            nonce = e.nonce;
          },
        )
      ]

  pub validate : Guard → ℕ → Envelope → Guard × Validation
  validate g now raw =
      let e = normalize raw in
      elim (precheck g now e) [ some why ↦ reject g e now why | none ↦ validate_session g e now ]
