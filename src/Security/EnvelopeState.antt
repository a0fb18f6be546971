-- ===== src/Security/EnvelopeState.antt =====
-- The envelopes of runtime/security/business_envelope.go and the state of the guard that checks
-- them: BusinessEnvelope, BusinessEnvelopeAudit and BusinessEnvelopeGuard.
use gensoulkyo.Base.{ℕ, String, Bool, false, ◌||◌, Option, List, [], ◌∷◌, ◌==◌, Dict, if◌then◌else◌}

pub data Reason : Type 0 where
  session_missing version seq_missing timestamp timestamp_stale timestamp_future : Reason
  nonce_missing op_missing key_id_missing mode_missing tag seq_replay nonce_replay : Reason

pub data Code : Type 0 where
  envelope_invalid envelope_replay : Code

-- `seq` and `timestamp_ms` are int64.
pub record Envelope : Type 0 where
  pub session_id : String
  pub version : String
  pub seq : ℕ
  pub timestamp_ms : ℕ
  pub nonce : String
  pub op : String
  pub key_id : String
  pub tag : String
  pub mode : String
  pub transport : String
  pub endpoint : String
  pub user_id : String
  pub body_hash : String

-- `code` and `reason` are none in an accepted audit, where the source has empty strings.
pub record Audit : Type 0 where
  pub session_id_hint : String
  pub user_id : String
  pub transport : String
  pub endpoint : String
  pub op : String
  pub key_id : String
  pub version : String
  pub seq : ℕ
  pub nonce : String
  pub timestamp_ms : ℕ
  pub server_time_ms : ℕ
  pub accepted : Bool
  pub code : Option Code
  pub reason : Option Reason
  pub replay : Bool
  pub body_hash : String
  pub auth_tag_prefix : String

-- The source's message is a function of the reason.
pub record Validation : Type 0 where
  pub ok : Bool
  pub code : Option Code
  pub reason : Option Reason
  pub replay : Bool
  pub seq : ℕ
  pub nonce : String

-- The map `seenNonce` to empty structs is a set: its keys.
pub record SessionGuard : Type 0 where
  pub last_seq : ℕ
  pub seen_nonce : List String
  pub nonce_order : List String

-- The counters are int64.
pub record Guard : Type 0 where
  pub version : String
  pub max_skew_ms : ℕ
  pub nonce_cap : ℕ
  pub max_audits : ℕ
  pub audit_sink : Option (Audit → Bool)
  pub sessions : Dict SessionGuard
  pub accepted : ℕ
  pub rejected : ℕ
  pub audit_errors : ℕ
  pub audit_trail : List Audit

abbrev pub member : String → List String → Bool
member k [] = false
member k (j ∷ s) = j == k || member k s

-- seenNonce[k] = struct{}{}
abbrev pub add_nonce : String → List String → List String
add_nonce k s = if member k s then s else k ∷ s

-- delete(seenNonce, k)
abbrev pub delete_nonce : String → List String → List String
delete_nonce k [] = []
delete_nonce k (j ∷ s) = let rest = delete_nonce k s in if j == k then rest else j ∷ rest
