-- ===== src/Core/Callback.antt =====
-- The freshness of battle-server callbacks: runtime/core/battle_callback_freshness.go, with the
-- signature of runtime/core/service.go. Time is in nanoseconds since 1970 and an argument of each call;
-- HMAC-SHA-256 in hexadecimal is a parameter.
pub mod Remembered
pub mod Tracked
pub mod Replay
pub mod Edge
use Prim.Native.String
use Prim.Native.Char.{code, char}
use gensoulkyo.Base.{
  ℕ, zero, suc, ◌+◌, ◌-◌, ◌*◌, ◌/◌, ◌<◌, String, str_append, len, Bool, true, false, not, ◌&&◌,
  ◌||◌, Option, none, some, List, [], ◌∷◌, ◌++◌, ◌==◌, Dict, lookup, insert, delete, contains,
  or_else, value, trim_space, ltb, leb, eqb, if◌then◌else◌, length,
}
use gensoulkyo.Base.Int64.{word, half, sub64, lt64}

-- battleCallbackNonceWindow: the time of each nonce that was seen, and the nonces, the oldest first.
pub record NonceWindow : Type 0 where
  pub seen : Dict ℕ
  pub order : List String

-- What VerifyBattleCallback reads and writes of the service.
pub record Callbacks : Type 0 where
  pub callback_secret : String
  pub legacy : ℕ
  pub nonces : Dict NonceWindow

pub data Verdict : Type 0 where
  accepted signature_invalid freshness_incomplete nonce_invalid timestamp_stale replay : Verdict

-- 600 s
abbrev pub retention : ℕ
retention = 600000000000

abbrev pub max_nonces : ℕ
max_nonces = 4096

abbrev pub new_window : NonceWindow
new_window = record { seen = []; order = [] }

-- The loop that drops the nonces past retention; a seen nonce is kept while `now` is before its end.
unfoldable pub drop_expired : ℕ → List String → Dict ℕ → NonceWindow
drop_expired now [] seen = record { seen = seen; order = [] }
drop_expired now (oldest ∷ order) seen =
    let more = drop_expired now order (delete oldest seen) in
    if ltb now (value oldest seen + retention)
    then record { seen = seen; order = oldest ∷ order }
    else more

-- `for len(window.order) >= maxBattleCallbackNoncesPerServer`
unfoldable pub evict_nonces : ℕ → List String → Dict ℕ → NonceWindow
evict_nonces limit [] seen = record { seen = seen; order = [] }
evict_nonces limit (oldest ∷ order) seen =
    let more = evict_nonces limit order (delete oldest seen) in
    if leb limit (suc (length order)) then more else record { seen = seen; order = oldest ∷ order }

unfoldable pub remember : NonceWindow → String → ℕ → NonceWindow
remember w nonce now = record { seen = insert nonce now w.seen; order = w.order ++ nonce ∷ [] }

-- allowBattleCallbackNonceLocked on the window of one server
unfoldable pub allow_nonce : NonceWindow → String → ℕ → NonceWindow × Bool
allow_nonce w nonce now =
    let kept = drop_expired now w.order w.seen in
    if contains nonce kept.seen
    then (kept, false)
    else (remember (evict_nonces max_nonces kept.order kept.seen) nonce now, true)

-- The digits of a decimal number, none where another character stands.
pub digits_from : ℕ → String → Option ℕ
digits_from n String.[] = some n
digits_from n (String.◌∷◌ c s) =
    let rest = digits_from (n * 10 + (code c - b'0')) s in
    if leb b'0' (code c) && leb (code c) b'9' then rest else none

abbrev pub within : ℕ → Option ℕ → Option ℕ
within bound none = none
within bound (some n) = if ltb n bound then some n else none

abbrev pub digits_of : ℕ → String → Option ℕ
digits_of bound String.[] = none
digits_of bound (String.◌∷◌ c s) = within bound (digits_from 0 (String.◌∷◌ c s))

abbrev pub negated : Option ℕ → Option ℕ
negated none = none
negated (some n) = some (sub64 0 n)

-- strconv.ParseInt(text, 10, 64), as a 64-bit pattern
unfoldable pub parse_int64 : String → Option ℕ
unfolding digits_from
parse_int64 String.[] = none
parse_int64 (String.◌∷◌ c s) =
    if eqb (code c) b'-'
    then negated (digits_of (half + 1) s)
    else if eqb (code c) b'+'
    then digits_of half s
    else digits_of half (String.◌∷◌ c s)

-- battleCallbackTimestampFresh, from the seconds on
unfoldable pub fresh_seconds : ℕ → ℕ → Bool
fresh_seconds secs now =
    let delta = sub64 (now / 1000000000) secs in
    let size = if lt64 delta 0 then sub64 0 delta else delta in not (lt64 300 size)

abbrev pub fresh_if : Option ℕ → ℕ → Bool
fresh_if none now = false
fresh_if (some secs) now = fresh_seconds secs now

-- battleCallbackTimestampFresh
unfoldable pub battle_callback_timestamp_fresh : String → ℕ → Bool
battle_callback_timestamp_fresh timestamp now = fresh_if (parse_int64 timestamp) now

abbrev newline : String
newline = String.◌∷◌ (char 10 tt) String.[]

-- BattleCallbackSignedMaterial
unfoldable pub battle_callback_signed_material : String → String → String → String
battle_callback_signed_material timestamp nonce raw_body =
    let ts = trim_space timestamp in
    let n = trim_space nonce in
    if ts == "" || n == ""
    then raw_body
    else str_append ts (str_append newline (str_append n (str_append newline raw_body)))

-- The nonce check of VerifyBattleCallback, under the lock.
unfoldable pub check_nonce : Callbacks → String → String → ℕ → Callbacks × Verdict
check_nonce s server_id nonce now =
    let (w, fresh) = allow_nonce (or_else (lookup server_id s.nonces) new_window) nonce now in
    (record s { nonces = insert server_id w s.nonces }, if fresh then accepted else replay)

module _ (hmac_hex : String → String → String) (to_lower : String → String) where
  -- BattleServerCallbackSecret
  unfoldable pub battle_server_callback_secret : Callbacks → String → String
  battle_server_callback_secret s server_id = hmac_hex s.callback_secret (trim_space server_id)

  -- BattleCallbackSignature
  unfoldable pub battle_callback_signature : String → String → String
  battle_callback_signature secret raw_body = hmac_hex secret raw_body

  -- BattleCallbackSignatureValid
  unfoldable pub battle_callback_signature_valid : Callbacks → String → String → String → Bool
  battle_callback_signature_valid s server raw_body presented =
      let server_id = trim_space server in
      let expected =
        battle_callback_signature (battle_server_callback_secret s server_id) raw_body in
      if server_id == "" then false else to_lower (trim_space presented) == expected

  -- VerifyBattleCallback
  unfoldable pub verify_battle_callback :
      Callbacks → String → String → String → String → String → ℕ → Callbacks × Verdict
  verify_battle_callback s server raw_body timestamp nonce signature now =
      let server_id = trim_space server in
      let ts = trim_space timestamp in
      let n = trim_space nonce in
      let material = battle_callback_signed_material ts n raw_body in
      if server_id == ""
      then (s, signature_invalid)
      else if (ts == "" && not (n == "")) || (not (ts == "") && n == "")
      then (s, freshness_incomplete)
      else if ts == ""
      then if not (battle_callback_signature_valid s server_id raw_body signature)
        then (s, signature_invalid)
        else (record s { legacy = s.legacy + 1 }, accepted)
      else if ltb 64 (len n)
      then (s, nonce_invalid)
      else if not (battle_callback_signature_valid s server_id material signature)
      then (s, signature_invalid)
      else if not (battle_callback_timestamp_fresh ts now)
      then (s, timestamp_stale)
      else check_nonce s server_id n now
