-- ===== src/Account/Codes.antt =====
-- The e-mail verification codes: the pending codes and the rate limits of
-- runtime/account/service.go, and runtime/account/code.go. Time is in nanoseconds and an argument of
-- each call, and so are the random code and salt. HMAC-SHA-256, of the standard library, is a
-- parameter. A pointer to a pending code is its `id`, a number that no other code has.
pub mod Guesses
pub mod Sends
pub mod Pending
mod Tests
use Prim.Native.Char.{char}
use gensoulkyo.Base.{
  ℕ, ◌+◌, String, Bool, true, false, not, Option, none, some, List, [], ◌∷◌, ◌++◌, ◌==◌, str_append,
  Dict, lookup, insert, delete, or_else, eqb, ltb, leb, if◌then◌else◌, length,
}
use gensoulkyo.Base.Window.{prune}
use gensoulkyo.Account.Errors.{
  Result, ok, err, verification_required, verification_invalid, verification_expired,
  verification_rate, unavailable,
}

pub record PendingCode : Type 0 where
  pub id : ℕ
  pub salt : String
  pub digest : String
  pub issued_at : ℕ
  pub expires_at : ℕ
  pub attempts : ℕ

-- The part of the service that the lock guards, and its settings.
pub record Codes : Type 0 where
  pub code_key : String
  pub ttl : ℕ
  pub cooldown : ℕ
  pub hourly : ℕ
  pub max_attempts : ℕ
  pub next_id : ℕ
  pub pending : Dict PendingCode
  pub sends : Dict (List ℕ)

abbrev or_default : ℕ → ℕ → ℕ
or_default n d = if eqb n 0 then d else n

-- NewService; a setting that is not positive is 0 here and gets its default.
unfoldable pub new_codes : String → ℕ → ℕ → ℕ → ℕ → Codes
new_codes secret ttl cooldown hourly attempts = record {
  code_key = secret;
  ttl = or_default ttl 600_000_000_000;
  cooldown = or_default cooldown 60_000_000_000;
  hourly = or_default hourly 5;
  max_attempts = or_default attempts 5;
  next_id = 0;
  pending = [];
  sends = [];
}

abbrev pub hour : ℕ
hour = 3_600_000_000_000

abbrev pub sends_of : Codes → String → List ℕ
sends_of s address = or_else (lookup address s.sends) []

-- Whether a code was sent so recently that another must wait.
abbrev pub cooling : ℕ → ℕ → Option PendingCode → Bool
cooling cooldown now none = false
cooling cooldown now (some last) = ltb now (last.issued_at + cooldown)

-- drop_pending: only if the code is still the one that was stored.
abbrev is_current : Option PendingCode → ℕ → Bool
is_current none id = false
is_current (some current) id = eqb current.id id

unfoldable pub drop_pending : Codes → String → ℕ → Codes
drop_pending s address id =
    if is_current (lookup address s.pending) id
    then record s { pending = delete address s.pending }
    else s

abbrev separator : String
separator = String.◌∷◌ (char 0x1f tt) String.[]

module _ (hmac : String → String → String) where
  -- hashVerificationCode: the salt, the byte 0x1f and the code under the secret.
  unfoldable pub hash_code : String → String → String → String
  hash_code secret salt code = hmac secret (str_append salt (str_append separator code))

  unfoldable pub code_matches : String → String → String → String → Bool
  code_matches secret salt code want = hash_code secret salt code == want

  -- beginSend. `drawn` is the random code and salt, none where the source of randomness fails.
  unfoldable pub begin_send :
      Codes → String → ℕ → Option (String × String) → Codes × Result (PendingCode × String)
  begin_send s address now drawn =
      let history = prune hour now (sends_of s address) in
      let pruned = record s { sends = insert address history s.sends } in
      if leb s.hourly (length history)
      then (pruned, err verification_rate)
      else if cooling s.cooldown now (lookup address s.pending)
      then (pruned, err verification_rate)
      else elim drawn [
        | none ↦ (pruned, err unavailable)
        | some (code, salt) ↦
            let fresh : PendingCode = record {
              id = s.next_id;
              salt = salt;
              digest = hash_code s.code_key salt code;
              issued_at = now;
              expires_at = now + s.ttl;
              attempts = 0;
            } in
            (
              record s {
                next_id = s.next_id + 1;
                pending = insert address fresh s.pending;
                sends = insert address (history ++ now ∷ []) s.sends;
              },
              ok (fresh, code),
            )
      ]

  check_pending : Codes → String → String → ℕ → PendingCode → Codes × Result (Unit {0})
  check_pending s address code now p =
      let burnt = record s { pending = delete address s.pending } in
      let missed = record p { attempts = p.attempts + 1 } in
      if not (ltb now p.expires_at)
      then (burnt, err verification_expired)
      else if not (code_matches s.code_key p.salt code p.digest)
      then if leb s.max_attempts missed.attempts
        then (burnt, err verification_invalid)
        else (record s { pending = insert address missed s.pending }, err verification_invalid)
      else (burnt, ok tt)

  -- consumeCode
  unfoldable pub consume_code : Codes → String → String → ℕ → Codes × Result (Unit {0})
  unfolding check_pending
  consume_code s address code now = elim (lookup address s.pending) [
    | none ↦ (s, err verification_required)
    | some p ↦ check_pending s address code now p
  ]
