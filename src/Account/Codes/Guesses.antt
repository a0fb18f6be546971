-- ===== src/Account/Codes/Guesses.antt =====
-- Guesses at a pending code: consumeCode of runtime/account/service.go.
use gensoulkyo.Base.{
  ℕ, ◌+◌, ◌≤◌, ◌<◌, ◌≡◌, refl, sym, ap, ◌∙◌, ◌≢◌, ◌⊎◌, String, Option, none, some, List, [], ◌∷◌,
  arith, lookup, lookup-insert_self, lookup-delete_self, eq_iff, length, All, inl, inr,
}
use gensoulkyo.Account.Errors.{Result, ok, err, verification_required}
use gensoulkyo.Account.Codes.{Codes, PendingCode, code_matches, hash_code, begin_send, consume_code}

module _ (hmac : String → String → String) where
  unfoldable pub guess_all : Codes → String → List (String × ℕ) → Codes
  guess_all s address [] = s
  guess_all s address ((code, now) ∷ guesses) =
      guess_all (consume_code hmac s address code now).0 address guesses

  -- A code of the same salt, digest and time.
  abbrev IsSame : PendingCode → PendingCode → Type 0
  IsSame p q = (q.salt ≡ p.salt) × (q.digest ≡ p.digest) × (q.expires_at ≡ p.expires_at)

  -- What a code that was sent becomes: it is gone, or still pending with its salt, digest and time.
  abbrev Stays : Codes → String → PendingCode → Type 0
  Stays s address p =
      (lookup address s.pending ≡ none)
      ⊎ ((q : PendingCode) × (lookup address s.pending ≡ some q) × IsSame p q)

  consume_missing :
      (s : Codes) (address code : String) (now : ℕ)
      → lookup address s.pending ≡ none
      → consume_code hmac s address code now ≡ (s, err verification_required)
  unfolding consume_code
  consume_missing s address code now h = ground arith

  consume-code_key :
      (s : Codes) (address code : String) (now : ℕ)
      → (consume_code hmac s address code now).0.code_key ≡ s.code_key
  unfolding consume_code
  consume-code_key s address code now = ground arith

  abbrev missed : PendingCode → PendingCode
  missed p = record p { attempts = p.attempts + 1 }

  consume-once :
      (s : Codes) (address code : String) (now : ℕ) (q : PendingCode)
      → lookup address s.pending ≡ some q
      → let s' = (consume_code hmac s address code now).0 in
        (lookup address s'.pending ≡ none) ⊎ (lookup address s'.pending ≡ some (missed q))
  unfolding consume_code
  consume-once s address code now q found =
      ground (
        arith,
        lookup-delete_self address s.pending,
        lookup-insert_self address (missed q) s.pending,
      )

  consume-Stays :
      (s : Codes) (address code : String) (now : ℕ) (p : PendingCode)
      → Stays s address p
      → Stays (consume_code hmac s address code now).0 address p
  consume-Stays s address code now p (inl gone) =
      inl (rw (consume_missing s address code now gone) gone)
  consume-Stays s address code now p (inr (q, found, same)) =
      elim (consume-once s address code now q found) [
        | inl gone ↦ inl gone
        | inr again ↦ inr (missed q, again, same)
      ]

  guess_all-Stays :
      (s : Codes) (address : String) (p : PendingCode) (guesses : List (String × ℕ))
      → Stays s address p
      → Stays (guess_all s address guesses) address p
        × ((guess_all s address guesses).code_key ≡ s.code_key)
  unfolding guess_all
  guess_all-Stays s address p [] stays = (stays, refl)
  guess_all-Stays s address p ((code, now) ∷ guesses) stays =
      let s' = (consume_code hmac s address code now).0 in
      let (later, key) =
        guess_all-Stays s' address p guesses (consume-Stays s address code now p stays) in
      (later, key ∙ consume-code_key s address code now)

  consume_accepted :
      (s : Codes) (address code : String) (now : ℕ) (q : PendingCode)
      → lookup address s.pending ≡ some q
      → (consume_code hmac s address code now).1 ≡ ok tt
      → (now < q.expires_at)
        × (hash_code hmac s.code_key q.salt code ≡ q.digest)
        × (lookup address (consume_code hmac s address code now).0.pending ≡ none)
  unfolding consume_code code_matches
  consume_accepted s address code now q found h = (
    ground (arith, found),
    ground (arith, found, eq_iff (hash_code hmac s.code_key q.salt code) q.digest),
    ground (arith, found, lookup-delete_self address s.pending),
  )

  begin_sent :
      (s : Codes) (address code : String) (sent : ℕ) (drawn : Option (String × String))
      (p : PendingCode)
      → (begin_send hmac s address sent drawn).1 ≡ ok (p, code)
      → (lookup address (begin_send hmac s address sent drawn).0.pending ≡ some p)
        × (p.digest ≡ hash_code hmac s.code_key p.salt code)
        × (p.expires_at ≡ sent + s.ttl)
        × ((begin_send hmac s address sent drawn).0.code_key ≡ s.code_key)
  unfolding begin_send
  begin_sent s address code sent drawn p h = (
    ground (arith, lookup-insert_self address p s.pending),
    ground arith,
    ground arith,
    ground arith,
  )

  -- After a code was sent to an address, and any guesses at it, a guess is accepted only before the
  -- code expires, and only if it is the code that was sent, up to a collision of the digest; and
  -- the next guess for the address, the same code included, is answered that a code must be
  -- requested first.
  pub consume_success :
      (s : Codes) (address code : String) (sent : ℕ) (drawn : Option (String × String))
      (p : PendingCode) (guesses : List (String × ℕ)) (guess : String) (now : ℕ) (again : String)
      (later : ℕ)
      → (begin_send hmac s address sent drawn).1 ≡ ok (p, code)
      → let waiting = guess_all (begin_send hmac s address sent drawn).0 address guesses in
        (consume_code hmac waiting address guess now).1 ≡ ok tt
        → (now < sent + s.ttl)
          × (hash_code hmac s.code_key p.salt guess ≡ hash_code hmac s.code_key p.salt code)
          × ((consume_code hmac
                (consume_code hmac waiting address guess now).0
                address
                again
                later).1
              ≡ err verification_required)
  consume_success s address code sent drawn p guesses guess now again later h accepted =
      let started = (begin_send hmac s address sent drawn).0 in
      let waiting = guess_all started address guesses in
      let (found, digest, expires, key) = begin_sent s address code sent drawn p h in
      let (stays, same_key) =
        guess_all-Stays started address p guesses (inr (p, found, (refl, refl, refl))) in
      elim stays [
        | inl gone ↦ absurd (
            cc (
              ap (λ (o : Codes × Result (Unit {0})). o.1)
                  (consume_missing waiting address guess now gone),
              accepted,
            ))
        | inr (q, at, (salt, same_digest, time)) ↦
            let (early, fits, burnt) = consume_accepted waiting address guess now q at accepted in
            let after = (consume_code hmac waiting address guess now).0 in
            (
              omega (arith, early, time, expires),
              ap (λ k. hash_code hmac k p.salt guess) (sym (same_key ∙ key))
                  ∙ ap (λ t. hash_code hmac waiting.code_key t guess) (sym salt)
                  ∙ fits
                  ∙ same_digest
                  ∙ digest,
              ap (λ (o : Codes × Result (Unit {0})). o.1)
                  (consume_missing after address again later burnt),
            )
      ]

  abbrev pub IsWrong : String → PendingCode → String × ℕ → Type 0
  IsWrong key p guess = hash_code hmac key p.salt guess.0 ≢ p.digest

  guess_all_missing :
      (s : Codes) (address : String) (guesses : List (String × ℕ))
      → lookup address s.pending ≡ none
      → guess_all s address guesses ≡ s
  unfolding guess_all
  guess_all_missing s address [] h = refl
  guess_all_missing s address ((code, now) ∷ guesses) h =
      rw (consume_missing s address code now h) (guess_all_missing s address guesses h)

  -- One wrong guess: the code is gone, or it has one attempt fewer left.
  consume_wrong :
      (s : Codes) (address code : String) (now : ℕ) (p : PendingCode)
      → lookup address s.pending ≡ some p
      → IsWrong s.code_key p (code, now)
      → let s' = (consume_code hmac s address code now).0 in
        (lookup address s'.pending ≡ none)
        ⊎ ((lookup address s'.pending ≡ some (missed p))
            × (p.attempts + 1 < s.max_attempts)
            × (s'.code_key ≡ s.code_key)
            × (s'.max_attempts ≡ s.max_attempts))
  unfolding consume_code code_matches
  consume_wrong s address code now p found wrong = ground (
    arith,
    eq_iff (hash_code hmac s.code_key p.salt code) p.digest,
    lookup-delete_self address s.pending,
    lookup-insert_self address (missed p) s.pending,
  )

  guesses_burn :
      (s : Codes) (address : String) (p : PendingCode) (guesses : List (String × ℕ))
      → lookup address s.pending ≡ some p
      → All (IsWrong s.code_key p) guesses
      → p.attempts < s.max_attempts
      → s.max_attempts ≤ p.attempts + length guesses
      → lookup address (guess_all s address guesses).pending ≡ none
  unfolding guess_all
  guesses_burn s address p [] found wrong live many = absurd (omega arith)
  guesses_burn s address p ((code, now) ∷ guesses) found wrong live many =
      let s' = (consume_code hmac s address code now).0 in
      elim (consume_wrong s address code now p found wrong.0) [
        | inl gone ↦ rw (guess_all_missing s' address guesses gone) gone
        | inr (found', live', key, capacity) ↦
            guesses_burn s' address (missed p) guesses found' (rw key wrong.1) (omega arith)
              (omega arith)
      ]

  -- Once `max_attempts` guesses, at any times, have missed a pending code on which no attempt was
  -- spent, the code is gone: any further guess, the right code included, is answered that a code
  -- must be requested first.
  pub guesses_bounded :
      (s : Codes) (address : String) (p : PendingCode) (guesses : List (String × ℕ)) (code : String)
      (now : ℕ)
      → lookup address s.pending ≡ some p
      → p.attempts ≡ 0
      → 0 < s.max_attempts
      → All (IsWrong s.code_key p) guesses
      → s.max_attempts ≤ length guesses
      → (consume_code hmac (guess_all s address guesses) address code now).1
        ≡ err verification_required
  guesses_bounded s address p guesses code now found unused live wrong many =
      let gone = guesses_burn s address p guesses found wrong (omega arith) (omega arith) in
      rw (consume_missing (guess_all s address guesses) address code now gone)
