-- ===== src/Account/Codes/Pending.antt =====
-- The pending code of an address from its sending to its end: runtime/account/service.go.
use gensoulkyo.Base.{
  ℕ, ◌+◌, ◌≤◌, ◌<◌, ◌≡◌, String, Option, some, List, [], ◌∷◌, arith, lookup, lookup-insert_self,
}
use gensoulkyo.Account.Errors.{ok}
use gensoulkyo.Account.Codes.{Codes, PendingCode, begin_send, drop_pending, consume_code}
use gensoulkyo.Account.Codes.Sends.{Call, begin, drop, consume, step, run}

module _ (hmac : String → String → String) where
  next_id-step : (s : Codes) (call : Call) → s.next_id ≤ (step hmac s call).next_id
  unfolding step begin_send drop_pending consume_code
  next_id-step s (begin to now drawn) = ground arith
  next_id-step s (drop to id) = ground arith
  next_id-step s (consume to code now) = ground arith

  next_id-run : (s : Codes) (calls : List Call) → s.next_id ≤ (run hmac s calls).next_id
  unfolding run
  next_id-run s [] = omega arith
  next_id-run s (call ∷ calls) =
      omega (arith, next_id-step s call, next_id-run (step hmac s call) calls)

  -- A code that is sent is then pending, with no attempt spent; the one before it, if any, had
  -- outlived the cooldown.
  pub begin_success :
      (s : Codes) (address code : String) (now : ℕ) (drawn : Option (String × String))
      (p : PendingCode)
      → (begin_send hmac s address now drawn).1 ≡ ok (p, code)
      → (lookup address (begin_send hmac s address now drawn).0.pending ≡ some p)
        × (p.attempts ≡ 0)
        × (p.expires_at ≡ now + s.ttl)
        × (p.id ≡ s.next_id)
        × ((last : PendingCode)
            → lookup address s.pending ≡ some last
            → last.issued_at + s.cooldown ≤ now)
  unfolding begin_send
  begin_success s address code now drawn p h = (
    ground (arith, lookup-insert_self address p s.pending),
    ground arith,
    ground arith,
    ground arith,
    λ last found. ground arith,
  )

  next_id-begin :
      (s : Codes) (address code : String) (now : ℕ) (drawn : Option (String × String))
      (p : PendingCode)
      → (begin_send hmac s address now drawn).1 ≡ ok (p, code)
      → (begin_send hmac s address now drawn).0.next_id ≡ s.next_id + 1
  unfolding begin_send
  next_id-begin s address code now drawn p h = ground arith

  drop_other :
      (s : Codes) (address : String) (id : ℕ) (current : PendingCode)
      → lookup address s.pending ≡ some current
      → id < current.id
      → drop_pending s address id ≡ s
  unfolding drop_pending
  drop_other s address id current found h = ground arith

  -- A delivery that fails late cannot remove a newer code: if a code was sent to an address, and
  -- after any other calls another one was, then dropping the first leaves the second pending.
  pub newer_code_survives :
      (s : Codes) (address code code' : String) (now later : ℕ)
      (drawn drawn' : Option (String × String)) (calls : List Call) (p q : PendingCode)
      → (begin_send hmac s address now drawn).1 ≡ ok (p, code)
      → (begin_send hmac
          (run hmac (begin_send hmac s address now drawn).0 calls)
          address
          later
          drawn').1
        ≡ ok (q, code')
      → lookup address
          (drop_pending
            (begin_send hmac
              (run hmac (begin_send hmac s address now drawn).0 calls)
              address
              later
              drawn').0
            address
            p.id).pending
        ≡ some q
  newer_code_survives s address code code' now later drawn drawn' calls p q h k =
      let first = begin_send hmac s address now drawn in
      let between = run hmac first.0 calls in
      let second = begin_send hmac between address later drawn' in
      let old = begin_success s address code now drawn p h in
      let new = begin_success between address code' later drawn' q k in
      let older : p.id < q.id = omega (
        arith,
        old.3,
        new.3,
        next_id-begin s address code now drawn p h,
        next_id-run first.0 calls,
      ) in
      rw (drop_other second.0 address p.id q new.0 older) new.0
