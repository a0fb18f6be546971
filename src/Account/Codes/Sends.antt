-- ===== src/Account/Codes/Sends.antt =====
-- The limits on sending codes along a sequence of calls: beginSend of runtime/account/service.go.
use gensoulkyo.Base.{
  ℕ, ◌≤◌, ◌≡◌, refl, String, Bool, true, false, Option, List, [], ◌∷◌, ◌++◌, arith, ◌==◌, eq_iff,
  lookup, insert, lookup-insert, or_else, Dict, if◌then◌else◌, length, length-append, append_assoc,
  append-nil, Bool-cases, inl, inr, sym, ◌∙◌, ◌&&◌,
}
use gensoulkyo.Base.Window.{
  prune, in_window, length-prune, in_window-prune, in_window-append, in_window-le-length,
}
use gensoulkyo.Account.Errors.{Result, ok, err}
use gensoulkyo.Account.Codes.{
  Codes, hour, sends_of, new_codes, begin_send, drop_pending, consume_code,
}

-- The calls that touch the tables; `begin` has the address, the time and the random draw.
pub data Call : Type 0 where
  begin : String → ℕ → Option (String × String) → Call
  drop : String → ℕ → Call
  consume : String → String → ℕ → Call

abbrev pub is_ok {ℓ} : {A : Type ℓ} → Result A → Bool
is_ok (ok a) = true
is_ok (err e) = false

module _ (hmac : String → String → String) where
  unfoldable pub step : Codes → Call → Codes
  step s (begin address now drawn) = (begin_send hmac s address now drawn).0
  step s (drop address id) = drop_pending s address id
  step s (consume address code now) = (consume_code hmac s address code now).0

  unfoldable pub run : Codes → List Call → Codes
  run s [] = s
  run s (call ∷ calls) = run (step s call) calls

  -- Whether a call sends a code to the address, and when.
  pub sent_by : String → Codes → Call → List ℕ
  sent_by address s (begin to now drawn) =
      if is_ok (begin_send hmac s to now drawn).1 && to == address then now ∷ [] else []
  sent_by address s _ = []

  -- The times at which a code was sent to the address.
  unfoldable pub sent : String → Codes → List Call → List ℕ
  sent address s [] = []
  sent address s (call ∷ calls) = sent_by address s call ++ sent address (step s call) calls

-- The clock does not go back from one send to the next.
abbrev pub time_of : ℕ → Call → ℕ
time_of start (begin address now drawn) = now
time_of start (drop address id) = start
time_of start (consume address code now) = start

abbrev pub Ascending : ℕ → List Call → Type 0
Ascending start [] = Unit
Ascending start (call ∷ calls) = (start ≤ time_of start call) × Ascending (time_of start call) calls

abbrev pub last_time : ℕ → List Call → ℕ
last_time start [] = start
last_time start (call ∷ calls) = last_time (time_of start call) calls

record Tracks (s : Codes) (address : String) (start : ℕ) (history : List ℕ) : Type 0 where
  exact :
      (later : ℕ)
      → start ≤ later
      → in_window hour later (sends_of s address) ≡ in_window hour later history
  bounded : length (sends_of s address) ≤ s.hourly

sends_of-insert :
    (m : Dict (List ℕ)) (k j : String) (stamps : List ℕ)
    → or_else (lookup j (insert k stamps m)) []
      ≡ (if k == j then stamps else or_else (lookup j m) [])
sends_of-insert m k j stamps = elim (Bool-cases (k == j)) [
  | inl same ↦ rw (lookup-insert k j stamps m, same)
  | inr other ↦ rw (lookup-insert k j stamps m, other)
]

module _ (hmac : String → String → String) where
  hourly-step : (s : Codes) (call : Call) → (step hmac s call).hourly ≡ s.hourly
  unfolding step begin_send drop_pending consume_code
  hourly-step s (begin to now drawn) = ground arith
  hourly-step s (drop to id) = ground arith
  hourly-step s (consume to code now) = ground arith

  consume_sends :
      (s : Codes) (to code : String) (now : ℕ) → (consume_code hmac s to code now).0.sends ≡ s.sends
  unfolding consume_code
  consume_sends s to code now = ground arith

  drop_sends : (s : Codes) (to : String) (id : ℕ) → (drop_pending s to id).sends ≡ s.sends
  unfolding drop_pending
  drop_sends s to id = ground arith

  begin-exact :
      (s : Codes) (address : String) (start : ℕ) (history : List ℕ) (to : String) (now : ℕ)
      (drawn : Option (String × String)) (later : ℕ)
      → start ≤ now
      → now ≤ later
      → Tracks s address start history
      → in_window hour later (sends_of (begin_send hmac s to now drawn).0 address)
        ≡ in_window hour later (history ++ sent_by hmac address s (begin to now drawn))
  unfolding sent_by begin_send in_window
  begin-exact s address start history to now drawn later h k t =
      let kept = prune hour now (sends_of s to) in
      ground (
        arith,
        eq_iff to address,
        t.exact later,
        append-nil history,
        sends_of-insert s.sends to address kept,
        sends_of-insert s.sends to address (kept ++ now ∷ []),
        in_window-prune hour now later (sends_of s to) k,
        in_window-append hour later kept (now ∷ []),
        in_window-append hour later history (now ∷ []),
      )

  begin-bounded :
      (s : Codes) (address to : String) (now : ℕ) (drawn : Option (String × String))
      → length (sends_of s address) ≤ s.hourly
      → length (sends_of (begin_send hmac s to now drawn).0 address) ≤ s.hourly
  unfolding begin_send
  begin-bounded s address to now drawn h =
      let kept = prune hour now (sends_of s to) in
      ground (
        arith,
        eq_iff to address,
        sends_of-insert s.sends to address kept,
        sends_of-insert s.sends to address (kept ++ now ∷ []),
        length-prune hour now (sends_of s to),
        in_window-le-length hour now (sends_of s to),
        length-append kept (now ∷ []),
      )

  step-Tracks :
      (s : Codes) (address : String) (start : ℕ) (history : List ℕ) (call : Call)
      → start ≤ time_of start call
      → Tracks s address start history
      → Tracks
          (step hmac s call)
          address
          (time_of start call)
          (history ++ sent_by hmac address s call)
  unfolding step sent_by
  step-Tracks s address start history (begin to now drawn) h t = record {
    exact = λ later k. begin-exact s address start history to now drawn later h k t;
    bounded =
        rw (hourly-step s (begin to now drawn)) (begin-bounded s address to now drawn t.bounded);
  }
  step-Tracks s address start history (drop to id) h t = record {
    exact = λ later k. ground (arith, drop_sends s to id, append-nil history, t.exact later);
    bounded = ground (arith, drop_sends s to id, hourly-step s (drop to id), t.bounded);
  }
  step-Tracks s address start history (consume to code now) h t = record {
    exact =
        λ later k. ground (arith, consume_sends s to code now, append-nil history, t.exact later);
    bounded =
        ground (arith, consume_sends s to code now, hourly-step s (consume to code now), t.bounded);
  }

  run-Tracks :
      (s : Codes) (address : String) (start : ℕ) (history : List ℕ) (calls : List Call)
      → Ascending start calls
      → Tracks s address start history
      → Tracks
          (run hmac s calls)
          address
          (last_time start calls)
          (history ++ sent hmac address s calls)
  unfolding run sent
  run-Tracks s address start history [] asc t = rw (append-nil history) t
  run-Tracks s address start history (call ∷ calls) asc t =
      rw
        (sym (
          append_assoc history (sent_by hmac address s call)
            (sent hmac address (step hmac s call) calls)))
        (run-Tracks (step hmac s call) address (time_of start call)
          (history ++ sent_by hmac address s call) calls asc.1
          (step-Tracks s address start history call asc.0 t))

  hourly-run : (s : Codes) (calls : List Call) → (run hmac s calls).hourly ≡ s.hourly
  unfolding run
  hourly-run s [] = refl
  hourly-run s (call ∷ calls) = hourly-run (step hmac s call) calls ∙ hourly-step s call

  -- On a clock that does not go back, whatever codes are sent, dropped and consumed on a new
  -- service, no address is sent more than `hourly` codes within the hour that ends at any time after
  -- the calls.
  pub sends_bounded :
      (secret : String) (ttl cooldown hourly attempts : ℕ) (calls : List Call) (address : String)
      (now : ℕ)
      → Ascending 0 calls
      → last_time 0 calls ≤ now
      → let s = new_codes secret ttl cooldown hourly attempts in
        in_window hour now (sent hmac address s calls) ≤ s.hourly
  unfolding new_codes lookup
  sends_bounded secret ttl cooldown hourly attempts calls address now asc late =
      let s = new_codes secret ttl cooldown hourly attempts in
      let fresh : Tracks s address 0 [] = record {
        exact = λ later h. refl;
        bounded = omega arith;
      } in
      let t = run-Tracks s address 0 [] calls asc fresh in
      let same : in_window hour now (sends_of (run hmac s calls) address)
          ≡ in_window hour now (sent hmac address s calls) =
        t.exact now late in
      omega (
        arith,
        same,
        hourly-run s calls,
        t.bounded,
        in_window-le-length hour now (sends_of (run hmac s calls) address),
      )
