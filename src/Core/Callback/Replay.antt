-- ===== src/Core/Callback/Replay.antt =====
-- Replays of battle-server callbacks: VerifyBattleCallback of
-- runtime/core/battle_callback_freshness.go along a sequence of calls.
use gensoulkyo.Base.{
  ℕ, ◌+◌, ◌≤◌, ◌<◌, ◌≡◌, ◌≢◌, ◌⊎◌, inl, inr, ap, String, true, false, List, [], ◌∷◌, ◌==◌, lookup,
  or_else, trim_space, lookup-insert, if◌then◌else◌, All, length, arith, if_rule, eq_iff,
}
use gensoulkyo.Base.Int64.{word, half, sub64, lt64}
use gensoulkyo.Core.Callback.{
  NonceWindow, new_window, Callbacks, Verdict, accepted, replay, retention, max_nonces, allow_nonce,
  fresh_seconds, battle_callback_timestamp_fresh, check_nonce, verify_battle_callback,
}
use gensoulkyo.Core.Callback.Remembered.{Holds, allow_nonce-Holds}
use gensoulkyo.Core.Callback.Tracked.{IsTracked, allow_nonce-IsTracked}

pub record Call : Type 0 where
  pub server : String
  pub raw_body : String
  pub timestamp : String
  pub nonce : String
  pub signature : String
  pub at : ℕ

abbrev pub window_of : Callbacks → String → NonceWindow
window_of s server = or_else (lookup server s.nonces) new_window

abbrev pub new_callbacks : String → Callbacks
new_callbacks secret = record { callback_secret = secret; legacy = 0; nonces = [] }

pub new_window-IsTracked : IsTracked new_window
new_window-IsTracked = record { distinct = tt; timed = tt }

same_window :
    (s s' : Callbacks) (server : String)
    → s'.nonces ≡ s.nonces
    → window_of s' server ≡ window_of s server
same_window s s' server e = ap (λ d. or_else (lookup server d) new_window) e

pub check_nonce-window :
    (s : Callbacks) (id nonce : String) (now : ℕ) (server : String)
    → window_of (check_nonce s id nonce now).0 server
      ≡ (if id == server then (allow_nonce (window_of s id) nonce now).0 else window_of s server)
unfolding check_nonce
check_nonce-window s id nonce now server =
    ground (arith, lookup-insert id server (allow_nonce (window_of s id) nonce now).0 s.nonces)

pub check_nonce-allowed :
    (s : Callbacks) (id nonce : String) (now : ℕ)
    → (check_nonce s id nonce now).1 ≡ accepted
    → (allow_nonce (window_of s id) nonce now).1 ≡ true
unfolding check_nonce
check_nonce-allowed s id nonce now h = ground arith

pub check_nonce-refused :
    (s : Callbacks) (id nonce : String) (now : ℕ)
    → (allow_nonce (window_of s id) nonce now).1 ≡ false
    → (check_nonce s id nonce now).1 ≡ replay
unfolding check_nonce
check_nonce-refused s id nonce now h = rw h

weaken-Holds :
    {nonce : String} {t k : ℕ} (j : ℕ) {w : NonceWindow}
    → k ≤ j
    → Holds nonce t k w
    → Holds nonce t j w
weaken-Holds j le h = record {
  before = h.before;
  after = h.after;
  order = h.order;
  absent = h.absent;
  newer = omega (arith, h.newer);
  seen_at = h.seen_at;
}

-- A timestamp that was fresh is stale 601 seconds later.
pub fresh_once :
    (secs now later : ℕ)
    → fresh_seconds secs now ≡ true
    → now + 601000000000 ≤ later
    → later < half
    → secs < word
    → fresh_seconds secs later ≡ false
unfolding fresh_seconds sub64 lt64
fresh_once secs now later fresh apart small word_small = ground arith

module _ (hmac_hex : String → String → String) (to_lower : String → String) where
  unfoldable pub step : Callbacks → Call → Callbacks × Verdict
  step s c =
      verify_battle_callback hmac_hex to_lower s c.server c.raw_body c.timestamp c.nonce c.signature
        c.at

  unfoldable pub run : Callbacks → List Call → Callbacks
  run s [] = s
  run s (c ∷ calls) = run (step s c).0 calls

  -- A call changes no window, or it is the nonce check of its server.
  step-cases :
      (s : Callbacks) (c : Call)
      → ((step s c).0.nonces ≡ s.nonces)
        ⊎ (step s c ≡ check_nonce s (trim_space c.server) (trim_space c.nonce) c.at)
  unfolding step verify_battle_callback
  step-cases s c = ground arith

  -- An accepted call with a nonce passed every check.
  pub accepted_lem :
      (s : Callbacks) (c : Call)
      → (step s c).1 ≡ accepted
      → trim_space c.nonce ≢ ""
      → (step s c ≡ check_nonce s (trim_space c.server) (trim_space c.nonce) c.at)
        × (battle_callback_timestamp_fresh (trim_space c.timestamp) c.at ≡ true)
  unfolding step verify_battle_callback
  accepted_lem s c ok named = ground (arith, eq_iff (trim_space c.nonce) "")

  step-IsTracked :
      (s : Callbacks) (c : Call)
      → ((server : String) → IsTracked (window_of s server))
      → (server : String) → IsTracked (window_of (step s c).0 server)
  step-IsTracked s c tracked server = elim (step-cases s c) [
    | inl same ↦ rw (same_window s (step s c).0 server same) (tracked server)
    | inr checked ↦
        rw (checked, check_nonce-window s (trim_space c.server) (trim_space c.nonce) c.at server)
          (if_rule IsTracked (trim_space c.server == server)
            (λ e.
              allow_nonce-IsTracked (trim_space c.nonce) (window_of s (trim_space c.server)) c.at
                (tracked (trim_space c.server)))
            (λ e. tracked server))
  ]

  pub run-IsTracked :
      (calls : List Call) (s : Callbacks)
      → ((server : String) → IsTracked (window_of s server))
      → (server : String) → IsTracked (window_of (run s calls) server)
  unfolding run
  run-IsTracked [] s tracked = tracked
  run-IsTracked (c ∷ calls) s tracked =
      run-IsTracked calls (step s c).0 (step-IsTracked s c tracked)

  step-Holds :
      (s : Callbacks) (c : Call) (server nonce : String) (t k : ℕ)
      → c.at < t + retention
      → k + 1 < max_nonces
      → Holds nonce t k (window_of s server)
      → Holds nonce t (k + 1) (window_of (step s c).0 server)
  step-Holds s c server nonce t k live room h = elim (step-cases s c) [
    | inl same ↦ rw (same_window s (step s c).0 server same) (weaken-Holds (k + 1) (omega arith) h)
    | inr checked ↦
        let w = window_of s (trim_space c.server) in
        rw (checked, check_nonce-window s (trim_space c.server) (trim_space c.nonce) c.at server)
          (if_rule (Holds nonce t (k + 1)) (trim_space c.server == server)
            (λ e.
              let same : trim_space c.server ≡ server = (eq_iff (trim_space c.server) server).0 e in
              let mine : Holds nonce t k w = rw same h in
              weaken-Holds (k + 1)
                (if_rule (λ (n : ℕ). n ≤ k + 1) (allow_nonce w (trim_space c.nonce) c.at).1
                  (λ e. omega arith) (λ e. omega arith))
                (allow_nonce-Holds nonce t c.at k w (trim_space c.nonce) live room mine))
            (λ e. weaken-Holds (k + 1) (omega arith) h))
  ]

  pub run-Holds :
      (calls : List Call) (s : Callbacks) (server nonce : String) (t k : ℕ)
      → All (λ c. c.at < t + retention) calls
      → k + length calls < max_nonces
      → Holds nonce t k (window_of s server)
      → Holds nonce t (k + length calls) (window_of (run s calls) server)
  unfolding run
  run-Holds [] s server nonce t k live room h = weaken-Holds (k + 0) (omega arith) h
  run-Holds (c ∷ calls) s server nonce t k live room h =
      weaken-Holds (k + length (c ∷ calls)) (omega arith) (
        run-Holds calls (step s c).0 server nonce t (k + 1) live.1 (omega arith)
          (step-Holds s c server nonce t k live.0 (omega arith) h))
