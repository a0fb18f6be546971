-- ===== src/Core/Callback/Edge.antt =====
-- The end of a nonce's retention in runtime/core/battle_callback_freshness.go, against the end of its
-- timestamp's freshness.
use Prim.Native.Char.{code}
use gensoulkyo.Base.{
  ℕ, ◌+◌, ◌/◌, ◌≤◌, ◌<◌, ◌≡◌, ◌≢◌, ◌⊎◌, inl, inr, refl, String, true, false, Option, none, some,
  List, eq_refl, lookup, insert, delete, value, trim_space, ltb, eqb, All, length, arith, if_rule,
  Option-cases, eq_iff,
}
use gensoulkyo.Base.Int64.{word, half, sub64, lt64}
use gensoulkyo.Core.Callback.{
  new_window, Callbacks, accepted, retention, max_nonces, allow_nonce, drop_expired, evict_nonces,
  remember, parse_int64, digits_from, digits_of, within, negated, fresh_seconds,
  battle_callback_timestamp_fresh, battle_callback_signature_valid, battle_server_callback_secret,
  check_nonce, verify_battle_callback, battle_callback_signed_material,
}
use gensoulkyo.Core.Callback.Remembered.{Holds, held_refused}
use gensoulkyo.Core.Callback.Tracked.{allowed-Holds}
use gensoulkyo.Core.Callback.Replay.{
  Call, window_of, new_callbacks, step, run, accepted_lem, check_nonce-window, check_nonce-allowed,
  check_nonce-refused, fresh_once, run-IsTracked, run-Holds, new_window-IsTracked,
}

within-lt : (bound : ℕ) (o : Option ℕ) (n : ℕ) → within bound o ≡ some n → n < bound
within-lt bound none n h = cc
within-lt bound (some m) n h = ground arith

digits_of-lt : (bound : ℕ) (text : String) (n : ℕ) → digits_of bound text ≡ some n → n < bound
digits_of-lt bound String.[] n h = cc
digits_of-lt bound (String.◌∷◌ c s) n h = within-lt bound (digits_from 0 (String.◌∷◌ c s)) n h

negated-lt : (o : Option ℕ) (n : ℕ) → negated o ≡ some n → n < word
unfolding sub64
negated-lt none n h = cc
negated-lt (some m) n h = ground arith

parse_int64-lt : (text : String) (n : ℕ) → parse_int64 text ≡ some n → n < word
unfolding parse_int64
parse_int64-lt String.[] n = λ h. cc
parse_int64-lt (String.◌∷◌ c s) n =
    if_rule (λ (o : Option ℕ). o ≡ some n → n < word) (eqb (code c) b'-')
      (λ e h. negated-lt (digits_of (half + 1) s) n h)
      (λ e.
        if_rule (λ (o : Option ℕ). o ≡ some n → n < word) (eqb (code c) b'+')
          (λ e h. omega (arith, digits_of-lt half s n h))
          (λ e h. omega (arith, digits_of-lt half (String.◌∷◌ c s) n h)))

fresh_stale :
    (timestamp : String) (now later : ℕ)
    → battle_callback_timestamp_fresh timestamp now ≡ true
    → now + 601000000000 ≤ later
    → later < half
    → battle_callback_timestamp_fresh timestamp later ≡ false
unfolding battle_callback_timestamp_fresh
fresh_stale timestamp now later fresh apart small = elim (Option-cases (parse_int64 timestamp)) [
  | inl none_read ↦ rw none_read
  | inr (secs, read) ↦ rw read (
      fresh_once secs now later (rw read at fresh) apart small (parse_int64-lt timestamp secs read))
]

fresh_at_edge :
    (now : ℕ)
    → now + retention < half
    → fresh_seconds (now / 1000000000 + 300) (now + retention) ≡ true
unfolding fresh_seconds sub64 lt64
fresh_at_edge now small = ground arith

let_in_at_edge :
    (nonce : String) (now : ℕ)
    → (allow_nonce (allow_nonce new_window nonce now).0 nonce (now + retention)).1 ≡ true
unfolding allow_nonce drop_expired evict_nonces remember value lookup delete insert
let_in_at_edge nonce now =
    let over : ltb (now + retention) (now + retention) ≡ false = ground arith in
    rw (eq_refl nonce, over)

check_nonce-secret :
    (s : Callbacks) (id nonce : String) (now : ℕ)
    → (check_nonce s id nonce now).0.callback_secret ≡ s.callback_secret
unfolding check_nonce
check_nonce-secret s id nonce now = refl

check_nonce-accepted :
    (s : Callbacks) (id nonce : String) (now : ℕ)
    → (allow_nonce (window_of s id) nonce now).1 ≡ true
    → (check_nonce s id nonce now).1 ≡ accepted
unfolding check_nonce
check_nonce-accepted s id nonce now h = rw h

module _ (hmac_hex : String → String → String) (to_lower : String → String) where
  -- A callback that carries the freshness headers and was accepted is never accepted again, with the
  -- same server, timestamp and nonce: not within 600 seconds, if the calls in between are within
  -- them and fewer than 4096, and not from 601 seconds on, whatever came in between. The calls start from a
  -- new service.
  pub replay_refused :
      (secret : String) (earlier between : List Call) (first second : Call)
      → (step hmac_hex to_lower (run hmac_hex to_lower (new_callbacks secret) earlier) first).1
        ≡ accepted
      → trim_space first.nonce ≢ ""
      → trim_space second.server ≡ trim_space first.server
      → trim_space second.nonce ≡ trim_space first.nonce
      → trim_space second.timestamp ≡ trim_space first.timestamp
      → ((second.at < first.at + retention)
          × All (λ c. c.at < first.at + retention) between
          × (length between < max_nonces))
        ⊎ ((first.at + 601000000000 ≤ second.at) × (second.at < half))
      → (step hmac_hex to_lower
          (run hmac_hex to_lower
            (step hmac_hex to_lower (run hmac_hex to_lower (new_callbacks secret) earlier) first).0
            between)
          second).1
        ≢ accepted
  unfolding lookup
  replay_refused secret earlier between first second ok named server nonce timestamp when again =
      let s = run hmac_hex to_lower (new_callbacks secret) earlier in
      let s' = run hmac_hex to_lower (step hmac_hex to_lower s first).0 between in
      let again_named : trim_space second.nonce ≢ "" = rw nonce named in
      let (checked, fresh) = accepted_lem hmac_hex to_lower s first ok named in
      let (checked', fresh') = accepted_lem hmac_hex to_lower s' second again again_named in
      elim when [
        | inl (live, all_live, room) ↦
            let server_id = trim_space first.server in
            let n = trim_space first.nonce in
            let tracked =
              run-IsTracked hmac_hex to_lower earlier (new_callbacks secret)
                (λ server. new_window-IsTracked) server_id in
            let let_in = check_nonce-allowed s server_id n first.at (rw checked at ok) in
            let at_first = allowed-Holds n (window_of s server_id) first.at tracked let_in in
            let after_first : Holds n first.at 0
                (window_of (step hmac_hex to_lower s first).0 server_id) =
              rw (checked, check_nonce-window s server_id n first.at server_id, eq_refl) at_first in
            let after_all =
              run-Holds hmac_hex to_lower between (step hmac_hex to_lower s first).0 server_id n
                first.at 0 all_live (omega arith) after_first in
            let refused = check_nonce-refused s' server_id n second.at (
              held_refused n first.at second.at (0 + length between) (window_of s' server_id) live
                after_all) in
            cc (checked', server, nonce, refused, again)
        | inr (late, small) ↦
            let stale =
              fresh_stale (trim_space first.timestamp) first.at second.at fresh late small in
            cc (fresh', stale, timestamp)
      ]

  valid_same :
      (s s' : Callbacks) (server material signature : String)
      → s'.callback_secret ≡ s.callback_secret
      → battle_callback_signature_valid hmac_hex to_lower s' server material signature
        ≡ battle_callback_signature_valid hmac_hex to_lower s server material signature
  unfolding battle_callback_signature_valid battle_server_callback_secret
  valid_same s s' server material signature secret = rw secret

  -- The checks of a call before the nonce depend on the secret and the clock alone.
  checked_again :
      (s s' : Callbacks) (c : Call) (later : ℕ)
      → s'.callback_secret ≡ s.callback_secret
      → (step hmac_hex to_lower s c).1 ≡ accepted
      → trim_space c.nonce ≢ ""
      → battle_callback_timestamp_fresh (trim_space c.timestamp) later ≡ true
      → step hmac_hex to_lower s' (record c { at = later })
        ≡ check_nonce s' (trim_space c.server) (trim_space c.nonce) later
  unfolding step verify_battle_callback
  checked_again s s' c later secret ok named fresh =
      let ts = trim_space c.timestamp in
      let n = trim_space c.nonce in
      let material = battle_callback_signed_material ts n c.raw_body in
      ground (arith, eq_iff n "", valid_same s s' (trim_space c.server) material c.signature secret)

  -- A callback whose timestamp is 300 seconds ahead, the first that its server sends with a nonce, is
  -- accepted a second time when it comes again 600 seconds later.
  pub replay_at_edge :
      (s : Callbacks) (c : Call)
      → lookup (trim_space c.server) s.nonces ≡ none
      → trim_space c.nonce ≢ ""
      → parse_int64 (trim_space c.timestamp) ≡ some (c.at / 1000000000 + 300)
      → c.at + retention < half
      → (step hmac_hex to_lower s c).1 ≡ accepted
      → (step hmac_hex to_lower
          (step hmac_hex to_lower s c).0
          (record c { at = c.at + retention })).1
        ≡ accepted
  unfolding battle_callback_timestamp_fresh
  replay_at_edge s c new named ahead small ok =
      let id = trim_space c.server in
      let n = trim_space c.nonce in
      let s' = (step hmac_hex to_lower s c).0 in
      let (checked, fresh) = accepted_lem hmac_hex to_lower s c ok named in
      let secret : s'.callback_secret ≡ s.callback_secret =
        rw checked (check_nonce-secret s id n c.at) in
      let still_fresh : battle_callback_timestamp_fresh (trim_space c.timestamp) (c.at + retention)
          ≡ true =
        rw ahead (fresh_at_edge c.at small) in
      let window : window_of s' id ≡ (allow_nonce new_window n c.at).0 =
        rw (checked, check_nonce-window s id n c.at id, eq_refl, new) in
      rw (checked_again s s' c (c.at + retention) secret ok named still_fresh)
        (check_nonce-accepted s' id n (c.at + retention) (rw window (let_in_at_edge n c.at)))
