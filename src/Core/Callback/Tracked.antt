-- ===== src/Core/Callback/Tracked.antt =====
-- The nonces of a window of runtime/core/battle_callback_freshness.go and their times.
use gensoulkyo.Base.{
  ℕ, suc, ◌+◌, ◌≡◌, refl, String, Bool, true, false, List, [], ◌∷◌, ◌++◌, ◌==◌, Dict, insert,
  delete, contains, value, lookup-insert, lookup-delete, ltb, leb, All, length, arith, All-snoc,
  eq_iff, lookup-insert_self, if_rule,
}
use gensoulkyo.Core.Callback.{
  NonceWindow, retention, max_nonces, drop_expired, evict_nonces, remember, allow_nonce,
}
use gensoulkyo.Core.Callback.Remembered.{Holds}

abbrev pub Distinct : List String → Type 0
Distinct [] = Unit
Distinct (x ∷ xs) = All (λ m. (x == m) ≡ false) xs × Distinct xs

-- The nonces of a window differ, and each has its time.
pub record IsTracked (w : NonceWindow) : Type 0 where
  pub distinct : Distinct w.order
  pub timed : All (λ m. contains m w.seen ≡ true) w.order

All-delete :
    (x : String) (order : List String) (seen : Dict ℕ)
    → All (λ m. (x == m) ≡ false) order
    → All (λ m. contains m seen ≡ true) order
    → All (λ m. contains m (delete x seen) ≡ true) order
All-delete x [] seen apart timed = tt
All-delete x (m ∷ order) seen apart timed =
    (rw (lookup-delete x m seen, apart.0) timed.0, All-delete x order seen apart.1 timed.1)

drop_expired-IsTracked :
    (now : ℕ) (order : List String) (seen : Dict ℕ)
    → Distinct order
    → All (λ m. contains m seen ≡ true) order
    → IsTracked (drop_expired now order seen)
unfolding drop_expired
drop_expired-IsTracked now [] seen distinct timed = record { distinct = tt; timed = tt }
drop_expired-IsTracked now (x ∷ order) seen distinct timed =
    if_rule IsTracked (ltb now (value x seen + retention))
      (λ e. record { distinct = distinct; timed = timed })
      (λ e.
        drop_expired-IsTracked now order (delete x seen) distinct.1
          (All-delete x order seen distinct.0 timed.1))

evict_nonces-IsTracked :
    (limit : ℕ) (order : List String) (seen : Dict ℕ)
    → Distinct order
    → All (λ m. contains m seen ≡ true) order
    → IsTracked (evict_nonces limit order seen)
unfolding evict_nonces
evict_nonces-IsTracked limit [] seen distinct timed = record { distinct = tt; timed = tt }
evict_nonces-IsTracked limit (x ∷ order) seen distinct timed =
    if_rule IsTracked (leb limit (suc (length order)))
      (λ e.
        evict_nonces-IsTracked limit order (delete x seen) distinct.1
          (All-delete x order seen distinct.0 timed.1))
      (λ e. record { distinct = distinct; timed = timed })

All-evict :
    (P : String → Type 0) (limit : ℕ) (order : List String) (seen : Dict ℕ)
    → All P order
    → All P (evict_nonces limit order seen).order
unfolding evict_nonces
All-evict P limit [] seen h = tt
All-evict P limit (x ∷ order) seen h =
    if_rule (λ (w : NonceWindow). All P w.order) (leb limit (suc (length order)))
      (λ e. All-evict P limit order (delete x seen) h.1) (λ e. h)

module _ (nonce : String) where
  absent-of_timed :
      (order : List String) (seen : Dict ℕ)
      → contains nonce seen ≡ false
      → All (λ m. contains m seen ≡ true) order
      → All (λ m. (m == nonce) ≡ false) order
  absent-of_timed [] seen new timed = tt
  absent-of_timed (m ∷ order) seen new timed =
      (ground (arith, new, timed.0, eq_iff m nonce), absent-of_timed order seen new timed.1)

  Distinct-snoc :
      (order : List String)
      → All (λ m. (m == nonce) ≡ false) order
      → Distinct order
      → Distinct (order ++ nonce ∷ [])
  Distinct-snoc [] absent distinct = (tt, tt)
  Distinct-snoc (x ∷ order) absent distinct = (
    All-snoc (λ m. (x == m) ≡ false) order nonce distinct.0 absent.0,
    Distinct-snoc order absent.1 distinct.1,
  )

  All-insert :
      (order : List String) (seen : Dict ℕ) (now : ℕ)
      → All (λ m. contains m seen ≡ true) order
      → All (λ m. contains m (insert nonce now seen) ≡ true) order
  All-insert [] seen now timed = tt
  All-insert (m ∷ order) seen now timed =
      (ground (arith, timed.0, lookup-insert nonce m now seen), All-insert order seen now timed.1)

  module _ (w : NonceWindow) (now : ℕ) (tracked : IsTracked w) where
    kept-IsTracked : IsTracked (drop_expired now w.order w.seen)
    kept-IsTracked = drop_expired-IsTracked now w.order w.seen tracked.distinct tracked.timed

    -- What stays when a new nonce is let in.
    small-absent :
        contains nonce (drop_expired now w.order w.seen).seen ≡ false
        → let kept = drop_expired now w.order w.seen in
          All (λ m. (m == nonce) ≡ false) (evict_nonces max_nonces kept.order kept.seen).order
    small-absent new =
        let kept = drop_expired now w.order w.seen in
        All-evict (λ m. (m == nonce) ≡ false) max_nonces kept.order kept.seen
          (absent-of_timed kept.order kept.seen new kept-IsTracked.timed)

    pub allow_nonce-IsTracked : IsTracked (allow_nonce w nonce now).0
    unfolding allow_nonce remember
    allow_nonce-IsTracked =
        let kept = drop_expired now w.order w.seen in
        let small = evict_nonces max_nonces kept.order kept.seen in
        let small-IsTracked =
          evict_nonces-IsTracked max_nonces kept.order kept.seen kept-IsTracked.distinct
            kept-IsTracked.timed in
        if_rule (λ (p : NonceWindow × Bool). IsTracked p.0) (contains nonce kept.seen)
          (λ e. kept-IsTracked)
          (λ e. record {
            distinct = Distinct-snoc small.order (small-absent e) small-IsTracked.distinct;
            timed =
                All-snoc (λ m. contains m (insert nonce now small.seen) ≡ true) small.order nonce
                  (All-insert small.order small.seen now small-IsTracked.timed)
                  (rw lookup-insert_self);
          })

    -- A nonce that is let in is held from then on.
    pub allowed-Holds :
        (allow_nonce w nonce now).1 ≡ true → Holds nonce now 0 (allow_nonce w nonce now).0
    unfolding allow_nonce remember
    allowed-Holds =
        let kept = drop_expired now w.order w.seen in
        let small = evict_nonces max_nonces kept.order kept.seen in
        if_rule (λ (p : NonceWindow × Bool). p.1 ≡ true → Holds nonce now 0 p.0)
          (contains nonce kept.seen) (λ e refused. cc)
          (λ e let_in. record {
            before = small.order;
            after = [];
            order = refl;
            absent = small-absent e;
            newer = omega arith;
            seen_at = lookup-insert_self nonce now small.seen;
          })
