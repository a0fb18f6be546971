-- ===== src/Core/Callback/Remembered.antt =====
-- The nonces that a window of runtime/core/battle_callback_freshness.go remembers, and for how long.
use gensoulkyo.Base.{
  ℕ, suc, ◌+◌, ◌≤◌, ◌<◌, ◌≡◌, refl, ◌∙◌, String, Bool, true, false, some, List, [], ◌∷◌, ◌++◌,
  append_assoc, ◌==◌, Dict, lookup, delete, contains, value, lookup-insert, lookup-delete, ltb, leb,
  if◌then◌else◌, All, length, length-append, arith, eq_iff, if_rule,
}
use gensoulkyo.Core.Callback.{
  NonceWindow, retention, max_nonces, drop_expired, evict_nonces, remember, allow_nonce,
}

-- A window holds a nonce that was seen at `t`, with at most `k` nonces that came later.
pub record Holds (nonce : String) (t k : ℕ) (w : NonceWindow) : Type 0 where
  pub before : List String
  pub after : List String
  pub order : w.order ≡ before ++ nonce ∷ after
  pub absent : All (λ m. (m == nonce) ≡ false) before
  pub newer : length after ≤ k
  pub seen_at : lookup nonce w.seen ≡ some t

module _ (nonce : String) (t : ℕ) where
  drop_expired-Holds :
      (now k : ℕ) (before after : List String) (seen : Dict ℕ)
      → now < t + retention
      → All (λ m. (m == nonce) ≡ false) before
      → length after ≤ k
      → lookup nonce seen ≡ some t
      → Holds nonce t k (drop_expired now (before ++ nonce ∷ after) seen)
  unfolding drop_expired value
  drop_expired-Holds now k [] after seen live absent newer at_t =
      let test : ltb now (value nonce seen + retention) ≡ true = ground (arith, at_t) in
      rw test (record {
        before = [];
        after = after;
        order = refl;
        absent = tt;
        newer = newer;
        seen_at = at_t;
      })
  drop_expired-Holds now k (m ∷ before) after seen live absent newer at_t =
      if_rule (Holds nonce t k) (ltb now (value m seen + retention))
        (λ e. record {
          before = m ∷ before;
          after = after;
          order = refl;
          absent = absent;
          newer = newer;
          seen_at = at_t;
        })
        (λ e.
          drop_expired-Holds now k before after (delete m seen) live absent.1 newer
            (lookup-delete m nonce seen ∙ rw absent.0 at_t))

  evict_nonces-Holds :
      (limit k : ℕ) (before after : List String) (seen : Dict ℕ)
      → k + 1 < limit
      → All (λ m. (m == nonce) ≡ false) before
      → length after ≤ k
      → lookup nonce seen ≡ some t
      → Holds nonce t k (evict_nonces limit (before ++ nonce ∷ after) seen)
  unfolding evict_nonces
  evict_nonces-Holds limit k [] after seen room absent newer at_t =
      let test : leb limit (suc (length after)) ≡ false = ground arith in
      rw test (record {
        before = [];
        after = after;
        order = refl;
        absent = tt;
        newer = newer;
        seen_at = at_t;
      })
  evict_nonces-Holds limit k (m ∷ before) after seen room absent newer at_t =
      if_rule (Holds nonce t k) (leb limit (suc (length (before ++ nonce ∷ after))))
        (λ e.
          evict_nonces-Holds limit k before after (delete m seen) room absent.1 newer
            (lookup-delete m nonce seen ∙ rw absent.0 at_t))
        (λ e. record {
          before = m ∷ before;
          after = after;
          order = refl;
          absent = absent;
          newer = newer;
          seen_at = at_t;
        })

  remember-Holds :
      (k now : ℕ) (w : NonceWindow) (m : String)
      → (m == nonce) ≡ false
      → Holds nonce t k w
      → Holds nonce t (k + 1) (remember w m now)
  unfolding remember
  remember-Holds k now w m other h = record {
    before = h.before;
    after = h.after ++ m ∷ [];
    order = rw h.order (append_assoc h.before (nonce ∷ h.after) (m ∷ []));
    absent = h.absent;
    newer = omega (arith, h.newer, length-append h.after (m ∷ []));
    seen_at = lookup-insert m nonce now w.seen ∙ rw other h.seen_at;
  }

  kept-Holds :
      (now k : ℕ) (w : NonceWindow)
      → now < t + retention
      → Holds nonce t k w
      → Holds nonce t k (drop_expired now w.order w.seen)
  kept-Holds now k w live h =
      rw h.order (drop_expired-Holds now k h.before h.after w.seen live h.absent h.newer h.seen_at)

  -- A nonce within its retention is refused.
  pub held_refused :
      (now k : ℕ) (w : NonceWindow)
      → now < t + retention
      → Holds nonce t k w
      → (allow_nonce w nonce now).1 ≡ false
  unfolding allow_nonce
  held_refused now k w live h = rw (kept-Holds now k w live h).seen_at

  -- Another call within the retention keeps it, as long as there is room for one nonce more.
  pub allow_nonce-Holds :
      (now k : ℕ) (w : NonceWindow) (m : String)
      → now < t + retention
      → k + 1 < max_nonces
      → Holds nonce t k w
      → Holds nonce t (if (allow_nonce w m now).1 then k + 1 else k) (allow_nonce w m now).0
  unfolding allow_nonce
  allow_nonce-Holds now k w m live room h =
      let kept = drop_expired now w.order w.seen in
      let still = kept-Holds now k w live h in
      if_rule (λ (p : NonceWindow × Bool). Holds nonce t (if p.1 then k + 1 else k) p.0)
        (contains m kept.seen) (λ e. still)
        (λ e.
          let other : (m == nonce) ≡ false = ground (arith, e, still.seen_at, eq_iff m nonce) in
          let small = evict_nonces max_nonces kept.order kept.seen in
          let kept_small : Holds nonce t k small = rw still.order (
            evict_nonces-Holds max_nonces k still.before still.after kept.seen room still.absent
              still.newer still.seen_at) in
          remember-Holds k now small m other kept_small)
