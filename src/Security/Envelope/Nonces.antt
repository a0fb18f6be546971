-- ===== src/Security/Envelope/Nonces.antt =====
-- The nonces that an accepted envelope of runtime/security/business_envelope.go leaves in a session.
use gensoulkyo.Base.{
  ℕ, suc, ◌≤◌, ◌≡◌, refl, String, false, ◌||◌, List, [], ◌∷◌, ◌++◌, arith, ◌==◌, eq_iff, Bool-cases,
  inl, inr, if◌then◌else◌, ap, sym, ◌∙◌, ◌-◌, ltb, none, length, keep_last, length-keep_last,
  keep_last_append, append_assoc,
}
use gensoulkyo.Security.Envelope.{evict, admit, normalize, check_session}
use gensoulkyo.Security.EnvelopeState.{SessionGuard, Envelope, member, add_nonce, delete_nonce}

abbrev pub Distinct : List String → Type 0
Distinct [] = Unit
Distinct (x ∷ xs) = (member x xs ≡ false) × Distinct xs

-- The set and the queue of a session hold the same nonces, each once, and at most `limit` of them.
pub record IsWindow (limit : ℕ) (s : SessionGuard) : Type 0 where
  pub same : (k : String) → member k s.seen_nonce ≡ member k s.nonce_order
  pub distinct : Distinct s.nonce_order
  pub bounded : length s.nonce_order ≤ limit

member-append :
    (k : String) (xs ys : List String) → member k (xs ++ ys) ≡ (member k xs || member k ys)
member-append k [] ys = refl
member-append k (x ∷ xs) ys = ground (arith, member-append k xs ys)

member-delete :
    (k j : String) (s : List String)
    → member j (delete_nonce k s) ≡ (if k == j then false else member j s)
member-delete k j [] = ground arith
member-delete k j (i ∷ s) = ground (arith, member-delete k j s, eq_iff i k, eq_iff i j, eq_iff k j)

member-add : (k j : String) (s : List String) → member j (add_nonce k s) ≡ (k == j || member j s)
member-add k j s = ground (arith, eq_iff k j)

Distinct-append :
    (xs : List String) (k : String) → Distinct xs → member k xs ≡ false → Distinct (xs ++ k ∷ [])
Distinct-append [] k d h = (refl, tt)
Distinct-append (x ∷ xs) k d h = (
  ground (arith, member-append x xs (k ∷ []), eq_iff x k, eq_iff k x),
  Distinct-append xs k d.1 (ground arith),
)

-- The loop leaves the newest nonces.
evict-keep_last :
    (limit : ℕ) (order seen : List String) → (evict limit order seen).0 ≡ keep_last limit order
unfolding evict
evict-keep_last limit [] seen = let e : 0 - limit ≡ 0 = omega arith in rw e
evict-keep_last limit (x ∷ order) seen = elim (Bool-cases (ltb limit (suc (length order)))) [
  | inl more ↦
      let e : suc (length order) - limit ≡ suc (length order - limit) = ground arith in
      rw (more, e) (evict-keep_last limit order (delete_nonce x seen))
  | inr enough ↦ let e : suc (length order) - limit ≡ 0 = ground arith in rw (enough, e)
]

-- The loop keeps the set in step with the queue.
record IsEvicted (limit : ℕ) (order seen : List String) : Type 0 where
  same : (k : String) → member k (evict limit order seen).1 ≡ member k (evict limit order seen).0
  distinct : Distinct (evict limit order seen).0

evict-IsEvicted :
    (limit : ℕ) (order seen : List String)
    → Distinct order
    → ((k : String) → member k seen ≡ member k order)
    → IsEvicted limit order seen
unfolding evict
evict-IsEvicted limit [] seen d h = record { same = h; distinct = tt }
evict-IsEvicted limit (x ∷ order) seen d h =
    let ih =
      evict-IsEvicted limit order (delete_nonce x seen) d.1
        (λ k. ground (arith, member-delete x k seen, h k, eq_iff x k, d.0)) in
    record {
      same = λ k. ground (arith, ih.same k, h k);
      distinct = elim (Bool-cases (ltb limit (suc (length order)))) [
        | inl more ↦ rw more ih.distinct
        | inr enough ↦ rw enough d
      ];
    }

pub admit-IsWindow :
    (limit : ℕ) (s : SessionGuard) (e : Envelope)
    → IsWindow limit s
    → member e.nonce s.seen_nonce ≡ false
    → IsWindow limit (admit limit s e)
unfolding admit
admit-IsWindow limit s e w new =
    let order = s.nonce_order ++ e.nonce ∷ [] in
    let seen = add_nonce e.nonce s.seen_nonce in
    let out =
      evict-IsEvicted limit order seen
        (Distinct-append s.nonce_order e.nonce w.distinct (sym (w.same e.nonce) ∙ new))
        (λ k. ground (
          arith,
          member-add e.nonce k s.seen_nonce,
          member-append k s.nonce_order (e.nonce ∷ []),
          w.same k,
        )) in
    record {
      same = out.same;
      distinct = out.distinct;
      bounded = rw (evict-keep_last limit order seen) (length-keep_last limit order);
    }

pub check_session_nonce :
    (s : SessionGuard) (e : Envelope)
    → check_session s e ≡ none
    → member e.nonce s.seen_nonce ≡ false
unfolding check_session
check_session_nonce s e h = ground arith

pub nonce-normalize : (e : Envelope) → (normalize e).nonce ≡ e.nonce
unfolding normalize
nonce-normalize e = refl

pub session_id-normalize : (e : Envelope) → (normalize e).session_id ≡ e.session_id
unfolding normalize
session_id-normalize e = refl

pub order-admit :
    (limit : ℕ) (s : SessionGuard) (e : Envelope)
    → (admit limit s e).nonce_order ≡ keep_last limit (s.nonce_order ++ e.nonce ∷ [])
unfolding admit
order-admit limit s e = evict-keep_last limit (s.nonce_order ++ e.nonce ∷ []) _

pub keep_last-glue :
    {limit' limit : ℕ} {order' : List String} (p : limit' ≡ limit) (order : List String)
    (nonce : String) (rest : List String)
    → order' ≡ keep_last limit (order ++ nonce ∷ [])
    → keep_last limit' (order' ++ rest) ≡ keep_last limit (order ++ nonce ∷ rest)
keep_last-glue {limit = limit} p order nonce rest q =
    rw (p, q, keep_last_append limit (order ++ nonce ∷ []) rest)
      (ap (keep_last limit) (append_assoc order (nonce ∷ []) rest))
