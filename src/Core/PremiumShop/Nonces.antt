-- ===== src/Core/PremiumShop/Nonces.antt =====
-- A nonce buys once: the idempotency of PurchaseShopProduct of runtime/core/shop.go.
use gensoulkyo.Base.{
  ℕ, ◌≡◌, refl, ap, ap₂, ◌∙◌, String, not, none, some, List, [], ◌∷◌, ◌==◌, eq_iff, eq_refl, lookup,
  lookup-insert_self, lookup-insert_fresh, lookup-insert_still, trim_space, if_rule, arith,
}
use gensoulkyo.Core.PremiumShop.{
  repeated, settle_purchase, purchase_known, purchase_by, purchase_shop_product,
}
use gensoulkyo.Core.ShopProducts.{
  PremiumShop, PurchaseRequest, PurchaseRecord, Shopper, Product, Receipt, Answer, bought,
}
use gensoulkyo.Core.PremiumShop.Orders.{
  Order, key_of, hash_of, buy, run, IsAllowed, nothing, known, fresh, buy-Ends,
}

module _ (sha256_hex : String → String) (day_key : ℕ → String) where
  -- The entries of a service that no purchase removes.
  record Keeps (s s' : PremiumShop) : Type 0 where
    purchase :
        (k : String) (r : PurchaseRecord)
        → lookup k s.purchases ≡ some r
        → lookup k s'.purchases ≡ some r
    shopper :
        (u : String) (x : Shopper)
        → lookup u s.shoppers ≡ some x
        → (y : Shopper) × (lookup u s'.shoppers ≡ some y)

  Keeps-refl : (s : PremiumShop) → Keeps s s
  Keeps-refl s = record { purchase = λ k r h. h; shopper = λ u x h. (x, h) }

  settle-Keeps :
      (s : PremiumShop) (user_id : String) (x : Shopper) (p : Product) (req : PurchaseRequest)
      (now : ℕ)
      → lookup (key_of sha256_hex day_key user_id req) s.purchases ≡ none
      → Keeps s (settle_purchase sha256_hex day_key s user_id x p req now).0
  unfolding settle_purchase
  settle-Keeps s user_id x p req now unused = record {
    purchase = λ k r h.
        lookup-insert_fresh (key_of sha256_hex day_key user_id req) k r _ s.purchases unused h;
    shopper = λ u y h. lookup-insert_still user_id u _ y s.shoppers h;
  }

  repeated-same : (s : PremiumShop) (r : PurchaseRecord) (hash : String) → (repeated s r hash).0 ≡ s
  unfolding repeated
  repeated-same s r hash =
      if_rule (λ (o : PremiumShop × Answer). o.0 ≡ s) (not (r.request_hash == hash)) (λ e. refl)
        (λ e. refl)

  buy-Keeps : (s : PremiumShop) (o : Order) → Keeps s (buy sha256_hex day_key s o).0
  buy-Keeps s o = elim (buy-Ends sha256_hex day_key s o) [
    | nothing same silent ↦ rw same (Keeps-refl s)
    | known x r allowed there used comes ↦
        rw
          (
            ap (λ (out : PremiumShop × Answer). out.0) comes,
            repeated-same s r (hash_of sha256_hex day_key o.request),
          )
          (Keeps-refl s)
    | fresh x p now allowed there unused comes ↦
        rw (ap (λ (out : PremiumShop × Answer). out.0) comes)
          (settle-Keeps s o.user_id x p o.request now unused)
  ]

  run-Keeps : (orders : List Order) (s : PremiumShop) → Keeps s (run sha256_hex day_key s orders)
  unfolding run
  run-Keeps [] s = Keeps-refl s
  run-Keeps (o ∷ orders) s =
      let first = buy-Keeps s o in
      let rest = run-Keeps orders (buy sha256_hex day_key s o).0 in
      record {
        purchase = λ k r h. rest.purchase k r (first.purchase k r h);
        shopper = λ u x h. let (y, there) = first.shopper u x h in rest.shopper u y there;
      }

  abbrev entry : PurchaseRequest → Receipt → PurchaseRecord
  entry req r = record { request_hash = hash_of sha256_hex day_key req; response = r }

  repeated-bought :
      (s : PremiumShop) (q : PurchaseRecord) (req : PurchaseRequest) (r : Receipt)
      → (repeated s q (hash_of sha256_hex day_key req)).1 ≡ bought r
      → q ≡ entry req r
  unfolding repeated
  repeated-bought s q req r =
      if_rule (λ (o : PremiumShop × Answer). o.1 ≡ bought r → q ≡ entry req r)
        (not (q.request_hash == hash_of sha256_hex day_key req)) (λ e h. cc h)
        (λ e h.
          let same : q.request_hash ≡ hash_of sha256_hex day_key req =
            ground (arith, e, eq_iff q.request_hash (hash_of sha256_hex day_key req)) in
          ap₂ (λ hash a. record { request_hash = hash; response = a }) same (cc h))

  settle-entry :
      (s : PremiumShop) (user_id : String) (x : Shopper) (p : Product) (req : PurchaseRequest)
      (now : ℕ) (r : Receipt)
      → let out = settle_purchase sha256_hex day_key s user_id x p req now in
        out.1 ≡ bought r
        → ((y : Shopper) × (lookup user_id out.0.shoppers ≡ some y))
          × (lookup (key_of sha256_hex day_key user_id req) out.0.purchases ≡ some (entry req r))
  unfolding settle_purchase
  settle-entry s user_id x p req now r ok = (
    (_, lookup-insert_self user_id _ s.shoppers),
    lookup-insert_self (key_of sha256_hex day_key user_id req) _ s.purchases
        ∙ ap (λ a. some (entry req a)) (cc ok),
  )

  -- The entry that a successful purchase leaves under its nonce.
  buy-entry :
      (s : PremiumShop) (o : Order) (r : Receipt)
      → (buy sha256_hex day_key s o).1 ≡ bought r
      → IsAllowed sha256_hex day_key o.request
        × ((y : Shopper) × (lookup o.user_id (buy sha256_hex day_key s o).0.shoppers ≡ some y))
        × (lookup
              (key_of sha256_hex day_key o.user_id o.request)
              (buy sha256_hex day_key s o).0.purchases
            ≡ some (entry o.request r))
  buy-entry s o r ok = elim (buy-Ends sha256_hex day_key s o) [
    | nothing same silent ↦ absurd (silent r ok)
    | known x q allowed there used comes ↦
        let same : (buy sha256_hex day_key s o).0 ≡ s =
          ap (λ (out : PremiumShop × Answer). out.0) comes
          ∙ repeated-same s q (hash_of sha256_hex day_key o.request) in
        let answer : (repeated s q (hash_of sha256_hex day_key o.request)).1 ≡ bought r =
          cc (comes, ok) in
        rw same (allowed, (x, there), used ∙ ap some (repeated-bought s q o.request r answer))
    | fresh x p now allowed there unused comes ↦
        let out = settle_purchase sha256_hex day_key s o.user_id x p o.request now in
        let answer : out.1 ≡ bought r = cc (comes, ok) in
        let (y, stored) = settle-entry s o.user_id x p o.request now r answer in
        rw (ap (λ (out : PremiumShop × Answer). out.0) comes) (allowed, y, stored)
  ]

  -- What an allowed request comes to under a nonce that was used.
  used_again :
      (s : PremiumShop) (o : Order) (x : Shopper) (q : PurchaseRecord)
      → IsAllowed sha256_hex day_key o.request
      → lookup o.user_id s.shoppers ≡ some x
      → lookup (key_of sha256_hex day_key o.user_id o.request) s.purchases ≡ some q
      → buy sha256_hex day_key s o ≡ repeated s q (hash_of sha256_hex day_key o.request)
  unfolding purchase_shop_product purchase_by purchase_known
  used_again s o x q a there used = rw (there, a.named, a.counted, a.found, a.on_sale, used) refl

  same_again :
      (s : PremiumShop) (req : PurchaseRequest) (r : Receipt)
      → repeated s (entry req r) (hash_of sha256_hex day_key req) ≡ (s, bought r)
  unfolding repeated
  same_again s req r = rw (eq_refl (hash_of sha256_hex day_key req)) refl

  -- A nonce buys once. After a purchase that succeeded, and whatever purchases of any users follow, a
  -- request of the same user with the same nonce changes nothing, whatever it asks for; and the
  -- same request is answered with the same receipt.
  pub nonce_buys_once :
      (s : PremiumShop) (o : Order) (between : List Order) (request : PurchaseRequest) (later : ℕ)
      (r : Receipt)
      → (buy sha256_hex day_key s o).1 ≡ bought r
      → trim_space request.nonce ≡ trim_space o.request.nonce
      → let s' = run sha256_hex day_key (buy sha256_hex day_key s o).0 between in
        ((purchase_shop_product sha256_hex day_key s' o.user_id request later).0 ≡ s')
        × (purchase_shop_product sha256_hex day_key s' o.user_id o.request later ≡ (s', bought r))
  nonce_buys_once s o between request later r ok nonce =
      let s' = run sha256_hex day_key (buy sha256_hex day_key s o).0 between in
      let keeps = run-Keeps between (buy sha256_hex day_key s o).0 in
      let (allowed, (y, there), stored) = buy-entry s o r ok in
      let (x, there') = keeps.shopper o.user_id y there in
      let used =
        keeps.purchase (key_of sha256_hex day_key o.user_id o.request) (entry o.request r) stored in
      let again : Order = record { user_id = o.user_id; request = o.request; at = later } in
      let other : Order = record { user_id = o.user_id; request = request; at = later } in
      (
        elim (buy-Ends sha256_hex day_key s' other) [
          | nothing same silent ↦ same
          | known x' q allowed' there'' used' comes ↦
              ap (λ (out : PremiumShop × Answer). out.0) comes
              ∙ repeated-same s' q (hash_of sha256_hex day_key request)
          | fresh x' p now allowed' there'' unused comes ↦ absurd (cc (unused, used, nonce))
        ],
        used_again s' again x (entry o.request r) allowed there' used ∙ same_again s' o.request r,
      )
