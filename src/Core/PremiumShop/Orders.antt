-- ===== src/Core/PremiumShop/Orders.antt =====
-- What a call of PurchaseShopProduct of runtime/core/shop.go comes to.
use gensoulkyo.Base.{
  ℕ, ◌/◌, value, ◌≡◌, ◌≢◌, refl, String, true, false, not, ◌&&◌, ◌||◌, Option, none, some, List, [],
  ◌∷◌, ◌==◌, lookup, trim_space, eqb, if_rule, arith, Option-cases, inl, inr,
}
use gensoulkyo.Base.Int64.{add64, mul64, lt64, non_positive}
use gensoulkyo.Core.PremiumShop.{
  idempotency_key, repeated, shop_purchase_request_hash, purchase_new, settle_purchase,
  purchase_known, purchase_by, purchase_shop_product, shop_purchase_limit_key,
}
use gensoulkyo.Core.ShopProducts.{
  PremiumShop, PurchaseRequest, PurchaseRecord, Shopper, Product, Receipt, Answer, ShopError,
  bought, refused, shop_product_by_id, invalid_request, insufficient_currency, daily_limit_reached,
}

-- A purchase of a user at a time.
pub record Order : Type 0 where
  pub user_id : String
  pub request : PurchaseRequest
  pub at : ℕ

module _ (sha256_hex : String → String) (day_key : ℕ → String) where
  abbrev pub key_of : String → PurchaseRequest → String
  key_of user_id req = idempotency_key user_id (trim_space req.nonce)

  abbrev pub hash_of : PurchaseRequest → String
  hash_of req =
      shop_purchase_request_hash sha256_hex day_key (trim_space req.product_id) req.quantity

  abbrev pub buy : PremiumShop → Order → PremiumShop × Answer
  buy s o = purchase_shop_product sha256_hex day_key s o.user_id o.request o.at

  unfoldable pub run : PremiumShop → List Order → PremiumShop
  run s [] = s
  run s (o ∷ orders) = run (buy s o).0 orders

  -- What is asked of a request before its nonce is looked at.
  pub record IsAllowed (req : PurchaseRequest) : Type 0 where
    pub named : (trim_space req.nonce == "") ≡ false
    pub counted : (non_positive req.quantity || lt64 10 req.quantity) ≡ false
    pub product : Product
    pub found : shop_product_by_id (trim_space req.product_id) ≡ some product
    pub on_sale : product.purchasable ≡ true

  -- The end of a purchase: nothing, or what a new or a known nonce leads to.
  pub data Ends (s : PremiumShop) (user_id : String) (req : PurchaseRequest)
      (out : PremiumShop × Answer) : Type 0 where
    nothing : out.0 ≡ s → ((r : Receipt) → out.1 ≢ bought r) → Ends s user_id req out
    known :
        (x : Shopper) (r : PurchaseRecord)
        → IsAllowed req
        → lookup user_id s.shoppers ≡ some x
        → lookup (key_of user_id req) s.purchases ≡ some r
        → out ≡ repeated s r (hash_of req)
        → Ends s user_id req out
    fresh :
        (x : Shopper) (p : Product) (now : ℕ)
        → IsAllowed req
        → lookup user_id s.shoppers ≡ some x
        → lookup (key_of user_id req) s.purchases ≡ none
        → out ≡ settle_purchase sha256_hex day_key s user_id x p req now
        → Ends s user_id req out

  refusal :
      (s : PremiumShop) (user_id : String) (req : PurchaseRequest) (e : ShopError)
      → Ends s user_id req (s, refused e)
  refusal s user_id req e = nothing refl (λ r h. cc h)

  new-Ends :
      (s : PremiumShop) (user_id : String) (x : Shopper) (p : Product) (req : PurchaseRequest)
      (now : ℕ)
      → IsAllowed req
      → lookup user_id s.shoppers ≡ some x
      → lookup (key_of user_id req) s.purchases ≡ none
      → Ends s user_id req (purchase_new sha256_hex day_key s user_id x p req now)
  unfolding purchase_new
  new-Ends s user_id x p req now allowed there unused =
      let P = Ends s user_id req in
      let cost = mul64 p.cost_amount req.quantity in
      let bought_today =
        value (shop_purchase_limit_key sha256_hex day_key user_id (trim_space req.product_id) now)
          s.limits in
      if_rule P (non_positive p.cost_amount || not (eqb (cost / p.cost_amount) req.quantity))
        (λ e. refusal s user_id req invalid_request)
        (λ e.
          if_rule P (lt64 (value p.cost_kind x.user.wallet) cost)
            (λ e'. refusal s user_id req insufficient_currency)
            (λ e'.
              if_rule P
                (lt64 0 p.daily_limit && lt64 p.daily_limit (add64 bought_today req.quantity))
                (λ e''. refusal s user_id req daily_limit_reached)
                (λ e''. fresh x p now allowed there unused refl)))

  by-Ends :
      (s : PremiumShop) (user_id : String) (o : Option Shopper) (req : PurchaseRequest) (now : ℕ)
      → lookup user_id s.shoppers ≡ o
      → Ends s user_id req (purchase_by sha256_hex day_key s user_id o req now)
  unfolding purchase_by purchase_known
  by-Ends s user_id none req now there = refusal s user_id req _
  by-Ends s user_id (some x) req now there =
      let P = Ends s user_id req in
      let key = key_of user_id req in
      if_rule P (trim_space req.nonce == "") (λ e. refusal s user_id req _)
        (λ named.
          if_rule P (non_positive req.quantity || lt64 10 req.quantity)
            (λ e. refusal s user_id req _)
            (λ counted. elim (Option-cases (shop_product_by_id (trim_space req.product_id))) [
              | inl missing ↦ rw (missing, purchase_known) (refusal s user_id req _)
              | inr (p, found) ↦
                  rw (found, purchase_known)
                    (if_rule P (not p.purchasable) (λ e. refusal s user_id req _)
                      (λ on_sale.
                        let allowed : IsAllowed req = record {
                          named = named;
                          counted = counted;
                          product = p;
                          found = found;
                          on_sale = ground (arith, on_sale);
                        } in
                        elim (Option-cases (lookup key s.purchases)) [
                          | inl unused ↦
                              rw unused (new-Ends s user_id x p req now allowed there unused)
                          | inr (r, used) ↦ rw used (known x r allowed there used refl)
                        ]))
            ]))

  pub buy-Ends : (s : PremiumShop) (o : Order) → Ends s o.user_id o.request (buy s o)
  unfolding purchase_shop_product
  buy-Ends s o = by-Ends s o.user_id (lookup o.user_id s.shoppers) o.request o.at refl
