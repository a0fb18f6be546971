-- ===== src/Core/PremiumShop/Prices.antt =====
-- What a purchase of runtime/core/shop.go costs and gives.
use gensoulkyo.Base.{
  ℕ, ◌-◌, ◌*◌, ◌/◌, ◌≤◌, ◌<◌, ◌≡◌, refl, String, false, not, ◌&&◌, ◌||◌, none, some, ◌==◌, lookup,
  value, lookup-insert_self, trim_space, eqb, if_rule, arith,
}
use gensoulkyo.Base.Int64.{add64, mul64, lt64, non_positive, mul64_exact, lt64_exact}
use native.Mathlib.Nat.{mul-le-mul_right}
use gensoulkyo.Core.PremiumShop.{
  idempotency_key, charged, settle_purchase, purchase_new, purchase_known, purchase_by,
  purchase_shop_product, shop_purchase_limit_key,
}
use gensoulkyo.Core.ShopProducts.{
  Product, PurchaseRequest, Receipt, Shopper, PremiumShop, Answer, bought, shop_product_by_id,
  grant_shop_product,
}
use gensoulkyo.Core.PremiumShop.Goods.{IsSold, shop_product_by_id-IsSold, IsGiven, HasRoom, of_kind}

-- Between 1 and 10 units.
few_asked :
    (q : ℕ) → q < 18446744073709551616 → (non_positive q || lt64 10 q) ≡ false → (0 < q) × (q ≤ 10)
unfolding non_positive lt64
few_asked q small e = (ground (arith, e), ground (arith, e))

module _ (sha256_hex : String → String) (day_key : ℕ → String) where
  -- What a shopper has after a purchase, by the price list.
  pub record IsBought (x : Shopper) (p : Product) (q now : ℕ) (user_id : String) (s' : PremiumShop)
      : Type 0 where
    pub after : Shopper
    pub stands : lookup user_id s'.shoppers ≡ some after
    pub covered : p.cost_amount * q ≤ value p.cost_kind x.user.wallet
    pub paid :
        value p.cost_kind after.user.wallet ≡ value p.cost_kind x.user.wallet - p.cost_amount * q
    pub given : IsGiven p.kind p (p.quantity * q) now x after

  new_bought :
      (s : PremiumShop) (user_id : String) (x : Shopper) (p : Product) (req : PurchaseRequest)
      (now : ℕ) (r : Receipt)
      → HasRoom x
      → IsSold p
      → 0 < req.quantity
      → req.quantity ≤ 10
      → let out = purchase_new sha256_hex day_key s user_id x p req now in
        out.1 ≡ bought r → IsBought x p req.quantity now user_id out.0
  unfolding purchase_new settle_purchase
  new_bought s user_id x p req now r room known some_asked few =
      let q = req.quantity in
      let cost = mul64 p.cost_amount q in
      let bought_today =
        value (shop_purchase_limit_key sha256_hex day_key user_id (trim_space req.product_id) now)
          s.limits in
      let P : PremiumShop × Answer → Type 0 =
        λ out. out.1 ≡ bought r → IsBought x p q now user_id out.0 in
      let bound : p.cost_amount * q ≤ 12000 = omega (arith, mul-le-mul_right q known.cheap, few) in
      let exact : cost ≡ p.cost_amount * q = mul64_exact p.cost_amount q (omega (arith, bound)) in
      if_rule P (non_positive p.cost_amount || not (eqb (cost / p.cost_amount) q)) (λ e h. cc h)
        (λ e.
          if_rule P (lt64 (value p.cost_kind x.user.wallet) cost) (λ e' h. cc h)
            (λ enough.
              if_rule P (lt64 0 p.daily_limit && lt64 p.daily_limit (add64 bought_today q))
                (λ e'' h. cc h)
                (λ e'' h.
                  let afford : p.cost_amount * q ≤ value p.cost_kind x.user.wallet = ground (
                    arith,
                    enough,
                    exact,
                    bound,
                    lt64_exact (value p.cost_kind x.user.wallet) cost,
                    room.funds p.cost_kind,
                  ) in
                  let y = (grant_shop_product (charged x p cost) p q now).0 in
                  let (paid, given) =
                    of_kind x p q now room known some_asked few afford p.kind refl known.kind in
                  record {
                    after = y;
                    stands = lookup-insert_self user_id y s.shoppers;
                    covered = afford;
                    paid = paid;
                    given = given;
                  })))

  -- A purchase under a new nonce that succeeds takes the listed price, which the shopper could pay,
  -- times the quantity, and gives the listed goods times the quantity, where there is room for the amounts.
  pub product_paid :
      (s : PremiumShop) (user_id : String) (x : Shopper) (p : Product) (req : PurchaseRequest)
      (now : ℕ) (r : Receipt)
      → lookup user_id s.shoppers ≡ some x
      → shop_product_by_id (trim_space req.product_id) ≡ some p
      → lookup (idempotency_key user_id (trim_space req.nonce)) s.purchases ≡ none
      → HasRoom x
      → req.quantity < 18446744073709551616
      → (purchase_shop_product sha256_hex day_key s user_id req now).1 ≡ bought r
      → IsBought x p req.quantity now user_id
          (purchase_shop_product sha256_hex day_key s user_id req now).0
  unfolding purchase_shop_product purchase_by purchase_known
  product_paid s user_id x p req now r there listed unused room small =
      let P : PremiumShop × Answer → Type 0 =
        λ out. out.1 ≡ bought r → IsBought x p req.quantity now user_id out.0 in
      rw (there, listed, unused)
        (if_rule P (trim_space req.nonce == "") (λ e h. cc h)
          (λ e.
            if_rule P (non_positive req.quantity || lt64 10 req.quantity) (λ e' h. cc h)
              (λ counted.
                if_rule P (not p.purchasable) (λ e'' h. cc h)
                  (λ e''.
                    let (some_asked, few) = few_asked req.quantity small counted in
                    new_bought s user_id x p req now r room
                      (shop_product_by_id-IsSold (trim_space req.product_id) p listed) some_asked
                      few))))
