-- ===== src/Core/PremiumShop.antt =====
-- The shop of runtime/core/shop.go: its catalog and PurchaseShopProduct. Amounts are 64-bit patterns.
-- SHA-256, the key of a calendar day and the catalog's season are left to parameters or out; the wallet
-- and the inventory, which a response copies from the user, are left out of it. Quantities of a
-- purchase are at most 10 and the catalog's prices small, so that the product of the two is positive.
pub mod Orders
pub mod Nonces
pub mod Goods
pub mod Prices
use Prim.Native.String
use Prim.Native.Char.{char}
use gensoulkyo.Base.{
  ℕ, suc, ◌/◌, String, str_append, decimal, padded, Bool, true, false, not, ◌&&◌, ◌||◌, Option,
  none, some, List, [], ◌∷◌, ◌++◌, ◌==◌, Dict, lookup, insert, value, trim_space, eqb,
  if◌then◌else◌,
}
use gensoulkyo.Base.Int64.{add64, sub64, mul64, lt64, non_positive}
use gensoulkyo.Core.User.{User}
use gensoulkyo.Core.User.Cards.{Grant, grant_card_to_user}
use gensoulkyo.Core.ShopProducts.{
  Product, PurchaseRequest, Receipt, PurchaseRecord, Shopper, PremiumShop, unauthorized,
  idempotency_conflict, quantity_invalid, product_not_found, not_purchasable, invalid_request,
  insufficient_currency, daily_limit_reached, Answer, bought, bought, refused, refused,
  shop_product_by_id, grant_shop_product,
}

abbrev separator : String
separator = String.◌∷◌ (char 0 tt) String.[]

-- user.UserID + "\x00" + nonce
unfoldable pub idempotency_key : String → String → String
idempotency_key user_id nonce = str_append user_id (str_append separator nonce)

abbrev pub charged : Shopper → Product → ℕ → Shopper
charged x p cost = record x {
  user = record x.user {
    wallet = insert p.cost_kind (sub64 (value p.cost_kind x.user.wallet) cost) x.user.wallet;
  };
}

-- `if record, ok := s.shopPurchases[idempotencyKey]; ok`
unfoldable pub repeated : PremiumShop → PurchaseRecord → String → PremiumShop × Answer
repeated s r hash =
    if not (r.request_hash == hash)
    then (s, refused idempotency_conflict)
    else (s, bought r.response)

module _ (sha256_hex : String → String) (day_key : ℕ → String) where
  -- shopPurchaseRequestHash
  unfoldable pub shop_purchase_request_hash : String → ℕ → String
  shop_purchase_request_hash product_id quantity =
      str_append "sha256:" (sha256_hex (str_append product_id (str_append ":" (decimal quantity))))

  -- shopPurchaseLimitKey
  unfoldable pub shop_purchase_limit_key : String → String → ℕ → String
  shop_purchase_limit_key user_id product_id now =
      str_append user_id
        (str_append separator (str_append product_id (str_append separator (day_key now))))

  -- PurchaseShopProduct, once the purchase is allowed
  unfoldable pub settle_purchase :
      PremiumShop → String → Shopper → Product → PurchaseRequest → ℕ → PremiumShop × Answer
  settle_purchase s user_id x p req now =
      let cost = mul64 p.cost_amount req.quantity in
      let limit_key = shop_purchase_limit_key user_id (trim_space req.product_id) now in
      let (after, granted) = grant_shop_product (charged x p cost) p req.quantity now in
      let receipt : Receipt = record {
        receipt_id = str_append "shop_receipt_" (padded 6 (suc s.next_seq));
        product_id = trim_space req.product_id;
        quantity = req.quantity;
        cost_kind = p.cost_kind;
        cost_amount = cost;
        created_at = now;
        granted = granted;
      } in
      (
        record {
          shoppers = insert user_id after s.shoppers;
          purchases =
              insert (idempotency_key user_id (trim_space req.nonce))
                (record {
                  request_hash =
                      shop_purchase_request_hash (trim_space req.product_id) req.quantity;
                  response = receipt;
                })
                s.purchases;
          limits = insert limit_key (add64 (value limit_key s.limits) req.quantity) s.limits;
          next_seq = suc s.next_seq;
        },
        bought receipt,
      )

  -- PurchaseShopProduct, for a nonce that is new
  unfoldable pub purchase_new :
      PremiumShop → String → Shopper → Product → PurchaseRequest → ℕ → PremiumShop × Answer
  purchase_new s user_id x p req now =
      let cost = mul64 p.cost_amount req.quantity in
      let limit_key = shop_purchase_limit_key user_id (trim_space req.product_id) now in
      if non_positive p.cost_amount || not (eqb (cost / p.cost_amount) req.quantity)
      then (s, refused invalid_request)
      else if lt64 (value p.cost_kind x.user.wallet) cost
      then (s, refused insufficient_currency)
      else if lt64 0 p.daily_limit
          && lt64 p.daily_limit (add64 (value limit_key s.limits) req.quantity)
      then (s, refused daily_limit_reached)
      else settle_purchase s user_id x p req now

  abbrev by_nonce :
      PremiumShop
      → String
      → Shopper
      → Product
      → PurchaseRequest
      → ℕ
      → Option PurchaseRecord
      → PremiumShop × Answer
  by_nonce s user_id x p req now none = purchase_new s user_id x p req now
  by_nonce s user_id x p req now (some r) =
      repeated s r (shop_purchase_request_hash (trim_space req.product_id) req.quantity)

  unfoldable pub purchase_known :
      PremiumShop → String → Shopper → Option Product → PurchaseRequest → ℕ → PremiumShop × Answer
  purchase_known s user_id x none req now = (s, refused product_not_found)
  purchase_known s user_id x (some p) req now =
      let key = idempotency_key user_id (trim_space req.nonce) in
      if not p.purchasable
      then (s, refused not_purchasable)
      else by_nonce s user_id x p req now (lookup key s.purchases)

  unfoldable pub purchase_by :
      PremiumShop → String → Option Shopper → PurchaseRequest → ℕ → PremiumShop × Answer
  purchase_by s user_id none req now = (s, refused unauthorized)
  purchase_by s user_id (some x) req now =
      if trim_space req.nonce == ""
      then (s, refused idempotency_conflict)
      else if non_positive req.quantity || lt64 10 req.quantity
      then (s, refused quantity_invalid)
      else purchase_known s user_id x (shop_product_by_id (trim_space req.product_id)) req now

  -- PurchaseShopProduct, of the user of a session
  unfoldable pub purchase_shop_product :
      PremiumShop → String → PurchaseRequest → ℕ → PremiumShop × Answer
  purchase_shop_product s user_id req now =
      purchase_by s user_id (lookup user_id s.shoppers) req now
