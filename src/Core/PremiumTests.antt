-- ===== src/Core/PremiumTests.antt =====
-- Runs of the shop of runtime/core/shop.go.
use gensoulkyo.Base.{
  ℕ, ◌+◌, ◌<◌, ◌≡◌, refl, arith, true, String, some, List, [], ◌∷◌, Dict, lookup, value,
  if◌then◌else◌,
}
use gensoulkyo.Base.Int64.{half}
use gensoulkyo.Core.TotemTests.{ann, ann-IsStocked}
use gensoulkyo.Core.PremiumShop.{purchase_shop_product}
use gensoulkyo.Core.ShopProducts.{
  Product, chest, Shopper, PremiumShop, PurchaseRequest, Receipt, granted_currency, bought,
  shop_product_by_id,
}
use gensoulkyo.Core.PremiumShop.Orders.{run, buy}
use gensoulkyo.Core.PremiumShop.Nonces.{nonce_buys_once}
use gensoulkyo.Core.PremiumShop.Prices.{IsBought, product_paid}
use gensoulkyo.Core.PremiumShop.Goods.{HasRoom}

abbrev digest : String → String
digest text = text

abbrev day : ℕ → String
day at = "2026-01-01"

abbrev shopper : Shopper
shopper = record { user = ann; chests = [] }

abbrev shop : PremiumShop
shop = record { shoppers = ("ann", shopper) ∷ []; purchases = []; limits = []; next_seq = 0 }

abbrev gems : PurchaseRequest
gems = record { product_id = "gems.pack.600"; quantity = 2; nonce = "n" }

abbrev chests : PurchaseRequest
chests = record { product_id = "chest.standard.pull"; quantity = 1; nonce = " n" }

abbrev receipt : Receipt
receipt = record {
  receipt_id = "shop_receipt_000001";
  product_id = "gems.pack.600";
  quantity = 2;
  cost_kind = "gold";
  cost_amount = 1200;
  created_at = 5;
  granted = granted_currency "gems" 1200 ∷ [];
}

nonce_buys_once_example :
    let s' =
      run digest day
        (buy digest day shop (record { user_id = "ann"; request = gems; at = 5 })).0
        [] in
    ((purchase_shop_product digest day s' "ann" chests 9).0 ≡ s')
    × (purchase_shop_product digest day s' "ann" gems 9 ≡ (s', bought receipt))
unfolding purchase_shop_product lookup gensoulkyo.Base.trim_space gensoulkyo.Base.Int64.non_positive
    shop_product_by_id gensoulkyo.Base.Int64.mul64 value gensoulkyo.Base.padded
    gensoulkyo.Base.decimal gensoulkyo.Core.PremiumShop.purchase_by
    gensoulkyo.Core.PremiumShop.purchase_known gensoulkyo.Core.ShopProducts.find_product
    gensoulkyo.Core.ShopProducts.server_shop_catalog gensoulkyo.Core.PremiumShop.purchase_new
    gensoulkyo.Core.PremiumShop.settle_purchase gensoulkyo.Core.ShopProducts.grant_shop_product
nonce_buys_once_example =
    nonce_buys_once digest day shop (record { user_id = "ann"; request = gems; at = 5 }) [] chests 9
      receipt refl refl

shopper-HasRoom : HasRoom shopper
unfolding value lookup
shopper-HasRoom = record {
  stocked = ann-IsStocked;
  funds = λ k. ground arith;
  chests = λ k. omega arith;
}

abbrev chest_product : Product
chest_product = record {
  product_id = "chest.standard.pull";
  kind = chest;
  cost_kind = "gold";
  cost_amount = 800;
  payload = "local_basic";
  quantity = 1;
  daily_limit = 0;
  purchasable = true;
}

product_paid_example :
    IsBought digest day shopper chest_product 1 9 "ann"
      (purchase_shop_product digest day shop "ann" chests 9).0
unfolding purchase_shop_product lookup gensoulkyo.Base.trim_space gensoulkyo.Base.Int64.non_positive
    shop_product_by_id gensoulkyo.Base.Int64.mul64 value gensoulkyo.Base.padded
    gensoulkyo.Base.decimal gensoulkyo.Core.PremiumShop.purchase_by
    gensoulkyo.Core.PremiumShop.purchase_known gensoulkyo.Core.ShopProducts.find_product
    gensoulkyo.Core.ShopProducts.server_shop_catalog gensoulkyo.Core.PremiumShop.purchase_new
    gensoulkyo.Core.PremiumShop.settle_purchase gensoulkyo.Core.ShopProducts.grant_shop_product
product_paid_example =
    product_paid digest day shop "ann" shopper chest_product chests 9 _ refl refl refl
      shopper-HasRoom (omega arith) refl
