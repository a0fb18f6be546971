-- ===== src/Core/Shop.antt =====
-- The gold shop: shopItemCatalog, walletCovers and PurchaseShopItem of runtime/core/service.go. Every
-- price is in gold. The session is resolved to its user before; errors are their codes.
pub mod Purchases
use gensoulkyo.Base.{
  ℕ, String, Bool, true, false, not, ◌&&◌, Option, none, some, List, [], ◌∷◌, ◌==◌, Dict, insert,
  value, trim_space, if◌then◌else◌,
}
use gensoulkyo.Base.Int64.{add64, sub64, mul64, lt64, non_positive}
use gensoulkyo.Core.User.{
  User, Reply, CoreError, done, refused, invalid_request, not_found, out_of_stock,
  insufficient_funds,
}

-- shopItemDef, less its texts
pub record ItemDef : Type 0 where
  pub item_id : String
  pub price : ℕ
  pub grant_item : String
  pub grant_count : ℕ
  pub stock : ℕ

-- -1, the stock of an item without a limit
abbrev pub unlimited : ℕ
unlimited = 18446744073709551615

abbrev pub stamina_potion : ItemDef
stamina_potion = record {
  item_id = "stamina_potion";
  price = 300;
  grant_item = "stamina_potion";
  grant_count = 1;
  stock = unlimited;
}

abbrev pub gacha_ticket : ItemDef
gacha_ticket = record {
  item_id = "gacha_ticket";
  price = 500;
  grant_item = "gacha_ticket";
  grant_count = 1;
  stock = unlimited;
}

abbrev pub card_dust_bundle : ItemDef
card_dust_bundle = record {
  item_id = "card_dust_bundle";
  price = 200;
  grant_item = "card_dust";
  grant_count = 50;
  stock = unlimited;
}

abbrev item_among : List ItemDef → String → Option ItemDef
item_among [] id = none
item_among (d ∷ ds) id = if d.item_id == id then some d else item_among ds id

-- shopItemByID
unfoldable pub shop_item_by_id : String → Option ItemDef
shop_item_by_id = item_among (stamina_potion ∷ gacha_ticket ∷ card_dust_bundle ∷ [])

-- LegacyShopPurchaseRequest
pub record PurchaseRequest : Type 0 where
  pub item_id : String
  pub count : ℕ

-- The count and the price of ShopPurchaseView.
pub record Purchase : Type 0 where
  pub count : ℕ
  pub spent : ℕ

-- walletCovers, for a price in gold
unfoldable pub wallet_covers : Dict ℕ → ℕ → Bool
wallet_covers wallet cost = not (lt64 (value "gold" wallet) cost)

-- PurchaseShopItem from the catalog's entry on.
unfoldable pub purchase_def : User → ItemDef → ℕ → User × Reply Purchase
purchase_def user d requested =
    let count = if non_positive requested then 1 else requested in
    let cost = mul64 d.price count in
    let left = sub64 d.stock (value d.item_id user.shop_purchased) in
    if not (lt64 d.stock 0) && lt64 left count
    then (user, refused out_of_stock)
    else if not (wallet_covers user.wallet cost)
    then (user, refused insufficient_funds)
    else (
      record user {
        wallet = insert "gold" (sub64 (value "gold" user.wallet) cost) user.wallet;
        shop_inventory =
            insert d.grant_item
              (add64 (value d.grant_item user.shop_inventory) (mul64 d.grant_count count))
              user.shop_inventory;
        shop_purchased =
            insert d.item_id (add64 (value d.item_id user.shop_purchased) count)
              user.shop_purchased;
      },
      done (record { count = count; spent = cost }),
    )

unfoldable pub purchase_found : User → Option ItemDef → ℕ → User × Reply Purchase
purchase_found user none requested = (user, refused not_found)
purchase_found user (some d) requested = purchase_def user d requested

-- PurchaseShopItem
unfoldable pub purchase_shop_item : User → PurchaseRequest → User × Reply Purchase
purchase_shop_item user req =
    let item_id = trim_space req.item_id in
    if item_id == ""
    then (user, refused invalid_request)
    else purchase_found user (shop_item_by_id item_id) req.count
