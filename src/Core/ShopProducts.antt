-- ===== src/Core/ShopProducts.antt =====
-- The data of the shop of runtime/core/shop.go, its catalog and what a product gives. Amounts are
-- 64-bit patterns. A user has a wallet and chests, and the default of an unknown kind of product is
-- left out.
use gensoulkyo.Base.{
  ℕ, String, Bool, true, Option, none, some, List, [], ◌∷◌, ◌==◌, Dict, insert, value,
  if◌then◌else◌,
}
use gensoulkyo.Base.Int64.{add64, mul64, lt64, non_positive}
use gensoulkyo.Core.User.{User}
use gensoulkyo.Core.User.Cards.{Grant, grant_card_to_user}

pub data Kind : Type 0 where
  card chest currency_bundle : Kind

-- ServerShopProduct
pub record Product : Type 0 where
  pub product_id : String
  pub kind : Kind
  pub cost_kind : String
  pub cost_amount : ℕ
  pub payload : String
  pub quantity : ℕ
  pub daily_limit : ℕ
  pub purchasable : Bool

abbrev sold : String → Kind → String → ℕ → String → ℕ → Product
sold id kind cost_kind cost payload quantity = record {
  product_id = id;
  kind = kind;
  cost_kind = cost_kind;
  cost_amount = cost;
  payload = payload;
  quantity = quantity;
  daily_limit = 0;
  purchasable = true;
}

-- serverShopCatalog
unfoldable pub server_shop_catalog : List Product
server_shop_catalog =
    sold "card.focus_lens.single" card "gold" 200 "focus_lens" 1
    ∷ sold "card.bomb_amplifier.single" card "gold" 200 "bomb_amplifier" 1
    ∷ sold "card.purge_charm.single" card "gold" 500 "purge_charm" 1
    ∷ sold "card.density_surge.single" card "gold" 1200 "density_surge" 1
    ∷ sold "card.last_arc.single" card "gems" 300 "last_arc" 1
    ∷ sold "chest.standard.pull" chest "gold" 800 "local_basic" 1
    ∷ sold "gems.pack.600" currency_bundle "gold" 600 "gems" 600
    ∷ []

-- ShopPurchaseRequest
pub record PurchaseRequest : Type 0 where
  pub product_id : String
  pub quantity : ℕ
  pub nonce : String

-- GrantEntry
pub data GrantEntry : Type 0 where
  granted_card granted_chest granted_currency : String → ℕ → GrantEntry

-- ShopReceipt, with what was granted
pub record Receipt : Type 0 where
  pub receipt_id : String
  pub product_id : String
  pub quantity : ℕ
  pub cost_kind : String
  pub cost_amount : ℕ
  pub created_at : ℕ
  pub granted : List GrantEntry

-- shopPurchaseRecord
pub record PurchaseRecord : Type 0 where
  pub request_hash : String
  pub response : Receipt

-- What a purchase changes of a userState.
pub record Shopper : Type 0 where
  pub user : User
  pub chests : Dict ℕ

pub record PremiumShop : Type 0 where
  pub shoppers : Dict Shopper
  pub purchases : Dict PurchaseRecord
  pub limits : Dict ℕ
  pub next_seq : ℕ

pub data ShopError : Type 0 where
  unauthorized idempotency_conflict quantity_invalid product_not_found : ShopError
  not_purchasable invalid_request insufficient_currency daily_limit_reached : ShopError

pub data Answer : Type 0 where
  bought : Receipt → Answer
  refused : ShopError → Answer

unfoldable pub find_product : List Product → String → Option Product
find_product [] id = none
find_product (p ∷ products) id = if p.product_id == id then some p else find_product products id

-- shopProductByID
unfoldable pub shop_product_by_id : String → Option Product
shop_product_by_id id = find_product server_shop_catalog id

abbrev pub if_some : Bool → GrantEntry → List GrantEntry → List GrantEntry
if_some test g grants = if test then g ∷ grants else grants

abbrev card_granted : Shopper → Product → User × Grant → Shopper × List GrantEntry
card_granted x p (user, g) = (
  record x { user = user },
  if_some (lt64 0 g.accepted) (granted_card p.payload g.accepted)
      (if_some (lt64 0 g.overflow) (granted_currency "card_dust" g.dust) []),
)

abbrev granted_kind : Kind → Shopper → Product → ℕ → ℕ → Shopper × List GrantEntry
granted_kind card x p amount now = card_granted x p (grant_card_to_user x.user p.payload amount now)
granted_kind chest x p amount now = (
  record x { chests = insert p.payload (add64 (value p.payload x.chests) amount) x.chests },
  granted_chest p.payload amount ∷ [],
)
granted_kind currency_bundle x p amount now =
    let wallet = x.user.wallet in
    let paid : User = record x.user {
      wallet = insert p.payload (add64 (value p.payload wallet) amount) wallet;
    } in
    (record x { user = paid }, granted_currency p.payload amount ∷ [])

-- grantShopProductLocked
unfoldable pub grant_shop_product : Shopper → Product → ℕ → ℕ → Shopper × List GrantEntry
grant_shop_product x p quantity now =
    let amount = mul64 p.quantity quantity in
    if non_positive amount then (x, []) else granted_kind p.kind x p amount now
