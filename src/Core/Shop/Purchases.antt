-- ===== src/Core/Shop/Purchases.antt =====
-- What a purchase in the gold shop does: PurchaseShopItem of runtime/core/service.go.
use gensoulkyo.Base.{
  ◌+◌, ◌-◌, ◌*◌, ◌≤◌, ◌<◌, ◌≡◌, ◌≢◌, refl, String, true, false, none, some, ◌==◌, eq_iff, value,
  value-insert, value-insert_self, trim_space, if◌then◌else◌, arith, Option-cases, ◌⊎◌, inl, inr,
  ◌∙◌,
}
use gensoulkyo.Base.Int64.{
  half, add64, sub64, mul64, lt64, non_positive, add64_exact, sub64_exact, mul64_exact, lt64_exact,
  non_positive_exact,
}
use gensoulkyo.Core.User.{User, CoreError, done, refused}
use gensoulkyo.Core.Shop.{
  ItemDef, stamina_potion, gacha_ticket, card_dust_bundle, shop_item_by_id, PurchaseRequest,
  wallet_covers, purchase_def, purchase_found, purchase_shop_item,
}

item_lem :
    (id : String) (d : ItemDef)
    → shop_item_by_id id ≡ some d
    → (d ≡ stamina_potion) ⊎ (d ≡ gacha_ticket) ⊎ (d ≡ card_dust_bundle)
unfolding shop_item_by_id
item_lem id d found = ground (arith, found)

-- Every item of the shop is without a limit, and 2 ^ 62 pieces of it cost nothing.
found-unlimited :
    (id : String) (d : ItemDef)
    → shop_item_by_id id ≡ some d
    → (lt64 d.stock 0 ≡ true) × (mul64 d.price 4611686018427387904 ≡ 0)
unfolding lt64 mul64
found-unlimited id d found = elim (item_lem id d found) [
  | inl potion ↦ rw potion (refl, refl)
  | inr (inl ticket) ↦ rw ticket (refl, refl)
  | inr (inr dust) ↦ rw dust (refl, refl)
]

empty-item : shop_item_by_id "" ≡ none
unfolding shop_item_by_id
empty-item = refl

found-named : (id : String) (d : ItemDef) → shop_item_by_id id ≡ some d → (id == "") ≡ false
found-named id d found = ground (arith, found, eq_iff id "", empty-item)

-- A purchase of some copies of an item, whose price and amounts fit in 64 bits, by an identity with
-- the gold, takes the price times the count from the gold and adds the count times the item's
-- grant to the inventory.
pub purchase_succeeds :
    (user : User) (req : PurchaseRequest) (d : ItemDef)
    → shop_item_by_id (trim_space req.item_id) ≡ some d
    → 0 < req.count
    → req.count < half
    → d.price * req.count ≤ value "gold" user.wallet
    → value "gold" user.wallet < half
    → value d.grant_item user.shop_inventory + d.grant_count * req.count < half
    → let (after, reply) = purchase_shop_item user req in
      (reply ≡ done (record { count = req.count; spent = d.price * req.count }))
      × (value "gold" after.wallet ≡ value "gold" user.wallet - d.price * req.count)
      × (value d.grant_item after.shop_inventory
          ≡ value d.grant_item user.shop_inventory + d.grant_count * req.count)
unfolding purchase_shop_item purchase_found purchase_def wallet_covers
purchase_succeeds user req d found asked fits enough gold_fits room =
    let named = found-named (trim_space req.item_id) d found in
    let endless = (found-unlimited (trim_space req.item_id) d found).0 in
    let positive : non_positive req.count ≡ false = ground (arith, non_positive_exact req.count) in
    let cost = mul64_exact d.price req.count (omega (arith, enough, gold_fits)) in
    let granted = mul64_exact d.grant_count req.count (omega (arith, room)) in
    let rich : lt64 (value "gold" user.wallet) (d.price * req.count) ≡ false =
      ground (arith, lt64_exact (value "gold" user.wallet) (d.price * req.count)) in
    rw (named, found, endless, positive, cost, rich, granted)
      (
        refl,
        value-insert_self "gold" (sub64 (value "gold" user.wallet) (d.price * req.count))
              user.wallet
            ∙ sub64_exact (value "gold" user.wallet) (d.price * req.count) enough gold_fits,
        value-insert_self d.grant_item
              (add64 (value d.grant_item user.shop_inventory) (d.grant_count * req.count))
              user.shop_inventory
            ∙ add64_exact (value d.grant_item user.shop_inventory) (d.grant_count * req.count) room,
      )

-- A refused purchase leaves the identity as it is.
pub purchase_refused :
    (user : User) (req : PurchaseRequest) (r : CoreError)
    → (purchase_shop_item user req).1 ≡ refused r
    → (purchase_shop_item user req).0 ≡ user
unfolding purchase_shop_item purchase_found purchase_def
purchase_refused user req r = elim (Option-cases (shop_item_by_id (trim_space req.item_id))) [
  | inl missing ↦ ground (arith, missing)
  | inr (d, found) ↦ ground (arith, found)
]

-- A purchase of 2 ^ 62 pieces of any item costs nothing, however little gold the identity holds,
-- zero included: the price wraps around to 0 in 64 bits, and the purchase goes through.
pub free_purchase :
    (user : User) (d : ItemDef) (requested : String)
    → shop_item_by_id (trim_space requested) ≡ some d
    → value "gold" user.wallet < half
    → let (after, reply) =
        purchase_shop_item user (record { item_id = requested; count = 4611686018427387904 }) in
      (reply ≡ done (record { count = 4611686018427387904; spent = 0 }))
      × (value "gold" after.wallet ≡ value "gold" user.wallet)
unfolding purchase_shop_item purchase_found purchase_def wallet_covers
free_purchase user d requested found gold_fits =
    let named = found-named (trim_space requested) d found in
    let (endless, wrapped) = found-unlimited (trim_space requested) d found in
    let rich : lt64 (value "gold" user.wallet) 0 ≡ false =
      ground (arith, lt64_exact (value "gold" user.wallet) 0) in
    let same : sub64 (value "gold" user.wallet) 0 ≡ value "gold" user.wallet =
      omega (arith, sub64_exact (value "gold" user.wallet) 0) in
    let positive : non_positive 4611686018427387904 ≡ false =
      ground (arith, non_positive_exact 4611686018427387904) in
    rw (named, found, endless, positive, wrapped, rich)
      (refl, value-insert_self "gold" (sub64 (value "gold" user.wallet) 0) user.wallet ∙ same)

-- A purchase in the gold shop (PurchaseShopItem), whatever it asks for and whether it is refused or
-- not, changes no currency of the wallet but the gold: the bundle of card dust adds nothing to the
-- card dust there, which upgrades are paid from.
pub purchase_gives_no_dust :
    (user : User) (req : PurchaseRequest) (currency : String)
    → currency ≢ "gold"
    → value currency (purchase_shop_item user req).0.wallet ≡ value currency user.wallet
unfolding purchase_shop_item purchase_found purchase_def
purchase_gives_no_dust user req currency other_currency =
    elim (Option-cases (shop_item_by_id (trim_space req.item_id))) [
      | inl missing ↦ ground (arith, missing)
      | inr (d, found) ↦
          let other =
            value-insert "gold" currency
              (sub64 (value "gold" user.wallet)
                (mul64 d.price (if non_positive req.count then 1 else req.count)))
              user.wallet in
          ground (arith, found, other, eq_iff "gold" currency)
    ]
