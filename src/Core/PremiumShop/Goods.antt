-- ===== src/Core/PremiumShop/Goods.antt =====
-- The goods of the shop of runtime/core/shop.go: what a charge and a grant come to for each kind of product.
use gensoulkyo.Base.{
  ℕ, ◌+◌, ◌-◌, ◌*◌, ◌≤◌, ◌<◌, ◌≡◌, refl, ap, ap₂, ◌∙◌, String, true, false, not, Option, some, List,
  [], ◌∷◌, ◌==◌, eq_iff, Dict, lookup, insert, value, value-insert, value-insert_self, leb,
  if◌then◌else◌, if_rule, arith, All, subst,
}
use gensoulkyo.Base.Int64.{
  half, add64, sub64, mul64, non_positive, add64_exact, sub64_exact, mul64_exact,
  non_positive_exact,
}
use native.Mathlib.Nat.{mul-le-mul_right, mul-pos}
use gensoulkyo.Core.Cards.{in_catalog, dust_value_for_card}
use gensoulkyo.Core.User.{User}
use gensoulkyo.Core.User.Cards.{Grant, grant_card_to_user, credit_dust, entry_or_new}
use gensoulkyo.Core.User.Inventory.{IsStocked, grant_split}
use gensoulkyo.Core.PremiumShop.{charged}
use gensoulkyo.Core.ShopProducts.{
  Kind, card, chest, currency_bundle, Product, server_shop_catalog, Shopper, find_product,
  shop_product_by_id, grant_shop_product,
}

-- What each kind of product must be.
abbrev IsKind : Kind → Product → Type 0
IsKind card p = (p.quantity ≡ 1) × (in_catalog p.payload ≡ true)
IsKind chest p = p.quantity ≡ 1
IsKind currency_bundle p = (p.payload == p.cost_kind) ≡ false

pub record IsSold (p : Product) : Type 0 where
  pub priced : 0 < p.cost_amount
  pub cheap : p.cost_amount ≤ 1200
  pub some_given : 0 < p.quantity
  pub few_given : p.quantity ≤ 600
  pub no_dust : ("card_dust" == p.cost_kind) ≡ false
  pub kind : IsKind p.kind p

find-All :
    (P : Product → Type 0) (products : List Product) (id : String) (p : Product)
    → All P products
    → find_product products id ≡ some p
    → P p
unfolding find_product
find-All P [] id p all h = absurd (cc h)
find-All P (q ∷ products) id p all h =
    if_rule (λ (o : Option Product). o ≡ some p → P p) (q.product_id == id)
      (λ e h'. let same : q ≡ p = cc h' in subst P same all.0)
      (λ e h'. find-All P products id p all.1 h') h

catalog-IsSold : All IsSold server_shop_catalog
unfolding server_shop_catalog in_catalog
catalog-IsSold =
    let single : (p : Product)
        → 0 < p.cost_amount
        → p.cost_amount ≤ 1200
        → p.quantity ≡ 1
        → ("card_dust" == p.cost_kind) ≡ false
        → IsKind p.kind p
        → IsSold p =
      λ p priced cheap one no_dust kind. record {
        priced = priced;
        cheap = cheap;
        some_given = omega arith;
        few_given = omega arith;
        no_dust = no_dust;
        kind = kind;
      } in
    (
      single _ (omega arith) (omega arith) refl refl (refl, refl),
      (
        single _ (omega arith) (omega arith) refl refl (refl, refl),
        (
          single _ (omega arith) (omega arith) refl refl (refl, refl),
          (
            single _ (omega arith) (omega arith) refl refl (refl, refl),
            (
              single _ (omega arith) (omega arith) refl refl (refl, refl),
              (
                single _ (omega arith) (omega arith) refl refl refl,
                (
                  record {
                    priced = omega arith;
                    cheap = omega arith;
                    some_given = omega arith;
                    few_given = omega arith;
                    no_dust = refl;
                    kind = refl;
                  },
                  tt,
                ),
              ),
            ),
          ),
        ),
      ),
    )

pub shop_product_by_id-IsSold :
    (id : String) (p : Product) → shop_product_by_id id ≡ some p → IsSold p
unfolding shop_product_by_id
shop_product_by_id-IsSold id p h = find-All IsSold server_shop_catalog id p catalog-IsSold h

-- What a shopper gets for `n` units, by the kind of product: the copies that fit under two and dust at
-- the card's rate for the others, chests, or currency.
abbrev pub IsGiven : Kind → Product → ℕ → ℕ → Shopper → Shopper → Type 0
IsGiven card p n now x y =
    let held = (entry_or_new (lookup p.payload x.user.inventory) p.payload now).copies in
    let kept = (entry_or_new (lookup p.payload y.user.inventory) p.payload now).copies in
    (kept ≡ held + (if leb n (2 - held) then n else 2 - held))
    × (value "card_dust" y.user.wallet
        ≡ value "card_dust" x.user.wallet + (n - (kept - held)) * dust_value_for_card p.payload)
IsGiven chest p n now x y = value p.payload y.chests ≡ value p.payload x.chests + n
IsGiven currency_bundle p n now x y =
    value p.payload y.user.wallet ≡ value p.payload x.user.wallet + n

-- A shopper whose amounts have room for a purchase.
pub record HasRoom (x : Shopper) : Type 0 where
  pub stocked : IsStocked x.user.inventory
  pub funds : (k : String) → value k x.user.wallet + 10000 < half
  pub chests : (k : String) → value k x.chests + 10000 < half

credit-purse :
    (purse : Dict ℕ) (dust : ℕ) (k : String)
    → ("card_dust" == k) ≡ false
    → value k (credit_dust purse dust) ≡ value k purse
credit-purse purse dust k other =
    ground (arith, other, value-insert "card_dust" k (add64 (value "card_dust" purse) dust) purse)

-- A grant of cards leaves every currency but the dust.
grant-purse :
    (user : User) (card_id : String) (copies now : ℕ) (k : String)
    → ("card_dust" == k) ≡ false
    → value k (grant_card_to_user user card_id copies now).0.wallet ≡ value k user.wallet
unfolding grant_card_to_user
grant-purse user card_id copies now k other =
    let P : User × Grant → Type 0 = λ o. value k o.0.wallet ≡ value k user.wallet in
    if_rule P (non_positive copies) (λ e. refl)
      (λ e.
        if_rule P (not (in_catalog card_id)) (λ e'. refl)
          (λ e'. credit-purse user.wallet _ k other))

module _ (x : Shopper) (p : Product) (q now : ℕ) (room : HasRoom x) (known : IsSold p)
    (some_asked : 0 < q) (few : q ≤ 10)
    (afford : p.cost_amount * q ≤ value p.cost_kind x.user.wallet) where
  unit_bound : p.quantity * q ≤ 6000
  unit_bound = omega (arith, mul-le-mul_right q known.few_given, few)

  some_units : 0 < p.quantity * q
  some_units = mul-pos known.some_given some_asked

  abbrev IsPaid : Shopper → Type 0
  IsPaid y = value p.cost_kind y.user.wallet ≡ value p.cost_kind x.user.wallet - p.cost_amount * q

  cost_exact : mul64 p.cost_amount q ≡ p.cost_amount * q
  cost_exact = mul64_exact p.cost_amount q (omega (arith, room.funds p.cost_kind))

  units_exact : mul64 p.quantity q ≡ p.quantity * q
  units_exact = mul64_exact p.quantity q (omega (arith, unit_bound))

  units_positive : non_positive (p.quantity * q) ≡ false
  units_positive = ground (arith, some_units, unit_bound, non_positive_exact (p.quantity * q))

  left_over :
      sub64 (value p.cost_kind x.user.wallet) (p.cost_amount * q)
      ≡ value p.cost_kind x.user.wallet - p.cost_amount * q
  left_over =
      sub64_exact (value p.cost_kind x.user.wallet) (p.cost_amount * q) afford
        (omega (arith, room.funds p.cost_kind))

  abbrev left : ℕ
  left = value p.cost_kind x.user.wallet - p.cost_amount * q

  abbrev pub wallet : Dict ℕ
  wallet = insert p.cost_kind left x.user.wallet

  bundle-IsPaid :
      (p.payload == p.cost_kind) ≡ false
      → p.kind ≡ currency_bundle
      → let y = (grant_shop_product (charged x p (mul64 p.cost_amount q)) p q now).0 in
        IsPaid y × IsGiven currency_bundle p (p.quantity * q) now x y
  unfolding grant_shop_product
  bundle-IsPaid other e =
      let kept : value p.payload wallet ≡ value p.payload x.user.wallet =
        rw (value-insert p.cost_kind p.payload left x.user.wallet)
          (ground (arith, other, eq_iff p.payload p.cost_kind, eq_iff p.cost_kind p.payload)) in
      rw (e, cost_exact, units_exact, units_positive, left_over)
        (
          rw
              (
                value-insert p.payload p.cost_kind (add64 (value p.payload wallet) (p.quantity * q))
                    wallet,
                other,
              )
              (value-insert_self p.cost_kind left x.user.wallet),
          value-insert_self p.payload (add64 (value p.payload wallet) (p.quantity * q)) wallet
              ∙ rw kept (
                  add64_exact (value p.payload x.user.wallet) (p.quantity * q)
                    (omega (arith, room.funds p.payload, unit_bound))),
        )

  chest-IsPaid :
      p.kind ≡ chest
      → let y = (grant_shop_product (charged x p (mul64 p.cost_amount q)) p q now).0 in
        IsPaid y × IsGiven chest p (p.quantity * q) now x y
  unfolding grant_shop_product
  chest-IsPaid e =
      rw (e, cost_exact, units_exact, units_positive, left_over)
        (
          value-insert_self p.cost_kind left x.user.wallet,
          value-insert_self p.payload (add64 (value p.payload x.chests) (p.quantity * q)) x.chests
              ∙ add64_exact (value p.payload x.chests) (p.quantity * q)
                  (omega (arith, room.chests p.payload, unit_bound)),
        )

  card-IsPaid :
      (p.quantity ≡ 1) × (in_catalog p.payload ≡ true)
      → p.kind ≡ card
      → let y = (grant_shop_product (charged x p (mul64 p.cost_amount q)) p q now).0 in
        IsPaid y × IsGiven card p (p.quantity * q) now x y
  unfolding grant_shop_product
  card-IsPaid (one, in_it) e =
      let user : User = record x.user { wallet = wallet } in
      let n = p.quantity * q in
      let few_units : n ≤ 10 = rw one (omega arith) in
      let dust : value "card_dust" wallet ≡ value "card_dust" x.user.wallet =
        rw (value-insert p.cost_kind "card_dust" left x.user.wallet) (
          ground (
            arith,
            known.no_dust,
            eq_iff p.cost_kind "card_dust",
            eq_iff "card_dust" p.cost_kind,
          )) in
      let (split, accepted, held, rate, credited) =
        grant_split user p.payload n now room.stocked in_it some_units (omega (arith, few_units))
          (omega (arith, few_units, dust, room.funds "card_dust")) in
      let g = (grant_card_to_user user p.payload n now).1 in
      let before = (entry_or_new (lookup p.payload x.user.inventory) p.payload now).copies in
      let after = (grant_card_to_user user p.payload n now).0 in
      let kept = (entry_or_new (lookup p.payload after.inventory) p.payload now).copies in
      let turned : g.overflow ≡ n - (kept - before) = omega (arith, split, held) in
      rw (e, cost_exact, units_exact, units_positive, left_over)
        (
          grant-purse user p.payload n now p.cost_kind known.no_dust
              ∙ value-insert_self p.cost_kind left x.user.wallet,
          (
            held ∙ ap (λ k. before + k) accepted,
            credited
                ∙ ap₂ (λ a b. a + b) dust
                    (rate ∙ ap (λ k. k * dust_value_for_card p.payload) turned),
          ),
        )

  -- The charge and the grant of a purchase, of each kind.
  pub of_kind :
      (k : Kind)
      → p.kind ≡ k
      → IsKind k p
      → let y = (grant_shop_product (charged x p (mul64 p.cost_amount q)) p q now).0 in
        IsPaid y × IsGiven k p (p.quantity * q) now x y
  of_kind card e kind = card-IsPaid kind e
  of_kind chest e kind = chest-IsPaid e
  of_kind currency_bundle e kind = bundle-IsPaid kind e
