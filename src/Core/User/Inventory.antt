-- ===== src/Core/User/Inventory.antt =====
-- The card inventory under grants and upgrades: runtime/core/service.go.
use gensoulkyo.Base.{
  ℕ, ◌+◌, ◌-◌, ◌*◌, ◌≤◌, ◌<◌, ◌≡◌, refl, ap, String, Bool, true, false, some, ◌==◌, Dict, lookup,
  insert, value, leb, if◌then◌else◌, arith, Bool-cases, Option-cases, inl, inr, eq_iff, if_rule,
  Option, none, lookup-insert, lookup-insert_self, value-insert_self,
}
use gensoulkyo.Base.Int64.{
  word, half, add64, sub64, lt64, non_positive, add64_exact, sub64_exact, mul64_exact, lt64_exact,
  non_positive_exact,
}
use gensoulkyo.Core.Cards.{in_catalog, dust_value_for_card, dust_value_for_card-bounds}
use gensoulkyo.Core.User.{User, CardEntry}
use gensoulkyo.Core.User.Cards.{
  grant_card_to_user, entry_or_new, min64, max64, topped_up, credit_dust,
}
use native.Mathlib.Nat.{mul-le-mul_left}

-- Every entry holds at most two copies and a level of at most five.
unfoldable pub IsStocked : Dict CardEntry → Type 0
IsStocked inventory =
    (id : String) (entry : CardEntry)
    → lookup id inventory ≡ some entry
    → (entry.copies ≤ 2) × (entry.level ≤ 5)

pub insert-IsStocked :
    (inventory : Dict CardEntry) (card_id : String) (entry : CardEntry)
    → IsStocked inventory
    → entry.copies ≤ 2
    → entry.level ≤ 5
    → IsStocked (insert card_id entry inventory)
unfolding IsStocked
insert-IsStocked inventory card_id entry stocked copies level id e found =
    elim (Bool-cases (card_id == id)) [
      | inl same ↦
          let mine : entry ≡ e = ground (arith, lookup-insert card_id id entry inventory) in
          rw (← mine) (copies, level)
      | inr other ↦ stocked id e (ground (arith, lookup-insert card_id id entry inventory))
    ]

pub either-IsStocked :
    (b : Bool) (xs ys : Dict CardEntry)
    → IsStocked xs
    → IsStocked ys
    → IsStocked (if b then xs else ys)
either-IsStocked true xs ys p q = p
either-IsStocked false xs ys p q = q

entry-bounded :
    (inventory : Dict CardEntry) (card_id : String) (now : ℕ)
    → IsStocked inventory
    → let e = entry_or_new (lookup card_id inventory) card_id now in (e.copies ≤ 2) × (e.level ≤ 5)
unfolding IsStocked
entry-bounded inventory card_id now stocked = elim (Option-cases (lookup card_id inventory)) [
  | inl missing ↦ rw missing (omega arith, omega arith)
  | inr (e, found) ↦ let (c, l) = stocked card_id e found in rw found (ground arith, ground arith)
]

-- What is accepted of a grant: as many copies as fit under two.
module _ (copies held : ℕ) (positive : non_positive copies ≡ false) (fits : copies < word)
    (small : held ≤ 2) where
  accepted_lem :
      let a = min64 copies (max64 0 (sub64 2 held)) in
      (a ≡ (if leb copies (2 - held) then copies else 2 - held)) × (a ≤ copies) × (a + held ≤ 2)
  unfolding non_positive lt64 sub64
  accepted_lem = (ground arith, ground arith, ground arith)

-- A grant keeps every entry at two copies and level five at most.
pub grant-IsStocked :
    (user : User) (card_id : String) (copies now : ℕ)
    → copies < word
    → IsStocked user.inventory
    → IsStocked (grant_card_to_user user card_id copies now).0.inventory
unfolding grant_card_to_user
grant-IsStocked user card_id copies now fits stocked =
    let (held, level) = entry-bounded user.inventory card_id now stocked in
    let entry = entry_or_new (lookup card_id user.inventory) card_id now in
    elim (Bool-cases (non_positive copies)) [
      | inl none_asked ↦ rw none_asked stocked
      | inr positive ↦
          let (accepted, a_bound, fit) = accepted_lem copies entry.copies positive fits held in
          let a = min64 copies (max64 0 (sub64 2 entry.copies)) in
          let sum = add64_exact entry.copies a (omega (arith, fit)) in
          let stored =
            insert-IsStocked user.inventory card_id (topped_up entry a now) stocked
              (rw sum (omega (arith, fit))) (ground (arith, level)) in
          elim (Bool-cases (in_catalog card_id)) [
            | inr unknown ↦ rw (positive, unknown) stocked
            | inl known ↦ rw (positive, known) (either-IsStocked (lt64 0 a) _ _ stored stocked)
          ]
    ]

credit_lem :
    (wallet : Dict ℕ) (dust : ℕ)
    → value "card_dust" wallet + dust < half
    → value "card_dust" (credit_dust wallet dust) ≡ value "card_dust" wallet + dust
credit_lem wallet dust room = ground (
  arith,
  lt64_exact 0 dust,
  add64_exact (value "card_dust" wallet) dust,
  value-insert_self "card_dust" (add64 (value "card_dust" wallet) dust) wallet,
)

known_named : (card_id : String) → in_catalog card_id ≡ true → (card_id == "") ≡ false
unfolding in_catalog
known_named card_id known = elim (Bool-cases (card_id == "")) [
  | inl blank ↦
      let same : card_id ≡ "" = (eq_iff card_id "").0 blank in
      absurd (cc (ap in_catalog same, known))
  | inr named ↦ named
]

entry-named :
    (o : Option CardEntry) (card_id : String) (now : ℕ)
    → (card_id == "") ≡ false
    → ((entry_or_new o card_id now).card_id == "") ≡ false
entry-named none card_id now named = named
entry-named (some e) card_id now named = ground (arith, named)

-- The copies of a card after `a` of them were added.
held_lem :
    (inventory : Dict CardEntry) (card_id : String) (now a : ℕ)
    → (card_id == "") ≡ false
    → let entry = entry_or_new (lookup card_id inventory) card_id now in
      a + entry.copies ≤ 2
      → let after =
          if lt64 0 a then insert card_id (topped_up entry a now) inventory else inventory in
        (entry_or_new (lookup card_id after) card_id now).copies ≡ entry.copies + a
held_lem inventory card_id now a named few =
    let entry = entry_or_new (lookup card_id inventory) card_id now in
    let topped = topped_up entry a now in
    if_rule
      (λ (after : Dict CardEntry).
        (entry_or_new (lookup card_id after) card_id now).copies ≡ entry.copies + a)
      (lt64 0 a)
      (λ some_more.
        rw
          (
            lookup-insert_self card_id topped inventory,
            entry-named (lookup card_id inventory) card_id now named,
          )
          (add64_exact entry.copies a (omega (arith, few))))
      (λ no_more. ground (arith, no_more, lt64_exact 0 a, few))

-- A grant of some copies of a catalog card, to an identity with at most two of each card, splits
-- them: what fits under two copies is held afterwards, and the rest is turned into dust at the
-- card's rate, given that the amounts fit in 64 bits.
pub grant_split :
    (user : User) (card_id : String) (copies now : ℕ)
    → IsStocked user.inventory
    → in_catalog card_id ≡ true
    → 0 < copies
    → copies * 100 < half
    → value "card_dust" user.wallet + copies * 100 < half
    → let (after, g) = grant_card_to_user user card_id copies now in
      let held = (entry_or_new (lookup card_id user.inventory) card_id now).copies in
      (g.accepted + g.overflow ≡ copies)
      × (g.accepted ≡ (if leb copies (2 - held) then copies else 2 - held))
      × ((entry_or_new (lookup card_id after.inventory) card_id now).copies ≡ held + g.accepted)
      × (g.dust ≡ g.overflow * dust_value_for_card card_id)
      × (value "card_dust" after.wallet ≡ value "card_dust" user.wallet + g.dust)
unfolding grant_card_to_user
grant_split user card_id copies now stocked known some_asked fit room =
    let (held, level) = entry-bounded user.inventory card_id now stocked in
    let entry = entry_or_new (lookup card_id user.inventory) card_id now in
    let positive : non_positive copies ≡ false =
      ground (arith, non_positive_exact copies (omega (arith, fit))) in
    let (accepted, bound, under) =
      accepted_lem copies entry.copies positive (omega (arith, fit)) held in
    let a = min64 copies (max64 0 (sub64 2 entry.copies)) in
    let rest = sub64_exact copies a bound (omega (arith, fit)) in
    let rate = dust_value_for_card-bounds card_id in
    let small : (copies - a) * dust_value_for_card card_id ≤ copies * 100 =
      omega (arith, mul-le-mul_left (copies - a) rate.1) in
    let dust = mul64_exact (copies - a) (dust_value_for_card card_id) (omega (arith, small, fit)) in
    rw (positive, known, rest, dust)
      (
        omega (arith, bound),
        accepted,
        held_lem user.inventory card_id now a (known_named card_id known) (omega (arith, under)),
        refl,
        credit_lem user.wallet ((copies - a) * dust_value_for_card card_id)
            (omega (arith, small, room)),
      )
