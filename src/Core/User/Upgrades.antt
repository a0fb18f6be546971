-- ===== src/Core/User/Upgrades.antt =====
-- Card upgrades: UpgradeCard of runtime/core/service.go.
use gensoulkyo.Base.{
  ℕ, ◌+◌, ◌-◌, ◌*◌, ◌≤◌, ◌<◌, ◌≡◌, refl, String, true, false, some, ◌==◌, eq_iff, Dict, lookup,
  value, trim_space, eqb, if◌then◌else◌, arith, Bool-cases, Option-cases, inl, inr, ◌⊎◌,
  value-insert_self, lookup-insert_self, ◌≢◌,
}
use gensoulkyo.Base.Int64.{
  half, add64, lt64, non_positive, add64_exact, sub64_exact, mul64_exact, lt64_exact,
  non_positive_exact,
}
use gensoulkyo.Core.Cards.{in_catalog, dust_value_for_card, dust_value_for_card-bounds}
use gensoulkyo.Core.User.{User, CardEntry, done, refused, CoreError}
use gensoulkyo.Core.User.Cards.{UpgradeRequest, upgrade_card, upgrade_entry, card_upgrade_cost}
use gensoulkyo.Core.User.Inventory.{IsStocked, insert-IsStocked}
use native.Mathlib.Nat.{mul-le-mul_right}

-- The cost of a level above the first is the card's rate times the level before it.
cost_lem :
    (card_id : String) (level : ℕ)
    → 1 ≤ level
    → level < 5
    → card_upgrade_cost card_id (level + 1) ≡ dust_value_for_card card_id * level
unfolding card_upgrade_cost
cost_lem card_id level low high =
    let rate = dust_value_for_card-bounds card_id in
    let one = sub64_exact (level + 1) 1 (omega (arith, low)) (omega (arith, high)) in
    let before : level + 1 - 1 ≡ level = omega arith in
    let test : lt64 level 1 ≡ false = ground (arith, lt64_exact level 1) in
    rw (one, before, test)
      (mul64_exact (dust_value_for_card card_id) level
        (omega (arith, rate, mul-le-mul_right level rate.1, high)))

-- An upgrade of an owned card below level five, asked without the client's verdict and for the next
-- level or no level, with enough dust, succeeds: it costs the card's rate times the old level, the
-- dust goes down by that cost and the card's level goes up by one.
pub upgrade_succeeds :
    (user : User) (req : UpgradeRequest) (entry : CardEntry) (now : ℕ)
    → req.client_result_authoritative ≡ false
    → in_catalog (trim_space req.card_id) ≡ true
    → trim_space req.card_id ≢ ""
    → lookup (trim_space req.card_id) user.inventory ≡ some entry
    → entry.card_id ≢ ""
    → 0 < entry.copies
    → entry.copies < half
    → 0 < entry.level
    → entry.level < 5
    → (req.target_level ≡ 0) ⊎ (req.target_level ≡ entry.level + 1)
    → dust_value_for_card (trim_space req.card_id) * entry.level ≤ value "card_dust" user.wallet
    → value "card_dust" user.wallet < half
    → let card_id = trim_space req.card_id in
      let cost = dust_value_for_card card_id * entry.level in
      let (after, reply) = upgrade_card user req now in
      (reply ≡ done (record { cost = cost; old_level = entry.level; new_level = entry.level + 1 }))
      × (value "card_dust" after.wallet ≡ value "card_dust" user.wallet - cost)
      × ((upgraded : CardEntry) × (lookup card_id after.inventory ≡ some upgraded)
          × (upgraded.level ≡ entry.level + 1)
          × (upgraded.copies ≡ entry.copies))
unfolding upgrade_card upgrade_entry
upgrade_succeeds user req entry now trusted known named found identified owned fits low high target
      enough room =
    let card_id = trim_space req.card_id in
    let cost = dust_value_for_card card_id * entry.level in
    let level : non_positive entry.level ≡ false = ground (arith, non_positive_exact entry.level) in
    let next = add64_exact entry.level 1 (omega (arith, high)) in
    let copies : non_positive entry.copies ≡ false =
      ground (arith, non_positive_exact entry.copies) in
    let price = cost_lem card_id entry.level (omega (arith, low)) high in
    let top : lt64 5 (entry.level + 1) ≡ false = ground (arith, lt64_exact 5 (entry.level + 1)) in
    let some_name : (card_id == "") ≡ false = ground (arith, eq_iff card_id "") in
    let own_name : (entry.card_id == "") ≡ false = ground (arith, eq_iff entry.card_id "") in
    let paid : lt64 (value "card_dust" user.wallet) cost ≡ false =
      ground (arith, lt64_exact (value "card_dust" user.wallet) cost) in
    let left =
      sub64_exact (value "card_dust" user.wallet) cost (omega (arith, enough))
        (omega (arith, room)) in
    let asked : (if non_positive req.target_level then entry.level + 1 else req.target_level)
        ≡ entry.level + 1 =
      ground (arith, non_positive_exact req.target_level) in
    let same : eqb (entry.level + 1) (entry.level + 1) ≡ true = ground arith in
    rw
      (
        trusted, some_name, known, found, level, own_name, copies, next, asked, same, top, price,
        paid, left,
      )
      (
        refl,
        value-insert_self "card_dust" (value "card_dust" user.wallet - cost) user.wallet,
        (_, lookup-insert_self card_id _ user.inventory, refl, refl),
      )

-- A refused upgrade leaves the identity as it is.
pub upgrade_refused :
    (user : User) (req : UpgradeRequest) (now : ℕ) (e : CoreError)
    → (upgrade_card user req now).1 ≡ refused e
    → (upgrade_card user req now).0 ≡ user
unfolding upgrade_card upgrade_entry
upgrade_refused user req now e =
    elim (Option-cases (lookup (trim_space req.card_id) user.inventory)) [
      | inl missing ↦ ground (arith, missing)
      | inr (entry, found) ↦ ground (arith, found)
    ]

target-bounded :
    (start target : ℕ)
    → start ≤ 5
    → eqb target (add64 start 1) ≡ true
    → lt64 5 target ≡ false
    → target ≤ 5
target-bounded start target small next below =
    ground (arith, add64_exact start 1, lt64_exact 5 target)

lookup-bounded :
    (inventory : Dict CardEntry) (card_id : String) (entry : CardEntry)
    → IsStocked inventory
    → lookup card_id inventory ≡ some entry
    → (entry.copies ≤ 2) × (entry.level ≤ 5)
unfolding IsStocked
lookup-bounded inventory card_id entry stocked found = stocked card_id entry found

-- An upgrade, whatever it asks, keeps every entry at two copies and level five at most.
pub upgrade-IsStocked :
    (user : User) (req : UpgradeRequest) (now : ℕ)
    → IsStocked user.inventory
    → IsStocked (upgrade_card user req now).0.inventory
unfolding upgrade_card upgrade_entry
upgrade-IsStocked user req now stocked =
    let card_id = trim_space req.card_id in
    elim (Option-cases (lookup card_id user.inventory)) [
      | inl missing ↦ ground (arith, missing, stocked)
      | inr (entry, found) ↦
          let (copies, level) = lookup-bounded user.inventory card_id entry stocked found in
          let start = if non_positive entry.level then 1 else entry.level in
          let target = if non_positive req.target_level then add64 start 1 else req.target_level in
          let upgraded : CardEntry = record entry {
            level = target;
            first_obtained_at =
                if eqb entry.first_obtained_at 0 then now else entry.first_obtained_at;
          } in
          elim (Bool-cases (eqb target (add64 start 1))) [
            | inr other ↦ ground (arith, found, other, stocked)
            | inl next ↦ elim (Bool-cases (lt64 5 target)) [
              | inl above ↦ ground (arith, found, next, above, stocked)
              | inr below ↦
                  let ok =
                    insert-IsStocked user.inventory card_id upgraded stocked copies
                      (target-bounded start target (ground (arith, level)) next below) in
                  ground (arith, found, next, below, stocked, ok)
            ]
          ]
    ]
