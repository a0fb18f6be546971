-- ===== src/Core/User/Cards.antt =====
-- Cards granted to an identity and levelled up: grantCardToUserLocked, cardUpgradeCost and UpgradeCard of
-- runtime/core/service.go.
use gensoulkyo.Base.{
  ℕ, String, Bool, not, ◌||◌, Option, none, some, ◌==◌, Dict, lookup, insert, value, trim_space,
  eqb, if◌then◌else◌,
}
use gensoulkyo.Base.Int64.{add64, sub64, mul64, lt64, non_positive}
use gensoulkyo.Core.Cards.{in_catalog, dust_value_for_card}
use gensoulkyo.Core.User.{
  User, CardEntry, Reply, done, refused, invalid_request, not_found, forbidden_field,
}

-- maxCopiesPerCard
abbrev pub max_copies_per_card : ℕ
max_copies_per_card = 2

abbrev new_entry : String → ℕ → CardEntry
new_entry card_id now = record { card_id = card_id; copies = 0; level = 1; first_obtained_at = now }

-- user.Inventory[cardID], or a new entry where its id is empty
abbrev pub entry_or_new : Option CardEntry → String → ℕ → CardEntry
entry_or_new none card_id now = new_entry card_id now
entry_or_new (some entry) card_id now = if entry.card_id == "" then new_entry card_id now else entry

-- min(a, b) and max(a, b) of signed integers
abbrev pub min64 : ℕ → ℕ → ℕ
min64 a b = if lt64 b a then b else a

abbrev pub max64 : ℕ → ℕ → ℕ
max64 a b = if lt64 a b then b else a

-- The counts that grantCardToUserLocked returns.
pub record Grant : Type 0 where
  pub accepted : ℕ
  pub overflow : ℕ
  pub dust : ℕ

abbrev nothing : ℕ → Grant
nothing overflow = record { accepted = 0; overflow = overflow; dust = 0 }

-- if dust > 0 { user.Wallet["card_dust"] += dust }
abbrev pub credit_dust : Dict ℕ → ℕ → Dict ℕ
credit_dust wallet dust =
    if lt64 0 dust
    then insert "card_dust" (add64 (value "card_dust" wallet) dust) wallet
    else wallet

-- The entry with the copies that were accepted.
abbrev pub topped_up : CardEntry → ℕ → ℕ → CardEntry
topped_up entry accepted now = record entry {
  copies = add64 entry.copies accepted;
  level = if non_positive entry.level then 1 else entry.level;
  first_obtained_at = if eqb entry.first_obtained_at 0 then now else entry.first_obtained_at;
}

-- grantCardToUserLocked
unfoldable pub grant_card_to_user : User → String → ℕ → ℕ → User × Grant
grant_card_to_user user card_id copies now =
    let entry = entry_or_new (lookup card_id user.inventory) card_id now in
    let accepted = min64 copies (max64 0 (sub64 max_copies_per_card entry.copies)) in
    let overflow = sub64 copies accepted in
    let kept = topped_up entry accepted now in
    let dust = mul64 overflow (dust_value_for_card card_id) in
    if non_positive copies
    then (user, nothing 0)
    else if not (in_catalog card_id)
    then (user, nothing copies)
    else (
      record user {
        inventory = if lt64 0 accepted then insert card_id kept user.inventory else user.inventory;
        wallet = credit_dust user.wallet dust;
      },
      record { accepted = accepted; overflow = overflow; dust = dust },
    )

-- maxCardLevel
abbrev pub max_card_level : ℕ
max_card_level = 5

-- cardUpgradeCost, whose only currency is card_dust
unfoldable pub card_upgrade_cost : String → ℕ → ℕ
card_upgrade_cost card_id target_level =
    let level_step = sub64 target_level 1 in
    mul64 (dust_value_for_card card_id) (if lt64 level_step 1 then 1 else level_step)

-- CardUpgradeRequest
pub record UpgradeRequest : Type 0 where
  pub card_id : String
  pub target_level : ℕ
  pub client_result_authoritative : Bool

-- The cost and the levels of CardUpgradeResponse.
pub record Upgrade : Type 0 where
  pub cost : ℕ
  pub old_level : ℕ
  pub new_level : ℕ

-- UpgradeCard from `entry := user.Inventory[cardID]` on.
unfoldable pub upgrade_entry : User → String → Option CardEntry → ℕ → ℕ → User × Reply Upgrade
upgrade_entry user card_id none target_level now = (user, refused invalid_request)
upgrade_entry user card_id (some entry) target_level now =
    let level = if non_positive entry.level then 1 else entry.level in
    let next = add64 level 1 in
    let target = if non_positive target_level then next else target_level in
    let cost = card_upgrade_cost card_id target in
    let upgraded : CardEntry = record entry {
      level = target;
      first_obtained_at = if eqb entry.first_obtained_at 0 then now else entry.first_obtained_at;
    } in
    if entry.card_id == "" || non_positive entry.copies
    then (user, refused invalid_request)
    else if not (eqb target next)
    then (user, refused invalid_request)
    else if lt64 max_card_level target
    then (user, refused invalid_request)
    else if lt64 (value "card_dust" user.wallet) cost
    then (user, refused invalid_request)
    else (
      record user {
        wallet = insert "card_dust" (sub64 (value "card_dust" user.wallet) cost) user.wallet;
        inventory = insert card_id upgraded user.inventory;
      },
      done (record { cost = cost; old_level = level; new_level = target }),
    )

-- UpgradeCard
unfoldable pub upgrade_card : User → UpgradeRequest → ℕ → User × Reply Upgrade
upgrade_card user req now =
    let card_id = trim_space req.card_id in
    let upgraded =
      upgrade_entry user card_id (lookup card_id user.inventory) req.target_level now in
    if req.client_result_authoritative
    then (user, refused forbidden_field)
    else if card_id == ""
    then (user, refused invalid_request)
    else if not (in_catalog card_id)
    then (user, refused not_found)
    else upgraded
