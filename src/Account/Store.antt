-- ===== src/Account/Store.antt =====
-- The in-process account store: runtime/account/store_memory.go. The maps hold pointers to accounts,
-- all reached through `by_id`, so that a change through one is a change of the entry there.
pub mod Indexes
pub mod Changes
pub mod Calls
pub mod Stale
mod Tests
use gensoulkyo.Base.{
  ℕ, String, Bool, true, false, not, ◌&&◌, Option, none, some, [], ◌==◌, Dict, lookup, insert,
  contains, trim_space, if◌then◌else◌, eqb,
}
use gensoulkyo.Account.Text.{normalize}

-- Times are nanoseconds, 0 for the zero time.
pub record Account : Type 0 where
  pub account_id : String
  pub username : String
  pub email : String
  pub display_name : String
  pub email_verified : Bool
  pub created_at : ℕ
  pub updated_at : ℕ
  pub last_login_at : ℕ
  pub password_hash : String

pub record NewAccount : Type 0 where
  pub account_id : String
  pub username : String
  pub email : String
  pub display_name : String
  pub password_hash : String
  pub email_verified : Bool
  pub created_at : ℕ

pub data StoreError : Type 0 where
  email_taken username_taken account_not_found : StoreError

pub data Outcome {ℓ} (A : Type ℓ) : Type ℓ where
  ok : A → Outcome A
  err : StoreError → Outcome A

pub record MemoryStore : Type 0 where
  pub by_id : Dict Account
  pub by_email : Dict String
  pub by_handle : Dict String

abbrev pub new_store : MemoryStore
new_store = record { by_id = []; by_email = []; by_handle = [] }

-- insertLocked; `clock` is the system's clock, read where the account has no creation time.
unfoldable pub insert_account : MemoryStore → NewAccount → ℕ → MemoryStore × Account
insert_account s a clock =
    let created = if eqb a.created_at 0 then clock else a.created_at in
    let stored : Account = record {
      account_id = a.account_id;
      username = a.username;
      email = a.email;
      display_name = a.display_name;
      email_verified = a.email_verified;
      created_at = created;
      updated_at = created;
      last_login_at = 0;
      password_hash = a.password_hash;
    } in
    (
      record {
        by_id = insert stored.account_id stored s.by_id;
        by_email = insert (normalize stored.email) stored.account_id s.by_email;
        by_handle = insert (normalize stored.username) stored.account_id s.by_handle;
      },
      stored,
    )

-- CreateAccount
unfoldable pub create_account : MemoryStore → NewAccount → ℕ → MemoryStore × Outcome Account
create_account s a clock =
    if contains (normalize a.email) s.by_email
    then (s, err email_taken)
    else if contains (normalize a.username) s.by_handle
    then (s, err username_taken)
    else let (s', stored) = insert_account s a clock in (s', ok stored)

-- Whether the handle belongs to another account.
abbrev taken_by_other : Option String → String → Bool
taken_by_other none id = false
taken_by_other (some owner) id = not (owner == id)

-- The new credentials of an account that is already registered under the e-mail. `none` is the
-- crash on an index that names no account.
abbrev replace_credentials :
    MemoryStore → NewAccount → String → ℕ → Option (MemoryStore × Outcome Account)
replace_credentials s a id clock = elim (lookup id s.by_id) [
  | none ↦ none
  | some stored ↦
      let updated = record stored {
        username = a.username;
        display_name = a.display_name;
        password_hash = a.password_hash;
        email_verified = a.email_verified;
        updated_at = clock;
      } in
      some (
        record s {
          by_id = insert id updated s.by_id;
          by_handle = insert (normalize a.username) id s.by_handle;
        },
        ok updated,
      )
]

-- UpsertAccount
unfoldable pub upsert_account :
    MemoryStore → NewAccount → ℕ → Option (MemoryStore × Outcome Account)
upsert_account s a clock = elim (lookup (normalize a.email) s.by_email) [
  | some id ↦
      let replaced = replace_credentials s a id clock in
      if taken_by_other (lookup (normalize a.username) s.by_handle) id
      then some (s, err username_taken)
      else replaced
  | none ↦
      if contains (normalize a.username) s.by_handle
      then some (s, err username_taken)
      else let (s', stored) = insert_account s a clock in some (s', ok stored)
]

-- cloneAccount of what an index leads to: a missing account is nil, none here.
abbrev through : Dict Account → Option String → Outcome (Option Account)
through by_id none = err account_not_found
through by_id (some id) = ok (lookup id by_id)

unfoldable pub account_by_email : MemoryStore → String → Outcome (Option Account)
account_by_email s email = through s.by_id (lookup (normalize email) s.by_email)

unfoldable pub account_by_username : MemoryStore → String → Outcome (Option Account)
account_by_username s username = through s.by_id (lookup (normalize username) s.by_handle)

unfoldable pub account_by_id : MemoryStore → String → Outcome Account
account_by_id s account_id = elim (lookup (trim_space account_id) s.by_id) [
  | none ↦ err account_not_found
  | some stored ↦ ok stored
]

unfoldable pub touch_login : MemoryStore → String → ℕ → MemoryStore × Outcome (Unit {0})
touch_login s account_id at = elim (lookup (trim_space account_id) s.by_id) [
  | none ↦ (s, err account_not_found)
  | some stored ↦ (
    record s {
      by_id = insert (trim_space account_id) (record stored { last_login_at = at }) s.by_id;
    },
    ok tt,
  )
]
