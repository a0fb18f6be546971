-- ===== src/Account/Store/Tests.antt =====
-- The theorems on the account store (runtime/account/store_memory.go) at concrete accounts.
use gensoulkyo.Base.{
  ℕ, String, Bool, true, Option, none, some, [], ◌≡◌, refl, ◌⊎◌, inl, inr, lookup, contains, ap,
  subst, or_else, trim_space,
}
use gensoulkyo.Account.Text.{normalize}
use gensoulkyo.Account.Store.{
  Account, NewAccount, MemoryStore, new_store, ok, create_account, upsert_account, account_by_email,
  account_by_username, account_by_id,
}
use gensoulkyo.Account.Store.Indexes.{IsIndexed, new_store-IsIndexed}
use gensoulkyo.Account.Store.Calls.{upsert, create-IsIndexed, step, step-IsIndexed, create_find}
use gensoulkyo.Account.Store.Stale.{stale_handle}

abbrev applicant : String → String → String → NewAccount
applicant id username email = record {
  account_id = id;
  username = username;
  email = email;
  display_name = "Ann";
  password_hash = "h";
  email_verified = true;
  created_at = 7;
}

abbrev ann : NewAccount
ann = applicant "1" "Ann" "ann@example.org"

abbrev one : MemoryStore
one = (create_account new_store ann 3).0

one-IsIndexed : IsIndexed one
unfolding lookup
one-IsIndexed = create-IsIndexed new_store ann 3 new_store-IsIndexed refl

abbrev stored : Account
stored = record {
  account_id = "1";
  username = "Ann";
  email = "ann@example.org";
  display_name = "Ann";
  email_verified = true;
  created_at = 7;
  updated_at = 7;
  last_login_at = 0;
  password_hash = "h";
}

step-IsIndexed_example :
    (s' : MemoryStore) × (step one (upsert (applicant "2" "Bea" "ann@example.org") 9) ≡ some s')
    × IsIndexed s'
unfolding lookup create_account gensoulkyo.Account.Store.insert_account gensoulkyo.Base.insert
step-IsIndexed_example =
    step-IsIndexed one (upsert (applicant "2" "Bea" "ann@example.org") 9) one-IsIndexed refl

abbrev ann_id : String
ann_id = "1"

create_find_example :
    let (s', outcome) = create_account new_store ann 3 in
    ((found : Account) × (outcome ≡ ok found)
      × (found.username ≡ ann.username)
      × (found.email ≡ ann.email)
      × (account_by_email s' " Ann@Example.org" ≡ ok (some found))
      × (account_by_username s' "ANN " ≡ ok (some found))
      × (account_by_id s' " 1" ≡ ok found))
    ⊎ ((s' ≡ new_store)
        × ((contains (normalize ann.email) new_store.by_email ≡ true)
            ⊎ (contains (normalize ann.username) new_store.by_handle ≡ true)))
unfolding trim_space gensoulkyo.Account.Text.lower_all
create_find_example = create_find new_store ann 3 " Ann@Example.org" "ANN " " 1" refl refl refl

stale_handle_example :
    (s' : MemoryStore) × (renamed : Account) × (upsert_account one
        (applicant "2" "Bea" "ann@example.org")
        9
      ≡ some (s', ok renamed))
    × (renamed.username ≡ "Bea")
    × (account_by_username s' "ann" ≡ ok (some renamed))
unfolding lookup create_account gensoulkyo.Account.Store.insert_account gensoulkyo.Base.insert
    normalize
stale_handle_example =
    stale_handle one (applicant "2" "Bea" "ann@example.org") stored "1" "ann" 9 refl refl refl refl
