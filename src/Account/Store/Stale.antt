-- ===== src/Account/Store/Stale.antt =====
-- What UpsertAccount (runtime/account/store_memory.go) leaves behind under an old username.
use gensoulkyo.Base.{
  ℕ, String, ◌≡◌, refl, ◌≢◌, none, some, arith, lookup, insert, lookup-insert_self,
  lookup-insert_ne, ap,
}
use gensoulkyo.Account.Text.{normalize}
use gensoulkyo.Account.Store.{
  Account, NewAccount, MemoryStore, ok, upsert_account, account_by_username,
}

-- An upsert that renames a registered account, under a username that is unused, keeps the old
-- username in the index: it leads to the account under its new name.
pub stale_handle :
    (s : MemoryStore) (a : NewAccount) (old : Account) (id handle : String) (clock : ℕ)
    → lookup (normalize a.email) s.by_email ≡ some id
    → lookup id s.by_id ≡ some old
    → lookup (normalize handle) s.by_handle ≡ some id
    → lookup (normalize a.username) s.by_handle ≡ none
    → (s' : MemoryStore) × (renamed : Account) × (upsert_account s a clock ≡ some (s', ok renamed))
      × (renamed.username ≡ a.username)
      × (account_by_username s' handle ≡ ok (some renamed))
unfolding upsert_account account_by_username
stale_handle s a old id handle clock known found named free =
    let new = record old {
      username = a.username;
      display_name = a.display_name;
      password_hash = a.password_hash;
      email_verified = a.email_verified;
      updated_at = clock;
    } in
    let other : normalize a.username ≢ normalize handle = ground (arith, free, named) in
    (
      record s {
        by_id = insert id new s.by_id;
        by_handle = insert (normalize a.username) id s.by_handle;
      },
      new,
      ground (arith, known, free, found),
      refl,
      rw (lookup-insert_ne (normalize a.username) (normalize handle) id s.by_handle other, named)
          (ap (λ r. ok r) (lookup-insert_self id new s.by_id)),
    )
