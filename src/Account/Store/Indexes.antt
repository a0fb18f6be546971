-- ===== src/Account/Store/Indexes.antt =====
-- The two indexes of the account store (runtime/account/store_memory.go) and its lookups.
use gensoulkyo.Base.{
  ℕ, ◌≡◌, refl, String, none, some, arith, ◌==◌, eq_iff, lookup, lookup-insert, lookup-insert_self,
  lookup-insert_fresh, Bool-cases, inl, inr,
}
use gensoulkyo.Account.Text.{normalize}
use gensoulkyo.Account.Store.{Account, NewAccount, MemoryStore, new_store, insert_account}

-- Both indexes lead to accounts, the e-mail index to the account with that e-mail, and every account
-- is found under its id, its e-mail and its username.
pub record IsIndexed (s : MemoryStore) : Type 0 where
  pub emails :
      (e id : String)
      → lookup e s.by_email ≡ some id
      → (a : Account) × (lookup id s.by_id ≡ some a) × (normalize a.email ≡ e)
  pub handles :
      (h id : String)
      → lookup h s.by_handle ≡ some id
      → (a : Account) × (lookup id s.by_id ≡ some a)
  pub accounts :
      (id : String) (a : Account)
      → lookup id s.by_id ≡ some a
      → (a.account_id ≡ id)
        × (lookup (normalize a.email) s.by_email ≡ some id)
        × (lookup (normalize a.username) s.by_handle ≡ some id)

pub new_store-IsIndexed : IsIndexed new_store
unfolding lookup
new_store-IsIndexed = record {
  emails = λ e id h. cc;
  handles = λ e id h. cc;
  accounts = λ id a h. cc;
}

module _ (s : MemoryStore) (a : NewAccount) (clock : ℕ) (inv : IsIndexed s)
    (new_id : lookup a.account_id s.by_id ≡ none)
    (new_email : lookup (normalize a.email) s.by_email ≡ none)
    (new_handle : lookup (normalize a.username) s.by_handle ≡ none) where
  pub insert_account-IsIndexed : IsIndexed (insert_account s a clock).0
  unfolding insert_account
  insert_account-IsIndexed =
      let stored = (insert_account s a clock).1 in
      let id' = a.account_id in
      let own = lookup-insert_self id' stored s.by_id in
      record {
        emails = λ e id h. elim (Bool-cases (normalize a.email == e)) [
          | inl same ↦
              let mine : id' ≡ id =
                ground (arith, lookup-insert (normalize a.email) e id' s.by_email) in
              (stored, rw (← mine) own, (eq_iff (normalize a.email) e).0 same)
          | inr other ↦
              let (b, found, at_e) =
                inv.emails e id
                  (ground (arith, lookup-insert (normalize a.email) e id' s.by_email)) in
              (b, lookup-insert_fresh id' id b stored s.by_id new_id found, at_e)
        ];
        handles = λ e id h. elim (Bool-cases (normalize a.username == e)) [
          | inl same ↦
              let mine : id' ≡ id =
                ground (arith, lookup-insert (normalize a.username) e id' s.by_handle) in
              (stored, rw (← mine) own)
          | inr other ↦
              let (b, found) =
                inv.handles e id
                  (ground (arith, lookup-insert (normalize a.username) e id' s.by_handle)) in
              (b, lookup-insert_fresh id' id b stored s.by_id new_id found)
        ];
        accounts = λ id b h. elim (Bool-cases (id' == id)) [
          | inl same ↦
              let here : stored ≡ b = ground (arith, lookup-insert id' id stored s.by_id) in
              let mine : id' ≡ id = (eq_iff id' id).0 same in
              rw (← here, ← mine)
                (
                  refl,
                  lookup-insert_self (normalize a.email) id' s.by_email,
                  lookup-insert_self (normalize a.username) id' s.by_handle,
                )
          | inr other ↦
              let (at_id, at_email, at_handle) =
                inv.accounts id b (ground (arith, lookup-insert id' id stored s.by_id)) in
              (
                at_id,
                lookup-insert_fresh (normalize a.email) (normalize b.email) id id' s.by_email
                    new_email at_email,
                lookup-insert_fresh (normalize a.username) (normalize b.username) id id' s.by_handle
                    new_handle at_handle,
              )
        ];
      }
