-- ===== src/Account/Store/Calls.antt =====
-- The calls of the account store (runtime/account/store_memory.go) and the agreement of its indexes.
use gensoulkyo.Base.{
  ℕ, ◌≡◌, refl, String, true, Option, none, some, arith, lookup, insert, lookup-insert_self,
  Bool-cases, Option-cases, ◌⊎◌, inl, inr, ap, contains, trim_space,
}
use gensoulkyo.Account.Text.{normalize, lower_all}
use gensoulkyo.Account.Store.{
  Account, NewAccount, MemoryStore, ok, insert_account, create_account, upsert_account, touch_login,
  account_by_email, account_by_username, account_by_id, taken_by_other,
}
use gensoulkyo.Account.Store.Indexes.{IsIndexed, insert_account-IsIndexed}
use gensoulkyo.Account.Store.Changes.{replace-IsIndexed, retouch-IsIndexed}

pub data Call : Type 0 where
  create : NewAccount → ℕ → Call
  upsert : NewAccount → ℕ → Call
  touch : String → ℕ → Call

-- The store after a call; none is a crash.
unfoldable pub step : MemoryStore → Call → Option MemoryStore
step s (create a clock) = some (create_account s a clock).0
step s (upsert a clock) = elim (upsert_account s a clock) [ none ↦ none | some r ↦ some r.0 ]
step s (touch account_id at) = some (touch_login s account_id at).0

-- The id of a new account is not in use: ids are drawn at random.
abbrev pub HasNewId : MemoryStore → Call → Type 0
HasNewId s (create a clock) = lookup a.account_id s.by_id ≡ none
HasNewId s (upsert a clock) = lookup a.account_id s.by_id ≡ none
HasNewId s (touch account_id at) = Unit

pub create-IsIndexed :
    (s : MemoryStore) (a : NewAccount) (clock : ℕ)
    → IsIndexed s
    → lookup a.account_id s.by_id ≡ none
    → IsIndexed (create_account s a clock).0
unfolding create_account
create-IsIndexed s a clock inv fresh = elim (Option-cases (lookup (normalize a.email) s.by_email)) [
  | inr (id, taken) ↦ rw (taken, create_account) inv
  | inl new_email ↦ elim (Option-cases (lookup (normalize a.username) s.by_handle)) [
    | inr (id, taken) ↦ rw (new_email, taken, create_account) inv
    | inl new_handle ↦
        rw (new_email, new_handle, create_account)
          (insert_account-IsIndexed s a clock inv fresh new_email new_handle)
  ]
]

upsert-IsIndexed :
    (s : MemoryStore) (a : NewAccount) (clock : ℕ)
    → IsIndexed s
    → lookup a.account_id s.by_id ≡ none
    → (s' : MemoryStore) × (step s (upsert a clock) ≡ some s') × IsIndexed s'
unfolding upsert_account step
upsert-IsIndexed s a clock inv fresh =
    let handle = normalize a.username in
    elim (Option-cases (lookup (normalize a.email) s.by_email)) [
      | inl new_email ↦ elim (Option-cases (lookup handle s.by_handle)) [
        | inr (id, taken) ↦ (s, ground (arith, new_email, taken), inv)
        | inl new_handle ↦ (
          (insert_account s a clock).0,
          ground (arith, new_email, new_handle),
          insert_account-IsIndexed s a clock inv fresh new_email new_handle,
        )
      ]
      | inr (id, known) ↦
          let (old, found, at_email) = inv.emails (normalize a.email) id known in
          elim (Bool-cases (taken_by_other (lookup handle s.by_handle) id)) [
            | inl taken ↦ (s, ground (arith, known, taken), inv)
            | inr free ↦
                let new = record old {
                  username = a.username;
                  display_name = a.display_name;
                  password_hash = a.password_hash;
                  email_verified = a.email_verified;
                  updated_at = clock;
                } in
                (
                  record s {
                    by_id = insert id new s.by_id;
                    by_handle = insert handle id s.by_handle;
                  },
                  ground (arith, known, free, found),
                  replace-IsIndexed s id handle old new inv found refl refl refl free,
                )
          ]
    ]

-- Every call on a store with right indexes leaves the indexes right, and an upsert does not crash on
-- an index that names no account, given that the id of a new account is not in use.
pub step-IsIndexed :
    (s : MemoryStore) (call : Call)
    → IsIndexed s
    → HasNewId s call
    → (s' : MemoryStore) × (step s call ≡ some s') × IsIndexed s'
unfolding step touch_login
step-IsIndexed s (create a clock) inv fresh =
    ((create_account s a clock).0, refl, create-IsIndexed s a clock inv fresh)
step-IsIndexed s (upsert a clock) inv fresh = upsert-IsIndexed s a clock inv fresh
step-IsIndexed s (touch account_id at) inv fresh =
    elim (Option-cases (lookup (trim_space account_id) s.by_id)) [
      | inl missing ↦ (s, ground (arith, missing), inv)
      | inr (old, found) ↦
          let new = record old { last_login_at = at } in
          (
            record s { by_id = insert (trim_space account_id) new s.by_id },
            ground (arith, found),
            retouch-IsIndexed s (trim_space account_id) old new inv found refl refl refl,
          )
    ]

-- In a store with right indexes two accounts whose e-mails or whose usernames differ only in case
-- and surrounding space are the same account.
pub identity_unique :
    (s : MemoryStore) (id id' : String) (a b : Account)
    → IsIndexed s
    → lookup id s.by_id ≡ some a
    → lookup id' s.by_id ≡ some b
    → (normalize a.email ≡ normalize b.email) ⊎ (normalize a.username ≡ normalize b.username)
    → id ≡ id'
identity_unique s id id' a b inv at_a at_b same =
    let p = inv.accounts id a at_a in let q = inv.accounts id' b at_b in ground (arith, p, q)

normalize_lem :
    (x y : String) → lower_all (trim_space x) ≡ lower_all (trim_space y) → normalize x ≡ normalize y
unfolding normalize
normalize_lem x y same = same

by_id_lem :
    (s : MemoryStore) (account_id : String) (stored : Account)
    → lookup (trim_space account_id) s.by_id ≡ some stored
    → account_by_id s account_id ≡ ok stored
unfolding account_by_id
by_id_lem s account_id stored found = rw (found, account_by_id) refl

-- A creation either stores an account that is found under its e-mail and its username, in any case
-- and with any surrounding space, and under its id with any surrounding space, or leaves the store as it is because one of the two is in use.
pub create_find :
    (s : MemoryStore) (a : NewAccount) (clock : ℕ) (email username account_id : String)
    → lower_all (trim_space email) ≡ lower_all (trim_space a.email)
    → lower_all (trim_space username) ≡ lower_all (trim_space a.username)
    → trim_space account_id ≡ a.account_id
    → let (s', outcome) = create_account s a clock in
      ((stored : Account) × (outcome ≡ ok stored)
        × (stored.username ≡ a.username)
        × (stored.email ≡ a.email)
        × (account_by_email s' email ≡ ok (some stored))
        × (account_by_username s' username ≡ ok (some stored))
        × (account_by_id s' account_id ≡ ok stored))
      ⊎ ((s' ≡ s)
          × ((contains (normalize a.email) s.by_email ≡ true)
              ⊎ (contains (normalize a.username) s.by_handle ≡ true)))
unfolding create_account insert_account account_by_email account_by_username account_by_id
create_find s a clock email username account_id same_email same_handle same_id =
    elim (Option-cases (lookup (normalize a.email) s.by_email)) [
      | inr (id, taken) ↦ rw (taken) (inr (refl, inl refl))
      | inl new_email ↦ elim (Option-cases (lookup (normalize a.username) s.by_handle)) [
        | inr (id, taken) ↦ rw (new_email, taken) (inr (refl, inr refl))
        | inl new_handle ↦
            let stored = (insert_account s a clock).1 in
            let at_email = normalize_lem email a.email same_email in
            let at_handle = normalize_lem username a.username same_handle in
            rw (new_email, new_handle)
              (inl (
                stored,
                refl,
                refl,
                refl,
                rw (at_email, lookup-insert_self (normalize a.email) a.account_id s.by_email)
                    (ap (λ r. ok r) (lookup-insert_self a.account_id stored s.by_id)),
                rw (at_handle, lookup-insert_self (normalize a.username) a.account_id s.by_handle)
                    (ap (λ r. ok r) (lookup-insert_self a.account_id stored s.by_id)),
                by_id_lem (insert_account s a clock).0 account_id stored
                    (rw same_id (lookup-insert_self a.account_id stored s.by_id)),
              ))
      ]
    ]
