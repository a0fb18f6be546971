-- ===== src/Account/Store/Changes.antt =====
-- The indexes of runtime/account/store_memory.go under a change of one account.
use gensoulkyo.Base.{
  ◌≡◌, String, false, some, arith, ◌==◌, eq_iff, lookup, insert, lookup-insert, lookup-insert_self,
  Bool-cases, inl, inr,
}
use gensoulkyo.Account.Text.{normalize}
use gensoulkyo.Account.Store.{Account, MemoryStore, taken_by_other}
use gensoulkyo.Account.Store.Indexes.{IsIndexed}

-- An account entry replaced by one with the same id and e-mail, under a handle that is its own or
-- new.
module _ (s : MemoryStore) (id handle : String) (old new : Account) (inv : IsIndexed s)
    (found : lookup id s.by_id ≡ some old) (same_id : new.account_id ≡ old.account_id)
    (same_email : new.email ≡ old.email) (named : normalize new.username ≡ handle)
    (free : taken_by_other (lookup handle s.by_handle) id ≡ false) where
  pub replace-IsIndexed :
      IsIndexed
        (record s { by_id = insert id new s.by_id; by_handle = insert handle id s.by_handle })
  replace-IsIndexed =
      let at_old = inv.accounts id old found in
      record {
        emails = λ e k h.
            let (b, at_k, at_e) = inv.emails e k h in
            elim (Bool-cases (id == k)) [
              | inl same ↦
                  let mine : id ≡ k = (eq_iff id k).0 same in
                  (
                    new,
                    ground (arith, lookup-insert id k new s.by_id),
                    ground (arith, same_email, at_e),
                  )
              | inr other ↦ (b, ground (arith, lookup-insert id k new s.by_id), at_e)
            ];
        handles = λ h k at_h. elim (Bool-cases (id == k)) [
          | inl same ↦ (new, ground (arith, lookup-insert id k new s.by_id))
          | inr other ↦
              let (b, at_k) =
                inv.handles h k
                  (ground (arith, lookup-insert handle h id s.by_handle, eq_iff id k)) in
              (b, ground (arith, lookup-insert id k new s.by_id))
        ];
        accounts = λ k b at_k. elim (Bool-cases (id == k)) [
          | inl same ↦
              let mine : id ≡ k = (eq_iff id k).0 same in
              let here : new ≡ b = ground (arith, lookup-insert id k new s.by_id) in
              rw (← here, ← mine)
                (
                  ground (arith, at_old.0, same_id),
                  rw same_email at_old.1,
                  rw named (lookup-insert_self handle id s.by_handle),
                )
          | inr other ↦
              let (at_id, at_email, at_handle) =
                inv.accounts k b (ground (arith, lookup-insert id k new s.by_id)) in
              (
                at_id,
                at_email,
                ground (
                  arith,
                  lookup-insert handle (normalize b.username) id s.by_handle,
                  eq_iff handle (normalize b.username),
                  eq_iff k id,
                  eq_iff id k,
                  at_handle,
                ),
              )
        ];
      }

-- The same with the indexes left alone.
module _ (s : MemoryStore) (id : String) (old new : Account) (inv : IsIndexed s)
    (found : lookup id s.by_id ≡ some old) (same_id : new.account_id ≡ old.account_id)
    (same_email : new.email ≡ old.email) (same_name : new.username ≡ old.username) where
  pub retouch-IsIndexed : IsIndexed (record s { by_id = insert id new s.by_id })
  retouch-IsIndexed =
      let at_old = inv.accounts id old found in
      record {
        emails = λ e k h.
            let (b, at_k, at_e) = inv.emails e k h in
            elim (Bool-cases (id == k)) [
              | inl same ↦
                  let mine : id ≡ k = (eq_iff id k).0 same in
                  (
                    new,
                    ground (arith, lookup-insert id k new s.by_id),
                    ground (arith, same_email, at_e),
                  )
              | inr other ↦ (b, ground (arith, lookup-insert id k new s.by_id), at_e)
            ];
        handles = λ h k at_h.
            let (b, at_k) = inv.handles h k at_h in
            elim (Bool-cases (id == k)) [
              | inl same ↦ (new, ground (arith, lookup-insert id k new s.by_id))
              | inr other ↦ (b, ground (arith, lookup-insert id k new s.by_id))
            ];
        accounts = λ k b at_k. elim (Bool-cases (id == k)) [
          | inl same ↦
              let mine : id ≡ k = (eq_iff id k).0 same in
              let here : new ≡ b = ground (arith, lookup-insert id k new s.by_id) in
              rw (← here, ← mine)
                (ground (arith, at_old.0, same_id), rw same_email at_old.1, rw same_name at_old.2)
          | inr other ↦ inv.accounts k b (ground (arith, lookup-insert id k new s.by_id))
        ];
      }
