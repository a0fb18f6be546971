-- ===== src/Core/Tickets/Retired.antt =====
-- What the operations of runtime/core on battle tickets leave alone: a record that is no longer issued,
-- and a ticket id that was never given.
use gensoulkyo.Base.{
  ℕ, suc, ◌≡◌, refl, ◌∙◌, String, true, false, not, ◌&&◌, Option, none, some, List, [], ◌∷◌, ◌==◌,
  eq_iff, lookup, insert, lookup-insert, ltb, leb, if_rule, arith, Option-cases, inl, inr,
}
use gensoulkyo.Core.TicketStore.{
  BattleTicket, TicketRecord, TicketStore, StoreError, stays, is_issued, is_consumed, consume,
  revoke, expire, expired,
}
use gensoulkyo.Core.Tickets.{revoke_all}

abbrev pub ticket_of : Option TicketRecord → Option BattleTicket
ticket_of none = none
ticket_of (some r) = some r.ticket

pub record Retires (store store' : TicketStore) : Type 0 where
  pub kept :
      (id : String) (r : TicketRecord)
      → lookup id store ≡ some r
      → is_issued r.status ≡ false
      → lookup id store' ≡ some r
  pub same : (id : String) → ticket_of (lookup id store') ≡ ticket_of (lookup id store)

pub Retires-refl : (store : TicketStore) → Retires store store
Retires-refl store = record { kept = λ id r h e. h; same = λ id. refl }

pub Retires-trans : (a b c : TicketStore) → Retires a b → Retires b c → Retires a c
Retires-trans a b c first second = record {
  kept = λ id r h e. second.kept id r (first.kept id r h e) e;
  same = λ id. second.same id ∙ first.same id;
}

-- The entry of an issued record is replaced.
replaced-Retires :
    (store : TicketStore) (key : String) (old new : TicketRecord)
    → lookup key store ≡ some old
    → is_issued old.status ≡ true
    → new.ticket ≡ old.ticket
    → Retires store (insert key new store)
replaced-Retires store key old new found live alike = record {
  kept =
      λ id r h e. ground (arith, lookup-insert key id new store, eq_iff key id, found, h, live, e);
  same = λ id. rw (lookup-insert key id new store) (
      if_rule (λ (o : Option TicketRecord). ticket_of o ≡ ticket_of (lookup id store)) (key == id)
        (λ e. let named : key ≡ id = (eq_iff key id).0 e in cc (named, found, alike)) (λ e. refl));
}

pub consume-Retires :
    (store : TicketStore) (id : String) (at : ℕ) → Retires store (consume store id at).0
unfolding consume
consume-Retires store id at = elim (Option-cases (lookup id store)) [
  | inl missing ↦ rw missing (Retires-refl store)
  | inr (r, found) ↦ rw found (
      if_rule (λ (o : TicketStore × Option StoreError). Retires store o.0)
        (not (is_issued r.status)) (λ e. Retires-refl store)
        (λ e. replaced-Retires store id r _ found (ground (arith, e)) refl))
]

pub revoke-Retires :
    (store : TicketStore) (id reason : String) (at : ℕ)
    → Retires store (revoke store id reason at).0
unfolding revoke
revoke-Retires store id reason at = elim (Option-cases (lookup id store)) [
  | inl missing ↦ rw missing (Retires-refl store)
  | inr (r, found) ↦ rw found (
      if_rule (λ (o : TicketStore × Option StoreError). Retires store o.0)
        (not (is_issued r.status)) (λ e. Retires-refl store)
        (λ e. replaced-Retires store id r _ found (ground (arith, e)) refl))
]

pub revoke_all-Retires :
    (records : List TicketRecord) (store : TicketStore) (now : ℕ)
    → Retires store (revoke_all store records now)
unfolding revoke_all
revoke_all-Retires [] store now = Retires-refl store
revoke_all-Retires (r ∷ records) store now =
    let out = revoke store r.ticket.ticket_id "allocation_changed" now in
    let first = revoke-Retires store r.ticket.ticket_id "allocation_changed" now in
    if_rule (Retires store) (is_consumed r.status) (λ e. revoke_all-Retires records store now)
      (λ e. elim (Option-cases out.1) [
        | inl fine ↦
            rw fine (Retires-trans store out.0 _ first (revoke_all-Retires records out.0 now))
        | inr (error, refusal) ↦ rw refusal first
      ])

pub expire-Retires :
    (order : List String) (before limit n : ℕ) (store : TicketStore)
    → Retires store (expire order before limit n store).0
unfolding expire
expire-Retires [] before limit n store = Retires-refl store
expire-Retires (id ∷ order) before limit n store = elim (Option-cases (lookup id store)) [
  | inl missing ↦ rw (missing, expire) (expire-Retires order before limit n store)
  | inr (r, found) ↦
      let new = record r { status = expired; updated_at = before } in
      rw (found, expire)
        (if_rule (λ (o : TicketStore × ℕ). Retires store o.0) (stays r before)
          (λ e. expire-Retires order before limit n store)
          (λ e.
            if_rule (λ (o : TicketStore × ℕ). Retires store o.0) (ltb 0 limit && leb limit n)
              (λ e'. Retires-refl store)
              (λ e'.
                Retires-trans store (insert id new store) _
                  (replaced-Retires store id r new found (ground (arith, e)) refl)
                  (expire-Retires order before limit (suc n) (insert id new store)))))
]
