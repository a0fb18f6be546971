-- ===== src/Core/Tickets/Numbered.antt =====
-- The ids of battle tickets of runtime/core, each given once, and what a request of a consumption comes to.
use gensoulkyo.Base.{
  ℕ, suc, ◌≤◌, ◌<◌, ◌≡◌, refl, sym, ap, ◌∙◌, String, false, ◌||◌, none, some, [], ◌==◌, lookup,
  List, insert-cases, lookup-insert_ne, ltb, if_rule, arith, Bool-cases, Option-cases, ◌⊎◌, inl,
  inr, trim_space, padded-injective, append_cancel_left,
}
use gensoulkyo.Core.TicketStore.{TicketRecord, is_issued, is_consumed, issue, kept_consumed_at}
use gensoulkyo.Core.Tickets.{battle_ticket_id}
use gensoulkyo.Core.TicketConsume.{
  Tickets, ConsumeRequest, Consumption, Answer, refused, Grant, TicketError, not_found,
  invalid_request, validate_consume_version, check_ticket, consume_fitting, consume_record,
  consume_battle_ticket,
}
use gensoulkyo.Core.Tickets.Retired.{Retires, Retires-refl, consume-Retires}

-- A call: a ticket is asked for or consumed, the endpoint of a match moves, the tickets past their
-- time are swept, or an id of another kind is drawn from the same counter.
pub data Action : Type 0 where
  ask : Grant → ℕ → Action
  redeem : ConsumeRequest → ℕ → Action
  move : String → ℕ → Action
  sweep : List String → ℕ → ℕ → Action
  draw_id : Action

-- NewService, started at a time in seconds, from which the ids count.
abbrev pub new_tickets : ℕ → Tickets
new_tickets started = record { store = []; next_seq = started }

-- Every id is one that was given, and stands with its own ticket.
pub record IsNumbered (s : Tickets) : Type 0 where
  pub own : (id : String) (r : TicketRecord) → lookup id s.store ≡ some r → r.ticket.ticket_id ≡ id
  pub given :
      (id : String) (r : TicketRecord)
      → lookup id s.store ≡ some r
      → (k : ℕ) × (k ≤ s.next_seq) × (id ≡ battle_ticket_id k)

abbrev pub limit : ℕ
limit = 9223372036854775808

battle_ticket_id-injective :
    (j k : ℕ) → j < limit → k < limit → battle_ticket_id j ≡ battle_ticket_id k → j ≡ k
unfolding battle_ticket_id
battle_ticket_id-injective j k small small' h =
    padded-injective 6 j k small small' (append_cancel_left "battle_ticket_" _ _ h)

new_id :
    (s : Tickets)
    → IsNumbered s
    → suc s.next_seq < limit
    → lookup (battle_ticket_id (suc s.next_seq)) s.store ≡ none
new_id s n small = elim (Option-cases (lookup (battle_ticket_id (suc s.next_seq)) s.store)) [
  | inl missing ↦ missing
  | inr (r, found) ↦
      let (k, below, same) = n.given (battle_ticket_id (suc s.next_seq)) r found in
      absurd (
        omega (
          arith,
          battle_ticket_id-injective (suc s.next_seq) k small (omega (arith, below, small)) same,
          below,
        ))
]

-- The parts of two services after a call that gives no id.
Retires-IsNumbered :
    (s s' : Tickets)
    → Retires s.store s'.store
    → s'.next_seq ≡ s.next_seq
    → IsNumbered s
    → IsNumbered s'
Retires-IsNumbered s s' t same n = record {
  own = λ id r h. elim (Option-cases (lookup id s.store)) [
    | inl missing ↦ absurd (cc (t.same id, h, missing))
    | inr (q, found) ↦
        let alike : r.ticket ≡ q.ticket = cc (t.same id, h, found) in
        ap (λ ticket. ticket.ticket_id) alike ∙ n.own id q found
  ];
  given = λ id r h. elim (Option-cases (lookup id s.store)) [
    | inl missing ↦ absurd (cc (t.same id, h, missing))
    | inr (q, found) ↦ let (k, below, name) = n.given id q found in (k, rw same below, name)
  ];
}

-- What a call leaves: the numbering, the records that are no longer issued, and a next_seq that has
-- grown by one at most.
pub record Follows (s s' : Tickets) : Type 0 where
  pub numbered : IsNumbered s'
  pub kept :
      (id : String) (r : TicketRecord)
      → lookup id s.store ≡ some r
      → is_issued r.status ≡ false
      → lookup id s'.store ≡ some r
  pub grows : s'.next_seq ≤ suc s.next_seq

pub Retires-Follows :
    (s s' : Tickets)
    → Retires s.store s'.store
    → s'.next_seq ≡ s.next_seq
    → IsNumbered s
    → Follows s s'
Retires-Follows s s' t same n = record {
  numbered = Retires-IsNumbered s s' t same n;
  kept = t.kept;
  grows = rw same (omega arith);
}

pub unspent_id : (s : Tickets) → IsNumbered s → Follows s (record s { next_seq = suc s.next_seq })
unspent_id s n = record {
  numbered = record {
    own = n.own;
    given = λ id r h. let (k, below, name) = n.given id r h in (k, omega (arith, below), name);
  };
  kept = λ id r h e. h;
  grows = omega arith;
}

abbrev stored : Tickets → TicketRecord → TicketRecord
stored s r = record r {
  consumed_at = kept_consumed_at (lookup r.ticket.ticket_id s.store) r.consumed_at;
}

pub issued-Follows :
    (s : Tickets) (r : TicketRecord)
    → IsNumbered s
    → suc s.next_seq < limit
    → r.ticket.ticket_id ≡ battle_ticket_id (suc s.next_seq)
    → Follows s (record { store = issue s.store r; next_seq = suc s.next_seq })
unfolding issue
issued-Follows s r n small named =
    let key = r.ticket.ticket_id in
    let unused : lookup key s.store ≡ none = rw named (new_id s n small) in
    record {
      numbered = record {
        own = λ id q h. elim (insert-cases key id (stored s r) q s.store h) [
          | inl (e, alike) ↦ cc (e, alike)
          | inr found ↦ n.own id q found
        ];
        given = λ id q h. elim (insert-cases key id (stored s r) q s.store h) [
          | inl (e, alike) ↦ (suc s.next_seq, omega arith, sym e ∙ named)
          | inr found ↦ let (k, below, name) = n.given id q found in (k, omega (arith, below), name)
        ];
      };
      kept =
          λ id q h e. lookup-insert_ne key id (stored s r) s.store (λ e'. cc (e', unused, h)) ∙ h;
      grows = omega arith;
    }

pub consume_fitting-Retires :
    (s : Tickets) (id : String) (r : TicketRecord) (now : ℕ)
    → Retires s.store (consume_fitting s id r now).0.store
unfolding consume_fitting
consume_fitting-Retires s id r now =
    if_rule (λ (o : Tickets × Answer Consumption). Retires s.store o.0.store) (is_consumed r.status)
      (λ e. Retires-refl s.store)
      (λ e.
        if_rule (λ (o : Tickets × Answer Consumption). Retires s.store o.0.store)
          (ltb r.ticket.expires_at now) (λ e'. Retires-refl s.store)
          (λ e'. consume-Retires s.store id now))

pub consume_fitting-next_seq :
    (s : Tickets) (id : String) (r : TicketRecord) (now : ℕ)
    → (consume_fitting s id r now).0.next_seq ≡ s.next_seq
unfolding consume_fitting
consume_fitting-next_seq s id r now =
    if_rule (λ (o : Tickets × Answer Consumption). o.0.next_seq ≡ s.next_seq) (is_consumed r.status)
      (λ e. refl)
      (λ e.
        if_rule (λ (o : Tickets × Answer Consumption). o.0.next_seq ≡ s.next_seq)
          (ltb r.ticket.expires_at now) (λ e'. refl) (λ e'. refl))

-- A request that is refused by a check, or one that fits the ticket of its id.
pub record Fits (s : Tickets) (req : ConsumeRequest) (now : ℕ) (r : TicketRecord) : Type 0 where
  pub found : lookup (trim_space req.ticket_id) s.store ≡ some r
  pub known : validate_consume_version req.version r.ticket ≡ none
  pub meant : check_ticket req r.ticket ≡ none
  pub comes : consume_battle_ticket s req now ≡ consume_fitting s (trim_space req.ticket_id) r now

abbrev pub Comes : Tickets → ConsumeRequest → ℕ → Type 0
Comes s req now =
    ((e : TicketError) × (consume_battle_ticket s req now ≡ (s, refused e)))
    ⊎ ((r : TicketRecord) × Fits s req now r)

pub consume-Comes : (s : Tickets) (req : ConsumeRequest) (now : ℕ) → Comes s req now
unfolding consume_battle_ticket consume_record
consume-Comes s req now =
    let id = trim_space req.ticket_id in
    let blank =
      id == ""
      || trim_space req.match_id == ""
      || trim_space req.battle_server_id == ""
      || trim_space req.ticket_nonce_hex == "" in
    elim (Bool-cases blank) [
      | inl unnamed ↦ inl (invalid_request, rw unnamed refl)
      | inr named ↦ elim (Option-cases (lookup id s.store)) [
        | inl missing ↦ inl (not_found, rw (named, missing) refl)
        | inr (r, found) ↦ elim (Option-cases (validate_consume_version req.version r.ticket)) [
          | inl known ↦ elim (Option-cases (check_ticket req r.ticket)) [
            | inl meant ↦ inr (
              r,
              record {
                found = found;
                known = known;
                meant = meant;
                comes = rw (named, found, consume_record, known, meant) refl;
              },
            )
            | inr (e, refusal) ↦ inl (e, rw (named, found, consume_record, known, refusal) refl)
          ]
          | inr (e, refusal) ↦ inl (e, rw (named, found, consume_record, refusal) refl)
        ]
      ]
    ]
