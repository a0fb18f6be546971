-- ===== src/Core/Tickets/Spent.antt =====
-- A battle ticket is good for one consumption: ConsumeBattleTicket of runtime/core/service.go.
use gensoulkyo.Base.{
  ℕ, ◌+◌, ◌≤◌, ◌<◌, ◌≡◌, ◌≢◌, refl, sym, ap, ◌∙◌, String, Bool, true, false, not, some, List,
  lookup, insert, lookup-insert_self, ltb, eqb, if_rule, arith, Bool-cases, inl, inr, length,
  trim_space,
}
use gensoulkyo.Core.TicketStore.{
  VersionStamp, TicketRecord, consumed, is_issued, is_consumed, consume,
}
use gensoulkyo.Core.TicketConsume.{
  Tickets, ConsumeRequest, Consumption, Answer, answered, refused, consume_fitting,
  consume_battle_ticket, duplicate_of,
}
use gensoulkyo.Core.Tickets.Runs.{redeem-Follows, run, run-kept}
use gensoulkyo.Core.Tickets.Numbered.{Action, new_tickets, IsNumbered, consume-Comes}

abbrev limit : ℕ
limit = 9223372036854775808

-- The record of a ticket that was consumed.
abbrev pub spent : TicketRecord → ℕ → TicketRecord
spent r now = record r { status = consumed; consumed_at = now; updated_at = now }

abbrev is_new : Answer Consumption → Bool
is_new (answered c) = not c.duplicate
is_new (refused e) = false

not_new :
    (a : Answer Consumption) (c : Consumption)
    → is_new a ≡ false
    → a ≡ answered c
    → c.duplicate ≢ false
not_new a c old h new = cc (ap is_new h, old, new)

-- A first consumption: of an issued ticket, in time, and it is marked.
abbrev First :
    (s : Tickets) (id : String) (r : TicketRecord) (now : ℕ) (out : Tickets × Answer Consumption)
    → Type 0
First s id r now out =
    (c : Consumption)
    → out.1 ≡ answered c
    → c.duplicate ≡ false
    → (is_issued r.status ≡ true)
      × (now ≤ r.ticket.expires_at)
      × (c.ticket ≡ r.ticket)
      × (c.consumed_at ≡ now)
      × (out.0.store ≡ insert id (spent r now) s.store)

fitting-First :
    (s : Tickets) (id : String) (r : TicketRecord) (now : ℕ)
    → lookup id s.store ≡ some r
    → First s id r now (consume_fitting s id r now)
unfolding consume_fitting consume lookup insert
fitting-First s id r now found =
    if_rule (First s id r now) (is_consumed r.status)
      (λ e c h fresh. absurd (not_new (duplicate_of r now) c refl h fresh))
      (λ spent_not.
        if_rule (First s id r now) (ltb r.ticket.expires_at now) (λ e c h fresh. cc)
          (λ early. elim (Bool-cases (is_issued r.status)) [
            | inl live ↦
                rw (found, live)
                  (λ c h fresh.
                    let same : record { ticket = r.ticket; consumed_at = now; duplicate = false }
                        ≡ c =
                      cc h in
                    (
                      refl,
                      ground (arith, early),
                      ap (λ a. a.ticket) (sym same),
                      ap (λ a. a.consumed_at) (sym same),
                      refl,
                    ))
            | inr dead ↦ rw (found, dead, found, spent_not) (λ c h fresh. absurd (cc h))
          ]))

-- A later answer about a ticket that was consumed at `time`: a refusal, or a duplicate of that time.
abbrev pub IsReplay : ℕ → Answer Consumption → Type 0
IsReplay time (refused e) = e ≡ e
IsReplay time (answered c) = (c.duplicate ≡ true) × (c.consumed_at ≡ time)

spent_fitting :
    (s : Tickets) (id : String) (r : TicketRecord) (now later : ℕ)
    → 0 < now
    → consume_fitting s id (spent r now) later
      ≡ (s, answered (record { ticket = r.ticket; consumed_at = now; duplicate = true }))
unfolding consume_fitting
spent_fitting s id r now later some_time =
    let passed : eqb now 0 ≡ false = ground arith in rw passed refl

replay_lem :
    (s : Tickets) (req : ConsumeRequest) (r : TicketRecord) (now later : ℕ)
    → 0 < now
    → lookup (trim_space req.ticket_id) s.store ≡ some (spent r now)
    → IsReplay now (consume_battle_ticket s req later).1
replay_lem s req r now later some_time found = elim (consume-Comes s req later) [
  | inl (e, same) ↦ rw (ap (λ (o : Tickets × Answer Consumption). o.1) same) refl
  | inr (q, fits) ↦
      let same : q ≡ spent r now = cc (fits.found, found) in
      let comes : consume_battle_ticket s req later
          ≡ (s, answered (record { ticket = r.ticket; consumed_at = now; duplicate = true })) =
        fits.comes
        ∙ ap (λ p. consume_fitting s (trim_space req.ticket_id) p later) same
        ∙ spent_fitting s (trim_space req.ticket_id) r now later some_time in
      rw (ap (λ (o : Tickets × Answer Consumption). o.1) comes) (refl, refl)
]

module _ (stamp : VersionStamp) (sha256_hex : String → String) where
  -- A battle ticket is accepted once. After any calls from a new service, whose ids count on from the
  -- second it is started at and stay below 2 ^ 63 through these calls and those in between, draws of
  -- other ids included, a consumption that is answered and is no duplicate is of a ticket that was issued
  -- and has not expired; and whatever calls follow, every later request for the ticket is
  -- refused, or answered as a duplicate with the time of that consumption.
  pub consumed_once :
      (started : ℕ) (earlier between : List Action) (first second : ConsumeRequest) (now later : ℕ)
      (c : Consumption)
      → started + length earlier + length between + 1 < limit
      → 0 < now
      → trim_space second.ticket_id ≡ trim_space first.ticket_id
      → let s = run stamp sha256_hex (new_tickets started) earlier in
        (consume_battle_ticket s first now).1 ≡ answered c
        → c.duplicate ≡ false
        → ((r : TicketRecord) × (lookup (trim_space first.ticket_id) s.store ≡ some r)
            × (is_issued r.status ≡ true)
            × (now ≤ r.ticket.expires_at)
            × (c.ticket ≡ r.ticket)
            × (c.consumed_at ≡ now))
          × IsReplay now
              (consume_battle_ticket
                (run stamp sha256_hex (consume_battle_ticket s first now).0 between)
                second
                later).1
  unfolding lookup
  consumed_once started earlier between first second now later c few some_time same_id ok new =
      let id = trim_space first.ticket_id in
      let start : IsNumbered (new_tickets started) = record {
        own = λ id r h. absurd (cc h);
        given = λ id r h. absurd (cc h);
      } in
      let (numbered, grown, _) =
        run-kept stamp sha256_hex earlier (new_tickets started) start (omega arith) in
      let s = run stamp sha256_hex (new_tickets started) earlier in
      let f = redeem-Follows s first now numbered in
      elim (consume-Comes s first now) [
        | inl (e, refusal) ↦
            absurd (cc (ap (λ (o : Tickets × Answer Consumption). o.1) refusal, ok))
        | inr (r, fits) ↦
            let (live, early, ticket, time, marked) =
              fitting-First s id r now fits.found c
                (sym (ap (λ (o : Tickets × Answer Consumption). o.1) fits.comes) ∙ ok) new in
            let s' = (consume_battle_ticket s first now).0 in
            let there : lookup id s'.store ≡ some (spent r now) =
              ap (λ (o : Tickets × Answer Consumption). lookup id o.0.store) fits.comes
              ∙ ap (lookup id) marked
              ∙ lookup-insert_self id (spent r now) s.store in
            let (_, _, kept) =
              run-kept stamp sha256_hex between s' f.numbered (omega (arith, f.grows, grown)) in
            (
              (r, fits.found, live, early, ticket, time),
              replay_lem (run stamp sha256_hex s' between) second r now later some_time
                  (rw same_id (kept id (spent r now) there refl)),
            )
      ]
