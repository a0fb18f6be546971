-- ===== src/Core/Tickets/Runs.antt =====
-- Calls on the battle tickets of runtime/core in any order, and the records that stay through them.
use gensoulkyo.Base.{
  ℕ, suc, ◌+◌, ◌≤◌, ◌<◌, ◌≡◌, refl, ap, String, false, some, List, [], ◌∷◌, lookup, eqb,
  if◌then◌else◌, arith, Option-cases, inl, inr, length, trim_space,
}
use gensoulkyo.Core.TicketStore.{VersionStamp, TicketRecord, is_issued, list_by_match}
use gensoulkyo.Core.TicketDeck.{initial_hand_card_ids, battle_ticket_deck_card_ids}
use gensoulkyo.Core.Tickets.{
  live_battle_ticket_for_player, invalidate_battle_tickets, sweep_expired_battle_tickets,
  signed_battle_ticket,
}
use gensoulkyo.Core.TicketConsume.{
  Tickets, ConsumeRequest, Consumption, Answer, Grant, consume_fitting, consume_battle_ticket,
}
use gensoulkyo.Core.Tickets.Retired.{Retires-refl, revoke_all-Retires, expire-Retires}
use gensoulkyo.Core.Tickets.Numbered.{
  Action, ask, ask, redeem, redeem, move, move, sweep, sweep, draw_id, draw_id, IsNumbered, limit,
  Follows, Retires-Follows, unspent_id, issued-Follows, consume_fitting-Retires,
  consume_fitting-next_seq, consume-Comes,
}

pub redeem-Follows :
    (s : Tickets) (req : ConsumeRequest) (now : ℕ)
    → IsNumbered s
    → Follows s (consume_battle_ticket s req now).0
redeem-Follows s req now n = elim (consume-Comes s req now) [
  | inl (e, same) ↦
      rw (ap (λ (o : Tickets × Answer Consumption). o.0) same)
        (Retires-Follows s s (Retires-refl s.store) refl n)
  | inr (r, fits) ↦
      let id = trim_space req.ticket_id in
      rw (ap (λ (o : Tickets × Answer Consumption). o.0) fits.comes) (
        Retires-Follows s (consume_fitting s id r now).0 (consume_fitting-Retires s id r now)
          (consume_fitting-next_seq s id r now) n)
]

module _ (stamp : VersionStamp) (sha256_hex : String → String) where
  unfoldable pub step : Tickets → Action → Tickets
  step s (ask g now) = (signed_battle_ticket stamp sha256_hex s g now).0
  step s (redeem req now) = (consume_battle_ticket s req now).0
  step s (move match_id now) = invalidate_battle_tickets s match_id now
  step s (sweep order now n) = (sweep_expired_battle_tickets s order now n).0
  step s draw_id = record s { next_seq = suc s.next_seq }

  unfoldable pub run : Tickets → List Action → Tickets
  run s [] = s
  run s (a ∷ actions) = run (step s a) actions

  ask-Follows :
      (s : Tickets) (g : Grant) (now : ℕ)
      → IsNumbered s
      → suc s.next_seq < limit
      → Follows s (signed_battle_ticket stamp sha256_hex s g now).0
  unfolding signed_battle_ticket
  ask-Follows s g now n small =
      let cards = battle_ticket_deck_card_ids g.deck (initial_hand_card_ids g.deck) in
      elim (Option-cases (live_battle_ticket_for_player s g.match_id g.user_id now)) [
        | inr (ticket, live) ↦ rw live (Retires-Follows s s (Retires-refl s.store) refl n)
        | inl asked ↦ elim (Option-cases cards) [
          | inl unfit ↦ rw (asked, unfit) (unspent_id s n)
          | inr (deck, fit) ↦ rw (asked, fit) (issued-Follows s _ n small refl)
        ]
      ]

  step-Follows :
      (s : Tickets) (a : Action) → IsNumbered s → suc s.next_seq < limit → Follows s (step s a)
  unfolding step invalidate_battle_tickets sweep_expired_battle_tickets
  step-Follows s (ask g now) n small = ask-Follows s g now n small
  step-Follows s (redeem req now) n small = redeem-Follows s req now n
  step-Follows s (move match_id now) n small =
      Retires-Follows s _ (revoke_all-Retires (list_by_match s.store match_id) s.store now) refl n
  step-Follows s (sweep order now k) n small =
      Retires-Follows s _ (expire-Retires order now (if eqb k 0 then 200 else k) 0 s.store) refl n
  step-Follows s draw_id n small = unspent_id s n

  -- A record that is no longer issued stays as it is, whatever calls follow.
  pub run-kept :
      (actions : List Action) (s : Tickets)
      → IsNumbered s
      → s.next_seq + length actions < limit
      → IsNumbered (run s actions)
        × ((run s actions).next_seq ≤ s.next_seq + length actions)
        × ((id : String) (r : TicketRecord)
            → lookup id s.store ≡ some r
            → is_issued r.status ≡ false
            → lookup id (run s actions).store ≡ some r)
  unfolding run
  run-kept [] s n small = (n, omega arith, λ id r h e. h)
  run-kept (a ∷ actions) s n small =
      let f = step-Follows s a n (omega arith) in
      let (numbered, grows, kept) =
        run-kept actions (step s a) f.numbered (omega (arith, f.grows)) in
      (numbered, omega (arith, grows, f.grows), λ id r h e. kept id r (f.kept id r h e) e)
