-- ===== src/Core/TicketTests.antt =====
-- Runs of the battle tickets and the personal records of runtime/core.
use gensoulkyo.Base.{
  ℕ, ◌+◌, ◌≤◌, ◌<◌, ◌≡◌, refl, arith, String, true, false, some, List, [], ◌∷◌, lookup, trim_space,
}
use gensoulkyo.Core.TicketStore.{VersionStamp, TicketRecord, is_issued}
use gensoulkyo.Core.TicketConsume.{ConsumeRequest, Consumption, Grant, consume_battle_ticket}
use gensoulkyo.Core.Tickets.Runs.{run}
use gensoulkyo.Core.Tickets.Numbered.{ask, move, new_tickets}
use gensoulkyo.Core.Tickets.Spent.{IsReplay, consumed_once}
use gensoulkyo.Core.Records.{Entry}
use gensoulkyo.Core.Records.History.{Tells, recorded, recorded-Tells}

abbrev stamp : VersionStamp
stamp = record {
  protocol_version = 1;
  business_api_version = "b1";
  battle_api_version = "a1";
  ruleset_version = "r1";
}

abbrev digest : String → String
digest text = "9f86d081884c7d659a2feaa0c55ad015"

abbrev grant : Grant
grant = record {
  match_id = "m";
  user_id = "ann";
  player_id = "p1";
  battle_server_id = "one";
  mode_config_hash = "";
  ruleset_version = "r1";
  session_token = "t";
  deck = "focus_lens" ∷ "last_arc" ∷ [];
}

abbrev request : ConsumeRequest
request = record {
  version = stamp;
  ticket_id = "battle_ticket_1700000001";
  match_id = "m";
  user_id = "";
  player_id = "p1";
  battle_server_id = "one";
  mode_config_hash = "";
  ticket_nonce_hex = "9f86d081884c7d659a2feaa0c55ad015";
}

abbrev first : Consumption
first = record {
  ticket = record {
    version = stamp;
    ticket_id = "battle_ticket_1700000001";
    match_id = "m";
    user_id = "ann";
    player_id = "p1";
    battle_server_id = "one";
    mode_config_hash = "";
    ruleset_version = "r1";
    ticket_nonce_hex = "9f86d081884c7d659a2feaa0c55ad015";
    issued_at = 5;
    expires_at = 60000000005;
    hand_card_ids = "focus_lens" ∷ "last_arc" ∷ [];
    deck_card_ids = "focus_lens" ∷ "last_arc" ∷ [];
  };
  consumed_at = 7;
  duplicate = false;
}

consumed_once_example :
    let s = run stamp digest (new_tickets 1700000000) (ask grant 5 ∷ []) in
    ((r : TicketRecord) × (lookup (trim_space request.ticket_id) s.store ≡ some r)
      × (is_issued r.status ≡ true)
      × (7 ≤ r.ticket.expires_at)
      × (first.ticket ≡ r.ticket)
      × (first.consumed_at ≡ 7))
    × IsReplay 7
        (consume_battle_ticket
          (run stamp digest (consume_battle_ticket s request 7).0 (move "m" 8 ∷ []))
          request
          9).1
unfolding consume_battle_ticket trim_space lookup run gensoulkyo.Core.Tickets.Runs.step
    gensoulkyo.Core.Cards.in_catalog gensoulkyo.Base.insert gensoulkyo.Base.decimal
    gensoulkyo.Base.padded gensoulkyo.Core.TicketConsume.consume_record
    gensoulkyo.Core.Tickets.signed_battle_ticket
    gensoulkyo.Core.Tickets.live_battle_ticket_for_player gensoulkyo.Core.Tickets.live_among
    gensoulkyo.Core.Tickets.battle_ticket_id gensoulkyo.Core.Tickets.battle_ticket_nonce_hex
    gensoulkyo.Core.TicketConsume.check_ticket gensoulkyo.Core.TicketConsume.consume_fitting
    gensoulkyo.Core.TicketConsume.validate_consume_version
    gensoulkyo.Core.TicketDeck.battle_ticket_deck_card_ids gensoulkyo.Core.TicketDeck.resolved_cards
    gensoulkyo.Core.TicketDeck.is_prefix gensoulkyo.Core.TicketDeck.initial_hand_card_ids
    gensoulkyo.Core.TicketDeck.catalog_cards gensoulkyo.Core.TicketDeck.initial_hand
    gensoulkyo.Core.TicketStore.list_by_match gensoulkyo.Core.TicketStore.consume
    gensoulkyo.Core.TicketStore.issue
consumed_once_example =
    consumed_once stamp digest 1700000000 (ask grant 5 ∷ []) (move "m" 8 ∷ []) request request 7 9
      first (omega arith) (omega arith) refl refl refl

abbrev entry : String → ℕ → Entry
entry result score = record {
  match_id = "m";
  result = result;
  score = score;
  graze_count = 1;
  hit_count = 2;
  damage_dealt = 3;
  card_plays = 4;
}

recorded-Tells_example :
    Tells (entry "win" 7 ∷ entry "draw" 9 ∷ []) (recorded (entry "win" 7 ∷ entry "draw" 9 ∷ []))
recorded-Tells_example =
    recorded-Tells (entry "win" 7 ∷ entry "draw" 9 ∷ []) (omega arith, (omega arith, tt))
