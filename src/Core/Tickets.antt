-- ===== src/Core/Tickets.antt =====
-- Battle tickets: signedBattleTicketLocked, BattleTicket's look-up and ConsumeBattleTicket of
-- runtime/core/service.go, the retirement of tickets of runtime/core/lobby_bridge.go and the sweep of
-- runtime/core/service_stores.go. The version stamp of the protocol package and SHA-256 are
-- parameters, what a ticket takes from its match, player and allocation is an argument, and Ed25519
-- signatures and audit rows are left out. Time is in nanoseconds.
pub mod Retired
pub mod Numbered
pub mod Runs
pub mod Spent
use Prim.Native.String.{slice}
use gensoulkyo.Base.{
  ℕ, suc, ◌+◌, String, str_append, decimal, padded, Bool, true, false, not, ◌&&◌, ◌||◌, Option,
  none, some, List, [], ◌∷◌, ◌==◌, Dict, lookup, trim_space, ltb, leb, eqb, if◌then◌else◌,
}
use gensoulkyo.Core.TicketDeck.{initial_hand_card_ids, battle_ticket_deck_card_ids}
use gensoulkyo.Core.TicketStore.{
  VersionStamp, BattleTicket, TicketRecord, TicketStatus, issued, TicketStore, StoreError,
  is_issued, is_consumed, ticket_not_issued, issue, consume, revoke, expire, list_by_match,
}
use gensoulkyo.Core.TicketConsume.{
  Tickets, invalid_deck, Answer, answered, answered, refused, refused, Grant, ticket_ttl,
}

-- The loop of liveBattleTicketForPlayerLocked
unfoldable pub live_among : String → ℕ → List TicketRecord → Option BattleTicket
live_among user_id now [] = none
live_among user_id now (r ∷ records) =
    let rest = live_among user_id now records in
    if not (r.ticket.user_id == user_id)
    then rest
    else if not (is_issued r.status)
    then rest
    else if not (ltb now r.ticket.expires_at)
    then rest
    else some r.ticket

-- liveBattleTicketForPlayerLocked
unfoldable pub live_battle_ticket_for_player : Tickets → String → String → ℕ → Option BattleTicket
live_battle_ticket_for_player s match_id user_id now =
    live_among user_id now (list_by_match s.store match_id)

-- nextIDLocked for a battle ticket
unfoldable pub battle_ticket_id : ℕ → String
battle_ticket_id seq = str_append "battle_ticket_" (padded 6 seq)

-- The loop of invalidateBattleTicketsLocked
unfoldable pub revoke_all : TicketStore → List TicketRecord → ℕ → TicketStore
revoke_all store [] now = store
revoke_all store (r ∷ records) now =
    let (next, e) = revoke store r.ticket.ticket_id "allocation_changed" now in
    let rest = revoke_all next records now in
    let same = revoke_all store records now in
    if is_consumed r.status then same else elim e [ none ↦ rest | some error ↦ next ]

-- invalidateBattleTicketsLocked
unfoldable pub invalidate_battle_tickets : Tickets → String → ℕ → Tickets
invalidate_battle_tickets s match_id now = record s {
  store = revoke_all s.store (list_by_match s.store match_id) now;
}

-- sweepExpiredBattleTicketsLocked, at a time that is not zero; the map of tickets is gone through in
-- any order
unfoldable pub sweep_expired_battle_tickets : Tickets → List String → ℕ → ℕ → Tickets × ℕ
sweep_expired_battle_tickets s order now limit =
    let (store, n) = expire order now (if eqb limit 0 then 200 else limit) 0 s.store in
    (record s { store = store }, n)

module _ (stamp : VersionStamp) (sha256_hex : String → String) where
  -- battleTicketNonceHex
  unfoldable pub battle_ticket_nonce_hex : String → String → String → ℕ → String → String
  battle_ticket_nonce_hex ticket_id match_id user_id at session_token =
      slice
        (sha256_hex (
          str_append ticket_id (
            str_append ":" (
              str_append match_id (
                str_append ":" (
                  str_append user_id
                    (str_append ":" (str_append (decimal at) (str_append ":" session_token)))))))))
        0 32

  abbrev new_ticket : ℕ → Grant → List String → ℕ → TicketRecord
  new_ticket seq g cards now = record {
    ticket = record {
      version = stamp;
      ticket_id = battle_ticket_id seq;
      match_id = g.match_id;
      user_id = g.user_id;
      player_id = g.player_id;
      battle_server_id = g.battle_server_id;
      mode_config_hash = g.mode_config_hash;
      ruleset_version = g.ruleset_version;
      ticket_nonce_hex =
          battle_ticket_nonce_hex (battle_ticket_id seq) g.match_id g.user_id now g.session_token;
      issued_at = now;
      expires_at = now + ticket_ttl;
      hand_card_ids = initial_hand_card_ids g.deck;
      deck_card_ids = cards;
    };
    status = issued;
    reject_reason = "";
    consumed_at = 0;
    updated_at = now;
  }

  abbrev with_cards : Tickets → Grant → ℕ → Option (List String) → Tickets × Answer BattleTicket
  with_cards s g now none = (s, refused invalid_deck)
  with_cards s g now (some cards) =
      let r = new_ticket s.next_seq g cards now in
      (record s { store = issue s.store r }, answered r.ticket)

  abbrev reissued : Tickets → Grant → ℕ → Option BattleTicket → Tickets × Answer BattleTicket
  reissued s g now (some ticket) = (s, answered ticket)
  reissued s g now none =
      with_cards (record s { next_seq = suc s.next_seq }) g now
        (battle_ticket_deck_card_ids g.deck (initial_hand_card_ids g.deck))

  -- signedBattleTicketLocked, for a player who is in the match and has an allocation
  unfoldable pub signed_battle_ticket : Tickets → Grant → ℕ → Tickets × Answer BattleTicket
  signed_battle_ticket s g now =
      reissued s g now (live_battle_ticket_for_player s g.match_id g.user_id now)
