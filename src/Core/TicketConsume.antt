-- ===== src/Core/TicketConsume.antt =====
-- The consumption of a battle ticket: ConsumeBattleTicket of runtime/core/service.go. Audit rows are left
-- out.
use gensoulkyo.Base.{
  ℕ, String, Bool, true, false, not, ◌&&◌, ◌||◌, Option, none, some, List, ◌==◌, lookup, trim_space,
  ltb, eqb, if◌then◌else◌,
}
use gensoulkyo.Core.TicketStore.{
  VersionStamp, BattleTicket, TicketRecord, TicketStore, StoreError, is_consumed, ticket_not_issued,
  consume,
}

-- The service: its durable tickets and nextSeq.
pub record Tickets : Type 0 where
  pub store : TicketStore
  pub next_seq : ℕ

-- BattleTicketConsumeRequest
pub record ConsumeRequest : Type 0 where
  pub version : VersionStamp
  pub ticket_id : String
  pub match_id : String
  pub user_id : String
  pub player_id : String
  pub battle_server_id : String
  pub mode_config_hash : String
  pub ticket_nonce_hex : String

pub data TicketError : Type 0 where
  invalid_request not_found battle_server unauthorized match_state invalid_deck : TicketError
  store_refused : StoreError → TicketError

-- BattleTicketConsumeResponse
pub record Consumption : Type 0 where
  pub ticket : BattleTicket
  pub consumed_at : ℕ
  pub duplicate : Bool

pub data Answer {ℓ} (A : Type ℓ) : Type ℓ where
  answered : A → Answer A
  refused : TicketError → Answer A

-- What a ticket takes from the match, the player and the allocation.
pub record Grant : Type 0 where
  pub match_id : String
  pub user_id : String
  pub player_id : String
  pub battle_server_id : String
  pub mode_config_hash : String
  pub ruleset_version : String
  pub session_token : String
  pub deck : List String

-- 60 s
abbrev pub ticket_ttl : ℕ
ticket_ttl = 60000000000

-- validateBattleTicketConsumeVersion
unfoldable pub validate_consume_version : VersionStamp → BattleTicket → Option TicketError
validate_consume_version v ticket =
    if eqb v.protocol_version 0 || not (eqb v.protocol_version ticket.version.protocol_version)
    then some invalid_request
    else if trim_space v.business_api_version == ""
        || not (v.business_api_version == ticket.version.business_api_version)
    then some invalid_request
    else if trim_space v.battle_api_version == ""
        || not (v.battle_api_version == ticket.version.battle_api_version)
    then some invalid_request
    else if trim_space v.ruleset_version == "" || not (v.ruleset_version == ticket.ruleset_version)
    then some invalid_request
    else none

-- The checks of ConsumeBattleTicket against the ticket, after its version.
unfoldable pub check_ticket : ConsumeRequest → BattleTicket → Option TicketError
check_ticket req ticket =
    if not (ticket.match_id == trim_space req.match_id)
    then some invalid_request
    else if not (ticket.battle_server_id == trim_space req.battle_server_id)
    then some battle_server
    else if not (ticket.mode_config_hash == "") && trim_space req.mode_config_hash == ""
    then some invalid_request
    else if not (trim_space req.mode_config_hash == ticket.mode_config_hash)
    then some invalid_request
    else if not (ticket.ticket_nonce_hex == trim_space req.ticket_nonce_hex)
    then some invalid_request
    else if not (req.user_id == "") && not (trim_space req.user_id == ticket.user_id)
    then some unauthorized
    else if not (req.player_id == "") && not (trim_space req.player_id == ticket.player_id)
    then some unauthorized
    else none

abbrev pub consumed_time : TicketRecord → ℕ → ℕ
consumed_time r now = if eqb r.consumed_at 0 then now else r.consumed_at

abbrev pub duplicate_of : TicketRecord → ℕ → Answer Consumption
duplicate_of r now =
    answered (record { ticket = r.ticket; consumed_at = consumed_time r now; duplicate = true })

-- Where the store refuses: a ticket that was consumed meanwhile is a duplicate.
abbrev replayed : TicketStore → String → ℕ → StoreError → Answer Consumption
replayed store id now e = elim (lookup id store) [
  | none ↦ refused (store_refused e)
  | some r ↦ if is_consumed r.status then duplicate_of r now else refused (store_refused e)
]

abbrev on_refusal : TicketStore → String → ℕ → StoreError → Answer Consumption
on_refusal store id now ticket_not_issued = replayed store id now ticket_not_issued
on_refusal store id now e = refused (store_refused e)

abbrev outcome : TicketStore → String → ℕ → BattleTicket → Option StoreError → Answer Consumption
outcome store id now ticket none =
    answered (record { ticket = ticket; consumed_at = now; duplicate = false })
outcome store id now ticket (some e) = on_refusal store id now e

-- The end of ConsumeBattleTicket, for a request that fits the ticket.
unfoldable pub consume_fitting : Tickets → String → TicketRecord → ℕ → Tickets × Answer Consumption
consume_fitting s id r now =
    if is_consumed r.status
    then (s, duplicate_of r now)
    else if ltb r.ticket.expires_at now
    then (s, refused match_state)
    else let (store, e) = consume s.store id now in
      (record s { store = store }, outcome store id now r.ticket e)

abbrev checked :
    Tickets
    → String
    → TicketRecord
    → ℕ
    → Option TicketError
    → Option TicketError
    → Tickets × Answer Consumption
checked s id r now (some e) fits = (s, refused e)
checked s id r now none (some e) = (s, refused e)
checked s id r now none none = consume_fitting s id r now

unfoldable pub consume_record :
    Tickets → ConsumeRequest → String → Option TicketRecord → ℕ → Tickets × Answer Consumption
consume_record s req id none now = (s, refused not_found)
consume_record s req id (some r) now =
    checked s id r now (validate_consume_version req.version r.ticket) (check_ticket req r.ticket)

-- ConsumeBattleTicket
unfoldable pub consume_battle_ticket : Tickets → ConsumeRequest → ℕ → Tickets × Answer Consumption
consume_battle_ticket s req now =
    let id = trim_space req.ticket_id in
    if id == ""
      || trim_space req.match_id == ""
      || trim_space req.battle_server_id == ""
      || trim_space req.ticket_nonce_hex == ""
    then (s, refused invalid_request)
    else consume_record s req id (lookup id s.store) now
