-- ===== src/Core/TicketStore.antt =====
-- Battle tickets and where they are kept: the data of runtime/core/types.go and MemoryBattleTicketStore
-- of runtime/core/ticket_store.go. A time is a number, 0 for Go's zero time. A record holds the ticket
-- itself, where the source holds the JSON that it is read back from, and not the copies of its fields;
-- endpoints, hashes of decks and signatures are left out.
use gensoulkyo.Base.{
  ℕ, suc, String, Bool, true, false, not, ◌&&◌, ◌||◌, Option, none, some, List, [], ◌∷◌, ◌==◌, Dict,
  lookup, insert, ltb, leb, eqb, if◌then◌else◌,
}

-- VersionStamp
pub record VersionStamp : Type 0 where
  pub protocol_version : ℕ
  pub business_api_version : String
  pub battle_api_version : String
  pub ruleset_version : String

-- BattleTicket
pub record BattleTicket : Type 0 where
  pub version : VersionStamp
  pub ticket_id : String
  pub match_id : String
  pub user_id : String
  pub player_id : String
  pub battle_server_id : String
  pub mode_config_hash : String
  pub ruleset_version : String
  pub ticket_nonce_hex : String
  pub issued_at : ℕ
  pub expires_at : ℕ
  pub hand_card_ids : List String
  pub deck_card_ids : List String

pub data TicketStatus : Type 0 where
  issued consumed expired revoked rejected : TicketStatus

abbrev pub is_issued : TicketStatus → Bool
is_issued issued = true
is_issued _ = false

abbrev pub is_consumed : TicketStatus → Bool
is_consumed consumed = true
is_consumed _ = false

-- BattleTicketRecord
pub record TicketRecord : Type 0 where
  pub ticket : BattleTicket
  pub status : TicketStatus
  pub reject_reason : String
  pub consumed_at : ℕ
  pub updated_at : ℕ

abbrev pub TicketStore : Type 0
TicketStore = Dict TicketRecord

pub data StoreError : Type 0 where
  ticket_not_found ticket_not_issued : StoreError

abbrev pub kept_consumed_at : Option TicketRecord → ℕ → ℕ
kept_consumed_at none at = at
kept_consumed_at (some old) at = if eqb old.consumed_at 0 then at else old.consumed_at

-- Issue: the time at which a ticket of the same id was consumed stays.
unfoldable pub issue : TicketStore → TicketRecord → TicketStore
issue store r =
    let id = r.ticket.ticket_id in
    insert id (record r { consumed_at = kept_consumed_at (lookup id store) r.consumed_at }) store

abbrev consume_found :
    TicketStore → String → ℕ → Option TicketRecord → TicketStore × Option StoreError
consume_found store id at none = (store, some ticket_not_found)
consume_found store id at (some r) =
    if not (is_issued r.status)
    then (store, some ticket_not_issued)
    else (insert id (record r { status = consumed; consumed_at = at; updated_at = at }) store, none)

-- Consume
unfoldable pub consume : TicketStore → String → ℕ → TicketStore × Option StoreError
consume store id at = consume_found store id at (lookup id store)

abbrev revoke_found :
    TicketStore → String → String → ℕ → Option TicketRecord → TicketStore × Option StoreError
revoke_found store id reason at none = (store, some ticket_not_found)
revoke_found store id reason at (some r) = if not (is_issued r.status) then (store, none) else (
  insert id (record r { status = revoked; reject_reason = reason; updated_at = at }) store,
  none,
)

-- Revoke
unfoldable pub revoke : TicketStore → String → String → ℕ → TicketStore × Option StoreError
revoke store id reason at = revoke_found store id reason at (lookup id store)

abbrev pub stays : TicketRecord → ℕ → Bool
stays r before =
    not (is_issued r.status) || eqb r.ticket.expires_at 0 || not (ltb r.ticket.expires_at before)

-- Expire, over the ids of the map in the order in which they come, with the number that has expired.
unfoldable pub expire : List String → ℕ → ℕ → ℕ → TicketStore → TicketStore × ℕ
expire [] before limit n store = (store, n)
expire (id ∷ order) before limit n store =
    let skipped = expire order before limit n store in
    elim (lookup id store) [
      | none ↦ skipped
      | some r ↦
          let expired_now = record r { status = expired; updated_at = before } in
          let more = expire order before limit (suc n) (insert id expired_now store) in
          if stays r before
          then skipped
          else if ltb 0 limit && leb limit n
          then (store, n)
          else more
    ]

abbrev by_issue : TicketRecord → List TicketRecord → List TicketRecord
by_issue r [] = r ∷ []
by_issue r (q ∷ rs) =
    let rest = by_issue r rs in
    if ltb q.ticket.issued_at r.ticket.issued_at then q ∷ rest else r ∷ q ∷ rs

-- ListByMatch: the records of a match, the oldest first.
unfoldable pub list_by_match : TicketStore → String → List TicketRecord
list_by_match [] match_id = []
list_by_match ((id, r) ∷ store) match_id =
    let rest = list_by_match store match_id in
    if r.ticket.match_id == match_id then by_issue r rest else rest
