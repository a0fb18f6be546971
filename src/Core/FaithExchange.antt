-- ===== src/Core/FaithExchange.antt =====
-- The exchange of faith for a shot: ExchangeFaith of runtime/core/gacha.go.
use gensoulkyo.Base.{
  ℕ, String, Option, none, some, ◌==◌, insert, value, contains, trim_space, if◌then◌else◌,
}
use gensoulkyo.Base.Int64.{sub64, lt64}
use gensoulkyo.Core.GachaPools.{CharacterEntry, gacha_character_entry_by_shot}
use gensoulkyo.Core.User.{
  User, faith_exchange, Reply, done, refused, invalid_request, not_found, insufficient_funds,
  already_claimed,
}
use gensoulkyo.Core.GachaItems.{ensure_default_characters}

unfoldable pub exchange_entry : User → String → Option CharacterEntry → ℕ → User × Reply ℕ
exchange_entry user item_id none now = (user, refused not_found)
exchange_entry user item_id (some e) now =
    let faith = value "faith" user.wallet in
    if contains item_id user.characters
    then (user, refused already_claimed)
    else if lt64 faith 150
    then (user, refused insufficient_funds)
    else (
      record user {
        wallet = insert "faith" (sub64 faith 150) user.wallet;
        characters =
            insert item_id
              (record {
                shot_id = item_id;
                chara = e.chara;
                source = faith_exchange;
                dupes = 0;
                obtained_at = now;
              })
              user.characters;
      },
      done 150,
    )

-- ExchangeFaith, which answers with the faith it spends
unfoldable pub exchange_faith : User → String → ℕ → User × Reply ℕ
exchange_faith user requested now =
    let item_id = trim_space requested in
    let ready = ensure_default_characters user now in
    if item_id == ""
    then (ready, refused invalid_request)
    else exchange_entry ready item_id (gacha_character_entry_by_shot item_id) now
