-- ===== src/Core/Gacha/Exchange.antt =====
-- The faith well: ExchangeFaith of runtime/core/gacha.go.
use gensoulkyo.Base.{
  ℕ, ◌-◌, ◌≤◌, ◌<◌, ◌≡◌, refl, String, false, Option, none, some, ◌==◌, eq_iff, lookup,
  lookup-insert_self, value, value-insert_self, arith, Bool-cases, inl, inr, ◌≢◌, trim_space, ◌∙◌,
}
use gensoulkyo.Base.Int64.{half, sub64, lt64, sub64_exact, lt64_exact}
use gensoulkyo.Core.GachaPools.{CharacterEntry, gacha_character_entry_by_shot}
use gensoulkyo.Core.FaithExchange.{exchange_faith, exchange_entry}
use gensoulkyo.Core.GachaItems.{ensure_default_characters}
use gensoulkyo.Core.User.{User, Ownership, faith_exchange, done, refused, CoreError}

-- An exchange of at least 150 faith for a shot of the table that the identity, with its starter
-- shots, does not own takes 150 faith and makes the shot the identity's.
pub exchange_succeeds :
    (user : User) (requested : String) (now : ℕ) (e : CharacterEntry)
    → gacha_character_entry_by_shot (trim_space requested) ≡ some e
    → trim_space requested ≢ ""
    → lookup (trim_space requested) (ensure_default_characters user now).characters ≡ none
    → 150 ≤ value "faith" user.wallet
    → value "faith" user.wallet < half
    → let (after, reply) = exchange_faith user requested now in
      (reply ≡ done 150)
      × (value "faith" after.wallet ≡ value "faith" user.wallet - 150)
      × ((owned : Ownership) × (lookup (trim_space requested) after.characters ≡ some owned)
          × (owned.chara ≡ e.chara)
          × (owned.source ≡ faith_exchange))
unfolding exchange_faith exchange_entry ensure_default_characters
exchange_succeeds user requested now e known named locked enough fits =
    let item_id = trim_space requested in
    let some_id : (item_id == "") ≡ false = ground (arith, eq_iff item_id "") in
    let rich : lt64 (value "faith" user.wallet) 150 ≡ false =
      ground (arith, lt64_exact (value "faith" user.wallet) 150) in
    rw (some_id, known, locked, rich)
      (
        refl,
        value-insert_self "faith" (sub64 (value "faith" user.wallet) 150) user.wallet
            ∙ sub64_exact (value "faith" user.wallet) 150 enough fits,
        (_, lookup-insert_self item_id _ _, refl, refl),
      )

entry-refused :
    (ready : User) (item_id : String) (o : Option CharacterEntry) (now : ℕ) (r : CoreError)
    → (exchange_entry ready item_id o now).1 ≡ refused r
    → (exchange_entry ready item_id o now).0 ≡ ready
unfolding exchange_entry
entry-refused ready item_id none now r = λ refusal. refl
entry-refused ready item_id (some e) now r = ground arith

-- A refused exchange leaves the identity as it is, with the starter shots.
pub exchange_refused :
    (user : User) (requested : String) (now : ℕ) (r : CoreError)
    → (exchange_faith user requested now).1 ≡ refused r
    → (exchange_faith user requested now).0 ≡ ensure_default_characters user now
unfolding exchange_faith
exchange_refused user requested now r =
    let item_id = trim_space requested in
    let ready = ensure_default_characters user now in
    elim (Bool-cases (item_id == "")) [
      | inl empty ↦ rw empty (λ refusal. refl)
      | inr some_id ↦
          rw some_id (entry-refused ready item_id (gacha_character_entry_by_shot item_id) now r)
    ]
