-- ===== src/Core/GachaItems.antt =====
-- What a slot of a totem draw can give, in runtime/core/gacha.go: the shots an identity owns, the
-- cards and shots of a rarity, and the result for a shot.
use gensoulkyo.Base.{
  ℕ, String, str_append, Bool, true, false, not, ◌&&◌, Option, none, some, List, [], ◌∷◌, ◌==◌,
  Dict, lookup, insert, contains, if◌then◌else◌,
}
use gensoulkyo.Base.Int64.{add64}
use gensoulkyo.Core.Cards.{
  Rarity, uncommon, rare, epic, rarity_name, same_rarity, rarity_of, sorted_card_catalog_ids,
  card_name_key,
}
use gensoulkyo.Core.GachaPools.{
  Kind, card, character, CharacterEntry, gacha_character_entry_by_shot,
}
use gensoulkyo.Core.User.{
  User, Ownership, default, gacha, PullResult, Reply, done, refused, invalid_request,
}

abbrev grant_default : Dict Ownership → String → Option CharacterEntry → ℕ → Dict Ownership
grant_default characters shot_id none now = characters
grant_default characters shot_id (some e) now =
    if contains shot_id characters
    then characters
    else insert shot_id
        (record {
          shot_id = shot_id;
          chara = e.chara;
          source = default;
          dupes = 0;
          obtained_at = now;
        })
        characters

-- ensureDefaultCharactersLocked
unfoldable pub ensure_default_characters : User → ℕ → User
ensure_default_characters user now =
    let first =
      grant_default user.characters "ReimuA1" (gacha_character_entry_by_shot "ReimuA1") now in
    record user {
      characters = grant_default first "ReimuA2" (gacha_character_entry_by_shot "ReimuA2") now;
    }

-- serverCardRarities[cardID] == rarity
abbrev pub has_rarity : Option Rarity → Rarity → Bool
has_rarity none rarity = false
has_rarity (some r) rarity = same_rarity r rarity

abbrev pub cards_of : Rarity → List String → List String
cards_of rarity [] = []
cards_of rarity (id ∷ ids) =
    let rest = cards_of rarity ids in if has_rarity (rarity_of id) rarity then id ∷ rest else rest

abbrev pub shots_of : Rarity → List CharacterEntry → List CharacterEntry
shots_of rarity [] = []
shots_of rarity (e ∷ es) =
    let rest = shots_of rarity es in if same_rarity e.rarity rarity then e ∷ rest else rest

-- characterDupeFaith
unfoldable pub character_dupe_faith : Rarity → ℕ
character_dupe_faith epic = 80
character_dupe_faith rare = 40
character_dupe_faith uncommon = 20
character_dupe_faith _ = 10

abbrev pub all_if_empty : List String → List String
all_if_empty [] = sorted_card_catalog_ids
all_if_empty (id ∷ ids) = id ∷ ids

-- gachaResultNameKey
unfoldable pub gacha_result_name_key : Kind → String → Rarity → String
gacha_result_name_key card item_id rarity =
    let key = card_name_key item_id in
    if not (item_id == "") && not (key == "")
    then key
    else str_append "screen.gacha.result." (rarity_name rarity)
gacha_result_name_key character item_id rarity =
    str_append "screen.gacha.result." (rarity_name rarity)

-- GachaPullRequest
pub record PullRequest : Type 0 where
  pub pool_id : String
  pub count : ℕ

-- The results of a loop whose first iteration and whose later ones are given.
unfoldable pub joined :
    User → Option PullResult → User × Reply (List PullResult) → User × Reply (List PullResult)
joined after none more = (after, refused invalid_request)
joined after (some result) (last, refused e) = (last, refused e)
joined after (some result) (last, done results) = (last, done (result ∷ results))

-- user.Characters[entry.ShotID] after a draw of the entry, and whether it is new
unfoldable pub own_shot : Dict Ownership → CharacterEntry → ℕ → Dict Ownership × Bool
own_shot characters e now = elim (lookup e.shot_id characters) [
  | some owned ↦ (insert e.shot_id (record owned { dupes = add64 owned.dupes 1 }) characters, false)
  | none ↦ (
    insert e.shot_id
        (record {
          shot_id = e.shot_id;
          chara = e.chara;
          source = gacha;
          dupes = 0;
          obtained_at = now;
        })
        characters,
    true,
  )
]

unfoldable pub give_entry :
    String → User → ℕ → Rarity → Option CharacterEntry → User × Option PullResult
give_entry id user now rarity none = (user, none)
give_entry id user now rarity (some e) =
    let (characters, is_new) = own_shot user.characters e now in
    (
      record user { characters = characters },
      some (record {
        id = id;
        card_id = "";
        shot_id = e.shot_id;
        chara = e.chara;
        name_key = gacha_result_name_key character e.shot_id rarity;
        rarity = rarity;
        is_new = is_new;
        dust = 0;
        faith_gained = if is_new then 0 else character_dupe_faith rarity;
      }),
    )
