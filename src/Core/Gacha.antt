-- ===== src/Core/Gacha.antt =====
-- The totem draws: GachaPull and what it calls in runtime/core/gacha.go. The session is
-- resolved to its user before; the clock is an argument, read once; errors are their codes. Of a
-- response the audit record is kept: the rest repeats the state that the call leaves.
pub mod Draws
pub mod Given
pub mod Slots
pub mod Kept
pub mod Pulls
pub mod Keeping
pub mod Exchange
use gensoulkyo.Base.{
  ℕ, zero, suc, ◌+◌, ◌-◌, String, str_append, padded, decimal, Bool, true, false, not, ◌&&◌, ◌||◌,
  Option, none, some, List, [], ◌∷◌, ◌++◌, ◌==◌, Dict, lookup, insert, or_else, value, contains,
  trim_space, ltb, leb, eqb, if◌then◌else◌, length, keep_last,
}
use gensoulkyo.Base.Int64.{add64, sub64, lt64}
use gensoulkyo.Core.Cards.{
  Rarity, common, uncommon, rare, epic, rarity_rank, rarity_name, same_rarity, rarity_of,
  sorted_card_catalog_ids, card_name_key,
}
use gensoulkyo.Core.Chance.{short_hash, pick}
use gensoulkyo.Core.Pity.{Weights, roll_rarity, gacha_guaranteed_rarity, apply_pool_pity}
use gensoulkyo.Core.GachaPools.{
  Pool, Kind, card, character, gacha_pool_by_id, CharacterEntry, gacha_character_table,
  gacha_character_entry_by_shot,
}
use gensoulkyo.Core.User.{
  User, Ownership, Source, default, gacha, faith_exchange, PullResult, Opening, Reply, CoreError,
  done, refused, invalid_request, not_found, insufficient_currency, insufficient_funds,
  already_claimed,
}
use gensoulkyo.Core.User.Cards.{grant_card_to_user}
use gensoulkyo.Core.GachaItems.{
  ensure_default_characters, cards_of, shots_of, all_if_empty, gacha_result_name_key, PullRequest,
  joined, give_entry,
}

-- costGems
unfoldable pub pull_cost : Pool → ℕ → ℕ
pull_cost pool count = if eqb count 10 then pool.cost_ten_gems else pool.cost_gems

-- The guards of GachaPull on a pool that exists, with the gems of the wallet.
unfoldable pub pull_guard : Pool → ℕ → ℕ → Option CoreError
pull_guard pool count gems =
    if not pool.enabled
    then some not_found
    else if not (eqb count 1) && not (eqb count 10)
    then some invalid_request
    else if lt64 gems (pull_cost pool count)
    then some insufficient_currency
    else none

-- The refusal of a guard, or else the opening, which has taken an id.
unfoldable pub proceed :
    ℕ → User → Option CoreError → User × Reply Opening → ℕ × User × Reply Opening
proceed next_seq user (some e) opened = (next_seq, user, refused e)
proceed next_seq user none (after, reply) = (next_seq + 1, after, reply)

-- The end of GachaPull: the faith of the pulls, the audit record and the last results.
unfoldable pub settle :
    Pool → ℕ → ℕ → String → String → ℕ → User × Reply (List PullResult) → User × Reply Opening
settle pool count cost opening_id seed now (drawn, refused e) = (drawn, refused e)
settle pool count cost opening_id seed now (drawn, done results) =
    let audit : Opening = record {
      opening_id = opening_id;
      pool_id = pool.pool_id;
      count = count;
      cost_gems = cost;
      server_seed = seed;
      results = results;
      opened_at = now;
    } in
    (
      record drawn {
        wallet = insert "faith" (add64 (value "faith" drawn.wallet) count) drawn.wallet;
        gacha_openings = keep_last 50 (drawn.gacha_openings ++ audit ∷ []);
        gacha_last_results = results;
      },
      done audit,
    )

module _ (sha256_hex : String → String) where
  -- pickChestCardForRarity
  unfoldable pub pick_card : Rarity → String → ℕ → String
  pick_card rarity seed index =
      or_else
        (pick sha256_hex (all_if_empty (cards_of rarity sorted_card_catalog_ids)) (index + 17)
          (index + 3)
          (str_append "chest_card:" (str_append seed (str_append ":" (rarity_name rarity)))))
        ""

  -- pickGachaShotForRarity
  unfoldable pub pick_shot : Rarity → String → ℕ → Option CharacterEntry
  pick_shot rarity seed index =
      pick sha256_hex (shots_of rarity gacha_character_table) (index + 17) (index + 3)
        (str_append "gacha_shot:" (str_append seed (str_append ":" (rarity_name rarity))))

  -- The rarity that is rolled for a slot of an opening.
  unfoldable pub roll_slot : Pool → ℕ → String → ℕ → Rarity
  roll_slot pool count seed index =
      let rolled = roll_rarity sha256_hex "gacha:" pool.weights seed index in
      let better = gacha_guaranteed_rarity sha256_hex pool.weights seed index in
      if eqb count 10 && eqb index (count - 1) && ltb (rarity_rank rolled) (rarity_rank rare)
      then better
      else rolled

  -- The card that a slot gives.
  unfoldable pub give_card : String → String → User → ℕ → ℕ → Rarity → User × PullResult
  give_card id seed user now index rarity =
      let card_id = pick_card rarity seed index in
      let (granted, g) = grant_card_to_user user card_id 1 now in
      (
        granted,
        record {
          id = id;
          card_id = card_id;
          shot_id = "";
          chara = "";
          name_key = gacha_result_name_key card card_id rarity;
          rarity = rarity;
          is_new = lt64 0 g.accepted;
          dust = g.dust;
          faith_gained = 0;
        },
      )

  -- The shot that a slot gives; none where no shot has the rarity.
  unfoldable pub give_shot : String → String → User → ℕ → ℕ → Rarity → User × Option PullResult
  give_shot id seed user now index rarity =
      give_entry id user now rarity (pick_shot rarity seed index)

  -- switch pool.Kind
  unfoldable pub give : Kind → String → String → User → ℕ → ℕ → Rarity → User × Option PullResult
  give card id seed user now index rarity =
      let (granted, result) = give_card id seed user now index rarity in (granted, some result)
  give character id seed user now index rarity = give_shot id seed user now index rarity

  -- One iteration of GachaPull's loop.
  unfoldable pub draw : Pool → ℕ → String → String → User → ℕ → ℕ → User × Option PullResult
  draw pool count opening_id seed user now index =
      let (counters, rarity) =
        apply_pool_pity user.gacha_pity pool.pool_id pool.pity (roll_slot pool count seed index) in
      let id = str_append opening_id (str_append "_" (padded 2 (index + 1))) in
      give pool.kind id seed (record user { gacha_pity = counters }) now index rarity

  -- The loop from `index` on, with the iterations that are left.
  unfoldable pub draws :
      Pool → ℕ → String → String → User → ℕ → ℕ → ℕ → User × Reply (List PullResult)
  draws pool count opening_id seed user now index zero = (user, done [])
  draws pool count opening_id seed user now index (suc left) =
      let (after, drawn) = draw pool count opening_id seed user now index in
      joined after drawn (draws pool count opening_id seed after now (index + 1) left)

  -- gachaOpeningSeed
  unfoldable pub gacha_opening_seed : String → String → String → ℕ → ℕ → String
  gacha_opening_seed user_id pool_id opening_id opening_count count = short_hash sha256_hex (
      str_append "gacha:" (
        str_append user_id (
          str_append ":" (
            str_append pool_id (
              str_append ":" (
                str_append opening_id (
                  str_append ":"
                    (str_append (decimal opening_count) (str_append ":" (decimal count))))))))))

  -- GachaPull from the roll on, with the gems spent.
  unfoldable pub open_pool : Pool → ℕ → ℕ → ℕ → User → ℕ → User × Reply Opening
  open_pool pool count cost next_seq user now =
      let opening_id = str_append "gacha_opening_" (padded 6 next_seq) in
      let seed =
        gacha_opening_seed user.user_id pool.pool_id opening_id (length user.gacha_openings)
          count in
      settle pool count cost opening_id seed now (draws pool count opening_id seed user now 0 count)

  unfoldable pub pull_from : ℕ → User → Option Pool → ℕ → ℕ → ℕ × User × Reply Opening
  pull_from next_seq user none count now = (next_seq, user, refused not_found)
  pull_from next_seq user (some pool) count now =
      let gems = value "gems" user.wallet in
      let cost = pull_cost pool count in
      let paid : User = record user { wallet = insert "gems" (sub64 gems cost) user.wallet } in
      proceed next_seq user (pull_guard pool count gems)
        (open_pool pool count cost (next_seq + 1) paid now)

  -- GachaPull, with the service's counter of ids
  unfoldable pub gacha_pull : ℕ → User → PullRequest → ℕ → ℕ × User × Reply Opening
  gacha_pull next_seq user req now =
      let named = trim_space req.pool_id in
      let pool_id = if named == "" then "gacha.cards" else named in
      pull_from next_seq (ensure_default_characters user now) (gacha_pool_by_id pool_id) req.count
        now
