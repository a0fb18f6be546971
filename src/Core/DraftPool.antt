-- ===== src/Core/DraftPool.antt =====
-- The mixed pool of a battle-royale draft and the cards drawn from it: buildMixedPool, mixedPoolHash and
-- drawMixedPoolCandidates of runtime/core/battle_draft.go.
pub mod Drawn
use Prim.Native.Nat.{Ordering}
use Prim.Native.String.{compare}
use gensoulkyo.Base.{
  ℕ, zero, suc, ◌+◌, ◌-◌, ◌*◌, ◌%◌, String, str_append, Bool, true, false, not, ◌&&◌, ◌||◌, Option,
  none, some, List, [], ◌∷◌, ◌++◌, ◌==◌, Dict, lookup, or_else, trim_space, ltb, leb, eqb,
  if◌then◌else◌, length,
}
use gensoulkyo.Core.Cards.{member_of}
use gensoulkyo.Core.Chance.{short_hash, deterministic_unit, get_elem?}
use gensoulkyo.Core.Float.{scale}

-- Less, in the order of the bytes, which is that of the characters.
abbrev pub before : String → String → Bool
before a b = elim (compare a b) [ Ordering.lt ↦ true | _ ↦ false ]

abbrev pub place : String → List String → List String
place x [] = x ∷ []
place x (y ∷ ys) = let rest = place x ys in if before x y then x ∷ y ∷ ys else y ∷ rest

-- sort.Strings
abbrev pub sort_strings : List String → List String
sort_strings [] = []
sort_strings (x ∷ xs) = place x (sort_strings xs)

-- The ids of a deck that are not empty and not seen before, appended to the pool.
abbrev pub merge_deck : List String → List String → List String
merge_deck pool [] = pool
merge_deck pool (raw ∷ deck) =
    let card_id = trim_space raw in
    merge_deck (if card_id == "" || member_of card_id pool then pool else pool ++ card_id ∷ []) deck

abbrev pub merge_decks : List String → List (List String) → List String
merge_decks pool [] = pool
merge_decks pool (deck ∷ decks) = merge_decks (merge_deck pool deck) decks

-- buildMixedPool, of the decks in the order of sortedPlayerIDs
unfoldable pub build_mixed_pool : List (List String) → List String
build_mixed_pool decks = sort_strings (merge_decks [] decks)

abbrev pub join : List String → String
join [] = ""
join (x ∷ []) = x
join (x ∷ y ∷ ys) = str_append x (str_append "," (join (y ∷ ys)))

abbrev pub taken_at : ℕ → List ℕ → Bool
taken_at pos [] = false
taken_at pos (p ∷ ps) = if eqb p pos then true else taken_at pos ps

-- The linear probing `for { ... pos = (pos + 1) % len(pool) }`, with the steps that are left: three are
-- enough, since at most two positions are taken.
unfoldable pub probe : ℕ → ℕ → List ℕ → ℕ → ℕ
probe zero n taken pos = pos
probe (suc left) n taken pos =
    let next = probe left n taken ((pos + 1) % n) in if taken_at pos taken then next else pos

module _ (sha256_hex : String → String) where
  -- mixedPoolHash
  unfoldable pub mixed_pool_hash : List String → String
  mixed_pool_hash pool = short_hash sha256_hex (join pool)

  -- The position of draw `i`, before the probing.
  unfoldable pub draw_position : ℕ → ℕ → ℕ → ℕ → ℕ → ℕ
  draw_position server_seed tick round_index n i =
      let pos =
        scale (deterministic_unit sha256_hex server_seed tick "draft_draw" (round_index * 3 + i))
          n in
      if leb n pos then n - 1 else pos

  -- The positions of the draws from `i` on, with the draws that are left.
  unfoldable pub positions : ℕ → ℕ → ℕ → ℕ → ℕ → ℕ → List ℕ → List ℕ
  positions server_seed tick round_index n i zero taken = []
  positions server_seed tick round_index n i (suc left) taken =
      let pos = probe 3 n taken (draw_position server_seed tick round_index n i) in
      pos ∷ positions server_seed tick round_index n (i + 1) left (pos ∷ taken)

  abbrev pub cards_at : List String → List ℕ → List String
  cards_at pool [] = []
  cards_at pool (p ∷ ps) = or_else (get_elem? pool p) "" ∷ cards_at pool ps

  -- drawMixedPoolCandidates
  unfoldable pub draw_mixed_pool_candidates : ℕ → List String → ℕ → ℕ → List String
  draw_mixed_pool_candidates server_seed pool round_index tick =
      let n = length pool in
      let want = if ltb n 3 then n else 3 in
      cards_at pool (positions server_seed tick round_index n 0 want [])
