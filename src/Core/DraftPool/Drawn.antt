-- ===== src/Core/DraftPool/Drawn.antt =====
-- The cards that a draft draws from the mixed pool: drawMixedPoolCandidates of
-- runtime/core/battle_draft.go.
use gensoulkyo.Base.{
  ℕ, zero, suc, ◌+◌, ◌%◌, ◌≤◌, ◌<◌, ◌≡◌, refl, String, false, List, [], ◌∷◌, ltb, eqb,
  if◌then◌else◌, length, arith, Bool-cases, inl, inr,
}
use native.Mathlib.Nat.{mod-eq_of_lt, mod_self}
use gensoulkyo.Core.DraftPool.{taken_at, probe, draw_position, positions}

next_lem : (n pos : ℕ) → pos < n → (pos + 1) % n ≡ (if eqb (pos + 1) n then 0 else pos + 1)
next_lem n pos inside = elim (Bool-cases (eqb (pos + 1) n)) [
  | inl last ↦ let same : pos + 1 ≡ n = ground (arith, last) in rw (last, same) (mod_self n)
  | inr inner ↦ rw inner (mod-eq_of_lt (ground (arith, inner)))
]

-- With at most two positions taken and one free, three steps of probing find a free one.
module _ (n pos : ℕ) (inside : pos < n) where
  probe_lem :
      (taken : List ℕ)
      → length taken ≤ 2
      → length taken < n
      → (taken_at (probe 3 n taken pos) taken ≡ false) × (probe 3 n taken pos < n)
  unfolding probe
  probe_lem taken few room =
      let q = (pos + 1) % n in
      let one = next_lem n pos inside in
      let two = next_lem n q (ground arith) in probe-cases taken few room one two
    where
      probe-cases :
          (taken : List ℕ)
          → length taken ≤ 2
          → length taken < n
          → (pos + 1) % n ≡ (if eqb (pos + 1) n then 0 else pos + 1)
          → ((pos + 1) % n + 1) % n ≡ (if eqb ((pos + 1) % n + 1) n then 0 else (pos + 1) % n + 1)
          → (taken_at (probe 3 n taken pos) taken ≡ false) × (probe 3 n taken pos < n)
      probe-cases [] few room one two = (refl, ground arith)
      probe-cases (a ∷ []) few room one two = (ground arith, ground arith)
      probe-cases (a ∷ b ∷ []) few room one two = (ground arith, ground arith)
      probe-cases (a ∷ b ∷ c ∷ more) few room one two = absurd (omega (arith, few))

-- Positions of the pool that are not taken, each different from those before it.
pub AreFresh : ℕ → List ℕ → List ℕ → Type 0
AreFresh n taken [] = Unit
AreFresh n taken (p ∷ ps) = (p < n) × (taken_at p taken ≡ false) × AreFresh n (p ∷ taken) ps

module _ (sha256_hex : String → String) (server_seed tick round_index n : ℕ) where
  position-inside : (i : ℕ) → 0 < n → draw_position sha256_hex server_seed tick round_index n i < n
  unfolding draw_position
  position-inside i some_card = ground arith

  positions_lem :
      (i left : ℕ) (taken : List ℕ)
      → length taken + left ≤ 3
      → length taken + left ≤ n
      → AreFresh n taken (positions sha256_hex server_seed tick round_index n i left taken)
        × (length (positions sha256_hex server_seed tick round_index n i left taken) ≡ left)
  unfolding positions AreFresh
  positions_lem i zero taken few room = (tt, refl)
  positions_lem i (suc left) taken few room =
      let start = draw_position sha256_hex server_seed tick round_index n i in
      let (free, inside) =
        probe_lem n start (position-inside i (omega (arith, room))) taken (omega (arith, few))
          (omega (arith, room)) in
      let pos = probe 3 n taken start in
      let (fresh, size) =
        positions_lem (i + 1) left (pos ∷ taken) (omega (arith, few)) (omega (arith, room)) in
      ((inside, free, fresh), omega (arith, size))

  -- A draw takes three positions of a pool, or all of them where it has fewer,
  -- and no position twice.
  pub draw_distinct :
      let want = if ltb n 3 then n else 3 in
      let drawn = positions sha256_hex server_seed tick round_index n 0 want [] in
      AreFresh n [] drawn × (length drawn ≡ want)
  draw_distinct = positions_lem 0 (if ltb n 3 then n else 3) [] (ground arith) (ground arith)
