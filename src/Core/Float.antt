-- ===== src/Core/Float.antt =====
-- The float64 arithmetic that runtime/core draws with.
use gensoulkyo.Base.{ℕ, zero, suc, ◌+◌, ◌*◌, ◌/◌, ◌%◌, ◌^◌, ◌≡◌, refl, ltb, leb, eqb, if◌then◌else◌}

-- The float64 arithmetic of `int(float64(u) / 10000.0 * float64(n))` for 0 <= u < 10000. A quotient
-- or product is a mantissa below 2^53 and a power of two, rounded to nearest, ties to even.
unfoldable pub round : ℕ → ℕ → ℕ
round a b =
    let q = a / b in
    let twice = 2 * (a % b) in if ltb twice b then q else if ltb b twice then q + 1 else q + q % 2

-- The number of binary places that brings u / 10000 to 53 bits, at most 66 for u > 0.
unfoldable pub places : ℕ → ℕ → ℕ
places zero u = 0
places (suc fuel) u =
    let more = places fuel (u * 2) in if leb (10000 * 4503599627370496) u then 0 else suc more

-- The places above 53 bits of a product.
unfoldable pub excess : ℕ → ℕ → ℕ
excess zero p = 0
excess (suc fuel) p =
    let more = excess fuel (p / 2) in if ltb p 9007199254740992 then 0 else suc more

-- The product of the fraction u / 10000 and the integer n, without its fractional part.
unfoldable pub scale : ℕ → ℕ → ℕ
unfolding round places excess
scale u n =
    let k = places 67 u in
    let mantissa = round (u * 2 ^ k) 10000 in
    let product = mantissa * n in
    let j = excess 64 product in if eqb u 0 then 0 else round product (2 ^ j) * 2 ^ j / 2 ^ k

-- 0.29 * 100 is below 29 in this arithmetic, and 0.9999 * 13 is below 13.
scale_example : (scale 2900 100 ≡ 28) × (scale 9999 13 ≡ 12) × (scale 7000 100 ≡ 70)
unfolding scale
scale_example = (refl, refl, refl)
