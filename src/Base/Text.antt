-- ===== src/Base/Text.antt =====
-- What the Go code does with strings: comparison, `strings.TrimSpace`, hexadecimal digits and the
-- `%d` of fmt.Sprintf. A string is its list of Unicode characters.
pub mod Numbers
use Prim.Native.Nat.{ℕ, zero, suc, ◌+◌, ◌-◌, ◌*◌, ◌/◌, ◌%◌}
use Prim.Native.Char.{code}
use Prim.Native.String.{String, [], ◌∷◌}
use mathlib.Core.Path.{◌≡◌, refl}
use mathlib.Core.Logic.{◌≢◌}
use native.Mathlib.Omega.{arith}
use text.Mathlib.TextEquality.{eq_iff}
use mathlib.Core.Bool.{Bool, true, false, ◌&&◌, ◌||◌}
use gensoulkyo.Base.Tests.{leb, ltb, eqb, if◌then◌else◌}
pub use text.Mathlib.Text.{◌==◌}
pub use text.Mathlib.TextPositions.{eq_refl}
pub use Prim.Native.String.{◌++◌ as str_append, len}

-- The Unicode white space of Go's `unicode.IsSpace`.
abbrev is_space : ℕ → Bool
is_space c =
    (leb 9 c && leb c 13)
    || eqb c 32
    || eqb c 0x85
    || eqb c 0xa0
    || eqb c 0x1680
    || (leb 0x2000 c && leb c 0x200a)
    || eqb c 0x2028
    || eqb c 0x2029
    || eqb c 0x202f
    || eqb c 0x205f
    || eqb c 0x3000

abbrev trim_left : String → String
trim_left [] = []
trim_left (c ∷ s) = let rest = trim_left s in if is_space (code c) then rest else c ∷ s

abbrev is_empty : String → Bool
is_empty [] = true
is_empty (_ ∷ _) = false

trim_right : String → String
trim_right [] = []
trim_right (c ∷ s) =
    let rest = trim_right s in if is_empty rest && is_space (code c) then [] else c ∷ rest

-- strings.TrimSpace
unfoldable pub trim_space : String → String
unfolding trim_right
trim_space s = trim_left (trim_right s)

-- The characters that `hex` digits have, in either case.
abbrev is_hex_digit : ℕ → Bool
is_hex_digit c =
    (leb b'0' c && leb c b'9') || (leb b'a' c && leb c b'f') || (leb b'A' c && leb c b'F')

-- isHex of business_envelope.go
unfoldable pub is_hex : String → Bool
is_hex [] = true
is_hex (c ∷ s) = is_hex_digit (code c) && is_hex s

-- hexValue of simulation.go
unfoldable pub hex_value : ℕ → ℕ
hex_value c =
    if leb b'0' c && leb c b'9'
    then c - b'0'
    else if leb b'a' c && leb c b'f'
    then c - b'a' + 10
    else if leb b'A' c && leb c b'F'
    then c - b'A' + 10
    else 0

-- `for i := range hash { value = value*16 + hexValue(hash[i]) }`
unfoldable pub hex_number : ℕ → String → ℕ
unfolding hex_value
hex_number value [] = value
hex_number value (c ∷ s) = hex_number (value * 16 + hex_value (code c)) s

digit : ℕ → String
digit d =
    if eqb d 0
    then "0"
    else if eqb d 1
    then "1"
    else if eqb d 2
    then "2"
    else if eqb d 3
    then "3"
    else if eqb d 4
    then "4"
    else if eqb d 5
    then "5"
    else if eqb d 6
    then "6"
    else if eqb d 7
    then "7"
    else if eqb d 8
    then "8"
    else "9"

digits : ℕ → ℕ → String → String
unfolding digit
digits zero n out = out
digits (suc fuel) n out =
    let more = digits fuel (n / 10) (str_append (digit (n % 10)) out) in
    let last = str_append (digit n) out in if ltb n 10 then last else more

-- `%d`; a 64-bit integer has at most twenty digits.
unfoldable pub decimal : ℕ → String
unfolding digits
decimal n = digits 20 n ""

abbrev zeros : ℕ → String
zeros zero = ""
zeros (suc n) = str_append "0" (zeros n)

-- `%02d` and `%06d` of a number that is not negative
unfoldable pub padded : ℕ → ℕ → String
padded width n = let text = decimal n in str_append (zeros (width - len text)) text

trim_space_example : trim_space "  a b\t\n" ≡ "a b"
unfolding trim_space
trim_space_example = refl

decimal_example : decimal 1203 ≡ "1203"
unfolding decimal
decimal_example = refl

padded_example : (padded 6 42 ≡ "000042") × (padded 2 1203 ≡ "1203")
unfolding padded decimal
padded_example = (refl, refl)

hex_number_example : hex_number 0 "00ffA1" ≡ 65441
unfolding hex_number
hex_number_example = refl

pub differ : {a b : String} → (a == b) ≡ false → a ≢ b
differ {a} {b} h = ground (arith, h, eq_iff a b)
