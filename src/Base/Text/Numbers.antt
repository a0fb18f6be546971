-- ===== src/Base/Text/Numbers.antt =====
-- The `%d` and `%06d` of fmt.Sprintf name each number differently.
use Prim.Native.Nat.{ℕ, zero, suc, ◌+◌, ◌-◌, ◌*◌, ◌/◌, ◌%◌, ◌<◌}
use Prim.Native.Char.{Char, code}
use Prim.Native.String.append
use text.Mathlib.TextLemmas.{append_assoc}
use Prim.Native.String.{String, [], ◌∷◌}
use mathlib.Core.Path.{◌≡◌, refl, sym, ap, ◌∙◌}
use mathlib.Core.Bool.{true}
use native.Mathlib.Omega.{arith}
use gensoulkyo.Base.Tests.{ltb, eqb, if_rule}
use gensoulkyo.Base.Text.{str_append, len, digit, digits, decimal, zeros, padded}

-- The number that a decimal text is read as, after `value`.
unfoldable number : ℕ → String → ℕ
number value [] = value
number value (c ∷ s) = number (value * 10 + (code c - b'0')) s

abbrev Reads : ℕ → ℕ → String → String → Type 0
Reads value d out text = number value (str_append text out) ≡ number (value * 10 + d) out

one :
    (value d : ℕ) (out : String) (c : Char) (k : ℕ)
    → code c - b'0' ≡ k
    → eqb d k ≡ true
    → Reads value d out (c ∷ [])
unfolding number
one value d out c k is_digit e =
    let joined : str_append (c ∷ []) out ≡ c ∷ out =
      append.cons c [] out ∙ ap (λ text. c ∷ text) (append.nil out) in
    rw joined (ap (λ n. number n out) (ground arith))

number-digit : (value d : ℕ) (out : String) → d < 10 → Reads value d out (digit d)
unfolding digit
number-digit value d out h =
    if_rule (Reads value d out) (eqb d 0) (one value d out "0" 0 refl) (λ e0.
      if_rule (Reads value d out) (eqb d 1) (one value d out "1" 1 refl) (λ e1.
        if_rule (Reads value d out) (eqb d 2) (one value d out "2" 2 refl) (λ e2.
          if_rule (Reads value d out) (eqb d 3) (one value d out "3" 3 refl) (λ e3.
            if_rule (Reads value d out) (eqb d 4) (one value d out "4" 4 refl) (λ e4.
              if_rule (Reads value d out) (eqb d 5) (one value d out "5" 5 refl) (λ e5.
                if_rule (Reads value d out) (eqb d 6) (one value d out "6" 6 refl) (λ e6.
                  if_rule (Reads value d out) (eqb d 7) (one value d out "7" 7 refl) (λ e7.
                    if_rule (Reads value d out) (eqb d 8) (one value d out "8" 8 refl)
                      (λ e8. one value d out "9" 9 refl (ground arith))))))))))

-- What `fuel` digits can write.
room : ℕ → ℕ
room zero = 1
room (suc fuel) = room fuel * 10

number-digits :
    (fuel n : ℕ) (out : String)
    → n < room fuel
    → 1 < room fuel
    → number 0 (digits fuel n out) ≡ number n out
unfolding digits room
number-digits zero n out h some_room = absurd (omega arith)
number-digits (suc fuel) n out h some_room =
    if_rule (λ (text : String). number 0 text ≡ number n out) (ltb n 10)
      (λ e. number-digit 0 n out (ground arith) ∙ ap (λ k. number k out) (omega arith))
      (λ e.
        let more : 10 < room (suc fuel) = ground arith in
        number-digits fuel (n / 10) (str_append (digit (n % 10)) out) (omega arith) (omega arith)
        ∙ number-digit (n / 10) (n % 10) out (omega arith)
        ∙ ap (λ k. number k out) (omega arith))

number-zeros : (k : ℕ) (text : String) → number 0 (str_append (zeros k) text) ≡ number 0 text
unfolding number digit
number-zeros zero text = ap (number 0) (append.nil text)
number-zeros (suc k) text =
    rw (append_assoc "0" (zeros k) text)
      (number-digit 0 0 (str_append (zeros k) text) (omega arith) ∙ number-zeros k text)

number-padded : (width n : ℕ) → n < 9223372036854775808 → number 0 (padded width n) ≡ n
unfolding padded decimal number room
number-padded width n h =
    number-zeros (width - len (decimal n)) (decimal n)
    ∙ number-digits 20 n "" (omega arith) (omega arith)

-- Two numbers of 64-bit integers that are written alike are the same.
pub padded-injective :
    (width m n : ℕ)
    → m < 9223372036854775808
    → n < 9223372036854775808
    → padded width m ≡ padded width n
    → m ≡ n
padded-injective width m n small small' h =
    sym (number-padded width m small) ∙ ap (number 0) h ∙ number-padded width n small'
