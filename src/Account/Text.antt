-- ===== src/Account/Text.antt =====
-- What the account service asks of texts: runtime/account/store.go and runtime/account/password.go.
use Prim.Native.Nat.{compare, Ordering}
use Prim.Native.Char.{Char, char, code, IsScalar}
use Prim.Native.String.{String, [], ◌∷◌, count}
use mathlib.Core.Logic.{dite}
use native.Mathlib.Decide.{dec_lt}
use gensoulkyo.Base.{
  ℕ, ◌+◌, ◌<◌, ◌≡◌, refl, Bool, true, false, not, ◌&&◌, ◌||◌, ◌==◌, trim_space, len, leb, eqb, ltb,
  if◌then◌else◌, arith, Option, none, some,
}

scalar : (n : ℕ) → n < 128 → IsScalar n
scalar n h = let e : compare n 55296 ≡ Ordering.lt = ground arith in rw e tt

-- The lower case of an ASCII letter; any other character stays.
lower : Char → Char
lower (char n p) =
    if leb b'A' n
    then dite (dec_lt n 91) (λ h. char (n + 32) (scalar (n + 32) (omega arith))) (λ _. char n p)
    else char n p

-- strings.ToLower
unfoldable pub lower_all : String → String
unfolding lower scalar dec_lt
lower_all [] = []
lower_all (c ∷ s) = lower c ∷ lower_all s

-- NormalizeEmail and NormalizeUsername: strings.ToLower of strings.TrimSpace, where the lower case
-- is that of the ASCII letters, the only ones in a validated address or username.
unfoldable pub normalize : String → String
unfolding lower_all trim_space
normalize text = lower_all (trim_space text)

normalize_example : normalize " Wjcwqc@Example.COM" ≡ "wjcwqc@example.com"
unfolding normalize
normalize_example = refl

all_digits : String → Bool
all_digits [] = true
all_digits (c ∷ s) = leb b'0' (code c) && leb (code c) b'9' && all_digits s

-- ValidateVerificationCode
unfoldable pub valid_code : String → Bool
unfolding all_digits trim_space
valid_code code_text =
    let trimmed = trim_space code_text in eqb (len trimmed) 6 && all_digits trimmed

-- ValidatePassword: at least 8 characters, at most 256 bytes.
unfoldable pub valid_password : String → Bool
valid_password password = not (ltb (count password) 8) && not (ltb 256 (len password))

is_username_char : ℕ → Bool
is_username_char c =
    (leb b'A' c && leb c b'Z')
    || (leb b'a' c && leb c b'z')
    || (leb b'0' c && leb c b'9')
    || eqb c b'_'

all_username : String → Bool
all_username [] = true
all_username (c ∷ s) = is_username_char (code c) && all_username s

-- ValidateUsername: the pattern ^[A-Za-z0-9_]{3,24}$ on the trimmed name.
unfoldable pub valid_username : String → Bool
unfolding is_username_char all_username trim_space
valid_username username =
    let trimmed = trim_space username in
    leb 3 (count trimmed) && leb (count trimmed) 24 && all_username trimmed

valid_examples :
    (valid_code "012345" ≡ true)
    × (valid_code "12a456" ≡ false)
    × (valid_username "Reimu_01" ≡ true)
    × (valid_password "short" ≡ false)
unfolding valid_code valid_username valid_password
valid_examples = (refl, refl, refl, refl)

is_letter : ℕ → Bool
is_letter c = (leb b'A' c && leb c b'Z') || (leb b'a' c && leb c b'z')

is_digit : ℕ → Bool
is_digit c = leb b'0' c && leb c b'9'

-- A character of [A-Za-z0-9._%+\-].
is_local_char : ℕ → Bool
is_local_char c =
    is_letter c || is_digit c || eqb c b'.' || eqb c b'_' || eqb c b'%' || eqb c b'+' || eqb c b'-'

-- How many letters follow the last dot that could start the last label; none where another
-- character followed it.
abbrev next_label : ℕ → ℕ → Option ℕ → Option ℕ
next_label c before label =
    if eqb c b'.'
    then (if eqb before 0 then none else some 0)
    else if is_letter c
    then elim label [ none ↦ none | some k ↦ some (k + 1) ]
    else none

-- The part [A-Za-z0-9.\-]+\.[A-Za-z]{2,}$ of the pattern, after `before` characters.
domain : ℕ → Option ℕ → String → Bool
domain before label [] = elim label [ none ↦ false | some k ↦ leb 2 k ]
domain before label (c ∷ s) =
    (is_letter (code c) || is_digit (code c) || eqb (code c) b'.' || eqb (code c) b'-')
    && domain (before + 1) (next_label (code c) before label) s

-- The whole pattern, after `before` characters of the part in front of the `@`.
address : ℕ → String → Bool
address before [] = false
address before (c ∷ s) =
    let more = address (before + 1) s in
    if eqb (code c) b'@'
    then not (eqb before 0) && domain 0 none s
    else is_local_char (code c) && more

-- ValidateEmail: not empty, at most 254 bytes, and of the pattern
-- ^[A-Za-z0-9._%+\-]+@[A-Za-z0-9.\-]+\.[A-Za-z]{2,}$.
unfoldable pub valid_email : String → Bool
unfolding is_letter is_digit is_local_char domain address trim_space
valid_email email =
    let trimmed = trim_space email in
    not (trimmed == "") && not (ltb 254 (len trimmed)) && address 0 trimmed

valid_email_examples :
    (valid_email " a.b+c@ex-1.example.com " ≡ true)
    × (valid_email "a@b.c" ≡ false)
    × (valid_email "a@.com" ≡ false)
    × (valid_email "@b.com" ≡ false)
    × (valid_email "a@b@c.de" ≡ false)
unfolding valid_email
valid_email_examples = (refl, refl, refl, refl, refl)
