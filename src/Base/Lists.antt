-- ===== src/Base/Lists.antt =====
-- Lists measured and cut by native numbers, and predicates on lists by recursion.
use Prim.Native.Nat.{ℕ, zero, suc, ◌+◌, ◌-◌, ◌≤◌}
use native.Mathlib.Nat.{zero-add, suc-add}
use mathlib.Core.Path.{◌≡◌, refl, sym, ap, ◌∙◌}
use mathlib.Core.List.{List, [], ◌∷◌, ◌++◌}
use native.Mathlib.Omega.{arith}

module _ {ℓ} {A : Type ℓ} where
  abbrev pub length : List A → ℕ
  length [] = 0
  length (x ∷ xs) = suc (length xs)

  abbrev pub drop : ℕ → List A → List A
  drop zero xs = xs
  drop (suc n) [] = []
  drop (suc n) (x ∷ xs) = drop n xs

  pub length-append : (xs ys : List A) → length (xs ++ ys) ≡ length xs + length ys
  length-append [] ys = omega arith
  length-append (x ∷ xs) ys = omega (arith, length-append xs ys)

  pub length-drop : (n : ℕ) (xs : List A) → length (drop n xs) ≡ length xs - n
  length-drop zero xs = omega arith
  length-drop (suc n) [] = omega arith
  length-drop (suc n) (x ∷ xs) = omega (arith, length-drop n xs)

abbrev pub All {ℓ κ} : {A : Type ℓ} → (A → Type κ) → List A → Type κ
All P [] = Unit
All P (x ∷ xs) = P x × All P xs

module _ {ℓ} {A : Type ℓ} where
  drop-nil : (n : ℕ) → drop {A = A} n [] ≡ []
  drop-nil zero = refl
  drop-nil (suc n) = refl

  drop-drop : (m n : ℕ) (xs : List A) → drop m (drop n xs) ≡ drop (n + m) xs
  drop-drop m zero xs = rw zero-add
  drop-drop m (suc n) [] = rw (drop-nil m, drop-nil (suc n + m))
  drop-drop m (suc n) (x ∷ xs) = rw (suc-add, drop-drop m n xs)

  drop-append : (n : ℕ) (xs ys : List A) → n ≤ length xs → drop n (xs ++ ys) ≡ drop n xs ++ ys
  drop-append zero xs ys h = refl
  drop-append (suc n) [] ys h = absurd (omega arith)
  drop-append (suc n) (x ∷ xs) ys h = drop-append n xs ys (omega arith)

  -- The last `limit` entries: what is left when a list is cut from the front down to `limit`.
  abbrev pub keep_last : ℕ → List A → List A
  keep_last limit xs = drop (length xs - limit) xs

  pub length-keep_last : (limit : ℕ) (xs : List A) → length (keep_last limit xs) ≤ limit
  length-keep_last limit xs = omega (arith, length-drop (length xs - limit) xs)

  pub keep_last_short : (limit : ℕ) (xs : List A) → length xs ≤ limit → keep_last limit xs ≡ xs
  keep_last_short limit xs h = let e : length xs - limit ≡ 0 = omega arith in rw e

  -- Cutting early makes no difference to what a later cut leaves.
  pub keep_last_append :
      (limit : ℕ) (xs ys : List A)
      → keep_last limit (keep_last limit xs ++ ys) ≡ keep_last limit (xs ++ ys)
  keep_last_append limit xs ys =
      let d = length xs - limit in
      let n = length (drop d xs ++ ys) - limit in
      let sum : d + n ≡ length (xs ++ ys) - limit =
        omega (arith, length-append (drop d xs) ys, length-append xs ys, length-drop d xs) in
      ap (drop n) (sym (drop-append d xs ys (omega arith)))
      ∙ drop-drop n d (xs ++ ys)
      ∙ ap (λ k. drop k (xs ++ ys)) sum

pub All-snoc {ℓ κ} :
    {A : Type ℓ} (P : A → Type κ) (xs : List A) (x : A) → All P xs → P x → All P (xs ++ x ∷ [])
All-snoc P [] x h new = (new, tt)
All-snoc P (y ∷ xs) x h new = (h.0, All-snoc P xs x h.1 new)
