-- ===== src/Base/Maps.antt =====
-- Go's `map[string]V`, as an association list. A nil map reads like an empty one.
use Prim.Native.Nat.{ℕ}
use Prim.Native.String.{String}
use mathlib.Core.Path.{◌≡◌, refl}
use mathlib.Core.Logic.{◌≢◌, ◌⊎◌, inl, inr}
use mathlib.Core.Bool.{Bool, true, false}
use mathlib.Core.Option.{Option, none, some}
use mathlib.Core.List.{List, [], ◌∷◌}
use native.Mathlib.Omega.{arith}
use text.Mathlib.Text.{◌==◌}
use text.Mathlib.TextEquality.{eq_iff}
use text.Mathlib.TextPositions.{eq_refl}
use gensoulkyo.Base.Tests.{if◌then◌else◌, if_rule}

abbrev pub Dict {ℓ} : Type ℓ → Type ℓ
Dict V = List (String × V)

module _ {ℓ} {V : Type ℓ} where
  -- v, ok := m[k]
  unfoldable pub lookup : String → Dict V → Option V
  lookup key [] = none
  lookup key ((name, value) ∷ rest) = if name == key then some value else lookup key rest

  -- m[k] = v
  unfoldable pub insert : String → V → Dict V → Dict V
  insert key new [] = (key, new) ∷ []
  insert key new ((name, old) ∷ rest) =
      if name == key then (key, new) ∷ rest else (name, old) ∷ insert key new rest

  -- delete(m, k)
  unfoldable pub delete : String → Dict V → Dict V
  delete k [] = []
  delete k ((j, v) ∷ m) = let rest = delete k m in if j == k then rest else (j, v) ∷ rest

  abbrev pub is_some : Option V → Bool
  is_some none = false
  is_some (some v) = true

  -- _, ok := m[k]
  abbrev pub contains : String → Dict V → Bool
  contains k m = is_some (lookup k m)

  abbrev pub or_else : Option V → V → V
  or_else none d = d
  or_else (some v) d = v

  pub lookup-insert :
      (set get : String) (new : V) (dict : Dict V)
      → lookup get (insert set new dict) ≡ (if set == get then some new else lookup get dict)
  unfolding lookup insert
  lookup-insert set get new [] = refl
  lookup-insert set get new ((name, old) ∷ rest) =
      ground
        (arith, lookup-insert set get new rest, eq_iff name get, eq_iff name set, eq_iff set get)

  pub lookup-delete :
      (k j : String) (m : Dict V) → lookup j (delete k m) ≡ (if k == j then none else lookup j m)
  unfolding lookup delete
  lookup-delete k j [] = ground arith
  lookup-delete k j ((i, v) ∷ m) =
      ground (arith, lookup-delete k j m, eq_iff i k, eq_iff i j, eq_iff k j)

  pub lookup-insert_self : (k : String) (v : V) (m : Dict V) → lookup k (insert k v m) ≡ some v
  lookup-insert_self k v m = simp (lookup-insert, eq_refl)

  pub lookup-delete_self : (k : String) (m : Dict V) → lookup k (delete k m) ≡ none
  lookup-delete_self k m = simp (lookup-delete, eq_refl)

  pub lookup-insert_ne :
      (k j : String) (v : V) (m : Dict V) → k ≢ j → lookup j (insert k v m) ≡ lookup j m
  lookup-insert_ne k j v m h = ground (arith, lookup-insert k j v m, eq_iff k j)

  -- An entry after an insertion is the new one, or was there before.
  pub insert-cases :
      (set get : String) (new v : V) (dict : Dict V)
      → lookup get (insert set new dict) ≡ some v
      → ((set ≡ get) × (new ≡ v)) ⊎ (lookup get dict ≡ some v)
  insert-cases set get new v dict h =
      if_rule
        (λ (o : Option V). o ≡ some v → ((set ≡ get) × (new ≡ v)) ⊎ (lookup get dict ≡ some v))
        (set == get) (λ e h'. inl ((eq_iff set get).0 e, cc h')) (λ e h'. inr h')
        (rw (lookup-insert set get new dict) at h)

  -- A new key hides no entry.
  pub lookup-insert_fresh :
      (k j : String) (v w : V) (m : Dict V)
      → lookup k m ≡ none
      → lookup j m ≡ some v
      → lookup j (insert k w m) ≡ some v
  lookup-insert_fresh k j v w m h found = ground (arith, lookup-insert k j w m, eq_iff k j)

  -- An insertion removes no key.
  pub lookup-insert_still :
      (set get : String) (new old : V) (dict : Dict V)
      → lookup get dict ≡ some old
      → (v : V) × (lookup get (insert set new dict) ≡ some v)
  lookup-insert_still set get new old dict found = rw (lookup-insert set get new dict) (
      if_rule (λ (o : Option V). (v : V) × (o ≡ some v)) (set == get) (λ e. (new, refl))
        (λ e. (old, found)))

-- m[k] of a map of numbers: zero where the key is missing.
unfoldable pub value : String → Dict ℕ → ℕ
value k m = or_else (lookup k m) 0

pub value-insert :
    (k j : String) (v : ℕ) (m : Dict ℕ) → value j (insert k v m) ≡ (if k == j then v else value j m)
unfolding value
value-insert k j v m = ground (arith, lookup-insert k j v m)

pub value-insert_self : (k : String) (v : ℕ) (m : Dict ℕ) → value k (insert k v m) ≡ v
value-insert_self k v m = simp (value-insert, eq_refl)
