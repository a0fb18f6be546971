-- ===== src/Core/StringSet.antt =====
-- The comparison of two lists of ids, sameStringSet of runtime/core/service.go.
pub mod Counts
pub mod Bags
use gensoulkyo.Base.{
  ℕ, zero, suc, ◌+◌, ◌-◌, String, Bool, true, false, not, ◌&&◌, Option, none, some, List, [], ◌∷◌,
  ◌==◌, Dict, insert, value, trim_space, eqb, if◌then◌else◌, length,
}

-- The first loop: how often each trimmed id stands on the left; none where one is empty.
unfoldable pub count_up : Dict ℕ → List String → Option (Dict ℕ)
count_up seen [] = some seen
count_up seen (text ∷ texts) =
    let id = trim_space text in
    let rest = count_up (insert id (value id seen + 1) seen) texts in
    if id == "" then none else rest

-- The second loop: none where an id is empty, or stands more often on the right.
unfoldable pub count_down : Dict ℕ → List String → Option (Dict ℕ)
count_down seen [] = some seen
count_down seen (text ∷ texts) =
    let id = trim_space text in
    let rest = count_down (insert id (value id seen - 1) seen) texts in
    if id == "" then none else if eqb (value id seen) 0 then none else rest

-- The third loop, over the entries that are left.
unfoldable pub all_zero : Dict ℕ → Dict ℕ → Bool
all_zero seen [] = true
all_zero seen ((id, count) ∷ rest) = eqb (value id seen) 0 && all_zero seen rest

abbrev pub settled : Option (Dict ℕ) → Bool
settled none = false
settled (some seen) = all_zero seen seen

abbrev pub drained : Option (Dict ℕ) → List String → Bool
drained none right = false
drained (some seen) right = settled (count_down seen right)

-- sameStringSet
unfoldable pub same_string_set : List String → List String → Bool
same_string_set left right =
    if not (eqb (length left) (length right)) then false else drained (count_up [] left) right
