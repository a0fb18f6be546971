-- ===== src/Core/StringSet/Bags.antt =====
-- What sameStringSet of runtime/core/service.go compares: two lists as bags of trimmed ids.
use gensoulkyo.Base.{
  ℕ, suc, ◌+◌, ◌≤◌, ◌≡◌, ◌↔◌, ◌⊎◌, inl, inr, refl, String, Bool, true, false, not, none, List, [],
  ◌∷◌, ◌==◌, eq_refl, eq_iff, Dict, lookup, value, trim_space, eqb, if◌then◌else◌, length, arith,
  Bool-cases, Option-cases, if_rule,
}
use gensoulkyo.Core.StringSet.{count_up, count_down, all_zero, drained, same_string_set}
use gensoulkyo.Core.StringSet.Counts.{
  count, HasNames, count_up-value, count_up-HasNames, count_up-some, count_down-value,
  count_down-HasNames, count_down-some,
}

all_zero-some :
    (seen rest : Dict ℕ) → ((id : String) → value id seen ≡ 0) → all_zero seen rest ≡ true
unfolding all_zero
all_zero-some seen [] zeros = refl
all_zero-some seen ((id, count) ∷ rest) zeros = rw (zeros id, all_zero-some seen rest zeros)

all_zero-value :
    (seen rest : Dict ℕ) (id : String)
    → all_zero seen rest ≡ true
    → (lookup id rest ≡ none) ⊎ (value id seen ≡ 0)
unfolding all_zero lookup
all_zero-value seen [] id h = inl refl
all_zero-value seen ((key, n) ∷ rest) id h = elim (Bool-cases (key == id)) [
  | inl same ↦ inr (ground (arith, same, eq_iff key id))
  | inr other ↦ rw other (all_zero-value seen rest id (ground arith))
]

zero-of-all_zero : (seen : Dict ℕ) → all_zero seen seen ≡ true → (id : String) → value id seen ≡ 0
unfolding value
zero-of-all_zero seen h id = elim (all_zero-value seen seen id h) [
  | inl absent ↦ rw absent
  | inr found ↦ found
]

-- Two lists have the same trimmed ids, each as often.
abbrev pub SameIds : List String → List String → Type 0
SameIds left right = (id : String) → count id left ≡ count id right

-- A list without the first place of an id.
remove : String → List String → List String
remove id [] = []
remove id (text ∷ texts) =
    let rest = remove id texts in if trim_space text == id then texts else text ∷ rest

length-remove :
    (id : String) (texts : List String)
    → 1 ≤ count id texts
    → length texts ≡ suc (length (remove id texts))
unfolding remove count
length-remove id [] h = absurd (omega arith)
length-remove id (text ∷ texts) h = ground (arith, length-remove id texts)

count-remove :
    (id v : String) (texts : List String)
    → 1 ≤ count id texts
    → count v texts ≡ (if id == v then 1 else 0) + count v (remove id texts)
unfolding remove count
count-remove id v [] h = absurd (omega arith)
count-remove id v (text ∷ texts) h = ground (
  arith,
  count-remove id v texts,
  eq_iff (trim_space text) id,
  eq_iff (trim_space text) v,
  eq_iff id v,
)

SameIds-length : (left right : List String) → SameIds left right → length left ≡ length right
unfolding count
SameIds-length [] [] same = refl
SameIds-length [] (text ∷ texts) same =
    absurd (ground (arith, same (trim_space text), eq_refl (trim_space text)))
SameIds-length (text ∷ texts) right same =
    let id = trim_space text in
    let some_there : 1 ≤ count id right = ground (arith, same id, eq_refl id) in
    omega (
      arith,
      length-remove id right some_there,
      SameIds-length texts (remove id right)
          (λ v. ground (arith, same v, count-remove id v right some_there)),
    )

drained_holds :
    (left right : List String)
    → drained (count_up [] left) right ≡ true
    → HasNames left × HasNames right × SameIds left right
unfolding value lookup
drained_holds left right h = elim (Option-cases (count_up [] left)) [
  | inl none_up ↦ absurd_case (rw none_up at h)
  | inr (seen, up) ↦ elim (Option-cases (count_down seen right)) [
    | inl none_down ↦ absurd_case (rw (up, none_down) at h)
    | inr (after, down) ↦
        let zeros = zero-of-all_zero after (rw (up, down) at h) in
        (
          count_up-HasNames left [] seen up,
          count_down-HasNames right seen after down,
          λ id. omega (
            arith,
            count_up-value left [] seen id up,
            count_down-value right seen after id down,
            zeros id,
          ),
        )
  ]
]
  where
    absurd_case : {P : Type 0} → false ≡ true → P
    absurd_case e = absurd (cc)

drained_decides :
    (left right : List String)
    → HasNames left
    → HasNames right
    → SameIds left right
    → drained (count_up [] left) right ≡ true
unfolding value lookup
drained_decides left right left_named right_named same =
    let (seen, up) = count_up-some left [] left_named in
    let counts = λ (id : String). count_up-value left [] seen id up in
    let (after, down) =
      count_down-some right seen right_named (λ id. omega (arith, counts id, same id)) in
    rw (up, down)
      (all_zero-some after after
        (λ id. omega (arith, counts id, same id, count_down-value right seen after id down)))

-- Two lists of ids are the same for sameStringSet exactly when no id is blank and every id stands as
-- often in the one as in the other, after trimming, in any order.
pub same_string_set_iff :
    (left right : List String)
    → (same_string_set left right ≡ true) ↔ (HasNames left × HasNames right × SameIds left right)
unfolding same_string_set
same_string_set_iff left right = (
  if_rule (λ (b : Bool). b ≡ true → HasNames left × HasNames right × SameIds left right)
      (not (eqb (length left) (length right))) (λ e h. cc) (λ e h. drained_holds left right h),
  λ all.
      let same_length : not (eqb (length left) (length right)) ≡ false =
        ground (arith, SameIds-length left right all.2) in
      rw same_length (drained_decides left right all.0 all.1 all.2),
)
