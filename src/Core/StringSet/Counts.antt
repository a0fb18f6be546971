-- ===== src/Core/StringSet/Counts.antt =====
-- The counts that the loops of sameStringSet of runtime/core/service.go keep.
use gensoulkyo.Base.{
  ℕ, ◌+◌, ◌-◌, ◌≤◌, ◌≡◌, ◌≢◌, refl, String, false, Option, some, List, [], ◌∷◌, ◌==◌, eq_refl,
  eq_iff, Dict, insert, value, value-insert, trim_space, eqb, if◌then◌else◌, arith, All, if_rule,
  differ,
}
use gensoulkyo.Core.StringSet.{count_up, count_down}

-- How often an id stands in a list, after trimming.
unfoldable pub count : String → List String → ℕ
count id [] = 0
count id (text ∷ texts) = (if trim_space text == id then 1 else 0) + count id texts

-- A list of ids none of which is blank.
abbrev pub HasNames : List String → Type 0
HasNames texts = All (λ text. trim_space text ≢ "") texts

named : (text : String) → text ≢ "" → (text == "") ≡ false
named text h = ground (arith, eq_iff text "")

pub count_up-value :
    (texts : List String) (seen after : Dict ℕ) (id : String)
    → count_up seen texts ≡ some after
    → value id after ≡ value id seen + count id texts
unfolding count_up count
count_up-value [] seen after id = λ h. let same : seen ≡ after = cc in rw same (omega arith)
count_up-value (text ∷ texts) seen after id =
    let new = trim_space text in
    let next = insert new (value new seen + 1) seen in
    if_rule
      (λ (o : Option (Dict ℕ)).
        o ≡ some after
        → value id after ≡ value id seen + ((if new == id then 1 else 0) + count id texts))
      (new == "") (λ e h. cc)
      (λ e h.
        let ih = count_up-value texts next after id h in
        ground (arith, ih, value-insert new id (value new seen + 1) seen, eq_iff new id))

pub count_up-HasNames :
    (texts : List String) (seen after : Dict ℕ) → count_up seen texts ≡ some after → HasNames texts
unfolding count_up
count_up-HasNames [] seen after = λ h. tt
count_up-HasNames (text ∷ texts) seen after =
    let new = trim_space text in
    if_rule (λ (o : Option (Dict ℕ)). o ≡ some after → HasNames (text ∷ texts)) (new == "")
      (λ e h. cc)
      (λ e h. (differ e, count_up-HasNames texts (insert new (value new seen + 1) seen) after h))

pub count_up-some :
    (texts : List String) (seen : Dict ℕ)
    → HasNames texts
    → (after : Dict ℕ) × (count_up seen texts ≡ some after)
unfolding count_up
count_up-some [] seen h = (seen, refl)
count_up-some (text ∷ texts) seen h =
    let new = trim_space text in
    rw (named new h.0) (count_up-some texts (insert new (value new seen + 1) seen) h.1)

-- The second loop takes off what it meets.
pub count_down-value :
    (texts : List String) (seen after : Dict ℕ) (id : String)
    → count_down seen texts ≡ some after
    → value id after + count id texts ≡ value id seen
unfolding count_down count
count_down-value [] seen after id = λ h. let same : seen ≡ after = cc in rw same (omega arith)
count_down-value (text ∷ texts) seen after id =
    let new = trim_space text in
    let next = insert new (value new seen - 1) seen in
    let Goal = λ (o : Option (Dict ℕ)).
      o ≡ some after
      → value id after + ((if new == id then 1 else 0) + count id texts) ≡ value id seen in
    if_rule Goal (new == "") (λ e h. cc)
      (λ e.
        if_rule Goal (eqb (value new seen) 0) (λ e h. cc)
          (λ some_left h.
            let ih = count_down-value texts next after id h in
            ground
              (arith, ih, some_left, value-insert new id (value new seen - 1) seen, eq_iff new id)))

pub count_down-HasNames :
    (texts : List String) (seen after : Dict ℕ)
    → count_down seen texts ≡ some after
    → HasNames texts
unfolding count_down
count_down-HasNames [] seen after = λ h. tt
count_down-HasNames (text ∷ texts) seen after =
    let new = trim_space text in
    let Goal = λ (o : Option (Dict ℕ)). o ≡ some after → HasNames (text ∷ texts) in
    if_rule Goal (new == "") (λ e h. cc)
      (λ e.
        if_rule Goal (eqb (value new seen) 0) (λ e h. cc)
          (λ some_left h.
            (differ e, count_down-HasNames texts (insert new (value new seen - 1) seen) after h)))

pub count_down-some :
    (texts : List String) (seen : Dict ℕ)
    → HasNames texts
    → ((id : String) → count id texts ≤ value id seen)
    → (after : Dict ℕ) × (count_down seen texts ≡ some after)
unfolding count_down count
count_down-some [] seen h enough = (seen, refl)
count_down-some (text ∷ texts) seen h enough =
    let new = trim_space text in
    let next = insert new (value new seen - 1) seen in
    let some_left : eqb (value new seen) 0 ≡ false = ground (arith, enough new, eq_refl new) in
    rw (named new h.0, some_left)
      (count_down-some texts next h.1 (λ id.
        ground (arith, enough id, value-insert new id (value new seen - 1) seen, eq_iff new id)))
