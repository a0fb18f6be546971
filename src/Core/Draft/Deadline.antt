-- ===== src/Core/Draft/Deadline.antt =====
-- The deadline of a round: resolveDraftTimeoutLocked of runtime/core/battle_draft.go.
use gensoulkyo.Base.{
  ℕ, ◌≤◌, ◌≡◌, ◌≢◌, refl, sym, String, true, false, ◌||◌, some, ◌==◌, eq_iff, lookup, contains, ltb,
  arith, Bool-cases, Option-cases, ◌⊎◌, inl, inr, ◌∙◌, ap, subst, if◌then◌else◌,
}
use gensoulkyo.Core.Cards.{member_of}
use gensoulkyo.Core.Draft.{
  auto_draft_pick, auto_seat, fill_seat, grant_draft, resolve, resolve_draft_timeout,
}
use gensoulkyo.Core.DraftMatch.{Match, Round, Player, append_match_event}
use gensoulkyo.Core.Draft.Delivery.{HasCard, grant_draft-HasCard}
use gensoulkyo.Core.Draft.Seats.{IsExhausted, Filled, granted-Filled, both, both-Filled}
use gensoulkyo.Core.Draft.Reached.{simulate, step}

module _ (sha256_hex : String → String) where
  auto_seat-players :
      (m : Match) (r : Round) (u : String) → (auto_seat sha256_hex (m, r) u).0.players ≡ m.players
  unfolding auto_seat fill_seat append_match_event
  auto_seat-players m r u = elim (Bool-cases (u == "" || contains u r.picks)) [
    | inl filled ↦ rw filled refl
    | inr empty ↦ elim (Option-cases (auto_draft_pick sha256_hex m r)) [
      | inl unpicked ↦ rw (empty, unpicked) refl
      | inr (card, picked) ↦ rw (empty, picked) refl
    ]
  ]

  delivered :
      (m : Match) (r : Round) (tick : ℕ) (u : String) (p : Player)
      → (u ≡ r.first_user) ⊎ (u ≡ r.second_user)
      → u ≢ ""
      → member_of "" r.candidates ≡ false
      → lookup u m.players ≡ some p
      → let two = auto_seat sha256_hex (auto_seat sha256_hex (m, r) r.first_user) r.second_user in
        ((c : String) × (lookup u two.1.picks ≡ some c)
          × ((c ≡ "") ⊎ HasCard (grant_draft two.0 two.1 tick) u c))
        ⊎ IsExhausted two.1
  delivered m r tick u p seat named real there =
      let one = auto_seat sha256_hex (m, r) r.first_user in
      let two = auto_seat sha256_hex one r.second_user in
      let (f, picks) = both sha256_hex m r u seat named real in
      let same : two.0.players ≡ m.players =
        auto_seat-players one.0 one.1 r.second_user ∙ auto_seat-players m r r.first_user in
      elim picks [
        | inr over ↦ inr over
        | inl picked ↦ elim (Option-cases (lookup u two.1.picks)) [
          | inl missing ↦ absurd (ground (arith, missing, picked))
          | inr (c, found) ↦ inl (
            c,
            found,
            elim (Bool-cases (c == "")) [
              | inl blank ↦ inl (ground (arith, blank, eq_iff c ""))
              | inr written ↦ inr (
                  grant_draft-HasCard two.0 two.1 tick u c p
                    (elim seat [ inl e ↦ inl (e ∙ sym f.first) | inr e ↦ inr (e ∙ sym f.second) ])
                    named found (ground (arith, written, eq_iff c "")) (rw same there))
            ],
          )
        ]
      ]

  -- What a round becomes when its deadline is reached.
  pub resolve_due :
      (m : Match) (r : Round) (tick : ℕ)
      → m.draft ≡ some r
      → r.granted ≡ false
      → r.choice_deadline_tick ≤ tick
      → let two =
          auto_seat sha256_hex
            (auto_seat sha256_hex (record m { tick = tick }, r) r.first_user)
            r.second_user in
        step sha256_hex m (simulate tick) ≡ grant_draft two.0 two.1 tick
  unfolding step resolve_draft_timeout resolve
  resolve_due m r tick here waiting due =
      let late : (r.granted || ltb tick r.choice_deadline_tick) ≡ false = ground arith in
      ap (λ o. resolve sha256_hex (record m { tick = tick }) o) here
      ∙ ap
          (λ b.
            if b
            then record m { tick = tick }
            else grant_draft
                (auto_seat sha256_hex
                  (auto_seat sha256_hex (record m { tick = tick }, r) r.first_user) r.second_user).0
                (auto_seat sha256_hex
                  (auto_seat sha256_hex (record m { tick = tick }, r) r.first_user) r.second_user).1
                tick)
          late

  -- A deadline that the simulation has reached closes an open round, whoever has picked. The seats, the
  -- candidates and the picks of the round stay; and a user with a seat and a name, who is in the
  -- match, has a pick then, and its card, unless it is blank, in the hand or waiting for a place
  -- there, but where every candidate is somebody's pick. It takes candidates that are not blank.
  pub deadline_closes :
      (m : Match) (r : Round) (tick : ℕ) (user_id : String) (p : Player)
      → m.draft ≡ some r
      → r.granted ≡ false
      → r.choice_deadline_tick ≤ tick
      → (user_id ≡ r.first_user) ⊎ (user_id ≡ r.second_user)
      → user_id ≢ ""
      → member_of "" r.candidates ≡ false
      → lookup user_id m.players ≡ some p
      → let after = step sha256_hex m (simulate tick) in
        (closed : Round) × (after.draft ≡ some closed)
        × (closed.granted ≡ true)
        × Filled r closed
        × (((c : String) × (lookup user_id closed.picks ≡ some c)
              × ((c ≡ "") ⊎ HasCard after user_id c))
            ⊎ IsExhausted closed)
  unfolding grant_draft IsExhausted
  deadline_closes m r tick user_id p here waiting due seat named real there =
      let m' : Match = record m { tick = tick } in
      let one = auto_seat sha256_hex (m', r) r.first_user in
      let closed : Round = record (auto_seat sha256_hex one r.second_user).1 { granted = true } in
      let f = both-Filled sha256_hex m' r in
      subst
        (λ after.
          (closed : Round) × (after.draft ≡ some closed)
          × (closed.granted ≡ true)
          × Filled r closed
          × (((c : String) × (lookup user_id closed.picks ≡ some c)
                × ((c ≡ "") ⊎ HasCard after user_id c))
              ⊎ IsExhausted closed))
        (sym (resolve_due m r tick here waiting due))
        (
          closed,
          refl,
          refl,
          granted-Filled r (auto_seat sha256_hex one r.second_user).1 f,
          delivered m' r tick user_id p seat named real there,
        )
