-- ===== src/Core/Records/History.antt =====
-- The personal records of runtime/core/records.go against the list of matches that made them.
use gensoulkyo.Base.{
  ℕ, zero, suc, ◌+◌, ◌%◌, ◌≤◌, ◌<◌, ◌≡◌, refl, ap, ◌∙◌, String, List, [], ◌∷◌, ◌==◌, if◌then◌else◌,
  if_rule, ltb, length, All, arith,
}
use gensoulkyo.Base.Int64.{word, half, add64, lt64_exact}
use gensoulkyo.Core.Records.{
  Entry, PlayerRecords, history_limit, new_player_records, take, counted, record_entry,
}

-- The records after the matches of a list, the newest first.
unfoldable pub recorded : List Entry → PlayerRecords
recorded [] = new_player_records
recorded (e ∷ older) = record_entry (recorded older) e

abbrev pub sum_of : (Entry → ℕ) → List Entry → ℕ
sum_of f [] = 0
sum_of f (e ∷ older) = f e + sum_of f older

abbrev pub count_of : String → List Entry → ℕ
count_of result [] = 0
count_of result (e ∷ older) = (if e.result == result then 1 else 0) + count_of result older

-- The best score of a list, at least 0.
abbrev pub best_of : List Entry → ℕ
best_of [] = 0
best_of (e ∷ older) = if ltb (best_of older) e.score then e.score else best_of older

-- What the records say of the matches: how many there were and how they ended, the sums as 64-bit
-- integers, the best score and the newest 20 matches in their order.
pub record Tells (matches : List Entry) (r : PlayerRecords) : Type 0 where
  pub played : r.matches_played ≡ length matches % word
  pub won : r.wins ≡ count_of "win" matches % word
  pub lost : r.losses ≡ count_of "loss" matches % word
  pub drawn : r.draws ≡ count_of "draw" matches % word
  pub best : r.best_score ≡ best_of matches
  pub score : r.total_score ≡ sum_of (λ e. e.score) matches % word
  pub graze : r.total_graze ≡ sum_of (λ e. e.graze_count) matches % word
  pub hits : r.total_hits ≡ sum_of (λ e. e.hit_count) matches % word
  pub damage : r.total_damage_dealt ≡ sum_of (λ e. e.damage_dealt) matches % word
  pub plays : r.total_card_plays ≡ sum_of (λ e. e.card_plays) matches % word
  pub recent : r.recent ≡ take history_limit matches

take-take : (n : ℕ) (es : List Entry) → take n (take (suc n) es) ≡ take n es
unfolding take
take-take zero es = refl
take-take (suc n) [] = refl
take-take (suc n) (e ∷ es) = ap (λ rest. e ∷ rest) (take-take n es)

take_short : (n : ℕ) (es : List Entry) → length (take (suc n) es) ≤ n → take (suc n) es ≡ take n es
unfolding take
take_short zero [] h = refl
take_short zero (e ∷ es) h = absurd (omega arith)
take_short (suc n) [] h = refl
take_short (suc n) (e ∷ es) h = ap (λ rest. e ∷ rest) (take_short n es (omega arith))

recent_lem :
    (e : Entry) (es : List Entry)
    → (if ltb history_limit (length (e ∷ take history_limit es))
        then take history_limit (e ∷ take history_limit es)
        else e ∷ take history_limit es)
      ≡ take history_limit (e ∷ es)
unfolding take
recent_lem e es =
    if_rule (λ (l : List Entry). l ≡ take history_limit (e ∷ es))
      (ltb history_limit (length (e ∷ take history_limit es)))
      (λ long. ap (λ rest. e ∷ rest) (take-take 19 es))
      (λ short. ap (λ rest. e ∷ rest) (take_short 19 es (ground (arith, short))))

best-half : (matches : List Entry) → All (λ e. e.score < half) matches → best_of matches < half
best-half [] h = omega arith
best-half (e ∷ older) h = ground (arith, best-half older h.1, h.0)

add_sum : (a x s : ℕ) → a ≡ s % word → add64 a x ≡ (x + s) % word
unfolding add64
add_sum a x s h = omega arith

add_count :
    (result : String) (e : Entry) (n : ℕ) (older : List Entry)
    → n ≡ count_of result older % word
    → counted result e n ≡ count_of result (e ∷ older) % word
unfolding add64
add_count result e n older h = ground arith

-- The records of a player are those of the matches that were recorded, in any number: the counts
-- and sums as 64-bit integers, the best of the scores, which are not negative, and the newest 20 matches.
pub recorded-Tells :
    (matches : List Entry) → All (λ e. e.score < half) matches → Tells matches (recorded matches)
unfolding recorded record_entry new_player_records take
recorded-Tells [] h = record {
  played = refl;
  won = refl;
  lost = refl;
  drawn = refl;
  best = refl;
  score = refl;
  graze = refl;
  hits = refl;
  damage = refl;
  plays = refl;
  recent = refl;
}
recorded-Tells (e ∷ older) h =
    let t = recorded-Tells older h.1 in
    let r = recorded older in
    record {
      played =
          add_sum r.matches_played 1 (length older) t.played ∙ ap (λ n. n % word) (omega arith);
      won = add_count "win" e r.wins older t.won;
      lost = add_count "loss" e r.losses older t.lost;
      drawn = add_count "draw" e r.draws older t.drawn;
      best = rw (t.best, lt64_exact (best_of older) e.score (best-half older h.1) h.0) refl;
      score = add_sum r.total_score e.score (sum_of (λ e. e.score) older) t.score;
      graze = add_sum r.total_graze e.graze_count (sum_of (λ e. e.graze_count) older) t.graze;
      hits = add_sum r.total_hits e.hit_count (sum_of (λ e. e.hit_count) older) t.hits;
      damage =
          add_sum r.total_damage_dealt e.damage_dealt (sum_of (λ e. e.damage_dealt) older) t.damage;
      plays = add_sum r.total_card_plays e.card_plays (sum_of (λ e. e.card_plays) older) t.plays;
      recent = rw t.recent (recent_lem e older);
    }
