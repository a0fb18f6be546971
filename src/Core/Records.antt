-- ===== src/Core/Records.antt =====
-- The personal records of runtime/core/records.go: newPlayerRecords, ensure and record. Scores and
-- counts are 64-bit patterns; what an entry only carries along is left out.
pub mod History
use gensoulkyo.Base.{
  ℕ, zero, suc, String, Bool, Option, none, some, List, [], ◌∷◌, ◌==◌, if◌then◌else◌, ltb, length,
}
use gensoulkyo.Base.Int64.{add64, lt64}

-- MatchHistoryEntry
pub record Entry : Type 0 where
  pub match_id : String
  pub result : String
  pub score : ℕ
  pub graze_count : ℕ
  pub hit_count : ℕ
  pub damage_dealt : ℕ
  pub card_plays : ℕ

pub record PlayerRecords : Type 0 where
  pub matches_played : ℕ
  pub wins : ℕ
  pub losses : ℕ
  pub draws : ℕ
  pub best_score : ℕ
  pub total_score : ℕ
  pub total_graze : ℕ
  pub total_hits : ℕ
  pub total_damage_dealt : ℕ
  pub total_card_plays : ℕ
  pub recent : List Entry

abbrev pub history_limit : ℕ
history_limit = 20

unfoldable pub new_player_records : PlayerRecords
new_player_records = record {
  matches_played = 0;
  wins = 0;
  losses = 0;
  draws = 0;
  best_score = 0;
  total_score = 0;
  total_graze = 0;
  total_hits = 0;
  total_damage_dealt = 0;
  total_card_plays = 0;
  recent = [];
}

-- ensure, on a pointer that may be nil
unfoldable pub ensure : Option PlayerRecords → PlayerRecords
ensure none = new_player_records
ensure (some r) = r

-- list[:n]
unfoldable pub take : ℕ → List Entry → List Entry
take zero entries = []
take (suc n) [] = []
take (suc n) (e ∷ entries) = e ∷ take n entries

abbrev pub counted : String → Entry → ℕ → ℕ
counted result e n = if e.result == result then add64 n 1 else n

-- record; the results of the source's switch exclude each other.
unfoldable pub record_entry : PlayerRecords → Entry → PlayerRecords
record_entry r e =
    let recent = e ∷ r.recent in
    record {
      matches_played = add64 r.matches_played 1;
      wins = counted "win" e r.wins;
      losses = counted "loss" e r.losses;
      draws = counted "draw" e r.draws;
      best_score = if lt64 r.best_score e.score then e.score else r.best_score;
      total_score = add64 r.total_score e.score;
      total_graze = add64 r.total_graze e.graze_count;
      total_hits = add64 r.total_hits e.hit_count;
      total_damage_dealt = add64 r.total_damage_dealt e.damage_dealt;
      total_card_plays = add64 r.total_card_plays e.card_plays;
      recent = if ltb history_limit (length recent) then take history_limit recent else recent;
    }
