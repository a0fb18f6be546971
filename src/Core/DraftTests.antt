-- ===== src/Core/DraftTests.antt =====
-- The theorems on the card draft (runtime/core/battle_draft.go) at a concrete match.
use gensoulkyo.Base.{
  ◌≡◌, refl, arith, String, Bool, true, false, none, some, List, [], ◌∷◌, length, differ, lookup,
  ◌⊎◌, inr, trim_space,
}
use gensoulkyo.Core.DraftPool.{positions}
use gensoulkyo.Core.DraftPool.Drawn.{AreFresh, draw_distinct}
use gensoulkyo.Core.DraftPicks.{
  PickPayload, err, not_designated, apply_mixed_pool_draft_pick, record_draft_defeat,
  draft_pick_card_id,
}
use gensoulkyo.Core.DraftMatch.{Match, Round, Player}
use gensoulkyo.Core.Draft.Picks.{IsDraft}
use gensoulkyo.Core.Draft.Reached.{Call, report, pick, simulate, step, run, run-IsDraft}
use gensoulkyo.Core.Draft.Seats.{IsExhausted, Filled}
use gensoulkyo.Core.Draft.Delivery.{HasCard}
use gensoulkyo.Core.Draft.Deadline.{deadline_closes}
use gensoulkyo.Core.Draft.Grants.{grant_once, late_first_blocked}

abbrev digest : String → String
digest text = "9f86d081884c7d65"

abbrev player : Player
player = record {
  deck_card_ids = "last_arc" ∷ "aim_baffle" ∷ "iron_veil" ∷ "frost_arc" ∷ [];
  hand = [];
  pending_grants = [];
}

abbrev before : Match
before = record {
  mode_id = "battle_royale";
  tick = 0;
  server_seed = 7;
  player_ids = "ann" ∷ "bob" ∷ [];
  players = ("ann", player) ∷ ("bob", player) ∷ [];
  draft = none;
  draft_round_seq = 0;
  next_event_seq = 0;
  last_events = [];
  event_log = [];
}

abbrev payload : String → PickPayload
payload card_id = record { card_id = card_id; candidate_index = none }

-- Ann has picked and waits for the other seat.
abbrev waiting : Bool → Round
waiting granted = record {
  round_index = 1;
  boss_id = "boss";
  candidates = "last_arc" ∷ "aim_baffle" ∷ "iron_veil" ∷ [];
  pool_hash = "";
  first_user = "ann";
  second_user = "";
  first_defeat_tick = 50;
  same_tick_tiebreak = false;
  picks = ("ann", "aim_baffle") ∷ [];
  granted = granted;
  choice_deadline_tick = 1850;
}

abbrev during : Bool → Match
during granted = record before { draft = some (waiting granted) }

abbrev calls : List Call
calls =
    report "ann" "boss" 50
    ∷ pick "ann" (record { card_id = "<nil>"; candidate_index = some 0 })
    ∷ report "bob" "boss" 40
    ∷ simulate 1900
    ∷ []

run-IsDraft_example : IsDraft (run digest before calls)
run-IsDraft_example =
    run-IsDraft digest before calls refl (differ refl, (tt, (differ refl, (tt, tt))))

-- Bob picks, reports the boss and lets time pass after the deadline.
abbrev afterwards : List Call
afterwards = pick "bob" (payload "last_arc") ∷ report "bob" "boss" 40 ∷ simulate 1900 ∷ []

grant_once_example :
    let closed = step digest (during false) (simulate 1850) in
    let after = run digest closed afterwards in
    (after.draft ≡ closed.draft) × (after.players ≡ closed.players)
grant_once_example =
    grant_once digest (during false) (waiting false) 1850 afterwards refl (omega arith)
      (tt, (refl, (tt, tt)))

-- Nobody has picked, and the deadline picks for both seats.
abbrev unpicked : Round
unpicked = record (waiting false) { second_user = "bob"; picks = [] }

deadline_closes_example :
    let after = step digest (record before { draft = some unpicked }) (simulate 1850) in
    (closed : Round) × (after.draft ≡ some closed)
    × (closed.granted ≡ true)
    × Filled unpicked closed
    × (((c : String) × (lookup "bob" closed.picks ≡ some c) × ((c ≡ "") ⊎ HasCard after "bob" c))
        ⊎ IsExhausted closed)
unfolding lookup
deadline_closes_example =
    deadline_closes digest (record before { draft = some unpicked }) unpicked 1850 "bob" player refl
      refl (omega arith) (inr refl) (differ refl) refl refl

late_first_blocked_example :
    let after = record_draft_defeat (during false) (waiting false) "bob" 40 in
    ((r' : Round) × (after.draft ≡ some r')
      × (r'.first_user ≡ "bob")
      × (r'.second_user ≡ "ann")
      × (r'.picks ≡ ("ann", "aim_baffle") ∷ []))
    × (apply_mixed_pool_draft_pick after "bob" (payload "last_arc") ≡ err not_designated)
unfolding draft_pick_card_id trim_space
late_first_blocked_example =
    late_first_blocked (during false) (waiting false) "bob" "last_arc" "aim_baffle" 40
      (payload "last_arc") refl refl refl refl (differ refl) (omega arith) refl

draw_distinct_example :
    AreFresh 5 [] (positions digest 7 50 1 5 0 3 [])
    × (length (positions digest 7 50 1 5 0 3 []) ≡ 3)
draw_distinct_example = draw_distinct digest 7 50 1 5

abbrev full_hand : Player
full_hand = record {
  deck_card_ids = [];
  hand = "a" ∷ "b" ∷ "c" ∷ [];
  pending_grants = "d" ∷ "e" ∷ [];
}
