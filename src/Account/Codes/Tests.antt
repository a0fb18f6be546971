-- ===== src/Account/Codes/Tests.antt =====
-- The theorems on the verification codes (runtime/account/service.go) at concrete calls.
use gensoulkyo.Base.{
  ℕ, String, str_append, Option, none, some, List, [], ◌∷◌, ◌≡◌, ◌≢◌, ◌≤◌, ◌<◌, ◌+◌, refl, arith,
  ◌==◌, differ, lookup,
}
use gensoulkyo.Base.Window.{in_window}
use gensoulkyo.Account.Errors.{err, verification_required}
use gensoulkyo.Account.Codes.{
  PendingCode, Codes, new_codes, hour, hash_code, begin_send, drop_pending, consume_code,
}
use gensoulkyo.Account.Codes.Guesses.{consume_success, guess_all, guesses_bounded}
use gensoulkyo.Account.Codes.Sends.{Call, begin, consume, run, sent, sends_bounded}
use gensoulkyo.Account.Codes.Pending.{newer_code_survives}

abbrev keyed : String → String → String
keyed secret text = str_append secret text

abbrev service : Codes
service = new_codes "k" 1000 100 3 2

abbrev draw : Option (String × String)
draw = some ("123456", "s")

abbrev pending_code : ℕ → ℕ → PendingCode
pending_code id now = record {
  id = id;
  salt = "s";
  digest = hash_code keyed "k" "s" "123456";
  issued_at = now;
  expires_at = now + 1000;
  attempts = 0;
}

abbrev waiting : Codes
waiting = (begin_send keyed service "a@b" 5 draw).0

abbrev calls : List Call
calls =
    begin "a@b" 5 draw ∷ begin "a@b" 50 draw ∷ consume "a@b" "123456" 60 ∷ begin "a@b" 200 draw ∷ []

sends_bounded_example : in_window hour 300 (sent keyed "a@b" service calls) ≤ service.hourly
sends_bounded_example =
    sends_bounded keyed "k" 1000 100 3 2 calls "a@b" 300
      (omega arith, (omega arith, (omega arith, (omega arith, tt)))) (omega arith)

-- A wrong guess comes before the right one.
consume_success_example :
    let guessed =
      guess_all keyed (begin_send keyed service "a@b" 5 draw).0 "a@b" (("000000", 10) ∷ []) in
    (60 < 1005)
    × (hash_code keyed service.code_key "s" "123456"
        ≡ hash_code keyed service.code_key "s" "123456")
    × ((consume_code keyed (consume_code keyed guessed "a@b" "123456" 60).0 "a@b" "123456" 70).1
        ≡ err verification_required)
unfolding consume_code lookup begin_send new_codes gensoulkyo.Base.Window.prune
    gensoulkyo.Base.insert gensoulkyo.Account.Codes.code_matches hash_code guess_all
consume_success_example =
    consume_success keyed service "a@b" "123456" 5 draw (pending_code 0 5) (("000000", 10) ∷ [])
      "123456" 60 "123456" 70 refl refl

newer_code_survives_example :
    lookup "a@b"
      (drop_pending
        (begin_send keyed (run keyed (begin_send keyed service "a@b" 5 draw).0 []) "a@b" 200 draw).0
        "a@b"
        0).pending
    ≡ some (pending_code 1 200)
unfolding begin_send new_codes gensoulkyo.Base.Window.prune lookup run gensoulkyo.Base.insert
newer_code_survives_example =
    newer_code_survives keyed service "a@b" "123456" "123456" 5 200 draw draw [] (pending_code 0 5)
      (pending_code 1 200) refl refl

-- Two wrong guesses of two burn the code.
abbrev guesses : List (String × ℕ)
guesses = ("000000", 10) ∷ ("111111", 20) ∷ []

guesses_bounded_example :
    (consume_code keyed (guess_all keyed waiting "a@b" guesses) "a@b" "123456" 30).1
    ≡ err verification_required
unfolding lookup begin_send new_codes gensoulkyo.Base.Window.prune gensoulkyo.Base.insert hash_code
guesses_bounded_example =
    guesses_bounded keyed waiting "a@b" (pending_code 0 5) guesses "123456" 30 refl refl
      (omega arith) (differ refl, (differ refl, tt)) (omega arith)
