-- ===== src/Core/BattleResult/Repeats.antt =====
-- A battle result that comes again: ApplyBattleResultCallback of
-- runtime/core/battle_result_callback.go.
use gensoulkyo.Base.{
  ℕ, ◌≡◌, ◌≢◌, refl, ap, ◌∙◌, String, Bool, true, false, Option, none, some, [], ◌∷◌, ◌++◌, ◌==◌,
  lookup, insert, lookup-insert_self, if_rule, arith, Option-cases, ◌⊎◌, inl, inr, eq_iff,
}
use gensoulkyo.Core.BattleResult.{
  respond, verified, ended_match, settle_users, settle_from_winner, apply_valid, apply_to,
  apply_battle_result_callback,
}
use gensoulkyo.Core.BattleChecks.{
  validate_battle_result_callback, validate_with, trimmed, allocation_of,
}
use gensoulkyo.Core.BattleMatch.{
  Status, loading, running, ended, abandoned, expired, ResultError, store_failed, match_state,
  not_found, invalid_request, Match, Callback, Service, Response, Answer, answered, refused,
  Allocation, match_ended,
}
use gensoulkyo.Core.BattleResult.Closed.{settle_users-Keeps, IsClosed, closed_lem}

module _ (sha256_hex : String → String) (rules : String) where
  settle-IsClosed :
      (store_fails : Bool) (s : Service) (m : Match) (winner : String) (req : Callback) (now : ℕ)
      → validate_battle_result_callback rules req m (allocation_of s req.match_id m) ≡ none
      → IsClosed rules req
          (settle_from_winner sha256_hex store_fails s
            (verified sha256_hex s m req now)
            winner
            req
            now).0
  unfolding settle_from_winner verified
  settle-IsClosed true s m winner req now valid =
      closed_lem rules req s _ m (ended_match (verified sha256_hex s m req now) now) refl
        (record {
          match_id = refl;
          mode_id = refl;
          ruleset_version = refl;
          server_seed = refl;
          battle_allocation = refl;
        })
        (lookup-insert_self req.match_id (ended_match (verified sha256_hex s m req now) now)
          s.matches)
        refl refl valid
  settle-IsClosed false s m winner req now valid =
      let closed = ended_match (verified sha256_hex s m req now) now in
      let told : Match = record closed { event_log = closed.event_log ++ match_ended ∷ [] } in
      let kept : Service = record s { matches = insert req.match_id told s.matches } in
      let keeps = settle_users-Keeps sha256_hex m.player_ids kept told winner in
      closed_lem rules req s (settle_users sha256_hex kept told winner m.player_ids) m told
        keeps.allocations
        (record {
          match_id = refl;
          mode_id = refl;
          ruleset_version = refl;
          server_seed = refl;
          battle_allocation = refl;
        })
        (rw keeps.matches (lookup-insert_self req.match_id told s.matches)) refl refl valid

  respond-duplicate :
      (s : Service) (m : Match) (req : Callback) (b : Bool)
      → (respond sha256_hex s m req b).duplicate ≡ b
  unfolding respond
  respond-duplicate s m req b = refl

  apply_ended :
      (store_fails : Bool) (s : Service) (m : Match) (req : Callback) (now : ℕ)
      → m.battle_result_hash ≡ req.state_hash
      → apply_valid sha256_hex store_fails s m req now ended
        ≡ (s, answered (respond sha256_hex s m req true))
  unfolding apply_valid
  apply_ended store_fails s m req now same =
      let test : (m.battle_result_hash == req.state_hash) ≡ true =
        (eq_iff m.battle_result_hash req.state_hash).1 same in
      rw test

  -- A result that comes again to a match that it has closed.
  pub closed_again :
      (store_fails : Bool) (s : Service) (raw : Callback) (now : ℕ)
      → (trimmed raw).match_id ≢ ""
      → IsClosed rules (trimmed raw) s
      → (r : Response) × (apply_battle_result_callback sha256_hex rules store_fails s raw now
          ≡ (s, answered r))
        × (r.duplicate ≡ true)
  unfolding apply_battle_result_callback apply_to
  closed_again store_fails s raw now named c =
      let req = trimmed raw in
      let id_named : (req.match_id == "") ≡ false = ground (arith, eq_iff req.match_id "") in
      (
        respond sha256_hex s c.closed req true,
        rw (id_named, c.stands, apply_to, c.fits)
            (ap (λ status. apply_valid sha256_hex store_fails s c.closed req now status) c.over
              ∙ apply_ended store_fails s c.closed req now c.hash),
        respond-duplicate s c.closed req true,
      )

  -- What a call comes to: a refusal that is not the store's, or a match that the result has closed.
  abbrev pub Comes : Callback → Service × Answer → Type 0
  Comes req out =
      ((e : ResultError) × (out.1 ≡ refused e) × (e ≢ store_failed)) ⊎ IsClosed rules req out.0

  validate-error :
      (req : Callback) (m : Match) (a : Option Allocation) (e : ResultError)
      → validate_battle_result_callback rules req m a ≡ some e
      → e ≢ store_failed
  unfolding validate_battle_result_callback validate_with
  validate-error req m none e h = cc
  validate-error req m (some a) e h = ground arith

  apply_valid-Comes :
      (store_fails : Bool) (s : Service) (m : Match) (req : Callback) (now : ℕ) (status : Status)
      → m.status ≡ status
      → lookup req.match_id s.matches ≡ some m
      → validate_battle_result_callback rules req m (allocation_of s req.match_id m) ≡ none
      → Comes req (apply_valid sha256_hex store_fails s m req now status)
  unfolding apply_valid
  apply_valid-Comes store_fails s m req now ended is_ended stands valid =
      if_rule (Comes req) (m.battle_result_hash == req.state_hash)
        (λ same. inr (record {
          closed = m;
          stands = stands;
          fits = valid;
          over = is_ended;
          hash = (eq_iff m.battle_result_hash req.state_hash).0 same;
        }))
        (λ other. inl (match_state, refl, (λ e. cc)))
  apply_valid-Comes store_fails s m req now running is_running stands valid =
      inr (settle-IsClosed store_fails s m _ req now valid)
  apply_valid-Comes store_fails s m req now loading is_loading stands valid =
      inl (match_state, refl, (λ e. cc))
  apply_valid-Comes store_fails s m req now abandoned is_abandoned stands valid =
      inl (match_state, refl, (λ e. cc))
  apply_valid-Comes store_fails s m req now expired is_expired stands valid =
      inl (match_state, refl, (λ e. cc))

  apply_to-Comes :
      (store_fails : Bool) (s : Service) (o : Option Match) (req : Callback) (now : ℕ)
      → lookup req.match_id s.matches ≡ o
      → Comes req (apply_to sha256_hex rules store_fails s o req now)
  unfolding apply_to
  apply_to-Comes store_fails s none req now stands = inl (not_found, refl, (λ e. cc))
  apply_to-Comes store_fails s (some m) req now stands =
      let a = allocation_of s req.match_id m in
      elim (Option-cases (validate_battle_result_callback rules req m a)) [
        | inl valid ↦
            rw (valid, apply_to)
              (apply_valid-Comes store_fails s m req now m.status refl stands valid)
        | inr (e, refusal) ↦
            rw (refusal, apply_to) (inl (e, refl, validate-error req m a e refusal))
      ]

  pub apply-Comes :
      (store_fails : Bool) (s : Service) (raw : Callback) (now : ℕ)
      → Comes (trimmed raw) (apply_battle_result_callback sha256_hex rules store_fails s raw now)
  unfolding apply_battle_result_callback
  apply-Comes store_fails s raw now =
      if_rule (Comes (trimmed raw)) ((trimmed raw).match_id == "")
        (λ e. inl (invalid_request, refl, (λ e. cc)))
        (λ e.
          apply_to-Comes store_fails s (lookup (trimmed raw).match_id s.matches) (trimmed raw) now
            refl)

  pub apply-named :
      (store_fails : Bool) (s : Service) (raw : Callback) (now : ℕ)
      → (apply_battle_result_callback sha256_hex rules store_fails s raw now).1
        ≢ refused invalid_request
      → (trimmed raw).match_id ≢ ""
  unfolding apply_battle_result_callback
  apply-named store_fails s raw now h = ground (arith, eq_iff (trimmed raw).match_id "")

  -- A result that was answered is answered again, at any time, as a duplicate, and nothing changes.
  pub repeat_unchanged :
      (store_fails store_fails' : Bool) (s : Service) (raw : Callback) (now later : ℕ)
      (r : Response)
      → (apply_battle_result_callback sha256_hex rules store_fails s raw now).1 ≡ answered r
      → let after = (apply_battle_result_callback sha256_hex rules store_fails s raw now).0 in
        (r' : Response) × (apply_battle_result_callback sha256_hex rules store_fails' after raw
            later
          ≡ (after, answered r'))
        × (r'.duplicate ≡ true)
  repeat_unchanged store_fails store_fails' s raw now later r h =
      let after = (apply_battle_result_callback sha256_hex rules store_fails s raw now).0 in
      let named = apply-named store_fails s raw now (λ e. cc (e, h)) in
      elim (apply-Comes store_fails s raw now) [
        | inl (e, refusal, other) ↦ absurd (cc (refusal, h))
        | inr closed ↦ closed_again store_fails' after raw later named closed
      ]
