-- ===== src/Turn/Effects.antt =====
-- What one phase of a job does to the turns: it leaves every other turn alone, and starts the
-- subprocess of its own only out of a state that it leaves for good.
use discode.Base.{
  Bool, Bool-cases, List, Option-cases, [], any, ap, arith, false, find, find-append,
  find-append_none, find-update_where, inl, inr, map_option, refl, true, update_where, updated, ℕ,
  ◌==◌, ◌∷◌, ◌≡◌,
}
use discode.Data.{Database, Ident, InputTurn, SendInput, Time, TurnStatus, get_turn, has_key}
use discode.Config.{Settings}
use discode.Turn.Job.{
  Outside, Phase, admit, advance, check, complete_turn, is_queued_key, is_startable, mark_turn,
  mark_turn_if_queued, persist, set_turn_status, upsert_turn,
}

-- Another turn is found as before by an UPDATE of the turn with the key `k`.
get_turn-update :
    (k j : Ident) (p : InputTurn → Bool) (f : InputTurn → InputTurn) (ts : List InputTurn)
    → (j == k) ≡ false
    → ((t : InputTurn) → p t ≡ true → has_key k t ≡ true)
    → ((t : InputTurn) → (f t).idempotency_key ≡ t.idempotency_key)
    → find (has_key j) (update_where p f ts) ≡ find (has_key j) ts
get_turn-update k j p f [] ne narrow keep = refl
get_turn-update k j p f (t ∷ ts) ne narrow keep =
    ground (arith, narrow t, keep t, get_turn-update k j p f ts ne narrow keep)

-- An UPDATE by the key `k` itself.
pub get_turn-update_self :
    (k : Ident) (p : InputTurn → Bool) (f : InputTurn → InputTurn) (ts : List InputTurn)
    → ((t : InputTurn) → (f t).idempotency_key ≡ t.idempotency_key)
    → find (has_key k) (update_where p f ts) ≡ map_option (updated p f) (find (has_key k) ts)
get_turn-update_self k p f ts keep =
    find-update_where (has_key k) p f (λ t e. ap (λ i. i == k) (keep t)) ts

-- A statement of the job on its own turn, or none.
module _ (p : SendInput) (j : Ident) (ne : (j == p.idempotency_key) ≡ false) where
  mark-other :
      (now : Time) (status : TurnStatus) (db : Database)
      → get_turn j (mark_turn now p.idempotency_key status db) ≡ get_turn j db
  mark-other now status db =
      get_turn-update p.idempotency_key j _ (set_turn_status now status) db.input_turns ne
        (λ t e. e) (λ t. refl)

  mark_if_queued-other :
      (now : Time) (status : TurnStatus) (db : Database)
      → get_turn j (mark_turn_if_queued now p.idempotency_key status db) ≡ get_turn j db
  mark_if_queued-other now status db =
      get_turn-update p.idempotency_key j (is_queued_key p.idempotency_key)
        (set_turn_status now status) db.input_turns ne (λ t e. ground arith) (λ t. refl)

  upsert-other :
      (now : Time) (version : ℕ) (db : Database)
      → get_turn j (upsert_turn now p version db) ≡ get_turn j db
  upsert-other now version db = elim (Bool-cases (any (has_key p.idempotency_key) db.input_turns)) [
    | inl y ↦ rw y (
        get_turn-update p.idempotency_key j (is_startable p version)
          (set_turn_status now TurnStatus.executing) db.input_turns ne (λ t e. ground arith)
          (λ t. refl))
    | inr n ↦ rw n (elim (Option-cases (get_turn j db)) [
      | inl e ↦ rw (find-append_none (has_key j) db.input_turns _ e, e) (ground arith)
      | inr (t, e) ↦ rw (find-append (has_key j) db.input_turns _ t e, e)
    ])
  ]

  check-other :
      (cfg : Settings) (o : Outside) (db : Database)
      → get_turn j (check cfg o p db).0 ≡ get_turn j db
  unfolding check
  check-other cfg o db = ground (arith, mark-other o.now TurnStatus.uncertain db)

  -- A phase of a job leaves the turns of all other messages as they are.
  pub advance-other :
      (cfg : Settings) (o : Outside) (ph : Phase) (db : Database)
      → get_turn j (advance cfg o p ph db).0 ≡ get_turn j db
  unfolding advance
  advance-other cfg o Phase.checking db = check-other cfg o db
  advance-other cfg o (Phase.retire_denied version) db =
      mark_if_queued-other o.now TurnStatus.aborted db
  advance-other cfg o (Phase.admitting version) db =
      unfold admit in ground (arith, upsert-other o.now version db)
  advance-other cfg o (Phase.persisting version reply token) db =
      unfold persist in
      get_turn-update p.idempotency_key j _ (complete_turn o.now reply token) db.input_turns ne
        (λ t e. e) (λ t. refl)
  advance-other cfg o (Phase.marking status outcome) db = mark-other o.now status db
  advance-other cfg o (Phase.notify_uncertain version) db = refl
  advance-other cfg o (Phase.notify_denied version) db = refl
  advance-other cfg o (Phase.executing version) db = refl
  advance-other cfg o (Phase.posting version reply) db = refl
  advance-other cfg o (Phase.finished outcome) db = refl
