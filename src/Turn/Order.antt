-- ===== src/Turn/Order.antt =====
-- The order in which the turns of a session are admitted, by their sequence numbers.
use discode.Base.{
  Bool, List, Option-cases, [], arith, false, find, inl, inr, none, rowcount, rowcount_of_find,
  some, true, ℕ, ◌∷◌, ◌≡◌, ◌≤◌,
}
use discode.Data.{Database, Ident, InputTurn, SendInput, get_session, get_turn, has_key}
use discode.Config.{Settings}
use discode.Turn.Queue.{earliest, first_by_sequence, is_waiting}
use discode.Turn.Job.{Outside, Phase, check}

first_by_sequence-none :
    (p : InputTurn → Bool) (ts : List InputTurn) (k : Ident) (t : InputTurn)
    → first_by_sequence p ts ≡ none
    → find (has_key k) ts ≡ some t
    → p t ≡ false
unfolding first_by_sequence
first_by_sequence-none p [] k t h e = cc
first_by_sequence-none p (x ∷ ts) k t h e = ground (arith, first_by_sequence-none p ts k t)

-- Among the waiting turns the query answers one whose sequence none goes below.
first_by_sequence_least :
    (p : InputTurn → Bool) (ts : List InputTurn) (u : InputTurn) (k : Ident) (t : InputTurn)
    → first_by_sequence p ts ≡ some u
    → find (has_key k) ts ≡ some t
    → p t ≡ true
    → u.sequence ≤ t.sequence
unfolding first_by_sequence
first_by_sequence_least p [] u k t h e y = cc
first_by_sequence_least p (x ∷ ts) u k t h e y = elim (Option-cases (first_by_sequence p ts)) [
  | inl n ↦ ground (arith, first_by_sequence-none p ts k t)
  | inr (v, s) ↦ ground (arith, first_by_sequence_least p ts v k t s)
]

first_by_sequence_counted :
    (p : InputTurn → Bool) (ts : List InputTurn) (u : InputTurn) (k : Ident)
    → first_by_sequence p ts ≡ some u
    → has_key k u ≡ true
    → 1 ≤ rowcount (has_key k) ts
unfolding first_by_sequence
first_by_sequence_counted p [] u k h e = cc
first_by_sequence_counted p (x ∷ ts) u k h e = elim (Option-cases (first_by_sequence p ts)) [
  | inl n ↦ ground arith
  | inr (v, s) ↦ ground (arith, first_by_sequence_counted p ts v k s)
]

-- Under the primary key, the answer with the key `k` is the turn with the key `k`.
first_by_sequence_keyed :
    (p : InputTurn → Bool) (ts : List InputTurn) (u : InputTurn) (k : Ident) (t : InputTurn)
    → first_by_sequence p ts ≡ some u
    → has_key k u ≡ true
    → find (has_key k) ts ≡ some t
    → rowcount (has_key k) ts ≤ 1
    → u ≡ t
unfolding first_by_sequence
first_by_sequence_keyed p [] u k t h e f key = cc
first_by_sequence_keyed p (x ∷ ts) u k t h e f key = elim (Option-cases (first_by_sequence p ts)) [
  | inl n ↦ ground (arith, rowcount_of_find (has_key k) ts t)
  | inr (v, s) ↦ ground (
    arith,
    first_by_sequence_counted p ts v k s,
    first_by_sequence_keyed p ts v k t s,
    rowcount_of_find (has_key k) ts t,
  )
]

module _ (cfg : Settings) (o : Outside) (p : SendInput) (db : Database) (version : ℕ)
    (mine other : InputTurn) where
  -- A message is admitted only if every waiting turn of its session in the current version has its
  -- own sequence number or a later one; `input_turns` is keyed.
  pub check_in_order :
      (check cfg o p db).1 ≡ Phase.admitting version
      → rowcount (has_key p.idempotency_key) db.input_turns ≤ 1
      → get_turn p.idempotency_key db ≡ some mine
      → get_turn other.idempotency_key db ≡ some other
      → is_waiting p.session_id version other ≡ true
      → mine.sequence ≤ other.sequence
  unfolding check earliest
  check_in_order h key m e w = elim (Option-cases (get_session p.session_id db)) [
    | inl n ↦ ground arith
    | inr (s, f) ↦
        elim (Option-cases
          (first_by_sequence (is_waiting p.session_id s.lifecycle_version) db.input_turns)) [
            | inl n ↦ ground (
              arith,
              first_by_sequence-none (is_waiting p.session_id s.lifecycle_version) db.input_turns
                  other.idempotency_key other n e,
            )
            | inr (u, g) ↦ ground (
              arith,
              first_by_sequence_least (is_waiting p.session_id s.lifecycle_version) db.input_turns u
                  other.idempotency_key other g e,
              first_by_sequence_keyed (is_waiting p.session_id s.lifecycle_version) db.input_turns u
                  p.idempotency_key mine g,
            )
          ]
  ]
