-- ===== src/Turn/Once.antt =====
-- At most once: the subprocess of a turn is started at most once, whatever the deliveries, crashes
-- and other transactions.
use discode.Base.{
  Bool, Option, Option-cases, any_of_find, arith, false, find_sound, if◌then◌else◌, inl, inr, none,
  not, refl, some, true, ℕ, ◌&&◌, ◌+◌, ◌==◌, ◌||◌, ◌≡◌,
}
use discode.Data.{Database, Ident, InputTurn, SendInput, Text, TurnStatus, get_turn, has_key}
use discode.Config.{Settings}
use discode.Turn.Queue.{is_queued}
use discode.Turn.Job.{
  Outcome, Outside, Phase, admit, advance, check, complete_turn, is_queued_key, is_startable,
  persist, set_turn_status,
}
use discode.Turn.System.{starts}
use discode.Turn.Effects.{get_turn-update_self}

-- A turn whose subprocess was started `n` times: at most once, and then it is not queued.
abbrev pub once_ok : Option InputTurn → ℕ → Bool
once_ok none n = n == 0
once_ok (some t) n = n == 0 || n == 1 && not (is_queued t.status)

-- What the job that is about to do `ph` knows of its turn.
abbrev pub phase_ok : Phase → ℕ → InputTurn → Bool
phase_ok (Phase.admitting version) n t = is_queued t.status && t.lifecycle_version == version
phase_ok (Phase.executing version) n t = not (is_queued t.status) && n == 0
phase_ok (Phase.marking status outcome) n t = not (is_queued status)
phase_ok _ n t = true

abbrev pub job_ok : Option InputTurn → SendInput → Phase → ℕ → Bool
job_ok none p ph n = false
job_ok (some t) p ph n = t.session_id == p.session_id && phase_ok ph n t

abbrev pub started_by : Phase → Outside → ℕ
started_by ph o = if starts ph o.executed then 1 else 0

-- The turn of the message after the phase, with one more start if the phase starts it.
abbrev pub OwnOk : Settings → Outside → SendInput → Phase → Database → ℕ → Type 0
OwnOk cfg o p ph db n =
    let (db', ph') = advance cfg o p ph db in
    let t' = get_turn p.idempotency_key db' in
    (job_ok t' p ph' (started_by ph o + n) ≡ true) × (once_ok t' (started_by ph o + n) ≡ true)

module _ (cfg : Settings) (o : Outside) (p : SendInput) (db : Database) (n : ℕ) where
  own_checking :
      job_ok (get_turn p.idempotency_key db) p Phase.checking n ≡ true
      → once_ok (get_turn p.idempotency_key db) n ≡ true
      → OwnOk cfg o p Phase.checking db n
  unfolding advance check
  own_checking h k = ground (
    arith,
    get_turn-update_self p.idempotency_key (has_key p.idempotency_key)
        (set_turn_status o.now TurnStatus.uncertain) db.input_turns (λ t. refl),
  )

  own_retire :
      (version : ℕ)
      → job_ok (get_turn p.idempotency_key db) p (Phase.retire_denied version) n ≡ true
      → once_ok (get_turn p.idempotency_key db) n ≡ true
      → OwnOk cfg o p (Phase.retire_denied version) db n
  unfolding advance
  own_retire version h k = ground (
    arith,
    get_turn-update_self p.idempotency_key (is_queued_key p.idempotency_key)
        (set_turn_status o.now TurnStatus.aborted) db.input_turns (λ t. refl),
  )

  own_admitting :
      (version : ℕ)
      → job_ok (get_turn p.idempotency_key db) p (Phase.admitting version) n ≡ true
      → once_ok (get_turn p.idempotency_key db) n ≡ true
      → OwnOk cfg o p (Phase.admitting version) db n
  unfolding advance admit
  own_admitting version h k = elim (Option-cases (get_turn p.idempotency_key db)) [
    | inl e ↦ ground arith
    | inr (t, e) ↦ ground (
      arith,
      any_of_find (has_key p.idempotency_key) db.input_turns t e,
      find_sound (has_key p.idempotency_key) db.input_turns t e,
      get_turn-update_self p.idempotency_key (is_startable p version)
          (set_turn_status o.now TurnStatus.executing) db.input_turns (λ t. refl),
    )
  ]

  own_persisting :
      (version : ℕ) (reply : Text) (token : Option Ident)
      → job_ok (get_turn p.idempotency_key db) p (Phase.persisting version reply token) n ≡ true
      → once_ok (get_turn p.idempotency_key db) n ≡ true
      → OwnOk cfg o p (Phase.persisting version reply token) db n
  unfolding advance persist
  own_persisting version reply token h k = ground (
    arith,
    get_turn-update_self p.idempotency_key (has_key p.idempotency_key)
        (complete_turn o.now reply token) db.input_turns (λ t. refl),
  )

  own_marking :
      (status : TurnStatus) (outcome : Outcome)
      → job_ok (get_turn p.idempotency_key db) p (Phase.marking status outcome) n ≡ true
      → once_ok (get_turn p.idempotency_key db) n ≡ true
      → OwnOk cfg o p (Phase.marking status outcome) db n
  unfolding advance
  own_marking status outcome h k = ground (
    arith,
    get_turn-update_self p.idempotency_key (has_key p.idempotency_key)
        (set_turn_status o.now status) db.input_turns (λ t. refl),
  )

  -- Every phase keeps what is known of the turn of its own message.
  pub own_step :
      (ph : Phase)
      → job_ok (get_turn p.idempotency_key db) p ph n ≡ true
      → once_ok (get_turn p.idempotency_key db) n ≡ true
      → OwnOk cfg o p ph db n
  unfolding advance
  own_step Phase.checking h k = unfold advance in own_checking h k
  own_step (Phase.retire_denied version) h k = own_retire version h k
  own_step (Phase.admitting version) h k = own_admitting version h k
  own_step (Phase.persisting version reply token) h k = own_persisting version reply token h k
  own_step (Phase.marking status outcome) h k = own_marking status outcome h k
  own_step (Phase.notify_uncertain version) h k = ground arith
  own_step (Phase.notify_denied version) h k = ground arith
  own_step (Phase.executing version) h k = ground arith
  own_step (Phase.posting version reply) h k = ground arith
  own_step (Phase.finished outcome) h k = ground arith
