-- ===== src/Turn/Progress.antt =====
-- A whole job: its phases one after the other, until it ends.
use discode.Base.{
  Bool, List, Option, [], any_of_find, arith, coalesce, false, find-update_where, find_sound,
  length, not, or_text, refl, rowcount, rowcount_pos, some, true, ℕ, ◌&&◌, ◌-◌, ◌==◌, ◌=?◌, ◌∷◌,
  ◌≡◌, ◌≤◌,
}
use discode.Data.{
  Database, Ident, InputTurn, SendInput, Session, Status, Text, TurnStatus, get_session, get_turn,
  has_id, has_key, is_ready, update_sessions, update_turns,
}
use discode.Config.{Settings, execution_allowed}
use discode.Turn.Queue.{earliest, is_queued}
use discode.Paths.{Workspace, revalidate_cwd}
use discode.Turn.Effects.{get_turn-update_self}
use discode.Turn.Job.{
  Executed, Outcome, Outside, Phase, Posted, admit, advance, check, complete_turn, is_current,
  is_other_turn, is_other_version, is_startable, keep_token, mark_turn, persist, set_turn_status,
  upsert_turn,
}

-- A job with what the outside answers in each phase, and with what other processes do to the
-- database after it.
unfoldable pub run_job :
    Settings
    → SendInput
    → List (Outside × (Database → Database))
    → Phase
    → Database
    → Database × Phase
run_job cfg p [] ph db = (db, ph)
run_job cfg p ((o, between) ∷ os) ph db =
    let (db', ph') = advance cfg o p ph db in run_job cfg p os ph' (between db')

-- the most phases that are still to come
abbrev remaining : Phase → ℕ
remaining Phase.checking = 6
remaining (Phase.admitting version) = 5
remaining (Phase.executing version) = 4
remaining (Phase.persisting version reply token) = 3
remaining (Phase.posting version reply) = 2
remaining (Phase.retire_denied version) = 2
remaining (Phase.marking status outcome) = 1
remaining (Phase.notify_uncertain version) = 1
remaining (Phase.notify_denied version) = 1
remaining (Phase.finished outcome) = 0

advance-remaining :
    (cfg : Settings) (o : Outside) (p : SendInput) (ph : Phase) (db : Database)
    → remaining (advance cfg o p ph db).1 ≤ remaining ph - 1
unfolding advance
advance-remaining cfg o p Phase.checking db = unfold check in ground arith
advance-remaining cfg o p (Phase.admitting version) db = unfold admit in ground arith
advance-remaining cfg o p (Phase.persisting version reply token) db = unfold persist in ground arith
advance-remaining cfg o p _ db = ground arith

abbrev pub is_finished : Phase → Bool
is_finished (Phase.finished outcome) = true
is_finished _ = false

run_job-finished :
    (cfg : Settings) (p : SendInput) (os : List (Outside × (Database → Database))) (ph : Phase)
    (db : Database)
    → remaining ph ≤ length os
    → is_finished (run_job cfg p os ph db).1 ≡ true
unfolding run_job
run_job-finished cfg p [] ph db h = ground arith
run_job-finished cfg p ((o, between) ∷ os) ph db h =
    run_job-finished cfg p os (advance cfg o p ph db).1 (between (advance cfg o p ph db).0)
      (omega (arith, advance-remaining cfg o p ph db))

-- Whatever the tool, the reply endpoint and other processes do, a job has ended after six phases.
pub run_job_ends :
    (cfg : Settings) (p : SendInput) (os : List (Outside × (Database → Database))) (db : Database)
    → 6 ≤ length os
    → is_finished (run_job cfg p os Phase.checking db).1 ≡ true
run_job_ends cfg p os db h = run_job-finished cfg p os Phase.checking db h

-- a job that nothing disturbs, with the same answers in every phase
abbrev pub undisturbed : Outside → List (Outside × (Database → Database))
undisturbed o =
    let step : Outside × (Database → Database) = (o, λ db. db) in
    step ∷ step ∷ step ∷ step ∷ step ∷ step ∷ []

abbrev pub is_allowed : Workspace → Bool
is_allowed (Workspace.allowed real) = true
is_allowed _ = false

-- The session takes the message, its turn is the next one of the session, and the policy and the
-- workspace allow it to run.
abbrev pub is_due : Settings → Outside → SendInput → Session → InputTurn → Database → Bool
is_due cfg o p s t db =
    is_ready s.status
    && s.guild_id =? p.guild_id
    && s.host_id =? p.host_id
    && not (is_other_version p.lifecycle_version s.lifecycle_version)
    && not (is_other_turn (earliest p.session_id s.lifecycle_version db) p.idempotency_key)
    && (t.session_id == p.session_id
        && t.lifecycle_version == s.lifecycle_version
        && is_queued t.status)
    && execution_allowed cfg
    && is_allowed
        (revalidate_cwd o.realpath s.cwd_realpath p.guild_id (or_text s.owner_id 0) p.host_id db)

module _ (cfg : Settings) (o : Outside) (p : SendInput) (s : Session) (t : InputTurn)
    (db : Database) (session : get_session p.session_id db ≡ some s)
    (turn : get_turn p.idempotency_key db ≡ some t) (due : is_due cfg o p s t db ≡ true) where
  check_due : check cfg o p db ≡ (db, Phase.admitting s.lifecycle_version)
  unfolding check
  check_due = ground arith

  due_current : (rowcount (is_current p.session_id s.lifecycle_version) db.sessions == 0) ≡ false
  due_current =
      rowcount_pos (has_id p.session_id) (is_current p.session_id s.lifecycle_version) db.sessions s
        session (ground (arith, find_sound (has_id p.session_id) db.sessions s session))

  -- the databases after admission, after the result is stored, and after the delivery is
  abbrev admitted : Database
  admitted = upsert_turn o.now p s.lifecycle_version (
      update_sessions (is_current p.session_id s.lifecycle_version)
        (λ x. record x { last_activity_at = o.now; status = Status.running }) db)

  abbrev stored : Text → Option Ident → Database
  stored reply token =
      update_sessions (is_current p.session_id s.lifecycle_version) (keep_token o.now token)
        (update_turns (has_key p.idempotency_key) (complete_turn o.now reply token) admitted)

  abbrev settled : Text → Option Ident → Database
  settled reply token = mark_turn o.now p.idempotency_key TurnStatus.delivered (stored reply token)

  run_due :
      (reply : Text) (token : Option Ident)
      → o.executed ≡ Executed.replied reply token
      → o.posted ≡ Posted.accepted
      → run_job cfg p (undisturbed o) Phase.checking db
        ≡ (settled reply token, Phase.finished Outcome.delivered)
  unfolding run_job advance admit persist
  run_due reply token ran sent = rw (check_due, due_current, ran, sent)

  turn_settled :
      (reply : Text) (token : Option Ident)
      → get_turn p.idempotency_key (settled reply token)
        ≡ some (record t {
          status = TurnStatus.delivered;
          result_text = some reply;
          resume_token = token;
          updated_at = o.now;
        })
  turn_settled reply token = ground (
    arith,
    any_of_find (has_key p.idempotency_key) db.input_turns t turn,
    find_sound (has_key p.idempotency_key) db.input_turns t turn,
    get_turn-update_self p.idempotency_key (is_startable p s.lifecycle_version)
        (set_turn_status o.now TurnStatus.executing) db.input_turns (λ x. refl),
    get_turn-update_self p.idempotency_key (has_key p.idempotency_key)
        (complete_turn o.now reply token) admitted.input_turns (λ x. refl),
    get_turn-update_self p.idempotency_key (has_key p.idempotency_key)
        (set_turn_status o.now TurnStatus.delivered) (stored reply token).input_turns (λ x. refl),
  )

  session_settled :
      (reply : Text) (token : Option Ident)
      → get_session p.session_id (settled reply token)
        ≡ some (record s {
          status = Status.running;
          last_activity_at = o.now;
          tool_resume_token = coalesce token s.tool_resume_token;
        })
  session_settled reply token = ground (
    arith,
    find_sound (has_id p.session_id) db.sessions s session,
    find-update_where (has_id p.session_id) (is_current p.session_id s.lifecycle_version)
        (λ x. record x { last_activity_at = o.now; status = Status.running }) (λ x e. refl)
        db.sessions,
    find-update_where (has_id p.session_id) (is_current p.session_id s.lifecycle_version)
        (keep_token o.now token) (λ x e. refl) admitted.sessions,
  )

  -- A due message on a runner that nothing disturbs between the phases of its job, where what is
  -- outside answers each phase alike, is delivered when the tool replies and the reply is accepted:
  -- the turn holds the reply and the token, and the session is running, with the new token if the
  -- tool gave one.
  pub due_turn_delivered :
      (reply : Text) (token : Option Ident)
      → o.executed ≡ Executed.replied reply token
      → o.posted ≡ Posted.accepted
      → let (db', ph) = run_job cfg p (undisturbed o) Phase.checking db in
        (ph ≡ Phase.finished Outcome.delivered)
        × (get_turn p.idempotency_key db'
            ≡ some (record t {
              status = TurnStatus.delivered;
              result_text = some reply;
              resume_token = token;
              updated_at = o.now;
            }))
        × (get_session p.session_id db'
            ≡ some (record s {
              status = Status.running;
              last_activity_at = o.now;
              tool_resume_token = coalesce token s.tool_resume_token;
            }))
  due_turn_delivered reply token ran sent =
      rw (run_due reply token ran sent)
        (refl, turn_settled reply token, session_settled reply token)
