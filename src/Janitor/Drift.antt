-- ===== src/Janitor/Drift.antt =====
-- src/discode/janitor/lifecycle.py: `sweep_session_thread_binding_drift`, one candidate session at a
-- time, as transactions with what other processes do between them.
use discode.Base.{
  Bool, Bool-cases, Option, Option-cases, arith, false, find, if◌then◌else◌, inl, inr, is_set, leb,
  ltb, none, not, refl, rowcount, some, true, ℕ, ◌&&◌, ◌+◌, ◌==◌, ◌||◌,
}
use discode.Data.{
  Database, Envelope, Ident, Reason, Session, Status, get_session, has_id, update_sessions,
}
use discode.Lifecycle.{Evolves, Evolves-same, Evolves-trans, Evolves-update}
use discode.Session.Moves.{bind_session_thread-Evolves}
use discode.Session.Binding.{BindThreadResult, bind_session_thread, queued_create}

-- `status IN ('pending', 'running', 'creating')`; no session is ever 'pending'
abbrev pub is_unbound_status : Status → Bool
is_unbound_status Status.running = true
is_unbound_status Status.creating = true
is_unbound_status _ = false

abbrev pub is_bind_failed : Option Reason → Bool
is_bind_failed (some Reason.thread_bind_failed) = true
is_bind_failed _ = false

abbrev pub is_exhausted : Option Reason → Bool
is_exhausted (some Reason.thread_bind_repair_exhausted) = true
is_exhausted _ = false

abbrev pub is_unbound : Session → Bool
is_unbound s = not (is_set s.thread_id)

-- the two candidate queries
abbrev pub is_drifted : Session → Bool
is_drifted s = is_unbound s && is_unbound_status s.status

abbrev pub is_flagged : Session → Bool
is_flagged s = is_unbound s && is_bind_failed s.status_reason

-- what a pass does with a candidate
pub data Repair : Type 0 where
  repaired dead_lettered retried skipped : Repair

abbrev pub set_exhausted : Session → Session
set_exhausted s = record s { status_reason = some Reason.thread_bind_repair_exhausted }

-- the dead-letter path
abbrev pub dead_letter : ℕ → Ident → Database → Database × Repair
dead_letter max_attempts sid db = elim (get_session sid db) [
  | none ↦ (db, Repair.skipped)
  | some s ↦
      if not (is_unbound s) || ltb s.repair_attempts max_attempts || is_exhausted s.status_reason
      then (db, Repair.skipped)
      else (update_sessions (has_id sid) set_exhausted db, Repair.dead_lettered)
]

-- the marker of a bound session is cleared
abbrev pub is_clearable : Option Reason → Bool
is_clearable none = true
is_clearable reason = is_bind_failed reason

abbrev pub clear_marker : Session → Session
clear_marker s = record s { status_reason = none; repair_attempts = s.repair_attempts + 1 }

abbrev pub is_marked : Ident → Session → Bool
is_marked sid s = s.id == sid && is_clearable s.status_reason

-- the reason after one more attempt
abbrev pub reason_after : ℕ → Session → Option Reason
reason_after max_attempts s =
    if leb max_attempts (s.repair_attempts + 1)
    then some Reason.thread_bind_repair_exhausted
    else if is_exhausted s.status_reason
    then s.status_reason
    else some Reason.thread_bind_failed

abbrev pub count_attempt : ℕ → Session → Session
count_attempt max_attempts s = record s {
  repair_attempts = s.repair_attempts + 1;
  status_reason = reason_after max_attempts s;
}

abbrev pub fail_repair : ℕ → Ident → Database → Database × Repair
fail_repair max_attempts sid db = elim (get_session sid db) [
  | none ↦ (db, Repair.skipped)
  | some s ↦ if not (is_unbound s) then (db, Repair.skipped) else (
    update_sessions (has_id sid) (count_attempt max_attempts) db,
    if leb max_attempts (s.repair_attempts + 1) then Repair.dead_lettered else Repair.retried,
  )
]

abbrev pub thread_of : Envelope → Ident
thread_of (Envelope.create_session p) = p.thread_id
thread_of _ = 0

-- the thread of the queued create job; 0 for none. A second job makes `scalar_one_or_none` raise.
abbrev pub queued_thread : Ident → Database → Option Ident
queued_thread sid db =
    if ltb 1 (rowcount (queued_create sid) db.redis_outbox)
    then none
    else elim (find (queued_create sid) db.redis_outbox) [
      | none ↦ some 0
      | some r ↦ some (thread_of r.payload)
    ]

abbrev pub is_bound_result : BindThreadResult → Bool
is_bound_result BindThreadResult.bound = true
is_bound_result _ = false

-- the repair, with the thread that the outbox names; `between` is what others do before each
-- transaction
abbrev pub repair_with : (Database → Database) → ℕ → Ident → Ident → Database → Database × Repair
repair_with between max_attempts sid thread db =
    let (bound, result) = bind_session_thread sid thread (between db) in
    if thread == 0
    then fail_repair max_attempts sid (between db)
    else if is_bound_result result
    then (update_sessions (is_marked sid) clear_marker (between bound), Repair.repaired)
    else fail_repair max_attempts sid (between bound)

-- One candidate, with the attempts that the query read.
unfoldable pub repair_session : (Database → Database) → ℕ → ℕ → Ident → Database → Database × Repair
repair_session between max_attempts attempts sid db =
    if leb max_attempts attempts
    then dead_letter max_attempts sid db
    else elim (queued_thread sid db) [
      | none ↦ (db, Repair.skipped)
      | some thread ↦ repair_with between max_attempts sid thread db
    ]

pub dead_letter-Evolves :
    (max_attempts : ℕ) (sid : Ident) (db : Database)
    → Evolves db.sessions (dead_letter max_attempts sid db).0.sessions
dead_letter-Evolves m sid db = elim (Option-cases (get_session sid db)) [
  | inl e ↦ Evolves-same db.sessions _ (rw (dead_letter, e))
  | inr (s, e) ↦
      Evolves-update (has_id sid) set_exhausted db.sessions _
        (not (not (is_unbound s) || ltb s.repair_attempts m || is_exhausted s.status_reason))
        (λ x. refl) (λ i x h f d. ground arith) (ground arith)
]

pub fail_repair-Evolves :
    (max_attempts : ℕ) (sid : Ident) (db : Database)
    → Evolves db.sessions (fail_repair max_attempts sid db).0.sessions
fail_repair-Evolves m sid db = elim (Option-cases (get_session sid db)) [
  | inl e ↦ Evolves-same db.sessions _ (rw (fail_repair, e))
  | inr (s, e) ↦
      Evolves-update (has_id sid) (count_attempt m) db.sessions _ (is_unbound s) (λ x. refl)
        (λ i x h f d. ground arith) (ground arith)
]

module _ (between : Database → Database)
    (others : (d : Database) → Evolves d.sessions (between d).sessions) (m : ℕ) (sid : Ident) where
  repair_with-Evolves :
      (thread : Ident) (db : Database)
      → Evolves db.sessions (repair_with between m sid thread db).0.sessions
  repair_with-Evolves thread db = elim (Bool-cases (thread == 0)) [
    | inl y ↦
        rw (repair_with, y)
          (Evolves-trans db.sessions (between db).sessions _ (others db)
            (fail_repair-Evolves m sid (between db)))
    | inr n ↦ elim (Bool-cases (is_bound_result (bind_session_thread sid thread (between db)).1)) [
      | inl y ↦
          rw (repair_with, n, y)
            (Evolves-trans db.sessions before.sessions _ reach (
              Evolves-update (is_marked sid) clear_marker before.sessions _ true (λ s. refl)
                (λ i s h e d. ground arith) refl))
      | inr f ↦
          rw (repair_with, n, f)
            (Evolves-trans db.sessions before.sessions _ reach (fail_repair-Evolves m sid before))
    ]
  ]
    where
      before : Database
      before = between (bind_session_thread sid thread (between db)).0

      reach : Evolves db.sessions before.sessions
      reach = Evolves-trans db.sessions (between db).sessions _ (others db) (
          Evolves-trans (between db).sessions
            (bind_session_thread sid thread (between db)).0.sessions _
            (bind_session_thread-Evolves sid thread (between db))
            (others (bind_session_thread sid thread (between db)).0))

  pub repair_session-Evolves :
      (attempts : ℕ) (db : Database)
      → Evolves db.sessions (repair_session between m attempts sid db).0.sessions
  unfolding repair_session
  repair_session-Evolves attempts db = elim (Bool-cases (leb m attempts)) [
    | inl y ↦ rw (repair_session, y) (dead_letter-Evolves m sid db)
    | inr n ↦ elim (Option-cases (queued_thread sid db)) [
      | inl e ↦ Evolves-same db.sessions _ (unfold repair_session in rw (n, e))
      | inr (thread, e) ↦ rw (repair_session, n, e) (repair_with-Evolves thread db)
    ]
  ]
