-- ===== src/Janitor/Moves.antt =====
-- The sweeps of src/discode/janitor/timeouts.py move every session only as `Moves` allows.
use discode.Base.{Bool, List, [], arith, refl, suc, true, update_where, ℕ, ◌*◌, ◌∷◌, ◌≡◌}
use discode.Data.{Call, Database, Message, Reason, Session, update_sessions}
use discode.Lifecycle.{Evolves, Evolves-refl, Evolves-same, Evolves-trans, Evolves-update, Moves}
use discode.Runner.Create.{fail_session}
use discode.Runner.CreateMoves.{release_superseded-Evolves}
use discode.Runner.Resume.{orphan_session}
use discode.Janitor.Timeouts.{
  archive_inactive, each_row, fail_creation, force_stopped, goes_idle, is_archive_due,
  is_creation_stuck, is_resume_stuck, is_stop_stuck, returned, set_idle, sweep_archive_timeout,
  sweep_creating_watchdog, sweep_idle_timeout, sweep_resuming_watchdog, sweep_stopping_watchdog,
  tell_archived, tell_final,
}

pub each_row-Evolves :
    (body : ℕ → Session → Database → Database)
    → ((uuid : ℕ) (s : Session) (db : Database) → Evolves db.sessions (body uuid s db).sessions)
    → (uuid : ℕ) (rows : List Session) (db : Database)
    → Evolves db.sessions (each_row body uuid rows db).sessions
each_row-Evolves body step uuid [] db = Evolves-refl db.sessions
each_row-Evolves body step uuid (s ∷ rows) db =
    Evolves-trans db.sessions (body uuid s db).sessions _ (step uuid s db)
      (each_row-Evolves body step (suc uuid) rows (body uuid s db))

-- an UPDATE, and a loop over its rows
pub update_each-Evolves :
    (p : Session → Bool) (f : Session → Session) (body : ℕ → Session → Database → Database)
    (db : Database)
    → ((s : Session) → (f s).id ≡ s.id)
    → ((s : Session) → p s ≡ true → Moves s (f s))
    → ((uuid : ℕ) (s : Session) (d : Database) → Evolves d.sessions (body uuid s d).sessions)
    → Evolves db.sessions (each_row body 0 (returned p f db) (update_sessions p f db)).sessions
update_each-Evolves p f body db keep moves step =
    Evolves-trans db.sessions (update_where p f db.sessions) _
      (Evolves-update p f db.sessions _ true keep (λ i s h e d. moves s e) refl)
      (each_row-Evolves body step 0 (returned p f db) (update_sessions p f db))

pub sweep_creating_watchdog-Evolves :
    (c : Call) (limit : ℕ) (db : Database)
    → Evolves db.sessions (sweep_creating_watchdog c limit db).0.sessions
unfolding sweep_creating_watchdog
sweep_creating_watchdog-Evolves c limit db =
    update_each-Evolves (is_creation_stuck c.now limit) (fail_session Reason.creation_timeout)
      (fail_creation c) db (λ s. refl) (λ s e. ground arith)
      (λ uuid s d. release_superseded-Evolves s.id d.sessions)

pub sweep_resuming_watchdog-Evolves :
    (c : Call) (limit : ℕ) (db : Database)
    → Evolves db.sessions (sweep_resuming_watchdog c limit db).0.sessions
unfolding sweep_resuming_watchdog
sweep_resuming_watchdog-Evolves c limit db =
    update_each-Evolves (is_resume_stuck c.now limit) (orphan_session Reason.resume_stuck)
      (tell_final c Message.resume_timed_out) db (λ s. refl) (λ s e. ground arith)
      (λ uuid s d. Evolves-refl d.sessions)

pub sweep_idle_timeout-Evolves :
    (c : Call) (minutes : ℕ) (db : Database)
    → Evolves db.sessions (sweep_idle_timeout c minutes db).0.sessions
unfolding sweep_idle_timeout
sweep_idle_timeout-Evolves c minutes db =
    Evolves-update (goes_idle c.now (60 * minutes) db) (set_idle c.now) db.sessions _ true
      (λ s. refl) (λ i s h e d. ground arith) refl

pub sweep_archive_timeout-Evolves :
    (c : Call) (minutes : ℕ) (db : Database)
    → Evolves db.sessions (sweep_archive_timeout c minutes db).0.sessions
unfolding sweep_archive_timeout
sweep_archive_timeout-Evolves c minutes db =
    update_each-Evolves (is_archive_due c.now (60 * minutes) db) (archive_inactive c.now)
      (tell_archived c) db (λ s. refl) (λ s e. ground arith)
      (λ uuid s d. Evolves-same d.sessions _ (ground arith))

pub sweep_stopping_watchdog-Evolves :
    (c : Call) (limit : ℕ) (db : Database)
    → Evolves db.sessions (sweep_stopping_watchdog c limit db).0.sessions
unfolding sweep_stopping_watchdog
sweep_stopping_watchdog-Evolves c limit db =
    Evolves-update (is_stop_stuck c.now limit) (force_stopped c.now) db.sessions _ true (λ s. refl)
      (λ i s h e d. ground arith) refl
