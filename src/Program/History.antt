-- ===== src/Program/History.antt =====
-- Histories of the whole program: the jobs of the runners, and the transactions of `Operation`
-- around them.
use mathlib.Core.Path.{subst}
use discode.Base.{ap, none, some, sym, true, ◌≡◌, ◌≤◌, ◌⊎◌}
use discode.Data.{Database, Ident, SendInput, Session, get_session, get_turn}
use discode.Config.{Settings}
use discode.Lifecycle.{Evolves, Evolves-refl, Evolves-same, Evolves-trans, Moves}
use discode.Turn.Job.{Outside, Phase}
use discode.Turn.System.{Reach, Step, System, is_sent, run_phase, set_job, times}
use discode.Turn.Fencing.{advance-Evolves}
use discode.Turn.AtMostOnce.{execution_at_most_once, has_left_queue, initial}
use discode.Janitor.StopSweep.{AreKeyed}
use discode.Program.Operations.{Operation, run}
use discode.Program.Evolution.{run-Evolves}
use discode.Program.Turns.{run-KeepsTurns}

-- One step. The database keeps the primary key of `sessions`.
pub data Happens (cfg : Settings) (s s' : System) : Type 0 where
  take_job :
      (p : SendInput)
      → s.jobs p.session_id ≡ none
      → is_sent (get_turn p.idempotency_key s.db) p ≡ true
      → s' ≡ record s { jobs = set_job p.session_id (some (p, Phase.checking)) s.jobs }
      → Happens cfg s s'
  run_turn :
      (sid : Ident) (p : SendInput) (ph : Phase) (o : Outside)
      → s.jobs sid ≡ some (p, ph)
      → s' ≡ run_phase cfg o sid p ph s
      → Happens cfg s s'
  drop_job : (sid : Ident) → s' ≡ record s { jobs = set_job sid none s.jobs } → Happens cfg s s'
  operate :
      (op : Operation)
      → AreKeyed s.db.sessions
      → s' ≡ record s { db = run cfg op s.db }
      → Happens cfg s s'

pub data History (cfg : Settings) (s : System) : System → Type 0 where
  begin : History cfg s s
  then : {t u : System} → History cfg s t → Happens cfg t u → History cfg s u

Happens-Step : (cfg : Settings) (s s' : System) → Happens cfg s s' → Step cfg s s'
Happens-Step cfg s s' (Happens.take_job p free sent e) = Step.start p free sent e
Happens-Step cfg s s' (Happens.run_turn sid p ph o mine e) = Step.phase sid p ph o mine e
Happens-Step cfg s s' (Happens.drop_job sid e) = Step.leave sid e
Happens-Step cfg s s' (Happens.operate op key e) =
    Step.other (run cfg op s.db) (run-KeepsTurns cfg s.db op) e

History-Reach : (cfg : Settings) (s s' : System) → History cfg s s' → Reach cfg s s'
History-Reach cfg s s' History.begin = Reach.here
History-Reach cfg s s' (History.then {t} {u} h step) =
    Reach.next (History-Reach cfg s t h) (Happens-Step cfg t s' step)

Happens-Evolves :
    (cfg : Settings) (s s' : System) → Happens cfg s s' → Evolves s.db.sessions s'.db.sessions
Happens-Evolves cfg s s' (Happens.take_job p free sent e) =
    Evolves-same s.db.sessions _ (ap (λ x. x.db.sessions) e)
Happens-Evolves cfg s s' (Happens.run_turn sid p ph o mine e) =
    subst (Evolves s.db.sessions) (sym (ap (λ x. x.db.sessions) e))
      (advance-Evolves cfg o p ph s.db)
Happens-Evolves cfg s s' (Happens.drop_job sid e) =
    Evolves-same s.db.sessions _ (ap (λ x. x.db.sessions) e)
Happens-Evolves cfg s s' (Happens.operate op key e) =
    subst (Evolves s.db.sessions) (sym (ap (λ x. x.db.sessions) e)) (run-Evolves cfg op s.db key)

History-Evolves :
    (cfg : Settings) (s s' : System) → History cfg s s' → Evolves s.db.sessions s'.db.sessions
History-Evolves cfg s s' History.begin = Evolves-refl s.db.sessions
History-Evolves cfg s s' (History.then {t} {u} h step) =
    Evolves-trans s.db.sessions t.db.sessions s'.db.sessions (History-Evolves cfg s t h)
      (Happens-Evolves cfg t s' step)

-- Over any history of the program, a session is still there at the end, and it has only moved on:
-- its identity, guild and owner are the same and so is its thread once it has one; its lifecycle
-- version never goes down; failed and orphaned are final; it does not return to creating; and
-- within one lifecycle version it neither starts nor comes alive again.
pub sessions_move_on :
    (cfg : Settings) (s s' : System) (sid : Ident) (a : Session)
    → History cfg s s'
    → get_session sid s.db ≡ some a
    → (b : Session) × (get_session sid s'.db ≡ some b) × Moves a b
sessions_move_on cfg s s' sid a h e = History-Evolves cfg s s' h sid a e

-- Over any history of the program from a runner that has no jobs, through redeliveries, crashes and
-- the modelled transactions of bot, runner and janitor, the subprocess of a message is started at
-- most once, and once it was started its turn is there and no longer queued.
pub program_runs_once :
    (cfg : Settings) (db : Database) (s : System) (k : Ident)
    → History cfg (initial db) s
    → (times k s.log ≤ 1) × ((times k s.log ≡ 0) ⊎ (has_left_queue (get_turn k s.db) ≡ true))
program_runs_once cfg db s k h =
    execution_at_most_once cfg db s k (History-Reach cfg (initial db) s h)
