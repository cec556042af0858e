-- ===== src/Turn/System.antt =====
-- Every process around the turns: the jobs of the runner, at most one per session because each
-- holds the session's advisory lock while it runs, crashes, and the transactions of all others.
use discode.Base.{
  Bool, List, Option, false, if◌then◌else◌, none, not, rowcount, some, true, ℕ, ◌&&◌, ◌==◌, ◌∷◌,
  ◌≡◌,
}
use discode.Data.{Database, Ident, InputTurn, SendInput, get_turn}
use discode.Config.{Settings}
use discode.Turn.Queue.{is_queued}
use discode.Turn.Job.{Executed, Outside, Phase, advance}

-- `log` has the key of a turn once for each time that its subprocess was started.
pub record System : Type 0 where
  pub db : Database
  pub jobs : Ident → Option (SendInput × Phase)
  pub log : List Ident

abbrev pub times : Ident → List Ident → ℕ
times k log = rowcount (λ j. j == k) log

abbrev pub set_job :
    Ident
    → Option (SendInput × Phase)
    → (Ident → Option (SendInput × Phase))
    → Ident
    → Option (SendInput × Phase)
set_job sid job jobs j = if j == sid then job else jobs j

-- the phase starts the subprocess of the turn
abbrev pub starts : Phase → Executed → Bool
starts (Phase.executing version) (Executed.replied reply token) = true
starts _ _ = false

abbrev pub log_start : Bool → Ident → List Ident → List Ident
log_start b k log = if b then k ∷ log else log

-- One phase of the job that runs for the session `sid`.
abbrev pub run_phase : Settings → Outside → Ident → SendInput → Phase → System → System
run_phase cfg o sid p ph s =
    let (db', ph') = advance cfg o p ph s.db in
    record s {
      db = db';
      jobs = set_job sid (some (p, ph')) s.jobs;
      log = log_start (starts ph o.executed) p.idempotency_key s.log;
    }

-- A queued message is sent in the transaction that inserts its turn, so the turn is there.
abbrev pub is_sent : Option InputTurn → SendInput → Bool
is_sent none p = false
is_sent (some t) p = t.session_id == p.session_id

-- What other processes may do to a turn: its session and version stay, and so does whether it is
-- queued.
abbrev pub kept : Option InputTurn → Option InputTurn → Bool
kept none u = true
kept (some t) none = false
kept (some t) (some u) =
    u.session_id == t.session_id
    && u.lifecycle_version == t.lifecycle_version
    && (if is_queued t.status then is_queued u.status else not (is_queued u.status))

abbrev pub KeepsTurns : Database → Database → Type 0
KeepsTurns db db' = (k : Ident) → kept (get_turn k db) (get_turn k db') ≡ true

pub data Step (cfg : Settings) (s s' : System) : Type 0 where
  -- a delivery of the message takes the free lock
  start :
      (p : SendInput)
      → s.jobs p.session_id ≡ none
      → is_sent (get_turn p.idempotency_key s.db) p ≡ true
      → s' ≡ record s { jobs = set_job p.session_id (some (p, Phase.checking)) s.jobs }
      → Step cfg s s'
  phase :
      (sid : Ident) (p : SendInput) (ph : Phase) (o : Outside)
      → s.jobs sid ≡ some (p, ph)
      → s' ≡ run_phase cfg o sid p ph s
      → Step cfg s s'
  -- a job ends, or its process dies: the lock is free again
  leave : (sid : Ident) → s' ≡ record s { jobs = set_job sid none s.jobs } → Step cfg s s'
  other : (db' : Database) → KeepsTurns s.db db' → s' ≡ record s { db = db' } → Step cfg s s'

pub data Reach (cfg : Settings) (s : System) : System → Type 0 where
  here : Reach cfg s s
  next : {t u : System} → Reach cfg s t → Step cfg t u → Reach cfg s u
