-- ===== src/Examples/Histories.antt =====
-- A history of the program: a session is resumed while the input_message of another is taken and its
-- turn checked.
use discode.Base.{arith, refl, some, true, ◌≡◌, ◌≤◌, ◌⊎◌}
use discode.Data.{Session, get_session, get_turn}
use discode.Lifecycle.{Moves}
use discode.Session.Sagas.{run_resume_saga}
use discode.Turn.Job.{Phase}
use discode.Turn.System.{System, run_phase, set_job, times}
use discode.Turn.AtMostOnce.{has_left_queue, initial}
use discode.Janitor.StopSweep.{AreKeyed}
use discode.Program.Operations.{Operation, run}
use discode.Program.History.{Happens, History, program_runs_once, sessions_move_on}
use discode.Examples.Fixtures.{alice, answers, call, cfg, db, input_message}

abbrev resumed : System
resumed = record (initial db) { db = run cfg (Operation.resume call 2 7 6) db }

abbrev taken : System
taken = record resumed { jobs = set_job 1 (some (input_message, Phase.checking)) resumed.jobs }

abbrev checked : System
checked = run_phase cfg answers 1 input_message Phase.checking taken

keyed : AreKeyed db.sessions
keyed i = ground arith

past : History cfg (initial db) checked
unfolding run run_resume_saga
past =
    History.then
      (History.then
        (History.then History.begin (Happens.operate (Operation.resume call 2 7 6) keyed refl))
        (Happens.take_job input_message refl refl refl))
      (Happens.run_turn 1 input_message Phase.checking answers refl refl)

sessions_move_on_example : (b : Session) × (get_session 1 checked.db ≡ some b) × Moves alice b
sessions_move_on_example = sessions_move_on cfg (initial db) checked 1 alice past refl

program_runs_once_example :
    (times 50 checked.log ≤ 1)
    × ((times 50 checked.log ≡ 0) ⊎ (has_left_queue (get_turn 50 checked.db) ≡ true))
program_runs_once_example = program_runs_once cfg db checked 50 past

abbrev held : System
held = record (initial db) {
  jobs = set_job 1 (some (input_message, Phase.checking)) (initial db).jobs;
}
