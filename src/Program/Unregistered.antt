-- ===== src/Program/Unregistered.antt =====
-- The restart saga against the registry of src/discode/specs/state_machine.py.
use discode.Base.{arith, false, some, ◌≡◌}
use discode.Data.{Call, Database, Ident, Session, get_session}
use discode.Session.Scope.{IsKeyed}
use discode.Session.Sagas.{Restarted, begin_restart, run_restart_saga}
use discode.Session.Outcomes.{run_restart_saga_lem}
use discode.Lifecycle.Registry.{registered}

-- Every restart that goes through makes a transition of the session's status that the registry of
-- transitions does not list; `sessions` is keyed.
pub restart_unregistered :
    (c : Call) (sid guild by : Ident) (s : Session) (db : Database)
    → IsKeyed sid db
    → get_session sid db ≡ some s
    → (run_restart_saga c sid guild by db).1 ≡ Restarted.restarted sid
    → (s' : Session) × (get_session sid (run_restart_saga c sid guild by db).0 ≡ some s')
      × (registered s.status s'.status ≡ false)
restart_unregistered c sid guild by s db key h done =
    let (answer, moved, _, _) = run_restart_saga_lem c sid guild by db sid key in
    (begin_restart c s, ground arith, ground arith)
