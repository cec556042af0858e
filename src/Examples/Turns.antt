-- ===== src/Examples/Turns.antt =====
-- The theorems on turns, at the input_message of the fixtures.
use discode.Base.{[], arith, refl, some, true, ◌∷◌, ◌≡◌, ◌≤◌}
use discode.Data.{Database, InputTurn, Status, TurnStatus, get_session, get_turn}
use discode.Text.{codes, starts_with, text_eq}
use discode.Paths.{
  canonicalize, check_segments, deny_reason, is_denied_filename, is_under, is_within_root,
  revalidate_cwd, rstrip_sep, split,
}
use discode.Turn.Job.{Outcome, Phase, check, persist}
use discode.Turn.Queue.{earliest, first_by_sequence}
use discode.Turn.Fencing.{stale_result_fenced}
use discode.Turn.Progress.{due_turn_delivered, is_due, run_job, undisturbed}
use discode.Examples.Fixtures.{alice, answers, cfg, db, input_message, turn}
use discode.Turn.Order.{check_in_order}

is_due_here : is_due cfg answers input_message alice turn db ≡ true
unfolding earliest first_by_sequence revalidate_cwd canonicalize deny_reason is_under text_eq
    starts_with check_segments split is_denied_filename is_within_root rstrip_sep
is_due_here = refl

due_turn_delivered_example :
    let (db', ph) = run_job cfg input_message (undisturbed answers) Phase.checking db in
    (ph ≡ Phase.finished Outcome.delivered)
    × (get_turn 50 db'
        ≡ some (record turn {
          status = TurnStatus.delivered;
          result_text = some (codes "ok");
          resume_token = some 77;
          updated_at = 1001;
        }))
    × (get_session 1 db'
        ≡ some (record alice {
          status = Status.running;
          last_activity_at = 1001;
          tool_resume_token = some 77;
        }))
due_turn_delivered_example =
    due_turn_delivered cfg answers input_message alice turn db refl refl is_due_here (codes "ok")
      (some 77) refl refl

abbrev later_turn : InputTurn
later_turn = record turn { sequence = 2; idempotency_key = 51 }

abbrev two_turns : Database
two_turns = record db { input_turns = turn ∷ later_turn ∷ [] }

admitted_first : (check cfg answers input_message two_turns).1 ≡ Phase.admitting 2
unfolding check earliest first_by_sequence revalidate_cwd canonicalize deny_reason is_under text_eq
    starts_with check_segments split is_denied_filename is_within_root rstrip_sep
admitted_first = refl

check_in_order_example : turn.sequence ≤ later_turn.sequence
check_in_order_example =
    check_in_order cfg answers input_message two_turns 2 turn later_turn admitted_first
      (omega arith) refl refl refl

stale_result_fenced_example :
    get_session 1 (persist answers input_message 1 (codes "old") (some 66) db).0 ≡ get_session 1 db
stale_result_fenced_example =
    stale_result_fenced answers input_message 1 db alice refl refl (codes "old") (some 66) 1
