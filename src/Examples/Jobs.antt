-- ===== src/Examples/Jobs.antt =====
-- The theorems on the runner's jobs, at the sessions of the fixtures.
use discode.Base.{List, [], arith, false, inr, none, refl, some, true, ℕ, ◌∷◌, ◌≡◌}
use discode.Data.{CreateSession, Envelope, LifecycleJob, get_session}
use discode.Session.Sagas.{lifecycle_job}
use discode.Runner.Create.{notice, run_create_job}
use discode.Runner.Expected.{settled_creation}
use discode.Runner.Created.{alone, notice_row, run_create_job_settles}
use discode.Runner.Dispatch.{Delivery, Handled, dispatch_runner_job}
use discode.Runner.Dispatched.{stale_job_ignored}
use discode.Runner.Budget.{deliver, deliver_settles, is_pending, runner_job_max_deliveries}
use discode.Examples.Fixtures.{alice, call, cfg, db, fresh, new_job, world}

run_create_job_settles_example :
    let (s', notice) = settled_creation world 6 new_job fresh db in
    let db' = (run_create_job cfg (alone world) 6 new_job db).0 in
    (get_session 3 db' ≡ some s') × (db'.redis_outbox ≡ notice_row world notice db ∷ [])
run_create_job_settles_example =
    run_create_job_settles cfg world 6 new_job fresh db refl (omega arith) refl refl

abbrev late_job : CreateSession
late_job = record new_job { session_id = 1 }

abbrev delivery : Delivery
delivery = record { world = world; locked = true; commits = true; turn_answers = [] }

abbrev old_stop : LifecycleJob
old_stop = record (lifecycle_job call alice 7 (some 6) none) { lifecycle_version = some 1 }

stale_job_ignored_example :
    dispatch_runner_job cfg delivery 6 (Envelope.stop_session old_stop) db ≡ (db, Handled.handled)
stale_job_ignored_example =
    stale_job_ignored cfg delivery 6 (Envelope.stop_session old_stop) old_stop db refl
      (inr (λ e. cc))

abbrev failures : List (Handled × ℕ)
failures =
    (Handled.raised, 0)
    ∷ (Handled.pending, 0)
    ∷ (Handled.raised, 0)
    ∷ (Handled.pending, 0)
    ∷ (Handled.raised, 0)
    ∷ []

deliver_settles_example : is_pending (deliver runner_job_max_deliveries 0 failures) ≡ false
deliver_settles_example = deliver_settles runner_job_max_deliveries failures refl (omega arith)
