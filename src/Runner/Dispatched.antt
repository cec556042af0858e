-- ===== src/Runner/Dispatched.antt =====
-- The jobs of src/discode/runner/main.py against the sessions they are for.
use discode.Base.{
  Bool, Option, Option-cases, ap, arith, false, inl, inr, none, refl, some, ◌∙◌, ◌≡◌, ◌⊎◌,
}
use discode.Data.{Database, Envelope, Ident, LifecycleJob, Session, get_session}
use discode.Config.{Settings}
use discode.Runner.Create.{World}
use discode.Runner.Resume.{Resumed, run_resume_job}
use discode.Runner.Dispatch.{Delivery, Handled, dispatch_runner_job, has_job_version, stop_session}

-- the lifecycle version that a stop, resume or restart job carries
abbrev pub lifecycle_job_of : Envelope → Option LifecycleJob
lifecycle_job_of (Envelope.stop_session p) = some p
lifecycle_job_of (Envelope.resume_session p) = some p
lifecycle_job_of (Envelope.restart_session p) = some p
lifecycle_job_of _ = none

stale_resume :
    (w : World) (commits : Bool) (host : Ident) (p : LifecycleJob) (db : Database)
    → has_job_version host p db ≡ false
    → run_resume_job w commits host p db ≡ (db, Resumed.refused)
unfolding run_resume_job
stale_resume w commits host p db h = elim (Option-cases (get_session p.session_id db)) [
  | inl e ↦ ground arith
  | inr (s, e) ↦ ground arith
]

-- There is no session, it is not on this host, or the job is not for its lifecycle version.
abbrev pub IsStale : Ident → LifecycleJob → Option Session → Type 0
IsStale host p none = Unit
IsStale host p (some s) =
    ¬ (s.host_id ≡ some host) ⊎ ¬ (p.lifecycle_version ≡ some s.lifecycle_version)

has_job_version-IsStale :
    (host : Ident) (p : LifecycleJob) (db : Database) (found : Option Session)
    → get_session p.session_id db ≡ found
    → IsStale host p found
    → has_job_version host p db ≡ false
has_job_version-IsStale host p db none e stale = ground (arith, e)
has_job_version-IsStale host p db (some s) e (inl away) = elim (Option-cases s.host_id) [
  | inl f ↦ ground (arith, e)
  | inr (h, f) ↦ ground (arith, e, λ (same : h ≡ host). away (f ∙ ap some same))
]
has_job_version-IsStale host p db (some s) e (inr other) = elim (Option-cases p.lifecycle_version) [
  | inl f ↦ ground (arith, e)
  | inr (v, f) ↦ ground (arith, e, λ (same : v ≡ s.lifecycle_version). other (f ∙ ap some same))
]

-- A stop, resume or restart job of another lifecycle version than its session's, or for a session
-- that is missing or not on this host, is acknowledged and leaves the database as it is.
pub stale_job_ignored :
    (cfg : Settings) (v : Delivery) (host : Ident) (e : Envelope) (p : LifecycleJob) (db : Database)
    → lifecycle_job_of e ≡ some p
    → IsStale host p (get_session p.session_id db)
    → dispatch_runner_job cfg v host e db ≡ (db, Handled.handled)
unfolding dispatch_runner_job
stale_job_ignored cfg v host e p db h stale =
    let k = has_job_version-IsStale host p db (get_session p.session_id db) refl stale in
    ground (arith, k, stale_resume v.world v.commits host p db)
