-- ===== src/Turn/AtMostOnce.antt =====
-- The invariant `IsOnce` of the transition system of turns, over deliveries, crashes and the
-- transactions of others.
use mathlib.Core.Path.{subst}
use discode.Base.{
  ==_iff, Bool, Bool-cases, List, Option, Option-cases, [], arith, false, inl, inr, none, not, some,
  subst_some, sym, true, ℕ, ◌==◌, ◌≡◌, ◌≤◌, ◌⊎◌,
}
use discode.Data.{Database, Ident, InputTurn, SendInput, get_turn}
use discode.Config.{Settings}
use discode.Turn.Job.{Phase}
use discode.Turn.Queue.{is_queued}
use discode.Turn.System.{Reach, Step, System, is_sent, kept, set_job, times}
use discode.Turn.Once.{job_ok, once_ok}
use discode.Turn.OncePhase.{IsOnce, each_once_after, jobs_know_after}

-- the runner just started, over any database
abbrev pub initial : Database → System
initial db = record { db = db; jobs = λ sid. none; log = [] }

initial-IsOnce : (db : Database) → IsOnce (initial db)
initial-IsOnce db = record {
  each_once =
      λ k. elim (Option-cases (get_turn k db)) [ inl e ↦ ground arith | inr (t, e) ↦ ground arith ];
  jobs_own = λ sid p ph h. cc;
  jobs_know = λ sid p ph h. cc;
}

-- a turn that others leave as it is, but for its result
once_ok-kept :
    (t u : Option InputTurn) (n : ℕ) → kept t u ≡ true → once_ok t n ≡ true → once_ok u n ≡ true
once_ok-kept t u n h k = ground arith

job_ok-kept :
    (t u : Option InputTurn) (p : SendInput) (ph : Phase) (n : ℕ)
    → kept t u ≡ true
    → job_ok t p ph n ≡ true
    → job_ok u p ph n ≡ true
job_ok-kept t u p ph n h k = ground arith

job_ok-checking :
    (t : Option InputTurn) (p : SendInput) (n : ℕ)
    → is_sent t p ≡ true
    → job_ok t p Phase.checking n ≡ true
job_ok-checking t p n h = ground arith

-- What the invariant says of the job that runs for `sid`, if one does.
abbrev Known : Database → List Ident → Ident → SendInput × Phase → Type 0
Known db log sid (p, ph) =
    (p.session_id ≡ sid)
    × (job_ok (get_turn p.idempotency_key db) p ph (times p.idempotency_key log) ≡ true)

started_job :
    (s : System) (inv : IsOnce s) (p : SendInput)
    → is_sent (get_turn p.idempotency_key s.db) p ≡ true
    → (sid : Ident) (q : SendInput) (ph : Phase)
    → set_job p.session_id (some (p, Phase.checking)) s.jobs sid ≡ some (q, ph)
    → Known s.db s.log sid (q, ph)
started_job s inv p sent sid q ph h = elim (Bool-cases (sid == p.session_id)) [
  | inl same ↦
      subst_some (Known s.db s.log sid) {a = (p, Phase.checking)} {b = (q, ph)} (rw same at h)
        (sym ((==_iff _ _).0 same), job_ok-checking (get_turn p.idempotency_key s.db) p _ sent)
  | inr ne ↦
      let theirs : s.jobs sid ≡ some (q, ph) = rw ne at h in
      (inv.jobs_own sid q ph theirs, inv.jobs_know sid q ph theirs)
]

left_job :
    (s : System) (inv : IsOnce s) (gone sid : Ident) (q : SendInput) (ph : Phase)
    → set_job gone none s.jobs sid ≡ some (q, ph)
    → Known s.db s.log sid (q, ph)
left_job s inv gone sid q ph h = elim (Bool-cases (sid == gone)) [
  | inl same ↦
      let no_job : ◌≡◌ {A = Option (SendInput × Phase)} none (some (q, ph)) = rw same at h in cc
  | inr ne ↦
      let theirs : s.jobs sid ≡ some (q, ph) = rw ne at h in
      (inv.jobs_own sid q ph theirs, inv.jobs_know sid q ph theirs)
]

Step-IsOnce : (cfg : Settings) (s s' : System) → IsOnce s → Step cfg s s' → IsOnce s'
Step-IsOnce cfg s s' inv (Step.start p free sent e) = subst IsOnce (sym e) (record {
  each_once = inv.each_once;
  jobs_own = λ i q gh h. (started_job s inv p sent i q gh h).0;
  jobs_know = λ i q gh h. (started_job s inv p sent i q gh h).1;
})
Step-IsOnce cfg s s' inv (Step.phase sid p ph o mine e) = subst IsOnce (sym e) (record {
  each_once = each_once_after cfg o s inv sid p ph mine;
  jobs_own = λ i q gh h. (jobs_know_after cfg o s inv sid p ph mine i q gh h).0;
  jobs_know = λ i q gh h. (jobs_know_after cfg o s inv sid p ph mine i q gh h).1;
})
Step-IsOnce cfg s s' inv (Step.leave sid e) = subst IsOnce (sym e) (record {
  each_once = inv.each_once;
  jobs_own = λ i q gh h. (left_job s inv sid i q gh h).0;
  jobs_know = λ i q gh h. (left_job s inv sid i q gh h).1;
})
Step-IsOnce cfg s s' inv (Step.other db' keeps e) = subst IsOnce (sym e) (record {
  each_once = λ k.
      once_ok-kept (get_turn k s.db) (get_turn k db') (times k s.log) (keeps k) (inv.each_once k);
  jobs_own = inv.jobs_own;
  jobs_know = λ i q gh h.
      job_ok-kept (get_turn q.idempotency_key s.db) (get_turn q.idempotency_key db') q gh
        (times q.idempotency_key s.log) (keeps q.idempotency_key) (inv.jobs_know i q gh h);
})

Reach-IsOnce : (cfg : Settings) (s s' : System) → IsOnce s → Reach cfg s s' → IsOnce s'
Reach-IsOnce cfg s s' inv Reach.here = inv
Reach-IsOnce cfg s s' inv (Reach.next {t} {u} r st) =
    Step-IsOnce cfg t s' (Reach-IsOnce cfg s t inv r) st

-- the turn is not there, or it has left `queued`
abbrev pub has_left_queue : Option InputTurn → Bool
has_left_queue none = false
has_left_queue (some t) = not (is_queued t.status)

-- From a runner that starts over any database, through any deliveries, redeliveries, crashes and
-- transactions of other processes: the subprocess of a message is started at most once, and once it
-- was started its turn is there and no longer queued.
pub execution_at_most_once :
    (cfg : Settings) (db : Database) (s : System) (k : Ident)
    → Reach cfg (initial db) s
    → (times k s.log ≤ 1) × ((times k s.log ≡ 0) ⊎ (has_left_queue (get_turn k s.db) ≡ true))
execution_at_most_once cfg db s k r =
    let ok = (Reach-IsOnce cfg (initial db) s (initial-IsOnce db) r).each_once k in
    elim (Option-cases (get_turn k s.db)) [ inl e ↦ ground arith | inr (t, e) ↦ ground arith ]
