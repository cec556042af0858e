-- ===== src/Turn/OncePhase.antt =====
-- A phase of a job keeps the invariant of `IsOnce`: each turn was started at most once, and each
-- running job knows its turn.
use discode.Base.{
  ==_iff, Bool, Bool-cases, List, Option, ap, arith, false, if◌then◌else◌, inl, inr, some,
  subst_some, sym, true, ℕ, ◌&&◌, ◌+◌, ◌==◌, ◌∙◌, ◌≡◌,
}
use discode.Data.{Database, Ident, InputTurn, SendInput, get_turn}
use discode.Config.{Settings}
use discode.Turn.Job.{Outside, Phase, advance}
use discode.Turn.System.{System, log_start, run_phase, starts, times}
use discode.Turn.Effects.{advance-other}
use discode.Turn.Once.{OwnOk, job_ok, once_ok, own_step}

-- What holds of every reachable system: each turn was started at most once, and each running job
-- knows its turn.
pub record IsOnce (s : System) : Type 0 where
  pub each_once : (k : Ident) → once_ok (get_turn k s.db) (times k s.log) ≡ true
  pub jobs_own :
      (sid : Ident) (p : SendInput) (ph : Phase) → s.jobs sid ≡ some (p, ph) → p.session_id ≡ sid
  pub jobs_know :
      (sid : Ident) (p : SendInput) (ph : Phase)
      → s.jobs sid ≡ some (p, ph)
      → job_ok (get_turn p.idempotency_key s.db) p ph (times p.idempotency_key s.log) ≡ true

same_session :
    (t : Option InputTurn) (p q : SendInput) (ph gh : Phase) (n m : ℕ)
    → job_ok t p ph n ≡ true
    → job_ok t q gh m ≡ true
    → (q.session_id == p.session_id) ≡ true
same_session t p q ph gh n m h k = ground arith

-- Two jobs of different sessions have different messages.
keys_differ :
    (p q : SendInput) (ph gh : Phase) (n m : ℕ) (db : Database)
    → job_ok (get_turn p.idempotency_key db) p ph n ≡ true
    → job_ok (get_turn q.idempotency_key db) q gh m ≡ true
    → (q.session_id == p.session_id) ≡ false
    → (q.idempotency_key == p.idempotency_key) ≡ false
keys_differ p q ph gh n m db h k ne = elim (Bool-cases (q.idempotency_key == p.idempotency_key)) [
  | inl same ↦
      let e = ap (λ i. job_ok (get_turn i db) q gh m) ((==_iff _ _).0 same) in
      let s = same_session (get_turn p.idempotency_key db) p q ph gh n m h (sym e ∙ k) in
      ground arith
  | inr other ↦ other
]

times-log_start :
    (b : Bool) (k j : Ident) (log : List Ident)
    → times j (log_start b k log) ≡ (if b && k == j then 1 else 0) + times j log
times-log_start b k j log = ground arith

module _ (cfg : Settings) (o : Outside) (s : System) (inv : IsOnce s) (sid : Ident) (p : SendInput)
    (ph : Phase) (mine : s.jobs sid ≡ some (p, ph)) where
  own : OwnOk cfg o p ph s.db (times p.idempotency_key s.log)
  own =
      own_step cfg o p s.db (times p.idempotency_key s.log) ph (inv.jobs_know sid p ph mine)
        (inv.each_once p.idempotency_key)

  pub each_once_after :
      (k : Ident)
      → once_ok
          (get_turn k (run_phase cfg o sid p ph s).db)
          (times k (run_phase cfg o sid p ph s).log)
        ≡ true
  each_once_after k = elim (Bool-cases (k == p.idempotency_key)) [
    | inl same ↦
        let e : k ≡ p.idempotency_key = (==_iff _ _).0 same in
        rw e (
          ground (
            arith,
            own,
            times-log_start (starts ph o.executed) p.idempotency_key p.idempotency_key s.log,
          ))
    | inr ne ↦ ground (
      arith,
      inv.each_once k,
      advance-other p k ne cfg o ph s.db,
      times-log_start (starts ph o.executed) p.idempotency_key k s.log,
    )
  ]

  -- The jobs after the phase: the one that ran, and those of other sessions.
  pub jobs_know_after :
      (sid' : Ident) (q : SendInput) (gh : Phase)
      → (run_phase cfg o sid p ph s).jobs sid' ≡ some (q, gh)
      → (q.session_id ≡ sid')
        × (job_ok
              (get_turn q.idempotency_key (run_phase cfg o sid p ph s).db)
              q
              gh
              (times q.idempotency_key (run_phase cfg o sid p ph s).log)
            ≡ true)
  jobs_know_after sid' q gh h = elim (Bool-cases (sid' == sid)) [
    | inl same ↦
        subst_some {A = SendInput × Phase}
          (λ (x : SendInput × Phase).
            (x.0.session_id ≡ sid')
            × (job_ok (get_turn x.0.idempotency_key (run_phase cfg o sid p ph s).db) x.0 x.1
                  (times x.0.idempotency_key (run_phase cfg o sid p ph s).log)
                ≡ true))
          {a = (p, (advance cfg o p ph s.db).1)} {b = (q, gh)} (rw same at h)
          (
            inv.jobs_own sid p ph mine ∙ sym ((==_iff _ _).0 same),
            rw (times-log_start (starts ph o.executed) p.idempotency_key p.idempotency_key s.log)
                (ground (arith, own)),
          )
    | inr ne ↦
        let theirs : s.jobs sid' ≡ some (q, gh) = rw ne at h in
        let q_own = inv.jobs_own sid' q gh theirs in
        let p_own = inv.jobs_own sid p ph mine in
        let differ =
          keys_differ p q ph gh (times p.idempotency_key s.log) (times q.idempotency_key s.log) s.db
            (inv.jobs_know sid p ph mine) (inv.jobs_know sid' q gh theirs) (rw (q_own, p_own) ne) in
        (
          q_own,
          rw
              (
                advance-other p q.idempotency_key differ cfg o ph s.db,
                times-log_start (starts ph o.executed) p.idempotency_key q.idempotency_key s.log,
              )
              (ground (arith, inv.jobs_know sid' q gh theirs)),
        )
  ]
