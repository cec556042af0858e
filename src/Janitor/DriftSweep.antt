-- ===== src/Janitor/DriftSweep.antt =====
-- src/discode/janitor/lifecycle.py: the loop of `sweep_session_thread_binding_drift`.
use discode.Base.{List, [], not, select, suc, ℕ, ◌&&◌, ◌++◌, ◌∷◌}
use discode.Data.{Database, Session}
use discode.Lifecycle.{Evolves, Evolves-refl, Evolves-trans}
use discode.Janitor.Drift.{Repair, is_drifted, is_flagged, repair_session, repair_session-Evolves}

-- the candidates of both queries, each session once
abbrev pub candidates : Database → List Session
candidates db =
    select is_drifted db.sessions ++ select (λ s. is_flagged s && not (is_drifted s)) db.sessions

-- the counts of repaired and of dead-lettered sessions
abbrev pub count_repair : Repair → ℕ × ℕ → ℕ × ℕ
count_repair Repair.repaired (repaired, dead_lettered) = (suc repaired, dead_lettered)
count_repair Repair.dead_lettered (repaired, dead_lettered) = (repaired, suc dead_lettered)
count_repair _ counts = counts

-- `between` is what other processes do before each transaction
unfoldable pub drift_rows : (Database → Database) → ℕ → List Session → Database → Database × (ℕ × ℕ)
drift_rows between max_attempts [] db = (db, (0, 0))
drift_rows between max_attempts (s ∷ rows) db =
    let (db', repair) = repair_session between max_attempts s.repair_attempts s.id (between db) in
    let (last, counts) = drift_rows between max_attempts rows db' in
    (last, count_repair repair counts)

unfoldable pub sweep_session_thread_binding_drift :
    (Database → Database) → ℕ → Database → Database × (ℕ × ℕ)
unfolding drift_rows
sweep_session_thread_binding_drift between max_attempts db =
    drift_rows between max_attempts (candidates db) db

module _ (between : Database → Database)
    (others : (d : Database) → Evolves d.sessions (between d).sessions) (m : ℕ) where
  drift_rows-Evolves :
      (rows : List Session) (db : Database)
      → Evolves db.sessions (drift_rows between m rows db).0.sessions
  unfolding drift_rows
  drift_rows-Evolves [] db = Evolves-refl db.sessions
  drift_rows-Evolves (s ∷ rows) db =
      let next = (repair_session between m s.repair_attempts s.id (between db)).0 in
      Evolves-trans db.sessions (between db).sessions _ (others db) (
        Evolves-trans (between db).sessions next.sessions _
          (repair_session-Evolves between others m s.id s.repair_attempts (between db))
          (drift_rows-Evolves rows next))

  pub sweep_session_thread_binding_drift-Evolves :
      (db : Database)
      → Evolves db.sessions (sweep_session_thread_binding_drift between m db).0.sessions
  unfolding sweep_session_thread_binding_drift
  sweep_session_thread_binding_drift-Evolves db = drift_rows-Evolves (candidates db) db
