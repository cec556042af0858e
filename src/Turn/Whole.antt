-- ===== src/Turn/Whole.antt =====
-- A whole job, with what other processes do between its phases, moves every session only as `Moves`
-- allows.
use discode.Base.{All, List, [], ◌∷◌}
use discode.Data.{Database, SendInput}
use discode.Config.{Settings}
use discode.Lifecycle.{Evolves, Evolves-refl, Evolves-trans}
use discode.Turn.Job.{Outside, Phase, advance}
use discode.Turn.Fencing.{advance-Evolves}
use discode.Turn.Progress.{run_job}

abbrev pub Harmless : Outside × (Database → Database) → Type 0
Harmless o = (d : Database) → Evolves d.sessions (o.1 d).sessions

pub run_job-Evolves :
    (cfg : Settings) (p : SendInput) (os : List (Outside × (Database → Database))) (ph : Phase)
    (db : Database)
    → All Harmless os
    → Evolves db.sessions (run_job cfg p os ph db).0.sessions
unfolding run_job
run_job-Evolves cfg p [] ph db others = Evolves-refl db.sessions
run_job-Evolves cfg p ((o, between) ∷ os) ph db (mine, others) =
    let next = (advance cfg o p ph db).0 in
    Evolves-trans db.sessions next.sessions _ (advance-Evolves cfg o p ph db) (
      Evolves-trans next.sessions (between next).sessions _ (mine next)
        (run_job-Evolves cfg p os (advance cfg o p ph db).1 (between next) others))
