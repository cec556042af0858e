-- ===== src/Runner/Recover.antt =====
-- src/discode/runner/saga_resume.py: `recover_sessions`, which a starting runner calls.
use discode.Base.{
  Bool, List, Option, [], false, if◌then◌else◌, none, or_text, select, some, suc, true, ℕ, ◌&&◌,
  ◌==◌, ◌=?◌, ◌∷◌,
}
use discode.Data.{Database, Ident, Reason, Session, Text, is_attached, update_sessions}
use discode.Paths.{Workspace, revalidate_cwd}
use discode.Runner.Create.{fail_session}
use discode.Runner.Resume.{orphan_session}

-- `WHERE host_id = :hid AND status IN ('running', 'idle', 'resuming')`
abbrev pub is_attached_to : Ident → Session → Bool
is_attached_to host s = s.host_id =? host && is_attached s.status

-- `WHERE id=:sid AND lifecycle_version=:version AND status IN ('running','idle','resuming')`
abbrev pub is_attached_at : Ident → ℕ → Session → Bool
is_attached_at sid version s = s.id == sid && s.lifecycle_version == version && is_attached s.status

-- How the check of one workspace ended: its answer, or an exception (`none`).
abbrev pub recover_session : Option Workspace → Session → Database → Database
recover_session (some (Workspace.allowed real)) s db = db
recover_session (some _) s db =
    update_sessions (is_attached_at s.id s.lifecycle_version) (fail_session Reason.cwd_invalid) db
recover_session none s db =
    update_sessions (is_attached_at s.id s.lifecycle_version) (orphan_session Reason.runner_lost) db

abbrev pub is_recovered : Option Workspace → Bool
is_recovered (some (Workspace.allowed real)) = true
is_recovered _ = false

-- `raises` says for which session the check raises
abbrev pub check_session :
    (Text → Text) → (Ident → Bool) → Ident → Session → Database → Option Workspace
check_session realpath raises host s db =
    if raises s.id
    then none
    else some (
        revalidate_cwd realpath s.cwd_realpath (or_text s.guild_id 0) (or_text s.owner_id 0) host
          db)

-- the loop over the rows that the first query read; `between` is what other processes do before
-- each of them
unfoldable pub recover_rows :
    (Text → Text)
    → (Ident → Bool)
    → (Database → Database)
    → Ident
    → List Session
    → Database
    → Database × (ℕ × ℕ)
recover_rows realpath raises between host [] db = (db, (0, 0))
recover_rows realpath raises between host (s ∷ rows) db =
    let verdict = check_session realpath raises host s (between db) in
    let (db', (recovered, failed)) =
      recover_rows realpath raises between host rows (recover_session verdict s (between db)) in
    if is_recovered verdict then (db', (suc recovered, failed)) else (db', (recovered, suc failed))

unfoldable pub recover_sessions :
    (Text → Text) → (Ident → Bool) → (Database → Database) → Ident → Database → Database × (ℕ × ℕ)
unfolding recover_rows
recover_sessions realpath raises between host db =
    recover_rows realpath raises between host (select (is_attached_to host) db.sessions) db
