-- ===== src/Janitor/Hosts.antt =====
-- src/discode/janitor/lifecycle.py: `sweep_runner_heartbeat_orphans`, and the heartbeats of
-- src/discode/runner/main.py that it watches.
use discode.Base.{
  Bool, List, [], any, arith, false, if◌then◌else◌, length, none, not, refl, some, true,
  update_where, ℕ, ◌&&◌, ◌*◌, ◌++◌, ◌==◌, ◌∷◌, ◌≡◌,
}
use discode.Data.{
  Call, Database, HostStatus, Ident, Message, Reason, RunnerHost, Session, Time, get_session,
  is_attached, update_sessions,
}
use discode.Lifecycle.{Evolves, Evolves-refl}
use discode.Runner.Create.{fail_session}
use discode.Janitor.Timeouts.{each_row, is_older, returned, tell_final}
use discode.Janitor.Moves.{update_each-Evolves}
use discode.Janitor.Spared.{each_row-keeps, spared}

abbrev pub is_online : HostStatus → Bool
is_online HostStatus.online = true
is_online _ = false

abbrev pub is_stale_host : Time → ℕ → RunnerHost → Bool
is_stale_host now limit h = is_online h.status && is_older now limit h.last_heartbeat_at

abbrev pub set_offline : RunnerHost → RunnerHost
set_offline h = record h { status = HostStatus.offline }

-- `host_id IN (SELECT id FROM runner_hosts WHERE status = 'offline' AND ...)`
abbrev pub is_lost_host : Time → ℕ → Ident → RunnerHost → Bool
is_lost_host now limit id h =
    h.id == id && not (is_online h.status) && is_older now limit h.last_heartbeat_at

abbrev pub is_on_lost_host : Time → ℕ → List RunnerHost → Session → Bool
is_on_lost_host now limit hosts s = elim s.host_id [
  | none ↦ false
  | some id ↦ is_attached s.status && any (is_lost_host now limit id) hosts
]

unfoldable pub sweep_runner_heartbeat_orphans : Call → ℕ → ℕ → Database → Database × ℕ
sweep_runner_heartbeat_orphans c stale hours db =
    let hosts = update_where (is_stale_host c.now stale) set_offline db.runner_hosts in
    let lost = is_on_lost_host c.now (3600 * hours) hosts in
    let rows = returned lost (fail_session Reason.runner_lost) db in
    (
      each_row (tell_final c Message.host_lost) 0 rows (
          update_sessions lost (fail_session Reason.runner_lost)
            (record db { runner_hosts = hosts })),
      length rows,
    )

abbrev pub has_host_id : Ident → RunnerHost → Bool
has_host_id id h = h.id == id

-- one round of `_heartbeat_loop`: INSERT ... ON CONFLICT DO UPDATE
unfoldable pub heartbeat : Time → Ident → Database → Database
heartbeat now id db = record db {
  runner_hosts =
      if any (has_host_id id) db.runner_hosts
      then update_where (has_host_id id)
          (λ h. record h { status = HostStatus.online; last_heartbeat_at = now }) db.runner_hosts
      else db.runner_hosts
        ++ (record { id = id; status = HostStatus.online; last_heartbeat_at = now }) ∷ [];
}

-- `_mark_runner_offline`
unfoldable pub mark_runner_offline : Ident → Database → Database
mark_runner_offline id db = record db {
  runner_hosts = update_where (has_host_id id) set_offline db.runner_hosts;
}

pub sweep_runner_heartbeat_orphans-Evolves :
    (c : Call) (stale hours : ℕ) (db : Database)
    → Evolves db.sessions (sweep_runner_heartbeat_orphans c stale hours db).0.sessions
unfolding sweep_runner_heartbeat_orphans
sweep_runner_heartbeat_orphans-Evolves c stale hours db =
    let hosts = update_where (is_stale_host c.now stale) set_offline db.runner_hosts in
    update_each-Evolves (is_on_lost_host c.now (3600 * hours) hosts)
      (fail_session Reason.runner_lost) (tell_final c Message.host_lost)
      (record db { runner_hosts = hosts }) (λ s. refl) (λ s e. ground arith)
      (λ uuid s d. Evolves-refl d.sessions)

abbrev pub is_late : Time → ℕ → Ident → RunnerHost → Bool
is_late now limit id h = h.id == id && is_older now limit h.last_heartbeat_at

no_lost_host :
    (now : Time) (stale limit : ℕ) (id : Ident) (l : List RunnerHost)
    → any (is_late now limit id) l ≡ false
    → any (is_lost_host now limit id) (update_where (is_stale_host now stale) set_offline l) ≡ false
no_lost_host now stale limit id [] none_late = refl
no_lost_host now stale limit id (h ∷ l) none_late =
    ground (arith, no_lost_host now stale limit id l)

-- A session is not failed for its runner while the host's last heartbeat, whether the host says it
-- is online or not, is within the recovery limit: a runner that restarts in time keeps its sessions.
pub recent_heartbeat_spares :
    (c : Call) (stale hours : ℕ) (db : Database) (sid host : Ident) (s : Session)
    → get_session sid db ≡ some s
    → s.host_id ≡ some host
    → any (is_late c.now (3600 * hours) host) db.runner_hosts ≡ false
    → get_session sid (sweep_runner_heartbeat_orphans c stale hours db).0 ≡ some s
unfolding sweep_runner_heartbeat_orphans
recent_heartbeat_spares c stale hours db sid host s h on fresh =
    let hosts = update_where (is_stale_host c.now stale) set_offline db.runner_hosts in
    let lost = is_on_lost_host c.now (3600 * hours) hosts in
    rw
      (each_row-keeps (tell_final c Message.host_lost) (λ uuid r d. refl) 0
        (returned lost (fail_session Reason.runner_lost) db)
        (update_sessions lost (fail_session Reason.runner_lost)
          (record db { runner_hosts = hosts })))
      (spared lost (fail_session Reason.runner_lost) sid s db.sessions (λ x. refl) h
        (ground (arith, no_lost_host c.now stale (3600 * hours) host db.runner_hosts)))
