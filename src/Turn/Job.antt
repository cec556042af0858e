-- ===== src/Turn/Job.antt =====
-- src/discode/runner/saga_input.py: `run_input_job` and `_run_locked`, cut at every wait into the
-- transactions and the calls to the outside between them. Other processes run between two phases;
-- a crash drops the job at any of them. The advisory lock of the session is held throughout.
use discode.Base.{
  Bool, Option, [], any, coalesce, false, if◌then◌else◌, none, not, or_text, rowcount, some, suc,
  update_where, ℕ, ◌&&◌, ◌++◌, ◌==◌, ◌=?◌, ◌||◌, ◌∷◌,
}
use discode.Data.{
  Database, Ident, InputTurn, SendInput, Session, Status, Text, Time, TurnStatus, get_session,
  get_turn, has_key, is_ready, update_sessions, update_turns,
}
use discode.Config.{Settings, execution_allowed}
use discode.Paths.{Workspace, revalidate_cwd}
use discode.Turn.Queue.{earliest, is_queued}

pub data Outcome : Type 0 where
  deferred aborted skipped_replay delivered raised : Outcome

-- What the next phase of a job is to do. `version` is the lifecycle version of the session row that
-- the check read.
pub data Phase : Type 0 where
  checking : Phase
  notify_uncertain : ℕ → Phase
  retire_denied : ℕ → Phase
  notify_denied : ℕ → Phase
  admitting : ℕ → Phase
  executing : ℕ → Phase
  persisting : ℕ → Text → Option Ident → Phase
  posting : ℕ → Option Text → Phase
  marking : TurnStatus → Outcome → Phase
  finished : Outcome → Phase

-- How `post_reply` ended: accepted, `ReplyError` with its status, or another exception.
pub data Posted : Type 0 where
  accepted : Posted
  reply_error : ℕ → Posted
  unreachable : Posted

-- `_deliver`: the tool ran (or failed) and the turn has this reply and token, or the policy check
-- before it raised
pub data Executed : Type 0 where
  replied : Text → Option Ident → Executed
  denied : Executed

-- what the outside answers in one phase
pub record Outside : Type 0 where
  pub now : Time
  pub realpath : Text → Text
  pub executed : Executed
  pub posted : Posted

abbrev pub set_turn_status : Time → TurnStatus → InputTurn → InputTurn
set_turn_status now status t = record t { status = status; updated_at = now }

-- `_mark_turn`
abbrev pub mark_turn : Time → Ident → TurnStatus → Database → Database
mark_turn now ikey status = update_turns (has_key ikey) (set_turn_status now status)

abbrev pub is_queued_key : Ident → InputTurn → Bool
is_queued_key ikey t = has_key ikey t && is_queued t.status

-- `_mark_turn(..., only_if="queued")`
abbrev pub mark_turn_if_queued : Time → Ident → TurnStatus → Database → Database
mark_turn_if_queued now ikey status = update_turns (is_queued_key ikey) (set_turn_status now status)

-- the job runs the turn: the workspace is still allowed, and so is execution
abbrev pub check_workspace : Settings → Outside → SendInput → Session → Database → Database × Phase
check_workspace cfg o p s db =
    elim (revalidate_cwd o.realpath s.cwd_realpath p.guild_id (or_text s.owner_id 0) p.host_id db) [
      | Workspace.allowed real ↦
          if execution_allowed cfg
          then (db, Phase.admitting s.lifecycle_version)
          else (db, Phase.finished Outcome.raised)
      | _ ↦ (db, Phase.retire_denied s.lifecycle_version)
    ]

-- the branches on the turn's status
abbrev pub check_status :
    Settings → Outside → SendInput → Session → InputTurn → Database → Database × Phase
check_status cfg o p s t db = elim t.status [
  | TurnStatus.queued ↦ check_workspace cfg o p s db
  | TurnStatus.delivered ↦ (db, Phase.finished Outcome.skipped_replay)
  | TurnStatus.delivery_failed ↦ (db, Phase.finished Outcome.skipped_replay)
  | TurnStatus.aborted ↦ (db, Phase.finished Outcome.skipped_replay)
  | TurnStatus.executing ↦ (
    mark_turn o.now p.idempotency_key TurnStatus.uncertain db,
    Phase.notify_uncertain s.lifecycle_version,
  )
  | TurnStatus.uncertain ↦ (
    mark_turn o.now p.idempotency_key TurnStatus.uncertain db,
    Phase.notify_uncertain s.lifecycle_version,
  )
  | TurnStatus.completed ↦ (db, Phase.posting s.lifecycle_version t.result_text)
]

abbrev pub check_turn :
    Settings → Outside → SendInput → Session → Option InputTurn → Database → Database × Phase
check_turn cfg o p s none db = check_workspace cfg o p s db
check_turn cfg o p s (some t) db =
    if t.session_id == p.session_id && t.lifecycle_version == s.lifecycle_version
    then check_status cfg o p s t db
    else (db, Phase.finished Outcome.aborted)

-- the payload names another lifecycle version
abbrev pub is_other_version : Option ℕ → ℕ → Bool
is_other_version none version = false
is_other_version (some v) version = not (v == version)

abbrev pub is_other_turn : Option InputTurn → Ident → Bool
is_other_turn none ikey = false
is_other_turn (some t) ikey = not (t.idempotency_key == ikey)

-- the first block of `_run_locked`: one read transaction, and the mark of an interrupted turn
unfoldable pub check : Settings → Outside → SendInput → Database → Database × Phase
check cfg o p db = elim (get_session p.session_id db) [
  | none ↦ (db, Phase.finished Outcome.aborted)
  | some s ↦
      if not (is_ready s.status)
      then (db, Phase.finished Outcome.aborted)
      else if not (s.guild_id =? p.guild_id && s.host_id =? p.host_id)
      then (db, Phase.finished Outcome.aborted)
      else if is_other_version p.lifecycle_version s.lifecycle_version
      then (db, Phase.finished Outcome.aborted)
      else if is_other_turn (earliest p.session_id s.lifecycle_version db) p.idempotency_key
      then (db, Phase.finished Outcome.deferred)
      else check_turn cfg o p s (get_turn p.idempotency_key db) db
]

-- `WHERE id=:sid AND lifecycle_version=:version AND status IN ('running','idle')`
abbrev pub is_current : Ident → ℕ → Session → Bool
is_current sid version s = s.id == sid && s.lifecycle_version == version && is_ready s.status

abbrev pub start_turn : Time → SendInput → ℕ → Database → InputTurn
start_turn now p version db = record {
  sequence = db.next_sequence;
  idempotency_key = p.idempotency_key;
  session_id = p.session_id;
  lifecycle_version = version;
  status = TurnStatus.executing;
  result_text = none;
  resume_token = none;
  created_at = now;
  updated_at = now;
}

abbrev pub is_startable : SendInput → ℕ → InputTurn → Bool
is_startable p version t =
    has_key p.idempotency_key t
    && is_queued t.status
    && t.session_id == p.session_id
    && t.lifecycle_version == version

-- `INSERT ... ON CONFLICT (idempotency_key) DO UPDATE SET status='executing' WHERE ...`; a conflict
-- uses up a value of the Identity column too
abbrev pub upsert_turn : Time → SendInput → ℕ → Database → Database
upsert_turn now p version db = record db {
  input_turns =
      if any (has_key p.idempotency_key) db.input_turns
      then update_where (is_startable p version) (set_turn_status now TurnStatus.executing)
          db.input_turns
      else db.input_turns ++ start_turn now p version db ∷ [];
  next_sequence = suc db.next_sequence;
}

-- the intent is durable before the subprocess starts
unfoldable pub admit : Outside → SendInput → ℕ → Database → Database × Phase
admit o p version db =
    if rowcount (is_current p.session_id version) db.sessions == 0
    then (db, Phase.finished Outcome.aborted)
    else (
      upsert_turn o.now p version (
          update_sessions (is_current p.session_id version)
            (λ s. record s { last_activity_at = o.now; status = Status.running }) db),
      Phase.executing version,
    )

abbrev pub complete_turn : Time → Text → Option Ident → InputTurn → InputTurn
complete_turn now reply token t = record t {
  status = TurnStatus.completed;
  result_text = some reply;
  resume_token = token;
  updated_at = now;
}

abbrev pub keep_token : Time → Option Ident → Session → Session
keep_token now token s = record s {
  tool_resume_token = coalesce token s.tool_resume_token;
  last_activity_at = now;
}

-- the result is durable before it is posted; a token reaches the session only in its own version
unfoldable pub persist : Outside → SendInput → ℕ → Text → Option Ident → Database → Database × Phase
persist o p version reply token db = (
  update_sessions (is_current p.session_id version) (keep_token o.now token)
      (update_turns (has_key p.idempotency_key) (complete_turn o.now reply token) db),
  Phase.posting version (some reply),
)

abbrev pub after_post : Posted → Phase
after_post Posted.accepted = Phase.marking TurnStatus.delivered Outcome.delivered
after_post Posted.unreachable = Phase.finished Outcome.deferred
after_post (Posted.reply_error status) =
    if status == 410 || status == 422
    then Phase.marking TurnStatus.delivery_failed Outcome.aborted
    else Phase.finished Outcome.deferred

abbrev pub after_uncertain : Posted → Phase
after_uncertain Posted.accepted = Phase.finished Outcome.aborted
after_uncertain Posted.unreachable = Phase.finished Outcome.deferred
after_uncertain (Posted.reply_error status) =
    Phase.finished (if status == 410 then Outcome.aborted else Outcome.deferred)

abbrev pub after_execution : ℕ → Executed → Phase
after_execution version (Executed.replied reply token) = Phase.persisting version reply token
after_execution version Executed.denied = Phase.finished Outcome.raised

-- One phase of the job.
unfoldable pub advance : Settings → Outside → SendInput → Phase → Database → Database × Phase
advance cfg o p Phase.checking db = check cfg o p db
advance cfg o p (Phase.notify_uncertain version) db = (db, after_uncertain o.posted)
advance cfg o p (Phase.retire_denied version) db =
    (mark_turn_if_queued o.now p.idempotency_key TurnStatus.aborted db, Phase.notify_denied version)
advance cfg o p (Phase.notify_denied version) db = (db, Phase.finished Outcome.aborted)
advance cfg o p (Phase.admitting version) db = admit o p version db
advance cfg o p (Phase.executing version) db = (db, after_execution version o.executed)
advance cfg o p (Phase.persisting version reply token) db = persist o p version reply token db
advance cfg o p (Phase.posting version reply) db = (db, after_post o.posted)
advance cfg o p (Phase.marking status outcome) db =
    (mark_turn o.now p.idempotency_key status db, Phase.finished outcome)
advance cfg o p (Phase.finished outcome) db = (db, Phase.finished outcome)
