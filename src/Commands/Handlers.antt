-- ===== src/Commands/Handlers.antt =====
-- src/discode/bot/main.py: `DiscodeCommandTree.interaction_check`, the handlers of /stop and of
-- /session archive, resume, restart and invite, of /send, and `on_message`. A handler makes several
-- transactions: `between` is what other processes do before the second, the third and the fourth. What a handler
-- tells the user is its answer; the typing indicator is not modelled.
use discode.Base.{
  Bool, List, Option, false, if◌then◌else◌, none, not, or_text, some, true, ℕ, ◌=?◌, ◌||◌,
}
use discode.Data.{Call, Database, Ident, Session, Text, Time, get_session, is_ready}
use discode.Config.{Settings}
use discode.Text.{is_empty, strip}
use discode.Session.Sagas.{
  Restarted, run_archive_saga, run_restart_saga, run_resume_saga, run_stop_saga,
}
use discode.Session.Members.{invite_user_to_session, is_session_member}
use discode.Input.Saga.{Answer, run_input_saga}
use discode.Guild.Auth.{Member, is_guild_admin_authorized, is_guild_allowed}
use discode.Commands.Target.{
  BotTables, SessionRef, is_session_owner_or_admin, resolve_session_for_thread,
  resolve_session_target,
}

-- the interaction, or the message in a thread
pub record Interaction : Type 0 where
  pub guild_id : Option Ident
  pub user : Member
  pub channel_id : Ident
  pub session : Option SessionRef

-- what a handler draws from outside
pub record Around : Type 0 where
  pub call : Call
  pub own_clock : Time
  pub between : ℕ → BotTables → BotTables

pub data UserCommand : Type 0 where
  stop archive resume restart : UserCommand
  invite : Ident → UserCommand
  send : Text → UserCommand

pub data HandlerAnswer : Type 0 where
  guild_refused not_in_server text_required no_session not_permitted : HandlerAnswer
  -- the service was called, and whether it did what it was asked to
  done : Bool → HandlerAnswer

abbrev has_restarted : Restarted → Bool
has_restarted (Restarted.restarted sid) = true
has_restarted _ = false

abbrev has_accepted : Answer → Bool
has_accepted (Answer.accepted key) = true
has_accepted _ = false

abbrev done_with {ℓ} : {A : Type ℓ} → (A → Bool) → Database × A → Database × HandlerAnswer
done_with ok (db, a) = (db, HandlerAnswer.done (ok a))

abbrev itself : Bool → Bool
itself b = b

-- the service that a command calls, for the session that it resolved to
abbrev pub serve :
    Settings → Around → Ident → Member → Session → UserCommand → Database → Database × HandlerAnswer
serve cfg o guild m s UserCommand.stop db =
    done_with itself (run_stop_saga o.call s.id guild m.user_id (some (or_text s.host_id 0)) db)
serve cfg o guild m s UserCommand.archive db =
    done_with itself (run_archive_saga o.call s.id guild db)
serve cfg o guild m s UserCommand.resume db =
    done_with itself (run_resume_saga o.call s.id guild (or_text s.host_id 0) db)
serve cfg o guild m s UserCommand.restart db =
    done_with has_restarted (run_restart_saga o.call s.id guild m.user_id db)
serve cfg o guild m s (UserCommand.invite invitee) db =
    done_with itself (invite_user_to_session o.call s.id guild invitee db)
serve cfg o guild m s (UserCommand.send text) db = done_with has_accepted (
    run_input_saga cfg o.own_clock o.call s.id guild (or_text s.owner_id 0) (some m.user_id)
      (strip text) db)

abbrev pub is_owner_of : Ident → Ident → Database → Bool
is_owner_of sid user db = elim (get_session sid db) [ none ↦ false | some s ↦ s.owner_id =? user ]

-- The check of a command: owner or admin, and members too for /send. /invite and /send look for the
-- admin in a transaction of its own, which sees `later`.
abbrev pub is_permitted : UserCommand → Ident → Ident → Member → BotTables → BotTables → Bool
is_permitted (UserCommand.invite invitee) sid guild m t later =
    is_owner_of sid m.user_id t.db || is_guild_admin_authorized guild m later.policies
is_permitted (UserCommand.send text) sid guild m t later =
    is_session_member sid m.user_id t.db || is_guild_admin_authorized guild m later.policies
is_permitted c sid guild m t later = is_session_owner_or_admin sid guild m t

-- `if not content` of /send
abbrev pub lacks_text : UserCommand → Bool
lacks_text (UserCommand.send text) = is_empty (strip text)
lacks_text _ = false

-- a command for the session that it resolves to: check, serve
abbrev pub command_on :
    Settings
    → Around
    → Ident
    → Interaction
    → UserCommand
    → BotTables
    → Option Session
    → Database × HandlerAnswer
command_on cfg o guild i c t none = (t.db, HandlerAnswer.no_session)
command_on cfg o guild i c t (some s) =
    let checked = o.between 0 t in
    let later = o.between 1 checked in
    if is_permitted c s.id guild i.user checked later
    then serve cfg o guild i.user s c (o.between 2 later).db
    else (later.db, HandlerAnswer.not_permitted)

abbrev pub command_in :
    Settings → Around → Ident → Interaction → UserCommand → BotTables → Database × HandlerAnswer
command_in cfg o guild i c t =
    command_on cfg o guild i c t (resolve_session_target guild i.user i.session i.channel_id t)

abbrev pub guild_command :
    Settings
    → List Ident
    → Around
    → Interaction
    → UserCommand
    → BotTables
    → Option Ident
    → Database × HandlerAnswer
guild_command cfg allowed o i c t none = (
  t.db,
  if is_guild_allowed allowed none
      then HandlerAnswer.not_in_server
      else HandlerAnswer.guild_refused,
)
guild_command cfg allowed o i c t (some guild) =
    if not (is_guild_allowed allowed (some guild))
    then (t.db, HandlerAnswer.guild_refused)
    else if lacks_text c
    then (t.db, HandlerAnswer.text_required)
    else command_in cfg o guild i c t

-- `interaction_check` and the handler; `allowed` is ALLOWED_GUILD_IDS
unfoldable pub handle_command :
    Settings
    → List Ident
    → Around
    → Interaction
    → UserCommand
    → BotTables
    → Database × HandlerAnswer
unfolding is_guild_allowed resolve_session_target is_session_owner_or_admin
    is_guild_admin_authorized
handle_command cfg allowed o i c t = guild_command cfg allowed o i c t i.guild_id

-- a message that reaches the bot
pub record ThreadMessage : Type 0 where
  pub author_id : Ident
  pub from_bot_or_webhook : Bool
  pub in_thread : Bool
  pub thread : Ident
  pub guild : Option Ident
  pub content : Text

pub data MessageAnswer : Type 0 where
  dropped not_ready not_a_member : MessageAnswer
  answered : Answer → MessageAnswer

abbrev pub message_for :
    Settings → Around → Ident → ThreadMessage → Session → BotTables → Database × MessageAnswer
message_for cfg o guild msg s t =
    let served =
      run_input_saga cfg o.own_clock o.call s.id guild (or_text s.owner_id 0) (some msg.author_id)
        msg.content (o.between 1 (o.between 0 t)).db in
    if not (is_ready s.status)
    then (t.db, MessageAnswer.not_ready)
    else if not (is_session_member s.id msg.author_id (o.between 0 t).db)
    then ((o.between 0 t).db, MessageAnswer.not_a_member)
    else (served.0, MessageAnswer.answered served.1)

abbrev pub message_on :
    Settings
    → Around
    → Ident
    → ThreadMessage
    → BotTables
    → Option Session
    → Database × MessageAnswer
message_on cfg o guild msg t none = (t.db, MessageAnswer.dropped)
message_on cfg o guild msg t (some s) = message_for cfg o guild msg s t

abbrev pub guild_message :
    Settings
    → List Ident
    → Bool
    → Around
    → ThreadMessage
    → BotTables
    → Option Ident
    → Database × MessageAnswer
guild_message cfg allowed enabled o msg t none = (t.db, MessageAnswer.dropped)
guild_message cfg allowed enabled o msg t (some guild) =
    if msg.from_bot_or_webhook
      || not msg.in_thread
      || not (is_guild_allowed allowed (some guild))
      || not enabled
    then (t.db, MessageAnswer.dropped)
    else message_on cfg o guild msg t (resolve_session_for_thread msg.thread guild t.db)

-- `enabled` is ENABLE_MESSAGE_CONTENT_INPUT
unfoldable pub on_message :
    Settings → List Ident → Bool → Around → ThreadMessage → BotTables → Database × MessageAnswer
unfolding is_guild_allowed resolve_session_for_thread
on_message cfg allowed enabled o msg t = guild_message cfg allowed enabled o msg t msg.guild
