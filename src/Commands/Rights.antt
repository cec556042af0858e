-- ===== src/Commands/Rights.antt =====
-- Who may change what through the commands and the thread messages of src/discode/bot/main.py.
use discode.Base.{Bool, List, or_text, some, true, ◌=?◌, ◌≡◌, ◌⊎◌}
use discode.Data.{Database, Ident, Session, get_session, is_ready}
use discode.Config.{Settings}
use discode.Session.Members.{is_session_member}
use discode.Input.Saga.{run_input_saga}
use discode.Guild.Auth.{Member, is_among, is_guild_admin_authorized}
use discode.Commands.Target.{BotTables, in_scope, is_thread_of}
use discode.Commands.Handlers.{
  Around, Interaction, ThreadMessage, UserCommand, handle_command, is_owner_of, on_message, serve,
}

-- what reaches the bot from Discord
pub data Asked : Type 0 where
  asks : Interaction → UserCommand → Asked
  writes : ThreadMessage → Asked

-- ALLOWED_GUILD_IDS and ENABLE_MESSAGE_CONTENT_INPUT
pub record Gates : Type 0 where
  pub allowed : List Ident
  pub enabled : Bool

unfoldable pub handle_asked : Settings → Gates → Around → Asked → BotTables → Database
unfolding handle_command on_message
handle_asked cfg g o (Asked.asks i c) t = (handle_command cfg g.allowed o i c t).0
handle_asked cfg g o (Asked.writes msg) t = (on_message cfg g.allowed g.enabled o msg t).0

-- the row of the session, in the guild, and the user its owner or an admin of the guild
abbrev pub OwnsOrAdministers : Ident → Ident → Member → BotTables → Type 0
OwnsOrAdministers sid guild m t =
    (row : Session) × (get_session sid t.db ≡ some row)
    × ((row.guild_id =? guild) ≡ true)
    × (((row.owner_id =? m.user_id) ≡ true) ⊎ (is_guild_admin_authorized guild m t.policies ≡ true))

abbrev pub HasRight : UserCommand → Ident → Ident → Member → BotTables → BotTables → Type 0
HasRight (UserCommand.invite invitee) sid guild m t later =
    (is_owner_of sid m.user_id t.db ≡ true)
    ⊎ (is_guild_admin_authorized guild m later.policies ≡ true)
HasRight (UserCommand.send text) sid guild m t later =
    (is_session_member sid m.user_id t.db ≡ true)
    ⊎ (is_guild_admin_authorized guild m later.policies ≡ true)
HasRight UserCommand.stop sid guild m t later = OwnsOrAdministers sid guild m t
HasRight UserCommand.archive sid guild m t later = OwnsOrAdministers sid guild m t
HasRight UserCommand.resume sid guild m t later = OwnsOrAdministers sid guild m t
HasRight UserCommand.restart sid guild m t later = OwnsOrAdministers sid guild m t

-- The guild is allowed and the user has the right to what was asked, for a session of the guild:
-- then the service of the command or the message was called for that session.
abbrev pub IsRightful : Settings → Gates → Around → Asked → BotTables → Database → Type 0
IsRightful cfg g o (Asked.asks i c) t after =
    (guild : Ident) × (s : Session) × (i.guild_id ≡ some guild)
    × (is_among guild g.allowed ≡ true)
    × (in_scope guild i.user t s ≡ true)
    × HasRight c s.id guild i.user (o.between 0 t) (o.between 1 (o.between 0 t))
    × (after ≡ (serve cfg o guild i.user s c (o.between 2 (o.between 1 (o.between 0 t))).db).0)
IsRightful cfg g o (Asked.writes msg) t after =
    (guild : Ident) × (s : Session) × (msg.guild ≡ some guild)
    × (is_among guild g.allowed ≡ true)
    × (is_thread_of msg.thread guild s ≡ true)
    × (is_ready s.status ≡ true)
    × (is_session_member s.id msg.author_id (o.between 0 t).db ≡ true)
    × (after
        ≡ (run_input_saga cfg o.own_clock o.call s.id guild (or_text s.owner_id 0)
            (some msg.author_id) msg.content (o.between 1 (o.between 0 t)).db).0)

-- only other processes have changed something
abbrev pub IsUntouched : Around → BotTables → Database → Type 0
IsUntouched o t after =
    (after ≡ t.db) ⊎ (after ≡ (o.between 0 t).db) ⊎ (after ≡ (o.between 1 (o.between 0 t)).db)
