-- ===== src/Session/Members.antt =====
-- src/discode/bot/session_service.py: membership and invitations.
use discode.Base.{
  Bool, List, [], any, false, if◌then◌else◌, none, some, true, ◌&&◌, ◌++◌, ◌==◌, ◌=?◌, ◌∷◌,
}
use discode.Data.{Call, Database, EventType, Ident, Role, SessionMember, audit, get_session}

-- `ON CONFLICT DO NOTHING` on a table keyed by its one column
abbrev pub add_new : Ident → List Ident → List Ident
add_new x ids = if any (λ y. y == x) ids then ids else ids ++ x ∷ []

abbrev pub is_member_row : Ident → Ident → SessionMember → Bool
is_member_row sid user m = m.session_id == sid && m.user_id == user

abbrev pub add_member : Ident → Ident → Role → List SessionMember → List SessionMember
add_member sid user role ms =
    if any (is_member_row sid user) ms
    then ms
    else ms ++ record { session_id = sid; user_id = user; role = some role } ∷ []

unfoldable pub invite_user_to_session : Call → Ident → Ident → Ident → Database → Database × Bool
invite_user_to_session c sid guild invitee db = elim (get_session sid db) [
  | none ↦ (db, false)
  | some s ↦
      if s.guild_id =? guild
      then (
        audit c.now EventType.invite_requested (some guild) sid none (record db {
          users = add_new invitee db.users;
          session_members = add_member sid invitee Role.operator db.session_members;
        }),
        true,
      )
      else (db, false)
]

unfoldable pub is_session_member : Ident → Ident → Database → Bool
is_session_member sid user db = elim (get_session sid db) [
  | none ↦ false
  | some s ↦ if s.owner_id =? user then true else any (is_member_row sid user) db.session_members
]
