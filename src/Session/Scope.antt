-- ===== src/Session/Scope.antt =====
-- The WHERE clause that the sagas of session_service.py share, and what an UPDATE under it does to
-- each session.
use discode.Base.{
  Bool, Option, Option-cases, ap, arith, false, find, find-update_where, find_sound, if◌then◌else◌,
  inl, inr, map_option, none, rowcount, rowcount_pos, rowcount_unmatched, some, true, update_where,
  ◌&&◌, ◌==◌, ◌=?◌, ◌≡◌, ◌≤◌,
}
use discode.Data.{Database, Ident, Session, Status, get_session, has_id}

-- `WHERE id = :sid AND guild_id = :guild AND status IN (...)`
abbrev pub scoped : Ident → Ident → (Status → Bool) → Session → Bool
scoped sid guild allowed s = s.id == sid && s.guild_id =? guild && allowed s.status

-- The session exists, in the guild, in one of the statuses.
abbrev pub admissible : Ident → Ident → (Status → Bool) → Database → Bool
admissible sid guild allowed db = elim (get_session sid db) [
  | none ↦ false
  | some s ↦ s.guild_id =? guild && allowed s.status
]

-- Every session after an UPDATE of the one at `sid`.
abbrev pub after_update : Bool → (Session → Session) → Ident → Ident → Database → Option Session
after_update done f sid other db =
    if done && other == sid then map_option f (get_session sid db) else get_session other db

pub get_session-update_scoped :
    (sid other guild : Ident) (allowed : Status → Bool) (f : Session → Session) (db : Database)
    → ((s : Session) → (f s).id ≡ s.id)
    → find (has_id other) (update_where (scoped sid guild allowed) f db.sessions)
      ≡ after_update (admissible sid guild allowed db) f sid other db
get_session-update_scoped sid other guild allowed f db keep =
    rw
      (find-update_where (has_id other) (scoped sid guild allowed) f
        (λ x e. ap (λ i. i == other) (keep x)) db.sessions)
      (elim (Option-cases (get_session other db)) [
        | inl e ↦ ground arith
        | inr (x, e) ↦ ground (arith, find_sound (has_id other) db.sessions x e)
      ])

-- A session that is admissible is matched by the UPDATE.
pub scoped_matched :
    (sid guild : Ident) (allowed : Status → Bool) (db : Database) (s : Session)
    → get_session sid db ≡ some s
    → (s.guild_id =? guild && allowed s.status) ≡ true
    → (rowcount (scoped sid guild allowed) db.sessions == 0) ≡ false
scoped_matched sid guild allowed db s h e =
    rowcount_pos (has_id sid) (scoped sid guild allowed) db.sessions s h
      (ground (arith, find_sound (has_id sid) db.sessions s h))

-- The primary key of `sessions`: no two rows have the id.
abbrev pub IsKeyed : Ident → Database → Type 0
IsKeyed sid db = rowcount (has_id sid) db.sessions ≤ 1

pub scoped_unmatched :
    (sid guild : Ident) (allowed : Status → Bool) (db : Database) (s : Session)
    → IsKeyed sid db
    → get_session sid db ≡ some s
    → (s.guild_id =? guild && allowed s.status) ≡ false
    → (rowcount (scoped sid guild allowed) db.sessions == 0) ≡ true
scoped_unmatched sid guild allowed db s key h e =
    rowcount_unmatched (has_id sid) (scoped sid guild allowed) db.sessions s (λ z m. ground arith) h
      (ground (arith, find_sound (has_id sid) db.sessions s h)) key
