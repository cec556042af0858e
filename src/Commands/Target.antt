-- ===== src/Commands/Target.antt =====
-- src/discode/bot/session_service.py: `resolve_session_target`, `resolve_session_for_thread` and
-- `is_session_owner_or_admin`. Rows with the same created_at come in the order of the table.
use discode.Base.{
  Bool, Bool-cases, List, Option, Option-cases, [], any, arith, false, find, if◌then◌else◌, inl,
  inr, ltb, none, not, select, some, subst_some, true, ◌&&◌, ◌==◌, ◌=?◌, ◌||◌, ◌∷◌, ◌≡◌,
}
use discode.Data.{Database, Ident, Session, get_session}
use discode.Session.Members.{is_member_row}
use discode.Guild.Auth.{GuildAdminRolePolicy, Member, is_guild_admin_authorized}
use discode.Paths.Segments.{is_prefix}

-- the database, and the table of policies
pub record BotTables : Type 0 where
  pub db : Database
  pub policies : List GuildAdminRolePolicy

-- The reference of a session: a UUID, a text that looks like a prefix of one, with the ids that it
-- is a prefix of, or a name.
pub data SessionRef : Type 0 where
  by_uuid : Ident → SessionRef
  by_prefix : (Ident → Bool) → Ident → SessionRef
  by_name : Ident → SessionRef

-- `owner_id = :user OR id IN (SELECT session_id FROM session_members WHERE user_id = :user)`
abbrev pub is_own : Ident → Database → Session → Bool
is_own user db s = s.owner_id =? user || any (is_member_row s.id user) db.session_members

-- `base`
abbrev pub in_scope : Ident → Member → BotTables → Session → Bool
in_scope guild m t s =
    s.guild_id =? guild && (is_guild_admin_authorized guild m t.policies || is_own m.user_id t.db s)

abbrev pub newer : Session → Option Session → Session
newer s none = s
newer s (some r) = if ltb s.created_at r.created_at then r else s

-- `ORDER BY created_at DESC LIMIT 1`
abbrev pub newest : List Session → Option Session
newest [] = none
newest (s ∷ l) = some (newer s (newest l))

-- the row, if there is exactly one
abbrev pub only : List Session → Option Session
only (s ∷ []) = some s
only _ = none

abbrev pub matches_ref : SessionRef → Session → Bool
matches_ref (SessionRef.by_uuid sid) s = s.id == sid
matches_ref (SessionRef.by_prefix is_prefix name) s = is_prefix s.id || s.name == name
matches_ref (SessionRef.by_name name) s = s.name == name

-- the rows under one more clause
abbrev pub scoped_rows : Ident → Member → BotTables → (Session → Bool) → List Session
scoped_rows guild m t p = select (λ s. in_scope guild m t s && p s) t.db.sessions

-- a UUID takes LIMIT 1, a prefix or a name LIMIT 2
abbrev pub resolve_ref : Ident → Member → BotTables → SessionRef → Option Session
resolve_ref guild m t (SessionRef.by_uuid sid) =
    newest (scoped_rows guild m t (matches_ref (SessionRef.by_uuid sid)))
resolve_ref guild m t r = only (scoped_rows guild m t (matches_ref r))

abbrev pub resolve_own : Ident → Member → BotTables → Option Session
resolve_own guild m t = newest (scoped_rows guild m t (is_own m.user_id t.db))

unfoldable pub resolve_session_target :
    Ident → Member → Option SessionRef → Ident → BotTables → Option Session
unfolding is_guild_admin_authorized
resolve_session_target guild m (some r) thread t = resolve_ref guild m t r
resolve_session_target guild m none thread t =
    if thread == 0
    then resolve_own guild m t
    else elim (newest (scoped_rows guild m t (λ s. s.thread_id =? thread))) [
      | some s ↦ some s
      | none ↦ resolve_own guild m t
    ]

abbrev pub is_thread_of : Ident → Ident → Session → Bool
is_thread_of thread guild s = s.thread_id =? thread && s.guild_id =? guild

-- `scalar_one_or_none`: thread_id is unique
unfoldable pub resolve_session_for_thread : Ident → Ident → Database → Option Session
resolve_session_for_thread thread guild db = find (is_thread_of thread guild) db.sessions

unfoldable pub is_session_owner_or_admin : Ident → Ident → Member → BotTables → Bool
unfolding is_guild_admin_authorized
is_session_owner_or_admin sid guild m t = elim (get_session sid t.db) [
  | none ↦ false
  | some s ↦
      if s.guild_id =? guild && s.owner_id =? m.user_id
      then true
      else if not (s.guild_id =? guild)
      then false
      else is_guild_admin_authorized guild m t.policies
]

newest_selected :
    (p q : Session → Bool) (l : List Session) (s : Session)
    → ((x : Session) → p x ≡ true → q x ≡ true)
    → newest (select p l) ≡ some s
    → q s ≡ true
newest_selected p q [] s h e = cc
newest_selected p q (x ∷ l) s h e = elim (Bool-cases (p x)) [
  | inr out ↦ newest_selected p q l s h (ground (arith, e, out))
  | inl chosen ↦ elim (Option-cases (newest (select p l))) [
    | inl f ↦ subst_some (λ y. q y ≡ true) (ground (arith, e, chosen, f)) (h x chosen)
    | inr (r, f) ↦ elim (Bool-cases (ltb x.created_at r.created_at)) [
      | inl g ↦
          subst_some (λ y. q y ≡ true) (ground (arith, e, chosen, f, g))
            (newest_selected p q l r h f)
      | inr g ↦ subst_some (λ y. q y ≡ true) (ground (arith, e, chosen, f, g)) (h x chosen)
    ]
  ]
]

only_head : (x : Session) (l : List Session) (s : Session) → only (x ∷ l) ≡ some s → some x ≡ some s
only_head x [] s e = e
only_head x (y ∷ l) s e = cc

only_selected :
    (p q : Session → Bool) (l : List Session) (s : Session)
    → ((x : Session) → p x ≡ true → q x ≡ true)
    → only (select p l) ≡ some s
    → q s ≡ true
only_selected p q [] s h e = cc
only_selected p q (x ∷ l) s h e = elim (Bool-cases (p x)) [
  | inr out ↦ only_selected p q l s h (ground (arith, e, out))
  | inl chosen ↦
      subst_some (λ y. q y ≡ true) (only_head x (select p l) s (ground (arith, e, chosen)))
        (h x chosen)
]

resolve_own_scoped :
    (guild : Ident) (m : Member) (t : BotTables) (s : Session)
    → resolve_own guild m t ≡ some s
    → in_scope guild m t s ≡ true
resolve_own_scoped guild m t s e =
    newest_selected (λ x. in_scope guild m t x && is_own m.user_id t.db x) (in_scope guild m t)
      t.db.sessions s (λ x h. ground (arith, h)) e

resolve_ref_scoped :
    (guild : Ident) (m : Member) (t : BotTables) (r : SessionRef) (s : Session)
    → resolve_ref guild m t r ≡ some s
    → in_scope guild m t s ≡ true
resolve_ref_scoped guild m t (SessionRef.by_uuid sid) s e =
    newest_selected (λ x. in_scope guild m t x && matches_ref (SessionRef.by_uuid sid) x)
      (in_scope guild m t) t.db.sessions s (λ x h. ground (arith, h)) e
resolve_ref_scoped guild m t (SessionRef.by_prefix p name) s e =
    only_selected (λ x. in_scope guild m t x && matches_ref (SessionRef.by_prefix p name) x)
      (in_scope guild m t) t.db.sessions s (λ x h. ground (arith, h)) e
resolve_ref_scoped guild m t (SessionRef.by_name name) s e =
    only_selected (λ x. in_scope guild m t x && matches_ref (SessionRef.by_name name) x)
      (in_scope guild m t) t.db.sessions s (λ x h. ground (arith, h)) e

-- A session that a command resolves to is in the guild of the command, and the user is an admin
-- there, its owner or a member of it.
pub resolve_session_target_scoped :
    (guild : Ident) (m : Member) (r : Option SessionRef) (thread : Ident) (t : BotTables)
    (s : Session)
    → resolve_session_target guild m r thread t ≡ some s
    → in_scope guild m t s ≡ true
unfolding resolve_session_target
resolve_session_target_scoped guild m (some r) thread t s e = resolve_ref_scoped guild m t r s e
resolve_session_target_scoped guild m none thread t s e = elim (Bool-cases (thread == 0)) [
  | inl z ↦ resolve_own_scoped guild m t s (ground (arith, e, z))
  | inr z ↦ elim (Option-cases (newest (scoped_rows guild m t (λ x. x.thread_id =? thread)))) [
    | inl f ↦ resolve_own_scoped guild m t s (ground (arith, e, z, f))
    | inr (x, f) ↦
        let chosen : some x ≡ some s = ground (arith, e, z, f) in
        subst_some (λ y. in_scope guild m t y ≡ true) chosen
          (newest_selected (λ y. in_scope guild m t y && y.thread_id =? thread) (in_scope guild m t)
            t.db.sessions x (λ y h. ground (arith, h)) f)
  ]
]
