-- ===== src/Session/Invited.antt =====
-- Membership after an invitation: src/discode/bot/session_service.py.
use discode.Base.{
  Bool, Bool-cases, List, Option-cases, [], any, ap, arith, false, inl, inr, none, some, ◌&&◌, ◌++◌,
  ◌==◌, ◌=?◌, ◌||◌, ◌∷◌, ◌≡◌,
}
use discode.Data.{Call, Database, Ident, Role, SessionMember, get_session}
use discode.Session.Members.{add_member, invite_user_to_session, is_member_row, is_session_member}

any-append_member :
    (p : SessionMember → Bool) (l : List SessionMember) (m : SessionMember)
    → any p (l ++ m ∷ []) ≡ (p m || any p l)
any-append_member p [] m = ground arith
any-append_member p (x ∷ l) m = ground (arith, any-append_member p l m)

-- who is among the rows after an invitation
any-add_member :
    (sid user j u : Ident) (l : List SessionMember)
    → any (is_member_row j u) (add_member sid user Role.operator l)
      ≡ ((sid == j && user == u) || any (is_member_row j u) l)
any-add_member sid user j u l = elim (Bool-cases (any (is_member_row sid user) l)) [
  | inl e ↦ elim (Bool-cases (sid == j && user == u)) [
    | inl f ↦
        let same_sid : sid ≡ j = ground (arith, f) in
        let same_user : user ≡ u = ground (arith, f) in
        ground (
          arith,
          ap (λ k. any (is_member_row k user) l) same_sid,
          ap (λ k. any (is_member_row j k) l) same_user,
        )
    | inr f ↦ ground arith
  ]
  | inr e ↦ ground (
    arith,
    any-append_member (is_member_row j u) l
        (record { session_id = sid; user_id = user; role = some Role.operator }),
  )
]

-- An invitation succeeds exactly for a session of the guild. It then makes the invitee a member of
-- the session, whether or not it was one before; nobody else becomes or ceases to be a member of any
-- session.
pub invitee_is_member :
    (c : Call) (sid guild invitee : Ident) (db : Database) (j u : Ident)
    → let (db', done) = invite_user_to_session c sid guild invitee db in
      (done ≡ elim (get_session sid db) [ none ↦ false | some s ↦ s.guild_id =? guild ])
      × (is_session_member j u db'
          ≡ ((done && sid == j && invitee == u) || is_session_member j u db))
unfolding invite_user_to_session is_session_member
invitee_is_member c sid guild invitee db j u = elim (Option-cases (get_session sid db)) [
  | inl e ↦ ground arith
  | inr (s, e) ↦ elim (Option-cases (get_session j db)) [
    | inl f ↦ ground (arith, any-add_member sid invitee j u db.session_members)
    | inr (x, f) ↦ ground (arith, any-add_member sid invitee j u db.session_members)
  ]
]
