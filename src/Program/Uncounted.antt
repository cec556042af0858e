-- ===== src/Program/Uncounted.antt =====
-- MAX_ACTIVE_SESSIONS_PER_USER against the resume saga of src/discode/bot/session_service.py.
use discode.Base.{
  Bool, List, [], arith, false, find_sound, refl, rowcount, rowcount-narrow, rowcount_pos, some,
  true, update_where, ◌&&◌, ◌+◌, ◌∷◌, ◌≡◌,
}
use discode.Data.{Call, Database, Ident, Session, get_session, has_id, is_archived}
use discode.Session.Scope.{IsKeyed, scoped, scoped_matched}
use discode.Session.Sagas.{begin_resume, run_resume_saga}
use discode.Create.Saga.{active_session_count, is_active_of}

rowcount-activated :
    (p q : Session → Bool) (f : Session → Session) (l : List Session)
    → ((x : Session) → q x ≡ true → p x ≡ false)
    → rowcount p (update_where q f l) ≡ rowcount p l + rowcount (λ x. q x && p (f x)) l
rowcount-activated p q f [] was = refl
rowcount-activated p q f (x ∷ l) was = ground (arith, was x, rowcount-activated p q f l)

-- A resume of an archived session adds one active session of its owner in the guild, however many
-- there are already: the limit on active sessions, which only creation checks, is not kept; the
-- sessions are keyed.
pub resume_uncounted :
    (c : Call) (sid guild host owner : Ident) (s : Session) (db : Database)
    → IsKeyed sid db
    → get_session sid db ≡ some s
    → is_archived s.status ≡ true
    → s.guild_id ≡ some guild
    → s.owner_id ≡ some owner
    → active_session_count (run_resume_saga c sid guild host db).0 guild owner
      ≡ active_session_count db guild owner + 1
unfolding run_resume_saga
resume_uncounted c sid guild host owner s db key h old here mine =
    let q = scoped sid guild is_archived in
    let p = is_active_of guild owner in
    let woken = λ (x : Session). q x && p (begin_resume c x) in
    let found = find_sound (has_id sid) db.sessions s h in
    let low = rowcount_pos (has_id sid) woken db.sessions s h (ground (arith, found)) in
    let high = rowcount-narrow (has_id sid) woken db.sessions (λ z m. ground arith) in
    ground (
      arith,
      low,
      high,
      scoped_matched sid guild is_archived db s h (ground arith),
      rowcount-activated p q (begin_resume c) db.sessions (λ x e. ground arith),
    )
