-- ===== src/Create/Limit.antt =====
-- MAX_ACTIVE_SESSIONS_PER_USER, and what a creation leaves alone.
use mathlib.Core.Path.{subst}
use discode.Base.{
  Bool, Bool-cases, List, Option, [], ap, arith, false, if◌then◌else◌, inl, inr, none, refl,
  rowcount, rowcount-update_where, some, true, ◌++◌, ◌+◌, ◌∷◌, ◌≡◌, ◌≤◌,
}
use discode.Data.{Call, Database, Ident, Session, has_id}
use discode.Config.{Settings}
use discode.Lifecycle.{
  Evolves, Evolves-append, Evolves-refl, Evolves-same, Evolves-trans, Evolves-update,
}
use discode.Create.Saga.{
  Created, Request, active_session_count, is_active_of, is_predecessor, latest, new_session,
  run_create_saga, supersede, tag_predecessor,
}

rowcount-append :
    (p : Session → Bool) (l : List Session) (s : Session)
    → rowcount p (l ++ s ∷ []) ≡ rowcount p l + (if p s then 1 else 0)
rowcount-append p [] s = ground arith
rowcount-append p (x ∷ l) s = ground (arith, rowcount-append p l s)

active-tag_predecessor :
    (guild owner sid : Ident) (r : Option Session) (l : List Session)
    → rowcount (is_active_of guild owner) (tag_predecessor r sid l)
      ≡ rowcount (is_active_of guild owner) l
active-tag_predecessor guild owner sid none l = refl
active-tag_predecessor guild owner sid (some r) l =
    rowcount-update_where (is_active_of guild owner) (has_id r.id) (supersede sid) (λ s e. refl) l

tag_predecessor-Evolves :
    (r : Option Session) (sid : Ident) (l : List Session) → Evolves l (tag_predecessor r sid l)
tag_predecessor-Evolves none sid l = Evolves-refl l
tag_predecessor-Evolves (some r) sid l =
    Evolves-update (has_id r.id) (supersede sid) l _ true (λ s. refl) (λ i s h e d. ground arith)
      refl

abbrev pub is_created : Created → Bool
is_created (Created.created sid predecessor) = true
is_created _ = false

module _ (cfg : Settings) (c : Call) (q : Request) (db : Database) where
  -- A creation that succeeds adds one active session of its owner in the guild, and leaves at most
  -- the configured number of them.
  pub run_create_saga_limit :
      is_created (run_create_saga cfg c q db).1 ≡ true
      → let count = active_session_count db q.guild_id q.owner_id in
        let count' = active_session_count (run_create_saga cfg c q db).0 q.guild_id q.owner_id in
        (count' ≡ count + 1) × (count' ≤ cfg.max_active_sessions_per_user)
  unfolding run_create_saga
  run_create_saga_limit h =
      let r = latest (is_predecessor q) db.sessions in
      ground (
        arith,
        rowcount-append (is_active_of q.guild_id q.owner_id)
            (tag_predecessor r (c.uuid 0) db.sessions) (new_session c q),
        active-tag_predecessor q.guild_id q.owner_id (c.uuid 0) r db.sessions,
      )

  -- A creation that is refused leaves the database as it was.
  pub run_create_saga_refused :
      is_created (run_create_saga cfg c q db).1 ≡ false → (run_create_saga cfg c q db).0 ≡ db
  unfolding run_create_saga
  run_create_saga_refused h = ground arith

  created_sessions :
      is_created (run_create_saga cfg c q db).1 ≡ true
      → tag_predecessor (latest (is_predecessor q) db.sessions) (c.uuid 0) db.sessions
          ++ new_session c q ∷ []
        ≡ (run_create_saga cfg c q db).0.sessions
  unfolding run_create_saga
  created_sessions h = ground arith

  pub run_create_saga-Evolves : Evolves db.sessions (run_create_saga cfg c q db).0.sessions
  run_create_saga-Evolves =
      let r = latest (is_predecessor q) db.sessions in
      let tagged = tag_predecessor r (c.uuid 0) db.sessions in
      elim (Bool-cases (is_created (run_create_saga cfg c q db).1)) [
        | inl y ↦ subst (Evolves db.sessions) (created_sessions y) (
            Evolves-trans db.sessions tagged (tagged ++ new_session c q ∷ [])
              (tag_predecessor-Evolves r (c.uuid 0) db.sessions)
              (Evolves-append tagged (new_session c q ∷ [])))
        | inr n ↦ Evolves-same db.sessions _ (ap (λ d. d.sessions) (run_create_saga_refused n))
      ]
