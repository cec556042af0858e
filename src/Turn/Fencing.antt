-- ===== src/Turn/Fencing.antt =====
-- Turns of an older lifecycle version than their session's.
use discode.Base.{
  ==_iff, Bool-cases, Option, Option-cases, ap, arith, false, find, find-update_where, find_sound,
  inl, inr, not, refl, rowcount, rowcount_unmatched, some, true, update_where, ℕ, ◌&&◌, ◌==◌, ◌≡◌,
  ◌≤◌,
}
use discode.Data.{Database, Ident, SendInput, Session, Status, Text, get_session, has_id, is_ready}
use discode.Config.{Settings}
use discode.Lifecycle.{Evolves, Evolves-same, Evolves-update}
use discode.Turn.Job.{
  Outcome, Outside, Phase, admit, advance, check, is_current, keep_token, persist,
}

-- The phases of a job move every session only as `Moves` allows.
pub advance-Evolves :
    (cfg : Settings) (o : Outside) (p : SendInput) (ph : Phase) (db : Database)
    → Evolves db.sessions (advance cfg o p ph db).0.sessions
unfolding advance
advance-Evolves cfg o p Phase.checking db =
    Evolves-same db.sessions _ (unfold check in ground arith)
advance-Evolves cfg o p (Phase.admitting version) db =
    Evolves-update (is_current p.session_id version)
      (λ s. record s { last_activity_at = o.now; status = Status.running }) db.sessions _
      (not (rowcount (is_current p.session_id version) db.sessions == 0)) (λ s. refl)
      (λ i s h e d. ground arith) (unfold admit in ground arith)
advance-Evolves cfg o p (Phase.persisting version reply token) db =
    Evolves-update (is_current p.session_id version) (keep_token o.now token) db.sessions _ true
      (λ s. refl) (λ i s h e d. ground arith) (unfold persist in refl)
advance-Evolves cfg o p (Phase.retire_denied version) db = Evolves-same db.sessions _ refl
advance-Evolves cfg o p (Phase.marking status outcome) db = Evolves-same db.sessions _ refl
advance-Evolves cfg o p (Phase.notify_uncertain version) db = Evolves-same db.sessions _ refl
advance-Evolves cfg o p (Phase.notify_denied version) db = Evolves-same db.sessions _ refl
advance-Evolves cfg o p (Phase.executing version) db = Evolves-same db.sessions _ refl
advance-Evolves cfg o p (Phase.posting version reply) db = Evolves-same db.sessions _ refl
advance-Evolves cfg o p (Phase.finished outcome) db = Evolves-same db.sessions _ refl

-- An UPDATE whose clause the session at `sid` fails leaves each session as it is.
update_fenced :
    (sid j version : ℕ) (f : Session → Session) (db : Database) (s : Session)
    → ((x : Session) → (f x).id ≡ x.id)
    → get_session sid db ≡ some s
    → (s.lifecycle_version == version && is_ready s.status) ≡ false
    → find (has_id j) (update_where (is_current sid version) f db.sessions) ≡ get_session j db
update_fenced sid j version f db s keep h stale =
    rw
      (find-update_where (has_id j) (is_current sid version) f (λ x e. ap (λ i. i == j) (keep x))
        db.sessions)
      (elim (Option-cases (get_session j db)) [
        | inl e ↦ ground arith
        | inr (x, e) ↦ elim (Bool-cases (j == sid)) [
          | inl same ↦
              let e' : get_session j db ≡ some s = rw ((==_iff _ _).0 same) h in
              ground (arith, find_sound (has_id j) db.sessions x e)
          | inr ne ↦ ground (arith, find_sound (has_id j) db.sessions x e)
        ]
      ])

module _ (o : Outside) (p : SendInput) (version : ℕ) (db : Database) (s : Session)
    (found : get_session p.session_id db ≡ some s)
    (stale : (s.lifecycle_version == version && is_ready s.status) ≡ false) where
  -- When the session has moved to another lifecycle version or no longer takes input, the result of
  -- a turn of `version` changes no session: an old turn cannot bring back its resume token.
  pub stale_result_fenced :
      (reply : Text) (token : Option Ident) (j : Ident)
      → get_session j (persist o p version reply token db).0 ≡ get_session j db
  unfolding persist
  stale_result_fenced reply token j =
      update_fenced p.session_id j version (keep_token o.now token) db s (λ x. refl) found stale

  -- ... and the turn is not even admitted: the database stays as it was and nothing is executed;
  -- `sessions` is keyed.
  pub stale_turn_refused :
      rowcount (has_id p.session_id) db.sessions ≤ 1
      → admit o p version db ≡ (db, Phase.finished Outcome.aborted)
  unfolding admit
  stale_turn_refused key = rw (
      rowcount_unmatched (has_id p.session_id) (is_current p.session_id version) db.sessions s
        (λ z m. ground arith) found
        (ground (arith, find_sound (has_id p.session_id) db.sessions s found)) key)
