-- ===== src/Janitor/Spared.antt =====
-- The inactivity sweeps of src/discode/janitor/timeouts.py and the sessions with work to do.
use discode.Base.{
  Bool, List, [], any, ap, arith, false, find, find-update_where, find_sound, map, refl, rowcount,
  select, some, suc, true, update_where, ℕ, ◌*◌, ◌==◌, ◌∙◌, ◌∷◌, ◌≡◌, ◌≤◌,
}
use discode.Data.{Call, Database, Ident, Session, Time, get_session, has_id, update_sessions}
use discode.Session.Scope.{IsKeyed}
use discode.Janitor.Timeouts.{
  archive_inactive, each_row, goes_idle, has_open_turn, is_archive_due, is_stop_due, returned,
  set_idle, stop_hostless, stop_inactive, stop_row, sweep_archive_timeout, sweep_idle_timeout,
  sweep_stop_timeout, tell_archived,
}

-- A session that the clause does not select stays as it is.
pub spared :
    (p : Session → Bool) (f : Session → Session) (sid : Ident) (s : Session) (l : List Session)
    → ((x : Session) → (f x).id ≡ x.id)
    → find (has_id sid) l ≡ some s
    → p s ≡ false
    → find (has_id sid) (update_where p f l) ≡ some s
spared p f sid s l keep h n =
    ground (arith, find-update_where (has_id sid) p f (λ x e. ap (λ i. i == sid) (keep x)) l)

pub each_row-keeps :
    (body : ℕ → Session → Database → Database)
    → ((uuid : ℕ) (s : Session) (db : Database) → (body uuid s db).sessions ≡ db.sessions)
    → (uuid : ℕ) (rows : List Session) (db : Database)
    → (each_row body uuid rows db).sessions ≡ db.sessions
each_row-keeps body same uuid [] db = refl
each_row-keeps body same uuid (s ∷ rows) db =
    each_row-keeps body same (suc uuid) rows (body uuid s db) ∙ same uuid s db

-- the loop of the stop sweep leaves the sessions of other ids
stop_rows_spare :
    (c : Call) (sid : Ident) (s : Session) (uuid : ℕ) (rows : List Session) (db : Database)
    → find (has_id sid) db.sessions ≡ some s
    → any (has_id sid) rows ≡ false
    → find (has_id sid) (each_row (stop_row c) uuid rows db).sessions ≡ some s
stop_rows_spare c sid s uuid [] db h none_here = h
stop_rows_spare c sid s uuid (r ∷ rows) db h none_here =
    stop_rows_spare c sid s (suc uuid) rows (stop_row c uuid r db)
      (ground (
        arith,
        find_sound (has_id sid) db.sessions s h,
        find-update_where (has_id sid) (has_id r.id) (stop_hostless c.now) (λ x e. refl)
            db.sessions,
      ))
      (ground arith)

absent_returned :
    (p : Session → Bool) (now : Time) (sid : Ident) (l : List Session)
    → rowcount (has_id sid) l ≡ 0
    → any (has_id sid) (map (stop_inactive now) (select p l)) ≡ false
absent_returned p now sid [] none_here = refl
absent_returned p now sid (x ∷ l) none_here = ground (arith, absent_returned p now sid l)

-- Under the primary key, the rows that an UPDATE returns are not of a session that it spares.
returned_spare :
    (p : Session → Bool) (now : Time) (sid : Ident) (s : Session) (l : List Session)
    → find (has_id sid) l ≡ some s
    → rowcount (has_id sid) l ≤ 1
    → p s ≡ false
    → any (has_id sid) (map (stop_inactive now) (select p l)) ≡ false
returned_spare p now sid s [] h key n = refl
returned_spare p now sid s (x ∷ l) h key n =
    ground (arith, absent_returned p now sid l, returned_spare p now sid s l)

-- A session with a queued, executing or completed turn of its current version is left as it is by
-- the idle, the archive and the stop sweep, whatever their limits; `sessions` is keyed.
pub open_turn_spares :
    (c : Call) (limit : ℕ) (sid : Ident) (s : Session) (db : Database)
    → IsKeyed sid db
    → get_session sid db ≡ some s
    → has_open_turn db s ≡ true
    → (get_session sid (sweep_idle_timeout c limit db).0 ≡ some s)
      × (get_session sid (sweep_archive_timeout c limit db).0 ≡ some s)
      × (get_session sid (sweep_stop_timeout c limit db).0 ≡ some s)
unfolding sweep_idle_timeout sweep_archive_timeout sweep_stop_timeout
open_turn_spares c limit sid s db key h busy =
    let idle = goes_idle c.now (60 * limit) db in
    let due = is_archive_due c.now (60 * limit) db in
    let stop = is_stop_due c.now (3600 * limit) db in
    (
      spared idle (set_idle c.now) sid s db.sessions (λ x. refl) h (ground arith),
      rw
          (each_row-keeps (tell_archived c) (λ uuid r d. ground arith) 0
            (returned due (archive_inactive c.now) db)
            (update_sessions due (archive_inactive c.now) db))
          (spared due (archive_inactive c.now) sid s db.sessions (λ x. refl) h (ground arith)),
      stop_rows_spare c sid s 0 (returned stop (stop_inactive c.now) db)
          (update_sessions stop (stop_inactive c.now) db)
          (spared stop (stop_inactive c.now) sid s db.sessions (λ x. refl) h (ground arith))
          (returned_spare stop c.now sid s db.sessions h key (ground arith)),
    )
