-- ===== src/Janitor/StopSweep.antt =====
-- `sweep_stop_timeout` of src/discode/janitor/timeouts.py: its second UPDATE is by id alone, so what
-- it does rests on the primary key and on the rows that the first one returned.
use discode.Base.{
  All, All-imp, All-map, Bool, List, Option-cases, [], arith, false, find, find-update_where,
  find_sound, if◌then◌else◌, inl, inr, refl, rowcount, rowcount_of_find, select, some, suc, true,
  update_where, ℕ, ◌*◌, ◌∷◌, ◌≡◌, ◌≤◌,
}
use discode.Data.{Call, Database, Ident, Session, Status, Time, has_id, update_sessions}
use discode.Lifecycle.{Evolves, Evolves-refl, Evolves-trans, Evolves-update}
use discode.Janitor.Timeouts.{
  each_row, is_hostless, is_stop_due, returned, stop_hostless, stop_inactive, stop_row,
  sweep_stop_timeout,
}

-- the primary key, for every id
abbrev pub AreKeyed : List Session → Type 0
AreKeyed l = (i : Ident) → rowcount (has_id i) l ≤ 1

-- Under the primary key, a selected row is the row of its id.
select_found :
    (p : Session → Bool) (l : List Session)
    → AreKeyed l
    → All (λ r. (find (has_id r.id) l ≡ some r) × (p r ≡ true)) (select p l)
select_found p [] key = tt
select_found p (x ∷ xs) key =
    selected
      (All-imp (λ r (h, e). (ground (arith, key r.id, rowcount_of_find (has_id r.id) xs r h), e))
        (select p xs) (select_found p xs (λ i. ground (arith, key i))))
      (p x) refl
  where
    Found : Session → Type 0
    Found r = (find (has_id r.id) (x ∷ xs) ≡ some r) × (p r ≡ true)

    selected :
        All Found (select p xs)
        → (b : Bool) → p x ≡ b
        → All Found (if b then x ∷ select p xs else select p xs)
    selected rest true e = ((ground arith, e), rest)
    selected rest false e = rest

abbrev is_halting : Status → Bool
is_halting Status.stopping = true
is_halting Status.stopped = true
is_halting _ = false

-- the rows still to come are those of sessions that the sweep is stopping
abbrev Halting : List Session → Session → Type 0
Halting l r = (x : Session) → find (has_id r.id) l ≡ some x → is_halting x.status ≡ true

stop_row-Evolves :
    (c : Call) (uuid : ℕ) (s : Session) (db : Database)
    → Halting db.sessions s
    → Evolves db.sessions (stop_row c uuid s db).sessions
stop_row-Evolves c uuid s db halting =
    Evolves-update (has_id s.id) (stop_hostless c.now) db.sessions _ (is_hostless s) (λ x. refl)
      (λ i x h e d. ground (arith, find_sound (has_id i) db.sessions x h, halting x)) (ground arith)

stop_row-Halting :
    (c : Call) (uuid : ℕ) (s r : Session) (db : Database)
    → Halting db.sessions r
    → Halting (stop_row c uuid s db).sessions r
stop_row-Halting c uuid s r db h x e = elim (Option-cases (find (has_id r.id) db.sessions)) [
  | inl n ↦ ground (
    arith,
    find-update_where (has_id r.id) (has_id s.id) (stop_hostless c.now) (λ y m. refl) db.sessions,
  )
  | inr (y, f) ↦ ground (
    arith,
    h y f,
    find-update_where (has_id r.id) (has_id s.id) (stop_hostless c.now) (λ z m. refl) db.sessions,
  )
]

stop_rows-Evolves :
    (c : Call) (uuid : ℕ) (rows : List Session) (db : Database)
    → All (Halting db.sessions) rows
    → Evolves db.sessions (each_row (stop_row c) uuid rows db).sessions
stop_rows-Evolves c uuid [] db h = Evolves-refl db.sessions
stop_rows-Evolves c uuid (s ∷ rows) db (h, hs) =
    Evolves-trans db.sessions (stop_row c uuid s db).sessions _ (stop_row-Evolves c uuid s db h) (
      stop_rows-Evolves c (suc uuid) rows (stop_row c uuid s db)
        (All-imp (λ r k. stop_row-Halting c uuid s r db k) rows hs))

returned-Halting :
    (p : Session → Bool) (now : Time) (db : Database)
    → AreKeyed db.sessions
    → All
        (Halting (update_where p (stop_inactive now) db.sessions))
        (returned p (stop_inactive now) db)
returned-Halting p now db key =
    All-map (Halting (update_where p (stop_inactive now) db.sessions)) (stop_inactive now)
      (λ r k x e.
        ground
          (arith, find-update_where (has_id r.id) p (stop_inactive now) (λ y m. refl) db.sessions))
      (select p db.sessions) (select_found p db.sessions key)

pub sweep_stop_timeout-Evolves :
    (c : Call) (hours : ℕ) (db : Database)
    → AreKeyed db.sessions
    → Evolves db.sessions (sweep_stop_timeout c hours db).0.sessions
unfolding sweep_stop_timeout
sweep_stop_timeout-Evolves c hours db key =
    let due = is_stop_due c.now (3600 * hours) db in
    Evolves-trans db.sessions (update_where due (stop_inactive c.now) db.sessions) _
      (Evolves-update due (stop_inactive c.now) db.sessions _ true (λ s. refl)
        (λ i s h e d. ground arith) refl)
      (stop_rows-Evolves c 0 (returned due (stop_inactive c.now) db)
        (update_sessions due (stop_inactive c.now) db) (returned-Halting due c.now db key))
