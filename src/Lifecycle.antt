-- ===== src/Lifecycle.antt =====
-- The life of a row of `sessions`: what the modelled transactions may not do to a row (`Moves`), and
-- to the table (`Evolves`).
pub mod Registry
use discode.Base.{
  Bool, List, ap, arith, false, find, find-append, find-update_where, if◌then◌else◌, is_set, refl,
  some, true, update_where, updated, ◌++◌, ◌==◌, ◌∙◌, ◌≡◌, ◌≤◌,
}
use discode.Data.{Ident, Session, Status, has_id, is_creating, is_live}

-- `failed` and `orphaned`: no way out
abbrev pub is_final : Status → Bool
is_final Status.failed = true
is_final Status.orphaned = true
is_final _ = false

-- the runner has yet to take the session on
abbrev pub is_starting : Status → Bool
is_starting Status.creating = true
is_starting Status.resuming = true
is_starting _ = false

-- `s'` is a later state of the row `s`.
pub record Moves (s s' : Session) : Type 0 where
  pub same_id : s'.id ≡ s.id
  pub same_guild : s'.guild_id ≡ s.guild_id
  pub same_owner : s'.owner_id ≡ s.owner_id
  pub version_mono : s.lifecycle_version ≤ s'.lifecycle_version
  pub final_kept : is_final s.status ≡ true → s'.status ≡ s.status
  pub created_once : is_creating s'.status ≡ true → is_creating s.status ≡ true
  -- Within one lifecycle version a session neither starts nor comes alive again.
  pub started_once :
      s.lifecycle_version ≡ s'.lifecycle_version
      → is_starting s'.status ≡ true
      → is_starting s.status ≡ true
  pub alive_once :
      s.lifecycle_version ≡ s'.lifecycle_version
      → is_live s'.status ≡ true
      → is_live s.status ≡ true
  pub thread_kept : is_set s.thread_id ≡ true → s'.thread_id ≡ s.thread_id

pub Moves-refl : (s : Session) → Moves s s
Moves-refl s = ground arith

pub Moves-trans : {s t u : Session} → Moves s t → Moves t u → Moves s u
Moves-trans {s} {t} {u} h k = record {
  same_id = k.same_id ∙ h.same_id;
  same_guild = k.same_guild ∙ h.same_guild;
  same_owner = k.same_owner ∙ h.same_owner;
  version_mono = omega (arith, h.version_mono, k.version_mono);
  final_kept = λ e. k.final_kept (rw (h.final_kept e) e) ∙ h.final_kept e;
  created_once = λ e. h.created_once (k.created_once e);
  started_once = λ v e.
      h.started_once (omega (arith, h.version_mono, k.version_mono, v))
        (k.started_once (omega (arith, h.version_mono, k.version_mono, v)) e);
  alive_once = λ v e.
      h.alive_once (omega (arith, h.version_mono, k.version_mono, v))
        (k.alive_once (omega (arith, h.version_mono, k.version_mono, v)) e);
  thread_kept = λ e. k.thread_kept (rw (h.thread_kept e) e) ∙ h.thread_kept e;
}

-- Every row of the table `l` is still there in `l'`, in a later state.
abbrev pub Evolves : List Session → List Session → Type 0
Evolves l l' =
    (sid : Ident) (s : Session)
    → find (has_id sid) l ≡ some s
    → (s' : Session) × (find (has_id sid) l' ≡ some s') × Moves s s'

pub Evolves-refl : (l : List Session) → Evolves l l
Evolves-refl l sid s h = (s, h, Moves-refl s)

pub Evolves-trans : (a b c : List Session) → Evolves a b → Evolves b c → Evolves a c
Evolves-trans a b c h k sid s e =
    let (t, et, mt) = h sid s e in let (u, eu, mu) = k sid t et in (u, eu, Moves-trans mt mu)

-- A transaction that leaves the table alone.
pub Evolves-same : (l l' : List Session) → l' ≡ l → Evolves l l'
Evolves-same l l' e sid s h = (s, rw e h, Moves-refl s)

-- An insertion.
pub Evolves-append : (l r : List Session) → Evolves l (l ++ r)
Evolves-append l r sid s h = (s, find-append (has_id sid) l r s h, Moves-refl s)

-- One UPDATE, made or not, whose rows move as allowed.
pub Evolves-update :
    (p : Session → Bool) (f : Session → Session) (l l' : List Session) (done : Bool)
    → ((s : Session) → (f s).id ≡ s.id)
    → ((i : Ident) (s : Session)
        → find (has_id i) l ≡ some s
        → p s ≡ true
        → done ≡ true
        → Moves s (f s))
    → l' ≡ (if done then update_where p f l else l)
    → Evolves l l'
Evolves-update p f l l' false keep m same sid s h = (s, rw same h, Moves-refl s)
Evolves-update p f l l' true keep m same sid s h =
    (updated p f s, rw (same, find-update_where (has_id sid) p f kept l, h), moved (p s) refl)
  where
    kept : (x : Session) → p x ≡ true → has_id sid (f x) ≡ has_id sid x
    kept x e = ap (λ i. i == sid) (keep x)

    moved : (b : Bool) → p s ≡ b → Moves s (if b then f s else s)
    moved true e = m sid s h e refl
    moved false e = Moves-refl s
