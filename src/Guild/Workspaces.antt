-- ===== src/Guild/Workspaces.antt =====
-- From a path that is registered with src/discode/bot/setup_service.py to the workspace of a session
-- on the runner.
use mathlib.Core.Path.{subst}
use discode.Base.{
  Bool-cases, List, Option, Option-cases, [], any, any-insert_new, ap, arith, find, find-upsert,
  inl, inr, none, refl, select, some, true, upserted, ◌&&◌, ◌==◌, ◌||◌, ◌∷◌, ◌≡◌,
}
use discode.Data.{AllowedRoot, Database, Ident, Text}
use discode.Text.{starts_with, text_eq, text_eq_refl, text_eq_sound}
use discode.Paths.{
  Workspace, canonicalize, covers, deny_reason, is_host_root, is_within_root, revalidate_cwd,
}
use discode.Guild.Aliases.{
  PathAlias, RootAnswer, Runner, Validation, Workspaces, add_allowed_root_for_user, alias_re,
  insert_root, is_alias, is_alias_of, is_root, is_root_for, is_storable, resolve_alias_or_path,
  set_path_alias, set_realpath, upsert_alias, validate_workspace,
}

row_covers :
    (guild user host owner : Ident) (real : Text) (r : AllowedRoot)
    → (user == 0 || user == owner) ≡ true
    → is_root guild user host real r ≡ true
    → (is_host_root guild host r && covers owner real r) ≡ true
unfolding is_within_root
row_covers guild user host owner real r may e = ground (
  arith,
  may,
  e,
  text_eq_sound r.realpath real (ground (arith, e)),
  ap (λ t. text_eq real t) (text_eq_sound r.realpath real (ground (arith, e))),
  text_eq_refl real,
)

-- A root for the user, or for everyone, lets the owner's workspace pass the runner's check.
covered :
    (guild user host owner : Ident) (real : Text) (l : List AllowedRoot)
    → (user == 0 || user == owner) ≡ true
    → any (is_root guild user host real) l ≡ true
    → any (covers owner real) (select (is_host_root guild host) l) ≡ true
covered guild user host owner real [] may e = cc
covered guild user host owner real (r ∷ l) may e =
    ground
      (arith, row_covers guild user host owner real r may, covered guild user host owner real l may)

same_roots :
    (guild host owner : Ident) (path : Text) (l : List AllowedRoot)
    → any (λ r. is_within_root path r.realpath) (select (is_root_for guild host owner) l)
      ≡ any (covers owner path) (select (is_host_root guild host) l)
same_roots guild host owner path [] = refl
same_roots guild host owner path (r ∷ l) = ground (arith, same_roots guild host owner path l)

-- A workspace that passes the bot's check before a thread is made passes the runner's check of the
-- same database, and is the same path there.
pub validate_workspace_agrees :
    (runner : Runner) (cwd : Text) (guild owner host : Ident) (db : Database) (path : Text)
    → validate_workspace runner cwd guild owner host db ≡ Validation.valid path
    → revalidate_cwd runner.realpath cwd guild owner host db ≡ Workspace.allowed path
unfolding validate_workspace revalidate_cwd
validate_workspace_agrees runner cwd guild owner host db path e =
    elim (Option-cases ((canonicalize runner.realpath cwd).1)) [
      | inr (d, f) ↦ ground (arith, e)
      | inl f ↦ ground (
        arith,
        e,
        same_roots guild host owner (canonicalize runner.realpath cwd).0 db.allowed_roots,
      )
    ]

root_allows :
    (realpath : Text → Text) (guild user host owner : Ident) (path : Text) (db : Database)
    → realpath (realpath path) ≡ realpath path
    → (canonicalize realpath path).1 ≡ none
    → (user == 0 || user == owner) ≡ true
    → revalidate_cwd realpath
        (realpath path)
        guild
        owner
        host
        (insert_root guild user host (realpath path) db)
      ≡ Workspace.allowed (realpath path)
unfolding revalidate_cwd canonicalize
root_allows realpath guild user host owner path db again clean may = ground (
  arith,
  again,
  clean,
  ap deny_reason again,
  covered guild user host owner (realpath path)
      (insert_root guild user host (realpath path) db).allowed_roots may
      (any-insert_new (is_root guild user host (realpath path))
        (record {
          guild_id = guild;
          runner_host_id = host;
          user_id = user;
          realpath = realpath path;
        })
        db.allowed_roots (ground (arith, text_eq_refl (realpath path)))),
)

realpath_of_upserted :
    (real : Text) (row : PathAlias) (o : Option PathAlias)
    → row.realpath ≡ real
    → (upserted row (set_realpath real) o).realpath ≡ real
realpath_of_upserted real row none e = e
realpath_of_upserted real row (some a) e = refl

alias_resolves :
    (guild : Ident) (alias real : Text) (w : Workspaces)
    → is_alias alias ≡ true
    → resolve_alias_or_path guild alias
        (record w { path_aliases = upsert_alias guild alias real w.path_aliases })
      ≡ some real
unfolding resolve_alias_or_path is_alias starts_with
alias_resolves guild [] real w e = ground arith
alias_resolves guild (c ∷ s) real w e =
    let row : PathAlias = record { guild_id = guild; alias = c ∷ s; realpath = real } in
    ground (
      arith,
      e,
      find-upsert (is_alias_of guild (c ∷ s)) row (set_realpath real) w.path_aliases
          (ground (arith, text_eq_refl (c ∷ s))) (λ a m. refl),
      realpath_of_upserted real row (find (is_alias_of guild (c ∷ s)) w.path_aliases) refl,
    )

add_registers :
    (realpath : Text → Text) (guild user host : Ident) (path : Text) (w : Workspaces)
    → (canonicalize realpath path).1 ≡ none
    → is_storable guild (realpath path) w.db ≡ true
    → add_allowed_root_for_user realpath guild user host path w ≡ (
      record w { db = insert_root guild user host (realpath path) w.db },
      RootAnswer.registered (realpath path),
    )
unfolding add_allowed_root_for_user canonicalize
add_registers realpath guild user host path w f g = ground (arith, f, g)

alias_registers :
    (realpath : Text → Text) (guild host : Ident) (alias path : Text) (w : Workspaces)
    → alias_re alias ≡ true
    → (canonicalize realpath path).1 ≡ none
    → (is_storable guild (realpath path) w.db && is_alias alias) ≡ true
    → set_path_alias realpath guild alias path host w ≡ (
      record {
        db = insert_root guild 0 host (realpath path) w.db;
        path_aliases = upsert_alias guild alias (realpath path) w.path_aliases;
      },
      RootAnswer.registered (realpath path),
    )
unfolding set_path_alias canonicalize
alias_registers realpath guild host alias path w x f g = ground (arith, x, f, g)

-- A root that is registered for a member lets a session of that member run there: the runner's check
-- allows the real path. What realpath has resolved it leaves as it is.
pub add_allowed_root_allows :
    (realpath : Text → Text) (guild user host : Ident) (path real : Text) (w : Workspaces)
    → realpath (realpath path) ≡ realpath path
    → (add_allowed_root_for_user realpath guild user host path w).1 ≡ RootAnswer.registered real
    → revalidate_cwd realpath real guild user host
        (add_allowed_root_for_user realpath guild user host path w).0.db
      ≡ Workspace.allowed real
unfolding add_allowed_root_for_user canonicalize
add_allowed_root_allows realpath guild user host path real w again e =
    elim (Option-cases ((canonicalize realpath path).1)) [
      | inr (d, f) ↦ ground (arith, e)
      | inl f ↦ elim (Bool-cases (is_storable guild (realpath path) w.db)) [
        | inr g ↦ ground (arith, e)
        | inl g ↦
            let done = add_registers realpath guild user host path w f g in
            ground (
              arith,
              e,
              done,
              ap (λ r. r.1) done,
              root_allows realpath guild user host user path w.db again f (ground arith),
            )
      ]
    ]

-- what an alias that is registered has passed
registered_passes :
    (realpath : Text → Text) (guild host : Ident) (alias path real : Text) (w : Workspaces)
    → (set_path_alias realpath guild alias path host w).1 ≡ RootAnswer.registered real
    → (alias_re alias ≡ true)
      × ((canonicalize realpath path).1 ≡ none)
      × ((is_storable guild (realpath path) w.db && is_alias alias) ≡ true)
unfolding set_path_alias canonicalize
registered_passes realpath guild host alias path real w e = elim (Bool-cases (alias_re alias)) [
  | inr x ↦ ground (arith, e)
  | inl x ↦ elim (Option-cases (deny_reason (realpath path))) [
    | inr (d, f) ↦ ground (arith, e)
    | inl f ↦ elim (Bool-cases (is_storable guild (realpath path) w.db && is_alias alias)) [
      | inr g ↦ ground (arith, e)
      | inl g ↦ (x, f, g)
    ]
  ]
]

-- An alias that is set resolves to its real path, in whatever path aliases there were, and that path
-- is allowed on the host for every owner in the guild. What realpath has resolved it leaves as it
-- is.
pub set_path_alias_allows :
    (realpath : Text → Text) (guild host owner : Ident) (alias path real : Text) (w : Workspaces)
    → realpath (realpath path) ≡ realpath path
    → (set_path_alias realpath guild alias path host w).1 ≡ RootAnswer.registered real
    → let after = (set_path_alias realpath guild alias path host w).0 in
      (resolve_alias_or_path guild alias after ≡ some real)
      × (revalidate_cwd realpath real guild owner host after.db ≡ Workspace.allowed real)
set_path_alias_allows realpath guild host owner alias path real w again e =
    let (x, f, g) = registered_passes realpath guild host alias path real w e in
    let done = alias_registers realpath guild host alias path w x f g in
    let same : realpath path ≡ real = ground (arith, e, ap (λ r. r.1) done) in
    let db = insert_root guild 0 host (realpath path) w.db in
    subst
      (λ r.
        (resolve_alias_or_path guild alias (set_path_alias realpath guild alias path host w).0
          ≡ some r)
        × (revalidate_cwd realpath r guild owner host
              (set_path_alias realpath guild alias path host w).0.db
            ≡ Workspace.allowed r))
      same
      (rw done (
        alias_resolves guild alias (realpath path) (record w { db = db }) (ground (arith, g)),
        root_allows realpath guild 0 host owner path w.db again f (ground arith),
      ))
