-- ===== src/Runner/Expected.antt =====
-- What a create job of src/discode/runner/saga_create.py is to make of its session.
use discode.Base.{
  Bool, Bool-cases, List, Option, Option-cases, [], any, arith, false, find, if◌then◌else◌, inl,
  inr, is_set, none, not, refl, select, some, true, ◌&&◌, ◌==◌, ◌||◌, ◌∷◌, ◌≡◌, ◌⊎◌,
}
use discode.Data.{
  AllowedRoot, Call, CreateSession, Database, Envelope, Ident, Message, Reason, Session, Status,
  Text, Time, TokenSource, ToolDefinition,
}
use discode.Paths.{
  DenyReason, Workspace, canonicalize, covers, deny_reason, is_host_root, is_within_root,
  revalidate_cwd,
}
use discode.Runner.Create.{World}

-- the session as it is to run on the host, with a token
abbrev pub running_on : Ident → Time → CreateSession → Option Ident → Session → Session
running_on host now p token s = record s {
  status = Status.running;
  host_id = some host;
  running_at = some now;
  hook_secret_ciphertext = some p.hook_secret_ciphertext;
  recovery_checked_at = some now;
  tool_resume_token = token;
}

-- the token of the request, or a new one for a tool that is to be given one, or the one it had
abbrev pub first_token : Call → CreateSession → ToolDefinition → Session → Option Ident
first_token c p d s = elim p.resume_token [
  | some token ↦ some token
  | none ↦ elim d.resume_token_source [
    | TokenSource.caller_uuid ↦ some (c.uuid 0)
    | _ ↦ s.tool_resume_token
  ]
]

abbrev pub told : Ident → CreateSession → Message → Envelope
told ikey p message = Envelope.system_notice (record {
  idempotency_key = ikey;
  session_id = p.session_id;
  guild_id = some p.guild_id;
  thread_id = p.thread_id;
  message = message;
})

-- the path is not denied, and at or below a root that the guild's owner may use on the host
abbrev pub may_work_in : Text → CreateSession → Ident → Database → Bool
may_work_in real p host db =
    not (is_set (deny_reason real))
    && any
        (λ r.
          r.guild_id == p.guild_id
          && r.runner_host_id == host
          && (r.user_id == 0 || r.user_id == p.owner_id)
          && is_within_root real r.realpath)
        db.allowed_roots

any-select :
    (p q : AllowedRoot → Bool) (l : List AllowedRoot) → any p (select q l) ≡ any (λ r. q r && p r) l
any-select p q [] = refl
any-select p q (r ∷ l) = ground (arith, any-select p q l)

pub revalidated :
    (realpath : Text → Text) (p : CreateSession) (host : Ident) (db : Database)
    → let real = realpath p.cwd_realpath in
      let may = may_work_in real p host db in
      let verdict = revalidate_cwd realpath p.cwd_realpath p.guild_id p.owner_id host db in
      ((may ≡ true) × (verdict ≡ Workspace.allowed real))
      ⊎ ((may ≡ false) × (verdict ≡ Workspace.no_root_match))
      ⊎ ((may ≡ false) × ((r : DenyReason) × (verdict ≡ Workspace.denied r)))
unfolding revalidate_cwd canonicalize
revalidated realpath p host db =
    let real = realpath p.cwd_realpath in
    let same =
      any-select (covers p.owner_id real) (is_host_root p.guild_id host) db.allowed_roots in
    elim (Option-cases (deny_reason real)) [
      | inr (r, e) ↦ inr (inr (ground (arith, e), (r, ground (arith, e))))
      | inl e ↦ elim (Bool-cases (may_work_in real p host db)) [
        | inl f ↦ inl (f, ground (arith, e, f, same))
        | inr f ↦ inr (inl (f, ground (arith, e, f, same)))
      ]
    ]

-- what the create job is to make of its session, if nothing disturbs it
abbrev pub settled_creation :
    World → Ident → CreateSession → Session → Database → Session × Envelope
settled_creation w host p s db =
    let c = w.call in
    let failure : Reason → Session × Envelope = λ reason. (
      record s { status = Status.failed; status_reason = some reason },
      told (c.uuid 0) p (Message.create_failed reason),
    ) in
    if may_work_in (w.realpath p.cwd_realpath) p host db
    then elim (find (λ d. d.name == p.tool && d.enabled) db.tool_definitions) [
      | none ↦ failure Reason.tool_unavailable
      | some d ↦
          (running_on host c.now p (first_token c p d s) s, told (c.uuid 1) p Message.session_ready)
    ]
    else failure Reason.cwd_invalid
