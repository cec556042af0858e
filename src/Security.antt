-- ===== src/Security.antt =====
-- src/discode/security/env_scrub.py: the environment that a tool gets.
use discode.Base.{
  Bool, Bool-cases, List, Option, [], any, ap, arith, find, if◌then◌else◌, inl, inr, none, not,
  select, some, ◌&&◌, ◌||◌, ◌∷◌, ◌≡◌,
}
use discode.Data.{Text}
use discode.Text.{codes, text_eq, text_eq_sound}

abbrev pub forbidden_env : List Text
forbidden_env =
    codes "DISCORD_TOKEN"
    ∷ codes "DATABASE_URL"
    ∷ codes "REDIS_URL"
    ∷ codes "DEPLOYMENT_SECRET_KEY"
    ∷ codes "RUNNER_CONTROL_AUTH"
    ∷ codes "PLATFORM_ADMIN_USER_IDS"
    ∷ codes "EMERGENCY_STOP"
    ∷ []

abbrev pub base_allowed : List Text
base_allowed =
    codes "PATH"
    ∷ codes "HOME"
    ∷ codes "LANG"
    ∷ codes "TERM"
    ∷ codes "DISCORD_AGENT_SESSION_ID"
    ∷ codes "DISCORD_AGENT_HOOK_URL"
    ∷ codes "DISCORD_AGENT_HOOK_SECRET"
    ∷ codes "DAB_SESSION_ID"
    ∷ []

abbrev pub is_in : List Text → Text → Bool
is_in keys k = any (text_eq k) keys

-- `k in (BASE_ALLOWED | extra_allowed) - FORBIDDEN_ENV`
abbrev pub is_allowed_key : List Text → Text × Text → Bool
is_allowed_key extra entry =
    (is_in base_allowed entry.0 || is_in extra entry.0) && not (is_in forbidden_env entry.0)

unfoldable pub scrub_env : List (Text × Text) → List Text → List (Text × Text)
scrub_env raw_env extra_allowed = select (is_allowed_key extra_allowed) raw_env

-- the value of a variable
abbrev pub get_env : Text → List (Text × Text) → Option Text
get_env k env = elim (find (λ (e : Text × Text). text_eq e.0 k) env) [
  | none ↦ none
  | some e ↦ some e.1
]

scrubbed :
    (q : Text → Bool) (k : Text) (env : List (Text × Text))
    → get_env k (select (λ (e : Text × Text). q e.0) env) ≡ (if q k then get_env k env else none)
scrubbed q k [] = ground arith
scrubbed q k ((j, v) ∷ env) = elim (Bool-cases (text_eq j k)) [
  | inl y ↦ ground (arith, scrubbed q k env, ap q (text_eq_sound j k y))
  | inr n ↦ ground (arith, scrubbed q k env)
]

-- A variable of the scrubbed environment is one of the raw environment with its value, or missing:
-- it is there exactly when its name is a base or a requested one and not a forbidden one, so no
-- request of a tool lets a secret of the program through.
pub scrub_env_lem :
    (k : Text) (extra : List Text) (env : List (Text × Text))
    → get_env k (scrub_env env extra) ≡ (
        if (is_in base_allowed k || is_in extra k) && not (is_in forbidden_env k)
        then get_env k env
        else none)
unfolding scrub_env
scrub_env_lem k extra env =
    scrubbed (λ j. (is_in base_allowed j || is_in extra j) && not (is_in forbidden_env j)) k env
