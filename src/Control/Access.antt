-- ===== src/Control/Access.antt =====
-- src/discode/runner/control_api.py: the two middlewares, the check at startup and the preflight.
-- What `ipaddress` says of a host is an argument: none where it raises ValueError, else whether the
-- address is loopback, private or link-local.
use mathlib.Core.List.{reverse}
use mathlib.Core.List.{reverse}
use mathlib.Core.List.{reverse}
use discode.Base.{
  Bool, Bool-cases, List, Option, [], any, ap, arith, false, if◌then◌else◌, inl, inr, none, not,
  some, true, ℕ, ◌&&◌, ◌++◌, ◌==◌, ◌||◌, ◌↔◌, ◌∷◌, ◌≡◌, ◌≢◌,
}
use discode.Data.{Text}
use discode.Config.{Settings, execution_allowed}
use discode.Text.{codes, is_empty, text_eq, text_eq_refl, text_eq_sound}

pub record ControlSettings : Type 0 where
  pub runner_control_bind : Text
  -- the empty text where it is not set
  pub runner_control_auth : Text

-- `s.rsplit(":", 1)[0]`: what stands before the last colon, or all of it
abbrev colon : ℕ
colon = b':'

abbrev pub before_last_colon : Text → Option Text
before_last_colon [] = none
before_last_colon (c ∷ s) = elim (before_last_colon s) [
  | some t ↦ some (c ∷ t)
  | none ↦ if c == colon then some [] else none
]

abbrev is_bracket : ℕ → Bool
is_bracket c = c == b'[' || c == b']'

abbrev pub lstrip_brackets : Text → Text
lstrip_brackets [] = []
lstrip_brackets (c ∷ s) = let rest = lstrip_brackets s in if is_bracket c then rest else c ∷ s

-- `host.strip("[]")`
abbrev pub strip_brackets : Text → Text
strip_brackets s = reverse (lstrip_brackets (reverse (lstrip_brackets s)))

unfoldable pub bind_host : Text → Text
bind_host bind = elim (before_last_colon bind) [
  | some host ↦ strip_brackets host
  | none ↦ strip_brackets bind
]

abbrev pub loopback_ips : List Text
loopback_ips = codes "127.0.0.1" ∷ codes "::1" ∷ []

abbrev pub localhost : Text
localhost = codes "localhost"

unfoldable pub is_loopback_only : Text → Bool
unfolding text_eq bind_host
is_loopback_only bind =
    any (text_eq (bind_host bind)) loopback_ips || text_eq (bind_host bind) localhost

unfoldable pub is_private_or_loopback : (Text → Option Bool) → Text → Bool
unfolding text_eq
is_private_or_loopback classify host = elim (classify host) [
  | some b ↦ b
  | none ↦ text_eq host localhost
]

-- how `_startup_validation` ends
pub data Startup : Type 0 where
  started control_api_auth_required control_api_public_bind_refused : Startup

unfoldable pub startup_validation : (Text → Option Bool) → ControlSettings → Startup
unfolding text_eq
startup_validation classify cfg =
    let host = bind_host cfg.runner_control_bind in
    if is_empty cfg.runner_control_auth
    then Startup.control_api_auth_required
    else if text_eq host (codes "0.0.0.0") || not (is_private_or_loopback classify host)
    then Startup.control_api_public_bind_refused
    else Startup.started

pub record ControlRequest : Type 0 where
  -- `request.client.host`, none without a client
  pub client_host : Option Text
  -- the Authorization header, or the empty text
  pub authorization : Text

-- LoopbackOnlyMiddleware lets the request through
unfoldable pub passes_loopback : ControlSettings → ControlRequest → Bool
unfolding text_eq
passes_loopback cfg r = elim r.client_host [
  | none ↦ false
  | some host ↦ not (is_loopback_only cfg.runner_control_bind) || any (text_eq host) loopback_ips
]

-- BearerAuthMiddleware, added with an empty token of its own, lets the request through
unfoldable pub passes_bearer : ControlSettings → ControlRequest → Bool
unfolding text_eq
passes_bearer cfg r =
    not (is_empty cfg.runner_control_auth)
    && text_eq r.authorization (codes "Bearer " ++ cfg.runner_control_auth)

-- the status that a request is turned away with, if it is; LoopbackOnly runs first
unfoldable pub turn_away : ControlSettings → ControlRequest → Option ℕ
unfolding passes_loopback passes_bearer
turn_away cfg r =
    if not (passes_loopback cfg r)
    then some 403
    else if not (passes_bearer cfg r)
    then some 401
    else none

-- `preflight_passed`
abbrev pub preflight : Settings → Bool
preflight cfg = execution_allowed cfg

bearer_differs : (s t : Text) → text_eq s t ≡ false → s ≢ t
bearer_differs s t e same = ground (arith, text_eq_refl s, ap (text_eq s) same)

-- A request is served exactly if it has a client, from this host where the bind is loopback only,
-- and carries the configured token, which is not empty.
pub turn_away_lem :
    (cfg : ControlSettings) (r : ControlRequest)
    → (turn_away cfg r ≡ none) ↔ (
        (passes_loopback cfg r ≡ true)
        × (r.authorization ≡ codes "Bearer " ++ cfg.runner_control_auth)
        × (is_empty cfg.runner_control_auth ≡ false))
unfolding turn_away passes_bearer
turn_away_lem cfg r = elim (Bool-cases (passes_loopback cfg r)) [
  | inr e ↦ ground arith
  | inl e ↦
      elim (Bool-cases (text_eq r.authorization (codes "Bearer " ++ cfg.runner_control_auth))) [
        | inl same ↦
            ground (
              arith,
              text_eq_sound r.authorization (codes "Bearer " ++ cfg.runner_control_auth) same,
            )
        | inr apart ↦ ground (
          arith,
          bearer_differs r.authorization (codes "Bearer " ++ cfg.runner_control_auth) apart,
        )
      ]
]
