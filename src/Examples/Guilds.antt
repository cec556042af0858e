-- ===== src/Examples/Guilds.antt =====
-- The theorems on the setup of a guild, at concrete data.
use discode.Base.{List, Option, [], false, none, refl, some, subst_some, true, ◌∷◌, ◌≡◌}
use discode.Data.{Text}
use discode.Text.{codes, starts_with, text_eq}
use discode.Paths.{
  Workspace, canonicalize, check_segments, deny_reason, is_denied_filename, is_under,
  is_within_root, revalidate_cwd, rstrip_sep, split,
}
use discode.Guild.Auth.{Member, Setup, is_guild_admin_authorized, setup_admin_role_set, setup_init}
use discode.Guild.Maps.{
  remove_tool_channel_map, resolve_tool_channel, set_tool_channel_map, setup_map_remove,
  setup_map_set,
}
use discode.Guild.Channels.{Command, Meaning, Refines, execute, execute_all, mean_all}
use discode.Guild.Refined.{execute_all-Refines}
use discode.Guild.Aliases.{
  RootAnswer, Runner, Validation, Workspaces, alias_re, is_alias, resolve_alias_or_path,
  set_path_alias, validate_workspace,
}
use discode.Guild.Workspaces.{set_path_alias_allows, validate_workspace_agrees}
use discode.Guild.Config.{
  Configs, Key, Libraries, get_session_config, is_valid, set_session_config, validate_api_key,
}
use discode.Guild.Secrets.{
  AreSealed, ConfigCall, IsDecrypted, api_key_not_shown, apply_calls, apply_calls-AreSealed,
}
use discode.Examples.Fixtures.{db}

abbrev admin : Member
admin = record { user_id = 5; roles = 30 ∷ []; role_names = [] }

abbrev guest : Member
guest = record { user_id = 6; roles = []; role_names = 31 ∷ [] }

abbrev commands : List Command
commands =
    Command.init 7
    ∷ Command.map_set 7 3 8 admin
    ∷ Command.admin_role_set true 7 guest (some 30) none
    ∷ Command.map_set 7 3 8 admin
    ∷ Command.map_set 7 3 9 guest
    ∷ Command.admin_role_set false 7 guest none (some 31)
    ∷ Command.map_remove 7 4 admin
    ∷ []

abbrev empty_setup : Setup
empty_setup = record { guilds = []; policies = []; channel_maps = [] }

abbrev no_meaning : Meaning
no_meaning = record { admins = λ g. none; channel = λ g t. none }

empty-Refines : Refines empty_setup no_meaning
unfolding resolve_tool_channel
empty-Refines = (λ g. refl, λ g t. refl)

execute_all-Refines_example :
    Refines (execute_all commands empty_setup).0 (mean_all commands no_meaning).0
    × ((execute_all commands empty_setup).1 ≡ (mean_all commands no_meaning).1)
execute_all-Refines_example = execute_all-Refines commands empty_setup no_meaning empty-Refines

commands_answers :
    (execute_all commands empty_setup).1 ≡ true ∷ false ∷ true ∷ true ∷ false ∷ false ∷ false ∷ []
unfolding execute_all execute setup_init setup_map_set setup_admin_role_set setup_map_remove
    is_guild_admin_authorized remove_tool_channel_map set_tool_channel_map
commands_answers = refl

abbrev aliases : Workspaces
aliases = record { db = db; path_aliases = [] }

abbrev same_path : Text → Text
same_path path = path

alias_registered :
    (set_path_alias same_path 7 (codes "proj") (codes "/w/p") 6 aliases).1
    ≡ RootAnswer.registered (codes "/w/p")
unfolding set_path_alias alias_re is_alias canonicalize deny_reason is_under check_segments split
    text_eq starts_with is_denied_filename
alias_registered = refl

set_path_alias_allows_example :
    let after = (set_path_alias same_path 7 (codes "proj") (codes "/w/p") 6 aliases).0 in
    (resolve_alias_or_path 7 (codes "proj") after ≡ some (codes "/w/p"))
    × (revalidate_cwd same_path (codes "/w/p") 7 44 6 after.db ≡ Workspace.allowed (codes "/w/p"))
set_path_alias_allows_example =
    set_path_alias_allows same_path 7 6 44 (codes "proj") (codes "/w/p") (codes "/w/p") aliases refl
      alias_registered

abbrev runner : Runner
runner = record { realpath = same_path; is_dir = λ p. true; reachable = true }

workspace_valid :
    validate_workspace runner (codes "/w/a") 7 5 6 db ≡ Validation.valid (codes "/w/a")
unfolding validate_workspace canonicalize deny_reason is_under check_segments split text_eq
    starts_with is_denied_filename is_within_root rstrip_sep
workspace_valid = refl

validate_workspace_agrees_example :
    revalidate_cwd runner.realpath (codes "/w/a") 7 5 6 db ≡ Workspace.allowed (codes "/w/a")
validate_workspace_agrees_example =
    validate_workspace_agrees runner (codes "/w/a") 7 5 6 db (codes "/w/a") workspace_valid

abbrev libraries : Libraries
libraries = record { encrypt = λ v. some (1 ∷ v); urlparse = λ v. (codes "https", v) }

abbrev configs : Configs
configs = record {
  db = db;
  policies = record { guild_id = 7; role_id = some 30; role_name_fallback = none } ∷ [];
  session_config = [];
}

abbrev calls : List ConfigCall
calls =
    ConfigCall.sets libraries 1 (some Key.model) (codes "opus") admin
    ∷ ConfigCall.sets libraries 1 (some Key.api_key) (codes "k") admin
    ∷ ConfigCall.sets libraries 1 (some Key.model) (codes "-x") admin
    ∷ ConfigCall.clears_all 1 guest
    ∷ []

abbrev decrypt : Text → Option Text
decrypt [] = none
decrypt (c ∷ v) = some v

decrypted : IsDecrypted decrypt libraries
decrypted v ct e = subst_some (λ x. decrypt x ≡ some v) e refl

apply_calls-AreSealed_example : AreSealed decrypt (apply_calls calls configs)
apply_calls-AreSealed_example =
    apply_calls-AreSealed decrypt calls configs (decrypted, (decrypted, (decrypted, (tt, tt)))) tt

key_valid : is_valid libraries Key.api_key (codes "one") ≡ true
unfolding is_valid validate_api_key
key_valid = refl

key_valid' : is_valid libraries Key.api_key (codes "two") ≡ true
unfolding is_valid validate_api_key
key_valid' = refl

api_key_not_shown_example :
    let after = set_session_config libraries 1 (some Key.api_key) (codes "one") admin configs in
    let after' = set_session_config libraries 1 (some Key.api_key) (codes "two") admin configs in
    (after.1 ≡ after'.1) × (get_session_config 1 after.0 ≡ get_session_config 1 after'.0)
api_key_not_shown_example =
    api_key_not_shown libraries 1 1 admin (codes "one") (codes "two") (1 ∷ codes "one")
      (1 ∷ codes "two") configs key_valid key_valid' refl refl
