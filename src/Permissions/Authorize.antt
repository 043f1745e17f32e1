-- ===== src/Permissions/Authorize.antt =====
-- The authorizers of src/plugin/pty/permissions.ts. `none` is the error that is thrown. The file
-- system and the path functions of the host are a `Host`.
use Prim.Native.Char.{code}
use Prim.Native.String.{◌++◌ as str_append}
use opencode_pty.Prelude.{
  String, str_eq, Bool, true, false, not, ◌&&◌, ◌||◌, Option, none, some, List, [], ◌∷◌,
  get_or_default, is_true, ◌==◌, if◌then◌else◌,
}
use opencode_pty.Journal.Lines.{starts_with}
use opencode_pty.Permissions.Policy.{PermissionAction, Config, is_deny, evaluate}

-- `real_path` is `realpath`, `relative`, `is_absolute`, `directory_name` and `separator` are those of
-- node:path, and `top_level` is what git prints for a directory, trimmed, or none where it fails.
pub record Host : Type 0 where
  pub matches : String → String → Bool
  pub real_path : String → Option String
  pub top_level : String → Option String
  pub relative : String → String → String
  pub is_absolute : String → Bool
  pub directory_name : String → String
  pub separator : String

abbrev real_or : Host → String → Option String → String
real_or host directory none = directory
real_or host directory (some printed) = get_or_default (host.real_path printed) directory

unfoldable pub worktree_boundary : Host → String → String
worktree_boundary host directory = real_or host directory (host.top_level directory)

-- The path leads out of the directory that it starts from.
abbrev pub leads_outside : Host → String → Bool
leads_outside host path =
    str_eq path ".." || (starts_with path (str_append ".." host.separator) || host.is_absolute path)

-- `text.replace(/\\/g, '/')`
unfoldable pub forward_slashes : String → String
forward_slashes String.[] = String.[]
forward_slashes (String.◌∷◌ c s) =
    let rest = forward_slashes s in if code c == 92 then str_append "/" rest else String.◌∷◌ c rest

pub record Resolved : Type 0 where
  pub workdir : String
  pub outside : Bool
  pub action : Option PermissionAction
  pub pattern : String

abbrev pub resolved_in : Host → Config → Option String → String → String → Resolved
resolved_in host config agent workdir project =
    let outside = leads_outside host (host.relative (worktree_boundary host project) workdir) in
    record {
      workdir = workdir;
      outside = outside;
      action =
          if outside then evaluate host.matches config agent "external_directory" workdir else none;
      pattern = str_append (forward_slashes (host.directory_name workdir)) "/*";
    }

abbrev pub resolved_paths :
    Host → Config → Option String → Option String → Option String → Option Resolved
resolved_paths host config agent (some workdir) (some project) =
    some (resolved_in host config agent workdir project)
resolved_paths host config agent _ _ = none

unfoldable pub workdir_authorization :
    Host → Config → String → Option String → Option String → Option Resolved
workdir_authorization host config directory workdir agent =
    if str_eq directory ""
    then none
    else resolved_paths host config agent (host.real_path (get_or_default workdir directory))
        (host.real_path directory)

abbrev pub is_denied : Option PermissionAction → Bool
is_denied none = false
is_denied (some action) = is_deny action

abbrev pub is_allowed : Option PermissionAction → Bool
is_allowed (some PermissionAction.allow) = true
is_allowed _ = false

-- `requestApproval`: the host's dialog, if it has one, for a permission and a pattern.
abbrev pub Asker : Type 0
Asker = Option (String → String → Bool)

abbrev pub approved : Asker → String → String → Bool
approved none permission pattern = false
approved (some ask) permission pattern = ask permission pattern

unfoldable pub joined_command : String → List String → String
joined_command command [] = command
joined_command command (arg ∷ args) = str_append command (str_append " " (joined_command arg args))

-- `inheritEnv === true || Object.keys(env ?? {}).length > 0`
abbrev pub custom_environment : Option Bool → Option (List (String × String)) → Bool
custom_environment inherit_env (some (entry ∷ env)) = true
custom_environment inherit_env _ = is_true inherit_env

-- What `createSpawnAuthorizer` does once the directory is resolved; `custom_env` is whether an
-- environment is asked for.
abbrev pub decide_spawn :
    Option PermissionAction → Option Resolved → Asker → Bool → String → Option String
decide_spawn action none ask custom_env pattern = none
decide_spawn action (some resolved) ask custom_env pattern =
    if is_denied action || is_denied resolved.action
    then none
    else if not (is_allowed action) && custom_env
    then none
    else if not (is_allowed action) && not (approved ask "bash" pattern)
    then none
    else if (resolved.outside && not (is_allowed resolved.action))
        && not (approved ask "external_directory" resolved.pattern)
    then none
    else some resolved.workdir

unfoldable pub authorize_spawn :
    Host
    → Config
    → String
    → String
    → List String
    → Option String
    → Option String
    → Asker
    → Option (List (String × String))
    → Option Bool
    → Option String
authorize_spawn host config directory command args workdir agent ask env inherit_env =
    let pattern = joined_command command args in
    decide_spawn (evaluate host.matches config agent "bash" pattern)
      (workdir_authorization host config directory workdir agent) ask
      (custom_environment inherit_env env) pattern

pub record BashAuthorization : Type 0 where
  pub action : PermissionAction
  pub workdir : String
  pub external_action : Option PermissionAction
  pub external_pattern : Option String

abbrev pub decide_bash : Option PermissionAction → Option Resolved → Option BashAuthorization
decide_bash action none = none
decide_bash action (some resolved) =
    if is_denied action || is_denied resolved.action
    then none
    else some (record {
      action = if is_allowed action then PermissionAction.allow else PermissionAction.ask;
      workdir = resolved.workdir;
      external_action = if resolved.outside then resolved.action else none;
      external_pattern = if resolved.outside then some resolved.pattern else none;
    })

unfoldable pub authorize_bash :
    Host → Config → String → String → Option String → Option String → Option BashAuthorization
authorize_bash host config directory command workdir agent =
    decide_bash (evaluate host.matches config agent "bash" command)
      (workdir_authorization host config directory workdir agent)
