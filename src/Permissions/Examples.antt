-- ===== src/Permissions/Examples.antt =====
-- The theorems on the permission policy of src/plugin/pty at one small configuration, and tests.
use opencode_pty.Prelude.{
  ℕ, String, str_eq, Bool, true, false, ◌||◌, none, some, List, [], ◌∷◌, ◌++◌, any, ◌≡◌, ◌↔◌, refl,
  if◌then◌else◌,
}
use opencode_pty.Rpc.Payload.{Json, Fields, get_field}
use opencode_pty.Permissions.Wildcard.{
  units, with_slashes, some_suffix, glob, same_units, omits_tail, normalize, match_units,
}
use opencode_pty.Permissions.Pattern.{Accepts, match_units-Accepts}
use opencode_pty.Permissions.Policy.{
  PermissionAction, PermissionConfig, PermissionRule, Config, optional_rules, agent_rules,
  rule_matches, evaluate, evaluate_rules, rules_for, all_rules, pattern_rules, parse_config,
  parse_permission, parse_rules, parse_rule, parse_patterns, action_of, parse_agents,
}
use opencode_pty.Permissions.Evaluation.{last_action, denies, evaluate_lem}
use opencode_pty.Permissions.Authorize.{
  Host, Asker, worktree_boundary, forward_slashes, workdir_authorization, joined_command,
  authorize_spawn,
}
use opencode_pty.Permissions.Authority.{SpawnPermitted, authorize_spawn-IsPermitted}
use opencode_pty.Journal.Lines.{starts_with}

abbrev same : List ℕ → List ℕ
same us = us

match_units-Accepts_example :
    (match_units same false (units "git log") (units "git *") ≡ true)
    ↔ Accepts (normalize same false (units "git log")) (normalize same false (units "git *"))
match_units-Accepts_example = match_units-Accepts same false (units "git log") (units "git *")

-- Tests of the wildcard.
accepts_arguments : match_units same false (units "git log") (units "git *") ≡ true
unfolding match_units units with_slashes glob some_suffix same_units omits_tail
accepts_arguments = refl

accepts_no_argument : match_units same false (units "git") (units "git *") ≡ true
unfolding match_units units with_slashes glob some_suffix same_units omits_tail
accepts_no_argument = refl

refuses_longer_name : match_units same false (units "gitx") (units "git ?") ≡ false
unfolding match_units units with_slashes glob some_suffix same_units omits_tail
refuses_longer_name = refl

-- `git *` is allowed and `rm` is denied.
abbrev policy : Json
policy = Json.object (
    Fields.field "permission"
      (Json.object (
        Fields.field "bash"
          (Json.object (
            Fields.field "git" (Json.text "allow")
              (Fields.field "rm" (Json.text "deny") Fields.end)))
          Fields.end))
      Fields.end)

abbrev config : Config
config = record {
  permission = some (
      PermissionConfig.by_permission (
        (
          "bash",
          PermissionRule.by_pattern
              (("git", PermissionAction.allow) ∷ ("rm", PermissionAction.deny) ∷ []),
        )
        ∷ []));
  agent = [];
}

parses : parse_config policy ≡ some config
unfolding parse_config parse_permission parse_rules parse_rule parse_patterns action_of parse_agents
    get_field
parses = refl

-- A matcher that takes `*` for everything and other patterns for themselves.
abbrev literal_matches : String → String → Bool
literal_matches text pattern = str_eq pattern "*" || str_eq text pattern

evaluate_lem_example : evaluate literal_matches config (some "build") "bash" "rm" ≡ (
    if any
      (denies (rule_matches literal_matches "bash" "rm"))
      (optional_rules config.permission ++ optional_rules (agent_rules config (some "build")))
    then some PermissionAction.deny
    else last_action
        (rule_matches literal_matches "bash" "rm")
        (optional_rules config.permission ++ optional_rules (agent_rules config (some "build")))
        none)
evaluate_lem_example = evaluate_lem literal_matches config (some "build") "bash" "rm"

denied : evaluate literal_matches config none "bash" "rm" ≡ some PermissionAction.deny
unfolding evaluate evaluate_rules rules_for all_rules pattern_rules
denied = refl

-- A worktree `/w` that a directory `/o/d` is outside of, and a user who approves everything.
abbrev host : Host
host = record {
  matches = literal_matches;
  real_path = λ path. some path;
  top_level = λ directory. some "/w";
  relative = λ from to. if str_eq from to then "" else "../o/d";
  is_absolute = λ path. false;
  directory_name = λ path. "/o";
  separator = "/";
}

abbrev user : Asker
user = some (λ permission pattern_text. true)

runs_git : authorize_spawn host config "/w" "git" [] none none none none (some true) ≡ some "/w"
unfolding authorize_spawn workdir_authorization joined_command evaluate evaluate_rules rules_for
    all_rules pattern_rules worktree_boundary starts_with
runs_git = refl

runs_outside :
    authorize_spawn host config "/w" "make" [] (some "/o/d") none user (some []) none ≡ some "/o/d"
unfolding authorize_spawn workdir_authorization joined_command evaluate evaluate_rules rules_for
    all_rules pattern_rules worktree_boundary starts_with forward_slashes
runs_outside = refl

-- Nobody is there to approve the outside directory.
refused_outside : authorize_spawn host config "/w" "git" [] (some "/o/d") none none none none ≡ none
unfolding authorize_spawn workdir_authorization joined_command evaluate evaluate_rules rules_for
    all_rules pattern_rules worktree_boundary starts_with forward_slashes
refused_outside = refl

authorize_spawn-IsPermitted_example :
    SpawnPermitted host config "/w" "make" [] (some "/o/d") none user (some []) none "/o/d"
authorize_spawn-IsPermitted_example =
    (authorize_spawn-IsPermitted host config "/w" "make" [] (some "/o/d") none user (some []) none
        "/o/d").0
      runs_outside
