-- ===== src/Permissions/Evaluation.antt =====
-- What `evaluate` of src/plugin/pty/permissions.ts answers.
use opencode_pty.Prelude.{
  String, Bool, true, false, ◌&&◌, Option, none, some, List, [], ◌∷◌, ◌++◌, any, ◌≡◌, refl, arith,
  if◌then◌else◌,
}
use opencode_pty.Permissions.Policy.{
  PermissionAction, Config, Rule, optional_rules, agent_rules, is_deny, rule_matches,
  evaluate_rules, evaluate,
}

-- The action of the last rule that matches, or the given one.
unfoldable pub last_action :
    (Rule → Bool) → List Rule → Option PermissionAction → Option PermissionAction
last_action test [] result = result
last_action test (rule ∷ rules) result =
    last_action test rules (if test rule then some rule.action else result)

abbrev pub denies : (Rule → Bool) → Rule → Bool
denies test rule = test rule && is_deny rule.action

rules-lem :
    (matches : String → String → Bool) (permission input : String) (rules : List Rule)
    (result : Option PermissionAction)
    → evaluate_rules matches permission input rules result ≡ (
        if any (denies (rule_matches matches permission input)) rules
        then (true, some PermissionAction.deny)
        else (false, last_action (rule_matches matches permission input) rules result))
unfolding evaluate_rules last_action any
rules-lem matches permission input [] result = refl
rules-lem matches permission input (rule ∷ rules) result = ground (
  arith,
  rules-lem matches permission input rules result,
  rules-lem matches permission input rules (some rule.action),
)

any-append :
    {A : Type 0}
    → (test : A → Bool) (xs ys : List A)
    → any test (xs ++ ys) ≡ (if any test xs then true else any test ys)
unfolding any
any-append test [] ys = ground arith
any-append test (x ∷ xs) ys = ground (arith, any-append test xs ys)

last_action-append :
    (test : Rule → Bool) (xs ys : List Rule) (result : Option PermissionAction)
    → last_action test (xs ++ ys) result ≡ last_action test ys (last_action test xs result)
unfolding last_action
last_action-append test [] ys result = refl
last_action-append test (x ∷ xs) ys result =
    last_action-append test xs ys (if test x then some x.action else result)

-- Denying rules win: `evaluate` answers `deny` if any rule of the configuration or of the agent that
-- matches denies, and the action of the last rule that matches otherwise, the agent's rules after the
-- configuration's.
pub evaluate_lem :
    (matches : String → String → Bool) (config : Config) (agent : Option String)
    (permission input : String)
    → evaluate matches config agent permission input ≡ (
        if any
          (denies (rule_matches matches permission input))
          (optional_rules config.permission ++ optional_rules (agent_rules config agent))
        then some PermissionAction.deny
        else last_action
            (rule_matches matches permission input)
            (optional_rules config.permission ++ optional_rules (agent_rules config agent))
            none)
unfolding evaluate
evaluate_lem matches config agent permission input =
    let test = rule_matches matches permission input in
    let own = optional_rules config.permission in
    let agents = optional_rules (agent_rules config agent) in
    ground (
      arith,
      rules-lem matches permission input own none,
      rules-lem matches permission input agents (last_action test own none),
      any-append (denies test) own agents,
      last_action-append test own agents none,
    )
