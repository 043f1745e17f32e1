-- ===== src/Permissions/Policy.antt =====
-- Parsing a permission configuration, its rules, and `evaluate` (src/plugin/pty/permissions.ts).
use opencode_pty.Prelude.{
  String, str_eq, Bool, true, false, ◌&&◌, Option, none, some, List, [], ◌∷◌, ◌++◌, if◌then◌else◌,
}
use opencode_pty.Rpc.Payload.{Json, Fields, get_field}

pub data PermissionAction : Type 0 where
  allow ask deny : PermissionAction

pub data PermissionRule : Type 0 where
  plain : PermissionAction → PermissionRule
  by_pattern : List (String × PermissionAction) → PermissionRule

pub data PermissionConfig : Type 0 where
  single : PermissionAction → PermissionConfig
  by_permission : List (String × PermissionRule) → PermissionConfig

-- The configuration: its own rules and those of the agents, by name.
pub record Config : Type 0 where
  pub permission : Option PermissionConfig
  pub agent : List (String × Option PermissionConfig)

unfoldable pub action_of : Json → Option PermissionAction
action_of (Json.text value) =
    if str_eq value "allow"
    then some PermissionAction.allow
    else if str_eq value "ask"
    then some PermissionAction.ask
    else if str_eq value "deny"
    then some PermissionAction.deny
    else none
action_of _ = none

-- An entry more, if its value and the others are valid.
abbrev pub with_entry :
    {V : Type 0} → String → Option V → Option (List (String × V)) → Option (List (String × V))
with_entry key none others = none
with_entry key (some value) none = none
with_entry key (some value) (some others) = some ((key, value) ∷ others)

-- `Object.values(rule).every(action)`; `none` is the error `invalid`.
unfoldable pub parse_patterns : Fields → Option (List (String × PermissionAction))
unfolding action_of
parse_patterns Fields.end = some []
parse_patterns (Fields.field pattern value rest) =
    with_entry pattern (action_of value) (parse_patterns rest)

abbrev plain_rule : Option PermissionAction → Option PermissionRule
plain_rule none = none
plain_rule (some action) = some (PermissionRule.plain action)

abbrev pattern_rule : Option (List (String × PermissionAction)) → Option PermissionRule
pattern_rule none = none
pattern_rule (some patterns) = some (PermissionRule.by_pattern patterns)

unfoldable pub parse_rule : Json → Option PermissionRule
parse_rule (Json.object fields) = pattern_rule (parse_patterns fields)
parse_rule value = plain_rule (action_of value)

unfoldable pub parse_rules : Fields → Option (List (String × PermissionRule))
parse_rules Fields.end = some []
parse_rules (Fields.field permission value rest) =
    with_entry permission (parse_rule value) (parse_rules rest)

abbrev single_config : Option PermissionAction → Option PermissionConfig
single_config none = none
single_config (some action) = some (PermissionConfig.single action)

abbrev rules_config : Option (List (String × PermissionRule)) → Option PermissionConfig
rules_config none = none
rules_config (some rules) = some (PermissionConfig.by_permission rules)

unfoldable pub parse_permission : Json → Option PermissionConfig
parse_permission (Json.object fields) = rules_config (parse_rules fields)
parse_permission value = single_config (action_of value)

pub record Rule : Type 0 where
  pub permission : String
  pub pattern : String
  pub action : PermissionAction

unfoldable pub pattern_rules : String → List (String × PermissionAction) → List Rule
pattern_rules key [] = []
pattern_rules key ((pattern, action) ∷ rest) =
    record { permission = key; pattern = pattern; action = action } ∷ pattern_rules key rest

abbrev pub rules_of : String → PermissionRule → List Rule
rules_of key (PermissionRule.plain action) =
    record { permission = key; pattern = "*"; action = action } ∷ []
rules_of key (PermissionRule.by_pattern patterns) = pattern_rules key patterns

unfoldable pub all_rules : List (String × PermissionRule) → List Rule
all_rules [] = []
all_rules ((key, rule) ∷ rest) = rules_of key rule ++ all_rules rest

unfoldable pub rules_for : PermissionConfig → List Rule
rules_for (PermissionConfig.single action) =
    record { permission = "*"; pattern = "*"; action = action } ∷ []
rules_for (PermissionConfig.by_permission rules) = all_rules rules

abbrev pub optional_rules : Option PermissionConfig → List Rule
optional_rules none = []
optional_rules (some config) = rules_for config

unfoldable pub agent_permission :
    List (String × Option PermissionConfig) → String → Option PermissionConfig
agent_permission [] name = none
agent_permission ((key, permission) ∷ rest) name =
    if str_eq key name then permission else agent_permission rest name

-- `agent ? config.agent?.[agent]?.permission : undefined`
abbrev pub agent_rules : Config → Option String → Option PermissionConfig
agent_rules config none = none
agent_rules config (some name) = if str_eq name "" then none else agent_permission config.agent name

abbrev pub is_deny : PermissionAction → Bool
is_deny PermissionAction.deny = true
is_deny _ = false

abbrev pub rule_matches : (String → String → Bool) → String → String → Rule → Bool
rule_matches matches permission input rule =
    matches permission rule.permission && matches input rule.pattern

-- The inner loop: `true` beside the result is the early return of `deny`.
unfoldable pub evaluate_rules :
    (String → String → Bool)
    → String
    → String
    → List Rule
    → Option PermissionAction
    → Bool × Option PermissionAction
evaluate_rules matches permission input [] result = (false, result)
evaluate_rules matches permission input (rule ∷ rules) result =
    let denied = evaluate_rules matches permission input rules (some rule.action) in
    let next = evaluate_rules matches permission input rules result in
    if rule_matches matches permission input rule
    then (if is_deny rule.action then (true, some PermissionAction.deny) else denied)
    else next

-- `evaluate`; `matches` is `match`.
unfoldable pub evaluate :
    (String → String → Bool) → Config → Option String → String → String → Option PermissionAction
evaluate matches config agent permission input =
    let own = evaluate_rules matches permission input (optional_rules config.permission) none in
    let agents =
      evaluate_rules matches permission input (optional_rules (agent_rules config agent)) own.1 in
    if own.0 then own.1 else agents.1

abbrev parsed_permission : Option PermissionConfig → Option (Option PermissionConfig)
parsed_permission none = none
parsed_permission (some config) = some (some config)

-- `value.permission === undefined ? undefined : parsePermission(value.permission)`
abbrev pub optional_permission : Option Json → Option (Option PermissionConfig)
optional_permission none = some none
optional_permission (some value) = parsed_permission (parse_permission value)

unfoldable pub parse_agents : Fields → Option (List (String × Option PermissionConfig))
parse_agents Fields.end = some []
parse_agents (Fields.field name (Json.object definition) rest) =
    with_entry name (optional_permission (get_field definition "permission")) (parse_agents rest)
parse_agents (Fields.field name _ rest) = none

abbrev pub optional_agents : Option Json → Option (List (String × Option PermissionConfig))
optional_agents none = some []
optional_agents (some (Json.object agents)) = parse_agents agents
optional_agents (some _) = none

abbrev config_of :
    Option (Option PermissionConfig)
    → Option (List (String × Option PermissionConfig))
    → Option Config
config_of none agent = none
config_of (some permission) none = none
config_of (some permission) (some agent) = some (record { permission = permission; agent = agent })

unfoldable pub parse_config : Json → Option Config
parse_config (Json.object fields) =
    config_of (optional_permission (get_field fields "permission"))
      (optional_agents (get_field fields "agent"))
parse_config _ = none
