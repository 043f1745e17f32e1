-- ===== src/Permissions/Authority.antt =====
-- What a spawn needs to be authorized (src/plugin/pty/permissions.ts).
use Prim.Native.String.{◌++◌ as str_append}
use opencode_pty.Prelude.{
  String, str_eq, eq_iff, Bool, true, false, Option, none, some, get_or_default, List, [], ◌∷◌,
  if◌then◌else◌, ◌≡◌, ◌≢◌, ◌↔◌, ◌⊎◌, inl, inr, refl, arith, ap, Bool-cases, Option-cases,
}
use opencode_pty.Permissions.Policy.{PermissionAction, Config, evaluate}
use opencode_pty.Permissions.Authorize.{
  Host, Resolved, worktree_boundary, leads_outside, forward_slashes, resolved_in,
  workdir_authorization, Asker, approved, joined_command, custom_environment, is_allowed, is_denied,
  decide_spawn, authorize_spawn,
}

-- No environment is asked for.
pub record IsPlain (env : Option (List (String × String))) (inherit_env : Option Bool)
    : Type 0 where
  pub not_inherited : inherit_env ≢ some true
  pub no_entries : (env ≡ none) ⊎ (env ≡ some [])

-- The command is allowed; or it is not denied, the user approves it and no environment is asked for.
-- The directory does not lead outside; or it is allowed; or it is not denied and the user approves it.
pub record IsPermitted (action external : Option PermissionAction) (outside : Bool) (plain : Type 0)
    (ask_command ask_directory : Bool) : Type 0 where
  pub command :
      (action ≡ some PermissionAction.allow)
      ⊎ (action ≢ some PermissionAction.deny) × plain × (ask_command ≡ true)
  pub directory :
      (outside ≡ false)
      ⊎ (external ≡ some PermissionAction.allow)
      ⊎ (external ≢ some PermissionAction.deny) × (ask_directory ≡ true)

is_allowed-iff :
    (action : Option PermissionAction)
    → (is_allowed action ≡ true) ↔ (action ≡ some PermissionAction.allow)
is_allowed-iff none = (λ h. ground (arith, h), λ h. ground (arith, h))
is_allowed-iff (some PermissionAction.allow) = (λ h. refl, λ h. refl)
is_allowed-iff (some PermissionAction.ask) = (λ h. ground (arith, h), λ h. ground (arith, h))
is_allowed-iff (some PermissionAction.deny) = (λ h. ground (arith, h), λ h. ground (arith, h))

is_denied-iff :
    (action : Option PermissionAction)
    → (is_denied action ≡ false) ↔ (action ≢ some PermissionAction.deny)
is_denied-iff none = (λ h e. ground (arith, e), λ h. refl)
is_denied-iff (some PermissionAction.allow) = (λ h e. ground (arith, e), λ h. refl)
is_denied-iff (some PermissionAction.ask) = (λ h e. ground (arith, e), λ h. refl)
is_denied-iff (some PermissionAction.deny) = (λ h e. ground (arith, h), λ h. absurd (h refl))

custom-IsPlain :
    (inherit_env : Option Bool) (env : Option (List (String × String)))
    → (custom_environment inherit_env env ≡ false) ↔ IsPlain env inherit_env
custom-IsPlain inherit_env (some (entry ∷ env)) = (
  λ h. ground (arith, h),
  λ p. elim p.no_entries [ inl e ↦ ground (arith, e) | inr e ↦ ground (arith, e) ],
)
custom-IsPlain (some true) none = (λ h. ground (arith, h), λ p. absurd (p.not_inherited refl))
custom-IsPlain (some true) (some []) = (λ h. ground (arith, h), λ p. absurd (p.not_inherited refl))
custom-IsPlain none none =
    (λ h. record { not_inherited = λ e. ground (arith, e); no_entries = inl refl }, λ p. refl)
custom-IsPlain none (some []) =
    (λ h. record { not_inherited = λ e. ground (arith, e); no_entries = inr refl }, λ p. refl)
custom-IsPlain (some false) none =
    (λ h. record { not_inherited = λ e. ground (arith, e); no_entries = inl refl }, λ p. refl)
custom-IsPlain (some false) (some []) =
    (λ h. record { not_inherited = λ e. ground (arith, e); no_entries = inr refl }, λ p. refl)

module _ (action external : Option PermissionAction) (outside custom : Bool) (ask : Asker)
    (command_pattern workdir directory_pattern : String) where
  abbrev resolved_as : Resolved
  resolved_as = record {
    workdir = workdir;
    outside = outside;
    action = if outside then external else none;
    pattern = directory_pattern;
  }

  decided-IsPermitted :
      (plain : Type 0) (result : String)
      → (custom ≡ false) ↔ plain
      → decide_spawn action (some resolved_as) ask custom command_pattern ≡ some result
      → (result ≡ workdir)
        × IsPermitted action external outside plain
            (approved ask "bash" command_pattern)
            (approved ask "external_directory" directory_pattern)
  decided-IsPermitted plain result none_asked h = (
    ground (arith, h),
    record {
      command = elim (Bool-cases (is_allowed action)) [
        | inl a ↦ inl ((is_allowed-iff action).0 a)
        | inr n ↦ inr (
          (is_denied-iff action).0 (ground (arith, h)),
          none_asked.0 (ground (arith, n, h)),
          ground (arith, n, h),
        )
      ];
      directory = elim (Bool-cases outside) [
        | inr i ↦ inl i
        | inl o ↦ elim (Bool-cases (is_allowed external)) [
          | inl a ↦ inr (inl ((is_allowed-iff external).0 a))
          | inr n ↦
              inr (inr ((is_denied-iff external).0 (ground (arith, o, h)), ground (arith, o, n, h)))
        ]
      ];
    },
  )

  command_given :
      {plain : Type 0}
      → (custom ≡ false) ↔ plain
      → (action ≡ some PermissionAction.allow)
        ⊎ (action ≢ some PermissionAction.deny)
          × plain
          × (approved ask "bash" command_pattern ≡ true)
      → (is_denied action ≡ false)
        × ((is_allowed action ≡ true)
            ⊎ (custom ≡ false) × (approved ask "bash" command_pattern ≡ true))
  command_given none_asked (inl e) = (ap is_denied e, inl (ap is_allowed e))
  command_given none_asked (inr (n, p, a)) = ((is_denied-iff action).1 n, inr (none_asked.1 p, a))

  directory_given :
      (outside ≡ false)
        ⊎ (external ≡ some PermissionAction.allow)
        ⊎ (external ≢ some PermissionAction.deny)
          × (approved ask "external_directory" directory_pattern ≡ true)
      → (outside ≡ false)
        ⊎ (is_denied external ≡ false)
          × ((is_allowed external ≡ true)
              ⊎ (approved ask "external_directory" directory_pattern ≡ true))
  directory_given (inl i) = inl i
  directory_given (inr (inl e)) = inr (ap is_denied e, inl (ap is_allowed e))
  directory_given (inr (inr (n, a))) = inr ((is_denied-iff external).1 n, inr a)

  IsPermitted-decided :
      {plain : Type 0}
      → (custom ≡ false) ↔ plain
      → IsPermitted action external outside plain
          (approved ask "bash" command_pattern)
          (approved ask "external_directory" directory_pattern)
      → decide_spawn action (some resolved_as) ask custom command_pattern ≡ some workdir
  IsPermitted-decided none_asked p =
      ground (arith, command_given none_asked p.command, directory_given p.directory)

-- The project directory is named and both directories exist; the command and the result are permitted
-- by what the rules say of them.
pub record SpawnPermitted (host : Host) (config : Config) (directory command : String)
    (args : List String) (workdir agent : Option String) (ask : Asker)
    (env : Option (List (String × String))) (inherit_env : Option Bool) (result : String)
    : Type 0 where
  pub named : directory ≢ ""
  pub project : String
  pub real_project : host.real_path directory ≡ some project
  pub real_workdir : host.real_path (get_or_default workdir directory) ≡ some result
  pub permitted :
      IsPermitted
        (evaluate host.matches config agent "bash" (joined_command command args))
        (evaluate host.matches config agent "external_directory" result)
        (leads_outside host (host.relative (worktree_boundary host project) result))
        (IsPlain env inherit_env)
        (approved ask "bash" (joined_command command args))
        (approved ask "external_directory"
          (str_append (forward_slashes (host.directory_name result)) "/*"))

-- `createSpawnAuthorizer` returns a directory exactly if the project directory is named and exists,
-- the result is the real path of the directory that was asked for, and both of these hold. The rules
-- allow the command, or do not deny it, no environment is asked for, and the user approves the
-- command. The path from the worktree to the result does not lead outside, or the rules allow the
-- result as an outside directory, or they do not deny it and the user approves its parent.
pub authorize_spawn-IsPermitted :
    (host : Host) (config : Config) (directory command : String) (args : List String)
    (workdir agent : Option String) (ask : Asker) (env : Option (List (String × String)))
    (inherit_env : Option Bool) (result : String)
    → (authorize_spawn host config directory command args workdir agent ask env inherit_env
        ≡ some result)
      ↔ SpawnPermitted host config directory command args workdir agent ask env inherit_env result
unfolding authorize_spawn workdir_authorization
authorize_spawn-IsPermitted host config directory command args workdir agent ask env inherit_env
      result =
    let line : String = joined_command command args in
    let action : Option PermissionAction = evaluate host.matches config agent "bash" line in
    let wanted : String = get_or_default workdir directory in
    let custom : Bool = custom_environment inherit_env env in
    (
      λ h. elim (Bool-cases (str_eq directory "")) [
        | inl e ↦ ground (arith, e, h)
        | inr named ↦ elim (Option-cases (host.real_path directory)) [
          | inl e ↦ elim (Option-cases (host.real_path wanted)) [
            | inl f ↦ ground (arith, named, e, f, h)
            | inr (w, f) ↦ ground (arith, named, e, f, h)
          ]
          | inr (project, e) ↦ elim (Option-cases (host.real_path wanted)) [
            | inl f ↦ ground (arith, named, f, h)
            | inr (w, f) ↦
                let decided : decide_spawn action (some (resolved_in host config agent w project))
                      ask custom line
                    ≡ some result =
                  ground (arith, named, e, f, h) in
                let (same, permitted) =
                  decided-IsPermitted action
                    (evaluate host.matches config agent "external_directory" w)
                    (leads_outside host (host.relative (worktree_boundary host project) w)) custom
                    ask line w (str_append (forward_slashes (host.directory_name w)) "/*")
                    (IsPlain env inherit_env) result (custom-IsPlain inherit_env env) decided in
                rw same (record {
                  named = λ empty. ground (arith, named, empty, eq_iff directory "");
                  project = project;
                  real_project = e;
                  real_workdir = f;
                  permitted = permitted;
                })
          ]
        ]
      ],
      λ p.
          let named : str_eq directory "" ≡ false = elim (Bool-cases (str_eq directory "")) [
            | inl e ↦ absurd (p.named ((eq_iff directory "").0 e))
            | inr n ↦ n
          ] in
          let decided =
            IsPermitted-decided action
              (evaluate host.matches config agent "external_directory" result)
              (leads_outside host (host.relative (worktree_boundary host p.project) result)) custom
              ask line result (str_append (forward_slashes (host.directory_name result)) "/*")
              (custom-IsPlain inherit_env env) p.permitted in
          ground (arith, named, p.real_project, p.real_workdir, decided),
    )
