-- ===== src/Environment/Examples.antt =====
-- The environment of a command (src/daemon/supervisor.ts) at a few variables.
use opencode_pty.Prelude.{true, false, some, [], ◌∷◌, keep, any, ◌≡◌, refl}
use opencode_pty.Journal.Bytes.{byte_length}
use opencode_pty.Journal.Lines.{starts_with}
use opencode_pty.Environment.Keys.{Casing, is_path, is_sensitive}
use opencode_pty.Environment.Runtime.{
  Variables, put, from_entries, trusted_path, base_entries, composed, runtime_environment,
}

-- Letters as they are.
abbrev as_written : Casing
as_written = record { upper = λ text. text; lower = λ text. text }

abbrev source : Variables
source = ("PATH", "/bin") ∷ ("HOME", "/root") ∷ ("EDITOR", "vi") ∷ []

abbrev requested : Variables
requested = ("PATH", "/tmp") ∷ ("api_key", "abcd") ∷ ("OPENCODE_PTY_NATIVE_WORKER_X", "1") ∷ []

abbrev given : Variables
given = ("HOME", "/root") ∷ ("api_key", "abcd") ∷ ("PATH", "/bin") ∷ []

-- The names of the variables that are sensitive.
sensitive_names :
    (is_sensitive as_written "my_api-key" ≡ true)
    × (is_sensitive as_written "sshprivatekey" ≡ true)
    × (is_sensitive as_written "xprivatekey" ≡ false)
    × (is_sensitive as_written "keyboard" ≡ false)
unfolding is_sensitive any
sensitive_names = (refl, refl, refl, refl)

-- On Windows, where names do not differ by case, a knob in small letters is given to the command.
small_knob :
    runtime_environment as_written true false [] (("opencode_pty_native_worker_x", "1") ∷ [])
    ≡ some (("opencode_pty_native_worker_x", "1") ∷ [])
unfolding runtime_environment composed base_entries from_entries put trusted_path is_path
    is_sensitive keep any starts_with byte_length
small_knob = refl
