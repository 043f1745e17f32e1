-- ===== src/Environment/Trusted.antt =====
-- What a command can find in its environment (src/daemon/supervisor.ts).
use Prim.Native.String.{◌++◌ as str_append}
use opencode_pty.Prelude.{String, Bool, true, false, [], ◌∷◌, ◌++◌, keep, ◌≡◌, ◌≢◌, ◌⊎◌}
use opencode_pty.Journal.Lines.{starts_with}
use opencode_pty.Environment.Keys.{Casing, is_path, is_safe}
use opencode_pty.Environment.Runtime.{Variables, base_entries, is_kept}

-- The entry stands in the list.
abbrev pub Entry : String → String → Variables → Type 0
Entry key value [] = ⊥
Entry key value ((k, v) ∷ rest) = ((k ≡ key) × (v ≡ value)) ⊎ Entry key value rest

module _ (casing : Casing) (windows inherit : Bool) (source requested : Variables) where
  -- Where a variable that is not the path may come from.
  pub record IsGiven (key value : String) : Type 0 where
    pub not_path : is_path casing windows key ≡ false
    pub not_knob : (rest : String) → key ≢ str_append "OPENCODE_PTY_NATIVE_WORKER_" rest
    pub origin :
        Entry key value requested
        ⊎ Entry key value source
          × ((inherit ≡ true)
              ⊎ (is_safe casing windows key ≡ true)
              ⊎ (starts_with key "LC_" ≡ true))

  abbrev kept_entries : Variables
  kept_entries =
      keep (is_kept casing windows) (base_entries casing windows inherit source ++ requested)
