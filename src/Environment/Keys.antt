-- ===== src/Environment/Keys.antt =====
-- The names of environment variables (src/daemon/supervisor.ts).
use Prim.Native.Char.{code}
use opencode_pty.Prelude.{
  String, str_eq, Bool, true, false, ◌&&◌, ◌||◌, Option, none, some, List, [], ◌∷◌, any, ◌==◌,
  if◌then◌else◌,
}
use opencode_pty.Journal.Lines.{starts_with, is_empty_text}

-- `toUpperCase` of a text, and the folding of the flag `i` of a regular expression, here to lower case.
pub record Casing : Type 0 where
  pub upper : String → String
  pub lower : String → String

abbrev pub safe_environment_keys : List String
safe_environment_keys =
    "PATH" ∷ "HOME" ∷ "USERPROFILE" ∷ "APPDATA" ∷ "LOCALAPPDATA" ∷ "SYSTEMROOT" ∷ "SYSTEMDRIVE"
    ∷ "WINDIR" ∷ "TEMP" ∷ "TMP" ∷ "TERM" ∷ "LANG" ∷ "ComSpec" ∷ "ProgramData" ∷ "ALLUSERSPROFILE"
    ∷ "PATHEXT" ∷ "PUBLIC" ∷ []

unfoldable pub is_path : Casing → Bool → String → Bool
is_path casing windows key = if windows then str_eq (casing.upper key) "PATH" else str_eq key "PATH"

unfoldable pub is_safe : Casing → Bool → String → Bool
is_safe casing windows key =
    if windows
    then any (λ safe. str_eq (casing.upper safe) (casing.upper key)) safe_environment_keys
    else any (λ safe. str_eq safe key) safe_environment_keys

-- `/^OPENCODE_PTY_NATIVE_WORKER_/`
abbrev pub is_worker_knob : String → Bool
is_worker_knob key = starts_with key "OPENCODE_PTY_NATIVE_WORKER_"

-- A regular expression as a list of pieces: a text, an optional one of some texts, and the two
-- groups `(?:^|[_-])` and `(?:$|[_-])`.
pub data Piece : Type 0 where
  word : String → Piece
  optional : List String → Piece
  edge_before edge_after : Piece

-- What is left of the text after a prefix.
unfoldable pub after_prefix : String → String → Option String
after_prefix s String.[] = some s
after_prefix String.[] (String.◌∷◌ c prefix) = none
after_prefix (String.◌∷◌ d s) (String.◌∷◌ c prefix) =
    let rest = after_prefix s prefix in if code d == code c then rest else none

-- One of the texts is taken, and the rest satisfies the test.
unfoldable pub takes_one : (String → Bool) → String → List String → Bool
unfolding after_prefix
takes_one test text [] = false
takes_one test text (w ∷ ws) = elim (after_prefix text w) [
  | none ↦ takes_one test text ws
  | some rest ↦ test rest || takes_one test text ws
]

abbrev separators : List String
separators = "_" ∷ "-" ∷ []

-- The pieces match from the text's beginning; `first` is whether that is the beginning of the name.
unfoldable pub matches_pieces : List Piece → Bool → String → Bool
unfolding takes_one
matches_pieces [] first text = true
matches_pieces (Piece.word w ∷ pieces) first text =
    takes_one (matches_pieces pieces false) text (w ∷ [])
matches_pieces (Piece.optional ws ∷ pieces) first text =
    takes_one (matches_pieces pieces false) text ws || matches_pieces pieces first text
matches_pieces (Piece.edge_before ∷ pieces) first text =
    takes_one (matches_pieces pieces false) text separators
    || (first && matches_pieces pieces first text)
matches_pieces (Piece.edge_after ∷ pieces) first text =
    takes_one (matches_pieces pieces false) text separators
    || (is_empty_text text && matches_pieces pieces first text)

unfoldable pub matches_somewhere : List Piece → Bool → String → Bool
unfolding matches_pieces
matches_somewhere pieces first String.[] = matches_pieces pieces first String.[]
matches_somewhere pieces first (String.◌∷◌ c s) =
    if matches_pieces pieces first (String.◌∷◌ c s) then true else matches_somewhere pieces false s

abbrev separator : Piece
separator = Piece.optional separators

abbrev sensitive_patterns : List (List Piece)
sensitive_patterns =
    (Piece.word "token" ∷ [])
    ∷ (Piece.word "secret" ∷ [])
    ∷ (Piece.word "password" ∷ [])
    ∷ (Piece.word "credential" ∷ [])
    ∷ (Piece.word "api" ∷ separator ∷ Piece.word "key" ∷ [])
    ∷ (Piece.word "auth" ∷ [])
    ∷ (Piece.word "cookie" ∷ [])
    ∷ (Piece.edge_before
        ∷ Piece.optional ("ssh" ∷ "tls" ∷ [])
        ∷ separator
        ∷ Piece.word "private"
        ∷ separator
        ∷ Piece.word "key"
        ∷ Piece.edge_after
        ∷ [])
    ∷ (Piece.edge_before
        ∷ Piece.word "signing"
        ∷ separator
        ∷ Piece.word "key"
        ∷ Piece.edge_after
        ∷ [])
    ∷ []

-- `SENSITIVE_ENVIRONMENT_KEY.test(key)`
unfoldable pub is_sensitive : Casing → String → Bool
unfolding matches_somewhere
is_sensitive casing key =
    any (λ pieces. matches_somewhere pieces true (casing.lower key)) sensitive_patterns
