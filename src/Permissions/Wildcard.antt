-- ===== src/Permissions/Wildcard.antt =====
-- `match` of src/plugin/pty/wildcard.ts, over UTF-16 code units, as its regular expression reads
-- texts. `lower` is `toLowerCase`; `win32` is `platform === 'win32'`.
use Prim.Native.Char.{code}
use Prim.Native.Nat.{◌/◌, ◌%◌}
use opencode_pty.Prelude.{
  ℕ, ◌+◌, ◌-◌, String, Bool, true, false, ◌&&◌, ◌||◌, List, [], ◌∷◌, ◌++◌, ltb, ◌==◌, if◌then◌else◌,
}

-- The code units of a character.
abbrev pub char_units : ℕ → List ℕ
char_units n =
    if ltb n 0x10000
    then n ∷ []
    else (0xd800 + (n - 0x10000) / 0x400) ∷ (0xdc00 + (n - 0x10000) % 0x400) ∷ []

unfoldable pub units : String → List ℕ
units String.[] = []
units (String.◌∷◌ c s) = char_units (code c) ++ units s

abbrev pub slash : ℕ
slash = 47

abbrev pub backslash : ℕ
backslash = 92

abbrev pub star : ℕ
star = 42

abbrev pub question : ℕ
question = 63

abbrev pub space : ℕ
space = 32

-- `value.replace(/\\/g, '/')`
unfoldable pub with_slashes : List ℕ → List ℕ
with_slashes [] = []
with_slashes (u ∷ us) = (if u == backslash then slash else u) ∷ with_slashes us

-- A test of some suffix: what `.*` leaves.
unfoldable pub some_suffix : (List ℕ → Bool) → List ℕ → Bool
some_suffix test [] = test []
some_suffix test (u ∷ us) = if test (u ∷ us) then true else some_suffix test us

-- One unit, `?` for any.
abbrev pub one_unit : ℕ → (List ℕ → Bool) → List ℕ → Bool
one_unit p test [] = false
one_unit p test (u ∷ us) = ((p == question) || (p == u)) && test us

-- The test of the regular expression that is made of the pattern: `*` is `.*`, `?` is `.`, and every
-- other unit stands for itself.
unfoldable pub glob : List ℕ → List ℕ → Bool
glob [] [] = true
glob [] (u ∷ us) = false
glob (p ∷ ps) us = if p == star then some_suffix (glob ps) us else one_unit p (glob ps) us

unfoldable pub same_units : List ℕ → List ℕ → Bool
same_units [] [] = true
same_units [] (v ∷ vs) = false
same_units (u ∷ us) [] = false
same_units (u ∷ us) (v ∷ vs) = (u == v) && same_units us vs

-- `pattern.endsWith(' *') && str === pattern.slice(0, -2)`
unfoldable pub omits_tail : List ℕ → List ℕ → Bool
omits_tail text pattern = same_units (text ++ space ∷ star ∷ []) pattern

abbrev pub normalize : (List ℕ → List ℕ) → Bool → List ℕ → List ℕ
normalize lower true value = lower (with_slashes value)
normalize lower false value = with_slashes value

unfoldable pub match_units : (List ℕ → List ℕ) → Bool → List ℕ → List ℕ → Bool
match_units lower win32 text pattern =
    let text' = normalize lower win32 text in
    let pattern' = normalize lower win32 pattern in
    if omits_tail text' pattern' then true else glob pattern' text'
