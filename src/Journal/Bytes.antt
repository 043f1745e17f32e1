-- ===== src/Journal/Bytes.antt =====
-- `Buffer.byteLength` of a text: its length in UTF-8.
use Prim.Native.Char.{Char, code}
use Prim.Native.String.{◌++◌ as str_append}
use text.Mathlib.TextLemmas.{nil-append, cons-append}
use opencode_pty.Prelude.{ℕ, ◌+◌, String, ◌≡◌, ltb, if◌then◌else◌, arith}

abbrev pub char_bytes : Char → ℕ
char_bytes c =
    if ltb (code c) 0x80
    then 1
    else if ltb (code c) 0x800
    then 2
    else if ltb (code c) 0x10000
    then 3
    else 4

unfoldable pub byte_length : String → ℕ
byte_length String.[] = 0
byte_length (String.◌∷◌ c s) = char_bytes c + byte_length s

pub byte_length-append :
    (s t : String) → byte_length (str_append s t) ≡ byte_length s + byte_length t
unfolding byte_length
byte_length-append String.[] t = ground (arith, nil-append t)
byte_length-append (String.◌∷◌ c s) t = ground (arith, cons-append c s t, byte_length-append s t)
