-- ===== src/Rpc/Numbers.antt =====
-- The readers of bounded_integer_in numbers of `DaemonServer` (src/daemon/server.ts).
use opencode_pty.Prelude.{ℕ, String, ◌||◌, Option, none, some, ltb, if◌then◌else◌}
use opencode_pty.Rpc.Result.{Result, ok, err, FailureCode}
use opencode_pty.Rpc.Payload.{Json, Fields, get_field}

-- `Number.MAX_SAFE_INTEGER`
abbrev pub max_safe_integer : ℕ
max_safe_integer = 9007199254740991

abbrev bounded_integer_in : ℕ → ℕ → Result ℕ
bounded_integer_in maximum n =
    if ltb max_safe_integer n || ltb maximum n then err FailureCode.validation else ok n

abbrev pub one_or_more : ℕ → Option Json → Result ℕ
one_or_more maximum (some (Json.natural n)) =
    if ltb n 1 then err FailureCode.validation else bounded_integer_in maximum n
one_or_more maximum _ = err FailureCode.validation

unfoldable pub required_bounded_integer : Fields → String → ℕ → Result ℕ
required_bounded_integer payload key maximum = one_or_more maximum (get_field payload key)

abbrev bounded_option : ℕ → Option Json → Result (Option ℕ)
bounded_option maximum none = ok none
bounded_option maximum (some (Json.natural n)) =
    if ltb max_safe_integer n || ltb maximum n then err FailureCode.validation else ok (some n)
bounded_option maximum (some _) = err FailureCode.validation

unfoldable pub optional_bounded_integer : Fields → String → ℕ → Result (Option ℕ)
optional_bounded_integer payload key maximum = bounded_option maximum (get_field payload key)

abbrev safe_option : Option Json → Result (Option ℕ)
safe_option none = ok none
safe_option (some (Json.natural n)) =
    if ltb max_safe_integer n then err FailureCode.validation else ok (some n)
safe_option (some _) = err FailureCode.validation

unfoldable pub optional_sequence : Fields → String → Result (Option ℕ)
optional_sequence payload key = safe_option (get_field payload key)
