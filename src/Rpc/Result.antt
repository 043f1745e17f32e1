-- ===== src/Rpc/Result.antt =====
-- A handler's result: a value, or an error by its RPC code. The texts of the errors are left out.
use opencode_pty.Prelude.{Bool, true, false}

-- The codes of `RpcFailure` (src/daemon/types.ts).
pub data FailureCode : Type 0 where
  authentication validation not_found session_closed process storage : FailureCode
  internal protocol authorization limit : FailureCode

-- An answer, or the code of the error that was thrown.
pub data Result (Answer : Type 0) : Type 0 where
  err : FailureCode → Result Answer
  ok : Answer → Result Answer

-- `if (!test) throw` an error with the code.
abbrev pub throw_unless : FailureCode → Bool → Result (Unit {0})
throw_unless code test = elim test [ false ↦ err code | true ↦ ok tt ]

infixl 5 ◌>>=◌ ◌>>◌
abbrev pub ◌>>=◌ : {A B : Type 0} → Result A → (A → Result B) → Result B
err code >>= next = err code
ok answer >>= next = next answer

-- What follows a check.
abbrev pub ◌>>◌ : {B : Type 0} → Result (Unit {0}) → Result B → Result B
err code >> next = err code
ok _ >> next = next
