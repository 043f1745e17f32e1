-- ===== src/Rpc/Ensures.antt =====
-- What holds of a value that a handler of src/daemon/server.ts answers, if it answers one.
use opencode_pty.Prelude.{Bool, true, false, if◌then◌else◌, ◌≡◌, refl, arith}
use opencode_pty.Rpc.Result.{Result, ok, err, FailureCode, ◌>>=◌, ◌>>◌, throw_unless}

pub data Ensures {A : Type 0} (P : A → Type 0) : Result A → Type 0 where
  refused : {code : FailureCode} → Ensures P (err code)
  answered : {a : A} → P a → Ensures P (ok a)

module _ {A : Type 0} {P : A → Type 0} where
  pub bind-Ensures :
      {B : Type 0} (r : Result B) (next : B → Result A)
      → ((b : B) → r ≡ ok b → Ensures P (next b))
      → Ensures P (r >>= next)
  bind-Ensures (err code) next h = Ensures.refused
  bind-Ensures (ok b) next h = h b refl

  pub then-Ensures :
      (r : Result (Unit {0})) (next : Result A)
      → (r ≡ ok tt → Ensures P next)
      → Ensures P (r >> next)
  then-Ensures (err code) next h = Ensures.refused
  then-Ensures (ok _) next h = h refl

  pub throw_unless-Ensures :
      (code : FailureCode) (test : Bool) (next : Result A)
      → (test ≡ true → Ensures P next)
      → Ensures P (throw_unless code test >> next)
  throw_unless-Ensures code false next h = Ensures.refused
  throw_unless-Ensures code true next h = h refl

  pub if-Ensures :
      (test : Bool) (r s : Result A)
      → (test ≡ true → Ensures P r)
      → (test ≡ false → Ensures P s)
      → Ensures P (if test then r else s)
  if-Ensures true r s h k = h refl
  if-Ensures false r s h k = k refl

  pub map-Ensures :
      {Q : A → Type 0} {r : Result A} → Ensures Q r → ((a : A) → Q a → P a) → Ensures P r
  map-Ensures Ensures.refused h = Ensures.refused
  map-Ensures (Ensures.answered {a = a} q) h = Ensures.answered (h a q)

  -- What the first step ensures is known in the second.
  pub Ensures-bind :
      {B : Type 0} {Q : B → Type 0} {r : Result B} {next : B → Result A}
      → Ensures Q r
      → ((b : B) → Q b → Ensures P (next b))
      → Ensures P (r >>= next)
  Ensures-bind Ensures.refused h = Ensures.refused
  Ensures-bind (Ensures.answered {a = b} q) h = h b q

  pub ok-Ensures : (r : Result A) → ((a : A) → r ≡ ok a → P a) → Ensures P r
  ok-Ensures (err code) h = Ensures.refused
  ok-Ensures (ok a) h = Ensures.answered (h a refl)

  pub Ensures-ok : {r : Result A} (a : A) → Ensures P r → r ≡ ok a → P a
  Ensures-ok a Ensures.refused e = ground (arith, e)
  Ensures-ok a (Ensures.answered {a = b} h) e = let same : a ≡ b = ground (arith, e) in rw same h

infixr 3 ◌<|>◌
-- Both branches: the test comes with what holds where it is true.
pub ◌<|>◌ :
    {A : Type 0} {P : A → Type 0} {r s : Result A} (branch : Bool × Ensures P r)
    → Ensures P s
    → Ensures P (if branch.0 then r else s)
(true, h) <|> k = h
(false, h) <|> k = k
