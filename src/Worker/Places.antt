-- ===== src/Worker/Places.antt =====
-- Where a secret stands in a text (src/daemon/worker-client.ts).
use mathlib.Core.List.{append_assoc}
use opencode_pty.Prelude.{
  ℕ, zero, suc, ◌+◌, ◌-◌, ◌≤◌, ◌<◌, true, false, [], ◌∷◌, ◌++◌, length, take, drop, ◌≡◌, refl, sym,
  ap, ◌∙◌, inl, inr, arith, Bool-cases,
}
use opencode_pty.Worker.Redact.{Characters, redacted, begins_with, replace_secret}

pub begins_with-le : (text s : Characters) → begins_with text s ≡ true → length s ≤ length text
unfolding begins_with
begins_with-le text [] h = omega arith
begins_with-le [] (p ∷ ps) h = ground (arith, h)
begins_with-le (c ∷ cs) (p ∷ ps) h = ground (arith, h, begins_with-le cs ps)

pub begins_with-append :
    (text more s : Characters)
    → length s ≤ length text
    → begins_with (text ++ more) s ≡ begins_with text s
unfolding begins_with
begins_with-append text more [] h = refl
begins_with-append [] more (p ∷ ps) h = absurd (omega arith)
begins_with-append (c ∷ cs) more (p ∷ ps) h = ground (arith, h, begins_with-append cs more ps)

pub begins_with-take :
    (s text : Characters)
    → length s ≤ length text
    → begins_with s (take (length s) text) ≡ begins_with text s
unfolding begins_with
begins_with-take [] text h = refl
begins_with-take (p ∷ ps) [] h = absurd (omega arith)
begins_with-take (p ∷ ps) (c ∷ cs) h = ground (arith, h, begins_with-take ps cs)

pub begins_with-shorter :
    (text more s : Characters) → begins_with (text ++ more) s ≡ false → begins_with text s ≡ false
begins_with-shorter text more s h = elim (Bool-cases (begins_with text s)) [
  | inl e ↦ ground (arith, h, e, begins_with-append text more s, begins_with-le text s)
  | inr e ↦ e
]

-- The secret stands in the text from `p` on.
abbrev pub Stands : Characters → Characters → ℕ → Type 0
Stands text s p = begins_with (drop p text) s ≡ true

-- Replacing is done piece by piece where no occurrence that begins in the first piece ends after it.
pub replace_secret-append :
    (s : Characters) (skip : ℕ) (a b : Characters)
    → skip ≤ length a
    → ((p : ℕ) → p < length a → Stands (a ++ b) s p → p + length s ≤ length a)
    → replace_secret s skip (a ++ b) ≡ replace_secret s skip a ++ replace_secret s 0 b
unfolding replace_secret
replace_secret-append s zero [] b h inside = refl
replace_secret-append s (suc skip) [] b h inside = absurd (omega arith)
replace_secret-append s (suc skip) (c ∷ a) b h inside =
    replace_secret-append s skip a b (omega arith)
      (λ p l st. omega (arith, inside (suc p) (omega arith) st))
replace_secret-append s zero (c ∷ a) b h inside =
    let shifted : (p : ℕ) → p < length a → Stands (a ++ b) s p → p + length s ≤ length a =
      λ p l st. omega (arith, inside (suc p) (omega arith) st) in
    elim (Bool-cases (begins_with (c ∷ a ++ b) s)) [
      | inl e ↦
          let fits : length s ≤ suc (length a) = omega (arith, inside 0 (omega arith) e) in
          let here : begins_with (c ∷ a) s ≡ true = sym (begins_with-append (c ∷ a) b s fits) ∙ e in
          rw (e, here)
            (ap (λ l. redacted ++ l)
                (replace_secret-append s (length s - 1) a b (omega arith) shifted)
              ∙ sym (
                  append_assoc redacted (replace_secret s (length s - 1) a) (replace_secret s 0 b)))
      | inr e ↦
          rw (e, begins_with-shorter (c ∷ a) b s e)
            (ap (λ l. c ∷ l) (replace_secret-append s 0 a b (omega arith) shifted))
    ]

-- The places where the secret stands do not overlap.
abbrev pub Separate : Characters → Characters → Type 0
Separate s text = (p q : ℕ) → p < q → Stands text s p → Stands text s q → p + length s ≤ q
