-- ===== src/Permissions/Pattern.antt =====
-- What a pattern of src/plugin/pty/wildcard.ts matches, said without the algorithm.
use opencode_pty.Prelude.{
  ℕ, Bool, true, List, [], ◌∷◌, ◌++◌, ◌≡◌, ◌≢◌, ◌⊎◌, ◌↔◌, ◌==◌, ◌||◌, sym, refl, inl, inr, arith,
  Bool-cases,
}
use opencode_pty.Permissions.Wildcard.{
  space, same_units, omits_tail, normalize, match_units, star, question, some_suffix, one_unit,
  glob,
}

-- The pattern and the text part into pieces that match one by one.
pub data Matches : List ℕ → List ℕ → Type 0 where
  nothing : Matches [] []
  any_text :
      (skipped : List ℕ) {ps us : List ℕ} → Matches ps us → Matches (star ∷ ps) (skipped ++ us)
  any_unit : (u : ℕ) {ps us : List ℕ} → Matches ps us → Matches (question ∷ ps) (u ∷ us)
  literal : (p : ℕ) {ps us : List ℕ} → p ≢ star → Matches ps us → Matches (p ∷ ps) (p ∷ us)

suffix-skip :
    (test : List ℕ → Bool) (skipped us : List ℕ)
    → test us ≡ true
    → some_suffix test (skipped ++ us) ≡ true
unfolding some_suffix
suffix-skip test [] [] h = h
suffix-skip test [] (u ∷ us) h = ground (arith, h)
suffix-skip test (s ∷ skipped) us h = ground (arith, suffix-skip test skipped us h)

suffix-found :
    (test : List ℕ → Bool) (us : List ℕ)
    → some_suffix test us ≡ true
    → (skipped : List ℕ) × (rest : List ℕ) × (us ≡ skipped ++ rest) × (test rest ≡ true)
unfolding some_suffix
suffix-found test [] h = ([], [], refl, h)
suffix-found test (u ∷ us) h = elim (Bool-cases (test (u ∷ us))) [
  | inl t ↦ ([], u ∷ us, refl, t)
  | inr n ↦
      let (skipped, rest, e, t) = suffix-found test us (ground (arith, h, n)) in
      (u ∷ skipped, rest, ground (arith, e), t)
]

pub Matches-glob : {ps us : List ℕ} → Matches ps us → glob ps us ≡ true
unfolding glob
Matches-glob nothing = refl
Matches-glob (any_text skipped {ps = ps} {us = us} m) =
    suffix-skip (glob ps) skipped us (Matches-glob m)
Matches-glob (any_unit u m) = ground (arith, Matches-glob m)
Matches-glob (literal p n m) = ground (arith, n, Matches-glob m)

star-Matches :
    (p : ℕ) (ps us skipped rest : List ℕ)
    → p ≡ star
    → us ≡ skipped ++ rest
    → Matches ps rest
    → Matches (p ∷ ps) us
star-Matches p ps us skipped rest e f m = rw (e, f) (any_text skipped m)

unit-Matches :
    (p u : ℕ) (ps us : List ℕ)
    → p ≢ star
    → (p ≡ question) ⊎ (p ≡ u)
    → Matches ps us
    → Matches (p ∷ ps) (u ∷ us)
unit-Matches p u ps us n (inl e) m = rw e (any_unit u m)
unit-Matches p u ps us n (inr e) m = rw (sym e) (literal p n m)

unit-cases : (p u : ℕ) → ((p == question) || (p == u)) ≡ true → (p ≡ question) ⊎ (p ≡ u)
unit-cases p u h = elim (Bool-cases (p == question)) [
  | inl e ↦ inl (ground (arith, e))
  | inr n ↦ inr (ground (arith, n, h))
]

one-Matches :
    (p : ℕ) (ps us : List ℕ)
    → p ≢ star
    → one_unit p (glob ps) us ≡ true
    → ((rest : List ℕ) → glob ps rest ≡ true → Matches ps rest)
    → Matches (p ∷ ps) us
one-Matches p ps [] n h f = ground arith
one-Matches p ps (u ∷ us) n h f =
    unit-Matches p u ps us n (unit-cases p u (ground (arith, h))) (f us (ground (arith, h)))

glob-Matches : (ps us : List ℕ) → glob ps us ≡ true → Matches ps us
unfolding glob
glob-Matches [] [] h = nothing
glob-Matches [] (u ∷ us) h = ground arith
glob-Matches (p ∷ ps) us h = elim (Bool-cases (p == star)) [
  | inl e ↦
      let (skipped, rest, f, t) = suffix-found (glob ps) us (ground (arith, e, h)) in
      star-Matches p ps us skipped rest (ground (arith, e)) f (glob-Matches ps rest t)
  | inr n ↦ one-Matches p ps us (ground (arith, n)) (ground (arith, n, h)) (glob-Matches ps)
]

same_units_refl : (us : List ℕ) → same_units us us ≡ true
unfolding same_units
same_units_refl [] = refl
same_units_refl (u ∷ us) = ground (arith, same_units_refl us)

same_units-eq : (us vs : List ℕ) → same_units us vs ≡ true → us ≡ vs
unfolding same_units
same_units-eq [] [] h = refl
same_units-eq [] (v ∷ vs) h = ground arith
same_units-eq (u ∷ us) [] h = ground arith
same_units-eq (u ∷ us) (v ∷ vs) h = ground (arith, same_units-eq us vs)

-- What `match` accepts, of a normalized text and pattern: the text as the pattern's pieces say, or
-- the text that the pattern has before a last ` *`.
abbrev pub Accepts : List ℕ → List ℕ → Type 0
Accepts text pattern = (text ++ space ∷ star ∷ [] ≡ pattern) ⊎ Matches pattern text

accepted :
    (text pattern : List ℕ)
    → omits_tail text pattern || glob pattern text ≡ true
    → Accepts text pattern
unfolding omits_tail
accepted text pattern h = elim (Bool-cases (same_units (text ++ space ∷ star ∷ []) pattern)) [
  | inl e ↦ inl (same_units-eq (text ++ space ∷ star ∷ []) pattern e)
  | inr n ↦ inr (glob-Matches pattern text (ground (arith, n, h)))
]

omits-tail :
    (text pattern : List ℕ) → text ++ space ∷ star ∷ [] ≡ pattern → omits_tail text pattern ≡ true
unfolding omits_tail
omits-tail text pattern e = rw (sym e) (same_units_refl (text ++ space ∷ star ∷ []))

accepts :
    (text pattern : List ℕ)
    → Accepts text pattern
    → omits_tail text pattern || glob pattern text ≡ true
accepts text pattern (inl e) = ground (arith, omits-tail text pattern e)
accepts text pattern (inr m) = ground (arith, Matches-glob m)

-- `match` accepts a text exactly when the normalized pattern parts into literal units, `?` for one
-- unit each and `*` for any units each, that make up the normalized text, or the normalized pattern
-- is the normalized text with ` *` behind it.
pub match_units-Accepts :
    (lower : List ℕ → List ℕ) (win32 : Bool) (text pattern : List ℕ)
    → (match_units lower win32 text pattern ≡ true)
      ↔ Accepts (normalize lower win32 text) (normalize lower win32 pattern)
unfolding match_units
match_units-Accepts lower win32 text pattern =
    let text' = normalize lower win32 text in
    let pattern' = normalize lower win32 pattern in
    (
      (λ h. accepted text' pattern' (ground (arith, h))),
      (λ a. ground (arith, accepts text' pattern' a)),
    )
