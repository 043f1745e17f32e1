-- ===== src/Supervisor/Matching.antt =====
-- Where a wait for a literal finds it (src/daemon/supervisor.ts).
use Prim.Native.Char.{Char}
use Prim.Native.String.{◌++◌ as str_append}
use text.Mathlib.TextEquality.{Char-path}
use text.Mathlib.TextLemmas.{nil-append, cons-append}
use opencode_pty.Prelude.{
  ℕ, ◌+◌, ◌-◌, ◌≤◌, String, str_eq, true, false, none, some, leb, ◌≡◌, ◌⊎◌, inl, inr, refl, sym,
  ◌∙◌, ap, arith, Bool-cases,
}
use opencode_pty.Session.{SessionRecord}
use opencode_pty.Journal.Bytes.{byte_length, char_bytes}
use opencode_pty.Journal.Lines.{starts_with, text_includes, is_empty_text}
use opencode_pty.Supervisor.Waits.{
  WaitCondition, RegularExpressions, drop_bytes, scoped_output, matched_text, wait_match,
  output_match,
}

-- The literal stands somewhere in the text.
abbrev pub Within : String → String → Type 0
Within literal text = (u : String) × (v : String) × (text ≡ str_append u (str_append literal v))

pub starts_with-append : (literal v : String) → starts_with (str_append literal v) literal ≡ true
unfolding starts_with
starts_with-append String.[] v = refl
starts_with-append (String.◌∷◌ c s) v =
    rw (cons-append c s v) (ground (arith, starts_with-append s v))

prefix_rest :
    (literal text : String)
    → starts_with text literal ≡ true
    → (v : String) × (text ≡ str_append literal v)
unfolding starts_with
prefix_rest String.[] text h = (text, sym (nil-append text))
prefix_rest (String.◌∷◌ p ps) String.[] h = absurd (ground (arith, h))
prefix_rest (String.◌∷◌ p ps) (String.◌∷◌ c cs) h =
    let both : (p ≡ c) × (starts_with cs ps ≡ true) =
      (Char-path p c (ground (arith, h)), ground (arith, h)) in
    let (v, e) = prefix_rest ps cs both.1 in (v, rw (both.0, e) (sym (cons-append c ps v)))

empty_starts :
    (literal : String) → is_empty_text literal ≡ true → starts_with String.[] literal ≡ true
unfolding starts_with
empty_starts String.[] h = refl
empty_starts (String.◌∷◌ c s) h = ground (arith, h)

includes-Within : (text literal : String) → text_includes text literal ≡ true → Within literal text
unfolding text_includes
includes-Within String.[] literal h =
    let (v, e) = prefix_rest literal String.[] (empty_starts literal h) in
    ("", v, e ∙ sym (nil-append (str_append literal v)))
includes-Within (String.◌∷◌ c s) literal h =
    elim (Bool-cases (starts_with (String.◌∷◌ c s) literal)) [
      | inl y ↦
          let (v, e) = prefix_rest literal (String.◌∷◌ c s) y in
          ("", v, e ∙ sym (nil-append (str_append literal v)))
      | inr n ↦
          let (u, v, e) = includes-Within s literal (ground (arith, n, h)) in
          (String.◌∷◌ c u, v, ap (String.◌∷◌ c) e ∙ sym (cons-append c u (str_append literal v)))
    ]

includes_prefix :
    (text literal : String) → starts_with text literal ≡ true → text_includes text literal ≡ true
unfolding text_includes
includes_prefix String.[] String.[] h = refl
includes_prefix String.[] (String.◌∷◌ c s) h = unfold starts_with in ground (arith, h)
includes_prefix (String.◌∷◌ c s) literal h = rw h refl

Within-includes :
    (u literal v : String) → text_includes (str_append u (str_append literal v)) literal ≡ true
unfolding text_includes
Within-includes String.[] literal v =
    rw (nil-append (str_append literal v))
      (includes_prefix (str_append literal v) literal (starts_with-append literal v))
Within-includes (String.◌∷◌ c u) literal v =
    rw (cons-append c u (str_append literal v)) (ground (arith, Within-includes u literal v))

bytes-pos : (c : Char) → 1 ≤ char_bytes c
bytes-pos c = ground arith

drop_none : (text : String) → drop_bytes 0 text ≡ text
unfolding drop_bytes
drop_none String.[] = refl
drop_none (String.◌∷◌ c s) = refl

drop_bytes-append : (pre rest : String) → drop_bytes (byte_length pre) (str_append pre rest) ≡ rest
unfolding drop_bytes byte_length
drop_bytes-append String.[] rest = rw (nil-append rest) (drop_none rest)
drop_bytes-append (String.◌∷◌ c s) rest =
    let left : char_bytes c + byte_length s - char_bytes c ≡ byte_length s = omega arith in
    rw (cons-append c s rest, left) (ground (arith, bytes-pos c, drop_bytes-append s rest))

not-Within : (text literal : String) → text_includes text literal ≡ false → Within literal text → ⊥
not-Within text literal n (u, v, e) =
    ground (arith, n, ap (λ t. text_includes t literal) e, Within-includes u literal v)

-- A wait for a literal after the first bytes that the journal still has.
abbrev pub literal_after : SessionRecord → String → String → WaitCondition
literal_after r before literal = WaitCondition.output (record {
  literal = some literal;
  regex = none;
  after_sequence = some (r.first_retained_sequence + byte_length before);
})

no_bytes : (text : String) → byte_length text ≡ 0 → text ≡ ""
unfolding byte_length
no_bytes String.[] h = refl
no_bytes (String.◌∷◌ c s) h = absurd (omega (arith, bytes-pos c, h))

scoped :
    (first : ℕ) (before after : String)
    → scoped_output first (some (first + byte_length before)) (str_append before after) ≡ after
unfolding scoped_output
scoped first before after = elim (Bool-cases (leb (first + byte_length before) first)) [
  | inl same ↦ rw (same, no_bytes before (ground (arith, same))) (nil-append after)
  | inr more ↦
      let left : first + byte_length before - first ≡ byte_length before = omega arith in
      rw (more, left) (drop_bytes-append before after)
]

-- Where the text before the cursor ends with a whole character, a wait for a literal that is not empty
-- is matched, with that literal, exactly if the literal stands in the text after the cursor.
pub wait_match-Within :
    (re : RegularExpressions) (r : SessionRecord) (before after literal now : String)
    → str_eq literal "" ≡ false
    → ((wait_match re r (str_append before after) now (literal_after r before literal)
          ≡ some (output_match r now literal))
        × Within literal after)
      ⊎ ((wait_match re r (str_append before after) now (literal_after r before literal) ≡ none)
          × ¬ Within literal after)
unfolding wait_match scoped_output matched_text
wait_match-Within re r before after literal now filled =
    rw (scoped r.first_retained_sequence before after, filled)
      (elim (Bool-cases (text_includes after literal)) [
        | inl y ↦ inl (rw y refl, includes-Within after literal y)
        | inr n ↦ inr (rw n refl, λ w. not-Within after literal n w)
      ])
