-- ===== src/Journal/Located.antt =====
-- Where the numbered lines of src/daemon/journal-reader.ts stand in the output.
use Prim.Native.Char.{Char}
use Prim.Native.String.{◌++◌ as str_append}
use text.Mathlib.TextLemmas.{nil-append, cons-append, append-nil, append_assoc}
use opencode_pty.Prelude.{
  ℕ, zero, suc, ◌+◌, ◌-◌, ◌<◌, String, Bool, true, List, [], ◌∷◌, All, take, length, keep, ltb, ◌≡◌,
  refl, arith, inl, inr, Bool-cases, if◌then◌else◌,
}
use opencode_pty.Journal.Bytes.{byte_length, byte_length-append}
use opencode_pty.Journal.Lines.{
  is_newline, onto_first, split_lines, ends_with_newline, is_empty_text, Line, number_lines,
  output_lines, search_lines, line_matches,
}

-- The parts are those of the text between its newlines.
abbrev pub Joined : List String → String → Type 0
Joined [] s = ⊥
Joined (part ∷ []) s = s ≡ part
Joined (part ∷ next ∷ parts) s =
    (newline : Char) × (rest : String) × (s ≡ str_append part (String.◌∷◌ newline rest))
    × (is_newline newline ≡ true)
    × Joined (next ∷ parts) rest

newline-Joined :
    (c : Char) (parts : List String) (s : String)
    → is_newline c ≡ true
    → Joined parts s
    → Joined ("" ∷ parts) (String.◌∷◌ c s)
newline-Joined c [] s n h = elim h [ ]
newline-Joined c (p ∷ parts) s n h = (c, s, ground (arith, nil-append (String.◌∷◌ c s)), n, h)

onto_first-Joined :
    (c : Char) (parts : List String) (s : String)
    → Joined parts s
    → Joined (onto_first c parts) (String.◌∷◌ c s)
onto_first-Joined c [] s h = elim h [ ]
onto_first-Joined c (p ∷ []) s h = ground arith
onto_first-Joined c (p ∷ q ∷ parts) s (newline, rest, e, n, h) =
    (newline, rest, ground (arith, e, cons-append c p (String.◌∷◌ newline rest)), n, h)

pub split-Joined : (s : String) → Joined (split_lines s) s
unfolding split_lines
split-Joined String.[] = refl
split-Joined (String.◌∷◌ c s) = elim (Bool-cases (is_newline c)) [
  | inl n ↦ ground (arith, n, newline-Joined c (split_lines s) s n (split-Joined s))
  | inr n ↦ ground (arith, n, onto_first-Joined c (split_lines s) s (split-Joined s))
]

-- The line's text stands in the output, behind as many bytes as its sequence is past the first.
abbrev pub Located : String → ℕ → Line → Type 0
Located output first line =
    (before : String) × (after : String) × (output ≡ str_append before (str_append line.text after))
    × (line.sequence ≡ first + byte_length before)

newline_bytes : (c : Char) → is_newline c ≡ true → byte_length (String.◌∷◌ c "") ≡ 1
unfolding byte_length
newline_bytes c n = ground arith

number_lines-none :
    (output : String) (first k last index sequence : ℕ)
    → All (Located output first) (number_lines last index sequence (take k []))
unfolding number_lines
number_lines-none output first zero last index sequence = tt
number_lines-none output first (suc k) last index sequence = tt

number_lines-Located :
    (output : String) (first k last index sequence : ℕ) (parts : List String) (before s : String)
    → Joined parts s
    → index + length parts ≡ last + 1
    → output ≡ str_append before s
    → sequence ≡ first + byte_length before
    → All (Located output first) (number_lines last index sequence (take k parts))
unfolding number_lines
number_lines-Located output first zero last index sequence parts before s j l o q = tt
number_lines-Located output first (suc k) last index sequence [] before s j l o q = elim j [ ]
number_lines-Located output first (suc k) last index sequence (p ∷ []) before s j l o q = (
  (before, "", ground (arith, o, j, append-nil p), q),
  number_lines-none output first k last (index + 1)
      (sequence + byte_length p + (if ltb index last then 1 else 0)),
)
number_lines-Located output first (suc k) last index sequence (p ∷ p' ∷ parts) before s
      (newline, rest, e, n, h) l o q =
    let nl = String.◌∷◌ newline "" in
    (
      (before, String.◌∷◌ newline rest, ground (arith, o, e), q),
      number_lines-Located output first k last (index + 1) _ (p' ∷ parts)
          (str_append before (str_append p nl)) rest h (ground arith)
          (ground (
            arith,
            o,
            e,
            append_assoc before (str_append p nl) rest,
            append_assoc p nl rest,
            cons-append newline "" rest,
            nil-append rest,
          ))
          (ground (
            arith,
            q,
            newline_bytes newline n,
            byte_length-append before (str_append p nl),
            byte_length-append p nl,
            l,
          )),
    )

pub Joined-length : (parts : List String) (s : String) → Joined parts s → 0 < length parts
Joined-length [] s j = elim j [ ]
Joined-length (p ∷ parts) s j = ground arith

Located-part :
    (output : String) (first k : ℕ)
    → All
        (Located output first)
        (number_lines (length (split_lines output) - 1) 0 first (take k (split_lines output)))
unfolding byte_length
Located-part output first k =
    number_lines-Located output first k (length (split_lines output) - 1) 0 first
      (split_lines output) "" output (split-Joined output)
      (ground (arith, Joined-length (split_lines output) output (split-Joined output)))
      (ground (arith, nil-append output)) (ground arith)

-- Every line that `outputLines` gives stands in the output at its sequence: the text before it has
-- as many bytes as the line's sequence is past the first retained one.
pub output_lines-Located :
    (output : String) (first : ℕ) → All (Located output first) (output_lines output first)
unfolding output_lines
output_lines-Located output first = elim (Bool-cases (is_empty_text output)) [
  | inl e ↦ ground (arith, e)
  | inr n ↦ ground (
    arith,
    n,
    Located-part output first (
        if ends_with_newline output
        then length (split_lines output) - 1
        else length (split_lines output)),
  )
]

keep-both :
    {A : Type 0}
    → (P : A → Type 0) (test : A → Bool) (xs : List A) → All P xs
    → All (λ x. P x × (test x ≡ true)) (keep test xs)
unfolding keep
keep-both P test [] h = tt
keep-both P test (x ∷ xs) h = ground (arith, keep-both P test xs h.1)

-- Every match of `searchLines` stands in the output at its sequence, and its text is not empty and
-- includes the pattern, both in lower case if the case is ignored.
pub search_lines-Located :
    (lower : String → String) (output pattern : String) (ignore_case : Bool) (first : ℕ)
    → All
        (λ line. Located output first line × (line_matches lower pattern ignore_case line ≡ true))
        (search_lines lower output pattern ignore_case first)
unfolding search_lines
search_lines-Located lower output pattern ignore_case first =
    keep-both (Located output first) (line_matches lower pattern ignore_case)
      (output_lines output first) (output_lines-Located output first)
