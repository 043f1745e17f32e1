-- ===== src/Journal/LineCount.antt =====
-- `lineCount` and `outputLines` of src/daemon/journal-reader.ts agree on the number of lines.
use Prim.Native.Char.{Char}
use opencode_pty.Prelude.{
  ℕ, zero, suc, ◌+◌, ◌-◌, ◌≤◌, String, false, List, [], ◌∷◌, take, length, ltb, ◌≡◌, refl, arith,
  inl, inr, Bool-cases, if◌then◌else◌,
}
use opencode_pty.Journal.Lines.{
  is_newline, onto_first, split_lines, ends_with_newline, is_empty_text, last_is_empty, line_count,
  number_lines, output_lines,
}
use opencode_pty.Journal.Bytes.{byte_length}
use opencode_pty.Journal.Located.{Joined, split-Joined}

onto_first-last :
    (c : Char) (d : Char) (s : String) (parts : List String)
    → Joined parts (String.◌∷◌ d s)
    → last_is_empty (onto_first c parts) ≡ last_is_empty parts
onto_first-last c d s [] j = elim j [ ]
onto_first-last c d s (p ∷ []) j = ground (arith, j)
onto_first-last c d s (p ∷ q ∷ parts) j = refl

newline-last :
    (s : String) (parts : List String)
    → Joined parts s
    → last_is_empty ("" ∷ parts) ≡ last_is_empty parts
newline-last s [] j = elim j [ ]
newline-last s (p ∷ parts) j = refl

split-cons :
    (c : Char) (s : String)
    → split_lines (String.◌∷◌ c s)
      ≡ (if is_newline c then "" ∷ split_lines s else onto_first c (split_lines s))
unfolding split_lines
split-cons c s = refl

split-empty : split_lines "" ≡ "" ∷ []
unfolding split_lines
split-empty = refl

pub split-last :
    (output : String)
    → is_empty_text output ≡ false
    → last_is_empty (split_lines output) ≡ ends_with_newline output
unfolding ends_with_newline
split-last String.[] e = ground arith
split-last (String.◌∷◌ c String.[]) e = ground (arith, split-cons c "", split-empty)
split-last (String.◌∷◌ c (String.◌∷◌ d s)) e =
    let j = split-Joined (String.◌∷◌ d s) in
    ground (
      arith,
      split-cons c (String.◌∷◌ d s),
      split-last (String.◌∷◌ d s) refl,
      newline-last (String.◌∷◌ d s) (split_lines (String.◌∷◌ d s)) j,
      onto_first-last c d s (split_lines (String.◌∷◌ d s)) j,
    )

length-number_lines :
    (last index sequence : ℕ) (parts : List String)
    → length (number_lines last index sequence parts) ≡ length parts
unfolding number_lines
length-number_lines last index sequence [] = refl
length-number_lines last index sequence (p ∷ parts) = ground (
  arith,
  length-number_lines last (index + 1)
      (sequence + byte_length p + (if ltb index last then 1 else 0)) parts,
)

length-take {ℓ} : {A : Type ℓ} → (k : ℕ) (xs : List A) → k ≤ length xs → length (take k xs) ≡ k
length-take zero xs h = refl
length-take (suc k) [] h = ground arith
length-take (suc k) (x ∷ xs) h = ground (arith, length-take k xs)

count-lines :
    (output : String) (first k : ℕ)
    → k ≤ length (split_lines output)
    → length (number_lines (length (split_lines output) - 1) 0 first (take k (split_lines output)))
      ≡ k
count-lines output first k h = ground (
  arith,
  length-number_lines (length (split_lines output) - 1) 0 first (take k (split_lines output)),
  length-take k (split_lines output) h,
)

-- `lineCount` of an output is the number of lines that `outputLines` gives.
pub length-output_lines :
    (output : String) (first : ℕ) → length (output_lines output first) ≡ line_count output
unfolding output_lines line_count
length-output_lines output first = elim (Bool-cases (is_empty_text output)) [
  | inl e ↦ ground (arith, e)
  | inr n ↦ elim (Bool-cases (ends_with_newline output)) [
    | inl w ↦ ground (
      arith,
      n,
      w,
      split-last output n,
      count-lines output first (length (split_lines output) - 1),
    )
    | inr w ↦
        ground
          (arith, n, w, split-last output n, count-lines output first (length (split_lines output)))
  ]
]
