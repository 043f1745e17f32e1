-- ===== src/Text/Reading.antt =====
-- What an XML reader gets from the text that `escapeXml` of src/plugin/pty/xml.ts prints.
use opencode_pty.Prelude.{
  ℕ, Bool, true, false, ◌||◌, List, [], ◌∷◌, ◌++◌, ◌==◌, ◌≡◌, refl, ap, arith, inl, inr, Bool-cases,
}
use opencode_pty.Text.Xml.{
  is_xml_character, sanitized_character, sanitized, replace_all, amp, lt, gt, quot, apos,
  escape_markup, escape_xml,
}

abbrev is_markup : ℕ → Bool
is_markup n = (n == 38) || ((n == 60) || ((n == 62) || ((n == 34) || (n == 39))))

-- A text of character data and attribute values, and what it stands for.
pub data Reads : List ℕ → List ℕ → Type 0 where
  end : Reads [] []
  plain :
      (n : ℕ) (out text : List ℕ)
      → is_markup n ≡ false
      → is_xml_character n ≡ true
      → Reads out text
      → Reads (n ∷ out) (n ∷ text)
  amp_entity : (out text : List ℕ) → Reads out text → Reads (amp ++ out) (38 ∷ text)
  lt_entity : (out text : List ℕ) → Reads out text → Reads (lt ++ out) (60 ∷ text)
  gt_entity : (out text : List ℕ) → Reads out text → Reads (gt ++ out) (62 ∷ text)
  quot_entity : (out text : List ℕ) → Reads out text → Reads (quot ++ out) (34 ∷ text)
  apos_entity : (out text : List ℕ) → Reads out text → Reads (apos ++ out) (39 ∷ text)

number_equal : (n k : ℕ) → (n == k) ≡ true → n ≡ k
number_equal n k e = ground (arith, e)

escape_plain :
    (n : ℕ) (text : List ℕ)
    → is_markup n ≡ false
    → escape_markup (n ∷ text) ≡ n ∷ escape_markup text
unfolding escape_markup replace_all
escape_plain n text p = ground (arith, p)

-- `Reads` at a number that a test finds equal to `k`.
Reads-equal :
    (k n : ℕ) (text : List ℕ)
    → (n == k) ≡ true
    → Reads (escape_markup (k ∷ text)) (k ∷ text)
    → Reads (escape_markup (n ∷ text)) (n ∷ text)
Reads-equal k n text e r = rw (number_equal n k e) r

escape_markup-Reads :
    (n : ℕ) (text : List ℕ)
    → is_xml_character n ≡ true
    → Reads (escape_markup text) text
    → Reads (escape_markup (n ∷ text)) (n ∷ text)
unfolding escape_markup replace_all
escape_markup-Reads n text x r = elim (Bool-cases (n == 38)) [
  | inl e ↦ Reads-equal 38 n text e (Reads.amp_entity (escape_markup text) text r)
  | inr a ↦ elim (Bool-cases (n == 60)) [
    | inl e ↦ Reads-equal 60 n text e (Reads.lt_entity (escape_markup text) text r)
    | inr b ↦ elim (Bool-cases (n == 62)) [
      | inl e ↦ Reads-equal 62 n text e (Reads.gt_entity (escape_markup text) text r)
      | inr c ↦ elim (Bool-cases (n == 34)) [
        | inl e ↦ Reads-equal 34 n text e (Reads.quot_entity (escape_markup text) text r)
        | inr d ↦ elim (Bool-cases (n == 39)) [
          | inl e ↦ Reads-equal 39 n text e (Reads.apos_entity (escape_markup text) text r)
          | inr f ↦
              let p : is_markup n ≡ false = ground (arith, a, b, c, d, f) in
              rw (escape_plain n text p) (Reads.plain n (escape_markup text) text p x r)
        ]
      ]
    ]
  ]
]

sanitized_character_lem : (n : ℕ) → is_xml_character (sanitized_character n) ≡ true
unfolding is_xml_character
sanitized_character_lem n = ground arith

pub Reads-unique : (out a b : List ℕ) → Reads out a → Reads out b → a ≡ b
Reads-unique _ _ _ Reads.end Reads.end = refl
Reads-unique _ _ _ (Reads.plain n o t m x r) (Reads.plain _ _ t' m' x' r') =
    ap (λ l. n ∷ l) (Reads-unique o t t' r r')
Reads-unique _ _ _ (Reads.plain _ _ t m x r) (Reads.amp_entity o t' r') = ground (arith, m)
Reads-unique _ _ _ (Reads.plain _ _ t m x r) (Reads.lt_entity o t' r') = ground (arith, m)
Reads-unique _ _ _ (Reads.plain _ _ t m x r) (Reads.gt_entity o t' r') = ground (arith, m)
Reads-unique _ _ _ (Reads.plain _ _ t m x r) (Reads.quot_entity o t' r') = ground (arith, m)
Reads-unique _ _ _ (Reads.plain _ _ t m x r) (Reads.apos_entity o t' r') = ground (arith, m)
Reads-unique _ _ _ (Reads.amp_entity o t r) (Reads.plain _ _ t' m x r') = ground (arith, m)
Reads-unique _ _ _ (Reads.amp_entity o t r) (Reads.amp_entity _ t' r') =
    ap (λ l. 38 ∷ l) (Reads-unique o t t' r r')
Reads-unique _ _ _ (Reads.lt_entity o t r) (Reads.plain _ _ t' m x r') = ground (arith, m)
Reads-unique _ _ _ (Reads.lt_entity o t r) (Reads.lt_entity _ t' r') =
    ap (λ l. 60 ∷ l) (Reads-unique o t t' r r')
Reads-unique _ _ _ (Reads.gt_entity o t r) (Reads.plain _ _ t' m x r') = ground (arith, m)
Reads-unique _ _ _ (Reads.gt_entity o t r) (Reads.gt_entity _ t' r') =
    ap (λ l. 62 ∷ l) (Reads-unique o t t' r r')
Reads-unique _ _ _ (Reads.quot_entity o t r) (Reads.plain _ _ t' m x r') = ground (arith, m)
Reads-unique _ _ _ (Reads.quot_entity o t r) (Reads.quot_entity _ t' r') =
    ap (λ l. 34 ∷ l) (Reads-unique o t t' r r')
Reads-unique _ _ _ (Reads.apos_entity o t r) (Reads.plain _ _ t' m x r') = ground (arith, m)
Reads-unique _ _ _ (Reads.apos_entity o t r) (Reads.apos_entity _ t' r') =
    ap (λ l. 39 ∷ l) (Reads-unique o t t' r r')

escaped-Reads : (value : List ℕ) → Reads (escape_xml value) (sanitized value)
unfolding escape_xml escape_markup replace_all sanitized
escaped-Reads [] = Reads.end
escaped-Reads (n ∷ ns) =
    escape_markup-Reads (sanitized_character n) (sanitized ns) (sanitized_character_lem n)
      (escaped-Reads ns)

-- The printed text, in which no character of the five is left as it is, stands for the characters of
-- the value, with U+FFFD for those that XML does not allow, and for nothing else.
pub escape_xml-Reads :
    (value : List ℕ)
    → Reads (escape_xml value) (sanitized value)
      × ((text : List ℕ) → Reads (escape_xml value) text → text ≡ sanitized value)
escape_xml-Reads value = (
  escaped-Reads value,
  λ text r. Reads-unique (escape_xml value) text (sanitized value) r (escaped-Reads value),
)
