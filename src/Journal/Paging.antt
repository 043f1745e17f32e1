-- ===== src/Journal/Paging.antt =====
-- The pages of lines and matches (src/daemon/journal-reader.ts).
use opencode_pty.Prelude.{
  ℕ, zero, suc, ◌+◌, ◌≤◌, ◌<◌, Bool, true, false, some, List, [], ◌∷◌, ◌++◌, take, drop, length,
  ◌≡◌, refl, arith, inl, inr, Bool-cases,
}
use opencode_pty.Prelude.Slices.{take-drop, drop-add, drop_past, append_nil}
use opencode_pty.Journal.Lines.{Line, page_of}

take_full {ℓ} :
    {A : Type ℓ} → (k : ℕ) (xs : List A) → length xs ≤ length (take k xs) → take k xs ≡ xs
take_full zero [] h = refl
take_full zero (x ∷ xs) h = ground arith
take_full (suc k) [] h = refl
take_full (suc k) (x ∷ xs) h = ground (arith, take_full k xs)

length-drop {ℓ} :
    {A : Type ℓ} → (n : ℕ) (xs : List A) → n ≤ length xs → length (drop n xs) + n ≡ length xs
length-drop zero xs h = ground arith
length-drop (suc n) [] h = ground arith
length-drop (suc n) (x ∷ xs) h = ground (arith, length-drop n xs)

-- The lines that a client gets that asks for page after page while there is more.
abbrev pub follow : Bool → List Line → List Line
follow false rest = []
follow true rest = rest

unfoldable pub read_all : ℕ → List Line → ℕ → ℕ → List Line
read_all zero lines offset limit = []
read_all (suc fuel) lines offset limit =
    let page = page_of lines offset (some limit) in
    let rest = read_all fuel lines (offset + limit) limit in page.lines ++ follow page.has_more rest

-- A client that asks for pages of `limit` lines of the same list from an offset on, `limit` not 0, as
-- long as the answer has more, gets every line from the offset on, once and in order; as many requests
-- as there are lines from the offset on are enough.
pub read_all-drop :
    (fuel : ℕ) (lines : List Line) (offset limit : ℕ)
    → 0 < limit
    → length lines ≤ offset + fuel
    → read_all fuel lines offset limit ≡ drop offset lines
unfolding read_all page_of
read_all-drop zero lines offset limit p h = ground (arith, drop_past offset lines)
read_all-drop (suc fuel) lines offset limit p h =
    let page = page_of lines offset (some limit) in
    elim (Bool-cases page.has_more) [
      | inl more ↦ ground (
        arith,
        more,
        read_all-drop fuel lines (offset + limit) limit p (ground arith),
        take-drop limit (drop offset lines),
        drop-add offset limit lines,
      )
      | inr last ↦ ground (
        arith,
        last,
        append_nil (drop offset lines),
        take_full limit (drop offset lines),
        length-drop offset lines,
        drop_past offset lines,
      )
    ]
