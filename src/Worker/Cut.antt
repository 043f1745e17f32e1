-- ===== src/Worker/Cut.antt =====
-- Where `redactStream` of src/daemon/worker-client.ts divides a text that goes on.
use opencode_pty.Prelude.{
  ℕ, zero, suc, ◌+◌, ◌≤◌, ◌<◌, true, ◌&&◌, List, [], ◌∷◌, length, ltb, ◌==◌, if◌then◌else◌, ◌≡◌,
  refl, sym, ap, ◌⊎◌, inl, inr, arith, Bool-cases,
}
use opencode_pty.Worker.Redact.{
  Characters, text_units, held_back, initial_split, matches_at, hold_loop, hold_split,
}

abbrev pub In : Characters → List Characters → Type 0
In s [] = ⊥
In s (x ∷ xs) = (s ≡ x) ⊎ In s xs

-- The secret stands in the text from `p` on.
abbrev pub Occurs : Characters → Characters → ℕ → Type 0
Occurs characters secret p =
    (p + length secret ≤ length characters) × (matches_at characters secret p ≡ true)

-- No part of it falls on either side.
abbrev pub Whole : Characters → ℕ → ℕ → Type 0
Whole secret p split = (p + length secret ≤ split) ⊎ (split ≤ p)

abbrev pub Disjoint : Characters → ℕ → Characters → ℕ → Type 0
Disjoint s p t q = (p + length s ≤ q) ⊎ (q + length t ≤ p) ⊎ (p ≡ q)

-- No two places where secrets stand overlap, but for the same place.
abbrev pub Apart : Characters → List Characters → Type 0
Apart characters secrets =
    (s t : Characters) (p q : ℕ)
    → In s secrets
    → In t secrets
    → Occurs characters s p
    → Occurs characters t q
    → Disjoint s p t q

hold_loop-le :
    (characters secret : Characters) (left start split bound : ℕ)
    → start + left ≤ bound
    → split ≤ bound
    → hold_loop characters secret left start split ≤ bound
unfolding hold_loop
hold_loop-le characters secret zero start split bound h k = k
hold_loop-le characters secret (suc left) start split bound h k =
    hold_loop-le characters secret left (start + 1) _ bound (omega arith) (ground (arith, h, k))

-- One round keeps whole what is apart from a match at its place.
round-Whole :
    (characters secret t : Characters) (start split q : ℕ)
    → (matches_at characters secret start ≡ true → Disjoint secret start t q)
    → Whole t q split
    → Whole t q (
        if ltb split (start + length secret) && matches_at characters secret start
        then start
        else split)
round-Whole characters secret t start split q apart w =
    elim (Bool-cases (ltb split (start + length secret) && matches_at characters secret start)) [
      | inl e ↦ rw e (elim (apart (ground (arith, e))) [
        | inl before ↦ inr (omega arith)
        | inr (inl after) ↦ inl after
        | inr (inr same) ↦ inr (omega arith)
      ])
      | inr e ↦ rw e w
    ]

hold_loop-keeps :
    (characters secret t : Characters) (left start split q : ℕ)
    → ((p : ℕ) → p < start + left → matches_at characters secret p ≡ true → Disjoint secret p t q)
    → Whole t q split
    → Whole t q (hold_loop characters secret left start split)
unfolding hold_loop
hold_loop-keeps characters secret t zero start split q apart w = w
hold_loop-keeps characters secret t (suc left) start split q apart w =
    hold_loop-keeps characters secret t left (start + 1) _ q (λ p h. apart p (omega arith))
      (round-Whole characters secret t start split q (apart start (omega arith)) w)

round_self-Whole :
    (characters secret : Characters) (start split : ℕ)
    → matches_at characters secret start ≡ true
    → Whole secret start (
        if ltb split (start + length secret) && matches_at characters secret start
        then start
        else split)
round_self-Whole characters secret start split m =
    elim (Bool-cases (ltb split (start + length secret))) [
      | inl e ↦ rw (e, m) (inr (omega arith))
      | inr e ↦ rw e (inl (ground (arith, e)))
    ]

hold_loop-covers :
    (characters secret : Characters) (left start split q : ℕ)
    → ((p : ℕ)
        → p < start + left
        → matches_at characters secret p ≡ true
        → Disjoint secret p secret q)
    → start ≤ q
    → q < start + left
    → matches_at characters secret q ≡ true
    → Whole secret q (hold_loop characters secret left start split)
unfolding hold_loop
hold_loop-covers characters secret zero start split q apart h k m = absurd (omega arith)
hold_loop-covers characters secret (suc left) start split q apart h k m =
    elim (Bool-cases (start == q)) [
      | inl e ↦
          let same : start ≡ q = ground (arith, e) in
          hold_loop-keeps characters secret secret left (start + 1) _ q
            (λ p l. apart p (omega arith))
            (rw (sym same) (round_self-Whole characters secret start split (rw same m)))
      | inr e ↦
          hold_loop-covers characters secret left (start + 1) _ q (λ p l. apart p (omega arith))
            (ground (arith, e, h)) (omega arith) m
    ]

-- The secrets are short enough for what is held back.
abbrev AllShort : Characters → ℕ → List Characters → Type 0
AllShort characters initial [] = Unit {0}
AllShort characters initial (s ∷ ss) =
    ((p : ℕ) → p < initial → p + length s ≤ length characters) × AllShort characters initial ss

module _ (characters : Characters) (initial : ℕ) where
  hold_split-keeps :
      (secrets : List Characters) (t : Characters) (q split : ℕ)
      → ((s : Characters) (p : ℕ) → In s secrets → Occurs characters s p → Disjoint s p t q)
      → AllShort characters initial secrets
      → Whole t q split
      → Whole t q (hold_split characters initial secrets split)
  unfolding hold_split
  hold_split-keeps [] t q split apart short w = w
  hold_split-keeps (s ∷ ss) t q split apart short w =
      hold_split-keeps ss t q _ (λ x p i. apart x p (inr i)) short.1
        (hold_loop-keeps characters s t initial 0 split q
          (λ p h m. apart s p (inl refl) (short.0 p (omega arith), m)) w)

  pub hold_split-le :
      (secrets : List Characters) (split : ℕ)
      → split ≤ initial
      → hold_split characters initial secrets split ≤ initial
  unfolding hold_split
  hold_split-le [] split h = h
  hold_split-le (s ∷ ss) split h =
      hold_split-le ss _ (hold_loop-le characters s initial 0 split initial (omega arith) h)

  hold_split-covers :
      (secrets : List Characters) (t : Characters) (q split : ℕ)
      → ((s : Characters) (p : ℕ) → In s secrets → Occurs characters s p → Disjoint s p t q)
      → AllShort characters initial secrets
      → In t secrets
      → Occurs characters t q
      → q < initial
      → Whole t q (hold_split characters initial secrets split)
  unfolding hold_split
  hold_split-covers [] t q split apart short i o h = absurd i
  hold_split-covers (s ∷ ss) t q split apart short (inl e) o h =
      hold_split-keeps ss t q _ (λ x p i. apart x p (inr i)) short.1
        (rw e (
          hold_loop-covers characters s initial 0 split q
            (λ p l m. rw (sym e) (apart t p (inl e) (rw e (short.0 p (omega arith), m))))
            (omega arith) (omega arith) (rw (sym e) o.1)))
  hold_split-covers (s ∷ ss) t q split apart short (inr i) o h =
      hold_split-covers ss t q _ (λ x p i. apart x p (inr i)) short.1 i o h

text_units-le : (s : Characters) → length s ≤ text_units s
text_units-le [] = omega arith
text_units-le (c ∷ cs) = ground (arith, text_units-le cs)

pub In-short :
    (secrets : List Characters) (s : Characters) → In s secrets → length s ≤ held_back secrets + 1
unfolding held_back
In-short [] s i = absurd i
In-short (x ∷ xs) s (inl e) = ground (arith, ap length e, text_units-le x)
In-short (x ∷ xs) s (inr i) = ground (arith, In-short xs s i)

short_all :
    (characters : Characters) (all secrets : List Characters)
    → ((s : Characters) → In s secrets → length s ≤ held_back all + 1)
    → AllShort characters (initial_split characters all) secrets
short_all characters all [] h = tt
short_all characters all (s ∷ ss) h =
    (λ p l. omega (arith, h s (inl refl)), short_all characters all ss (λ x i. h x (inr i)))

-- Where no two secrets overlap in the kept tail and the new text together, the split of a text that
-- goes on leaves each secret that stands in it wholly on one side: what is given on holds no part of
-- a secret whose rest is kept, and each secret is seen whole by `redact`.
pub hold_split-Whole :
    (characters : Characters) (secrets : List Characters) (t : Characters) (q : ℕ)
    → Apart characters secrets
    → In t secrets
    → Occurs characters t q
    → Whole t q (
        hold_split characters
          (initial_split characters secrets)
          secrets
          (initial_split characters secrets))
hold_split-Whole characters secrets t q apart i o =
    let initial : ℕ = initial_split characters secrets in
    let short = short_all characters secrets secrets (λ s. In-short secrets s) in
    elim (Bool-cases (ltb q initial)) [
      | inl e ↦
          hold_split-covers characters initial secrets t q initial
            (λ s p j x. apart s t p q j i x o) short i o (ground (arith, e))
      | inr e ↦
          inr (ground (arith, e, hold_split-le characters initial secrets initial (omega arith)))
    ]
