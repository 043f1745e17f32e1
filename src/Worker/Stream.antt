-- ===== src/Worker/Stream.antt =====
-- Redaction piece by piece, with one secret (src/daemon/worker-client.ts).
use mathlib.Core.List.{append_assoc, append-nil}
use opencode_pty.Prelude.{
  ℕ, zero, suc, ◌+◌, ◌-◌, ◌≤◌, ◌<◌, true, false, List, [], ◌∷◌, ◌++◌, length, length-append, take,
  drop, any, ltb, ◌≡◌, refl, sym, ap, ◌∙◌, inl, inr, arith, Bool-cases,
}
use opencode_pty.Prelude.Slices.{
  take-drop, drop-add, length-drop, length-take, drop-append, drop_past,
}
use opencode_pty.Worker.Redact.{
  Characters, text_units, replace_secret, redact, initial_split, hold_split, redact_stream,
  partial_at, finish_loop, finish_split, redact_tail,
}
use opencode_pty.Worker.Cut.{Occurs, Apart, hold_split-Whole, hold_split-le, In-short}
use opencode_pty.Worker.Places.{
  begins_with-le, begins_with-append, begins_with-take, Stands, replace_secret-append, Separate,
}

abbrev pub all_of : List Characters → Characters
all_of [] = []
all_of (c ∷ cs) = c ++ all_of cs

-- The text so far, and the tail, after all pieces of a text that goes on.
unfoldable pub stream : Characters → List Characters → List Characters → Characters × Characters
stream tail [] secrets = ([], tail)
stream tail (piece ∷ pieces) secrets =
    let (text, tail') = redact_stream tail piece secrets false in
    let (more, last) = stream tail' pieces secrets in (text ++ more, last)

module _ (s : Characters) where
  Stands-le :
      (text : Characters) (p : ℕ) → p ≤ length text → Stands text s p → p + length s ≤ length text
  Stands-le text p h st = omega (arith, begins_with-le (drop p text) s st, length-drop p text)

  Occurs-Stands : (text more : Characters) (p : ℕ) → Occurs text s p → Stands (text ++ more) s p
  Occurs-Stands text more p o =
      let fits : length s ≤ length (drop p text) = omega (arith, o.0, length-drop p text) in
      rw (drop-append p text more (omega (arith, o.0))) (
        begins_with-append (drop p text) more s fits
        ∙ (sym (begins_with-take s (drop p text) fits) ∙ o.1))

  Stands-Occurs :
      (text more : Characters) (p : ℕ)
      → p + length s ≤ length text
      → Stands (text ++ more) s p
      → Occurs text s p
  Stands-Occurs text more p h st =
      let fits : length s ≤ length (drop p text) = omega (arith, h, length-drop p text) in
      (
        h,
        begins_with-take s (drop p text) fits
            ∙ (sym (begins_with-append (drop p text) more s fits)
                ∙ rw (sym (drop-append p text more (omega (arith, h)))) st),
      )

  pub Separate-Apart : (text more : Characters) → Separate s (text ++ more) → Apart text (s ∷ [])
  Separate-Apart text more sep a b p q (inl ea) (inl eb) oa ob =
      rw (ea, eb)
        (elim (Bool-cases (ltb p q)) [
          | inl l ↦ inl (
              sep p q (ground (arith, l)) (Occurs-Stands text more p (rw (sym ea) oa))
                (Occurs-Stands text more q (rw (sym eb) ob)))
          | inr g ↦ elim (Bool-cases (ltb q p)) [
            | inl l ↦ inr (
                inl (
                  sep q p (ground (arith, l)) (Occurs-Stands text more q (rw (sym eb) ob))
                    (Occurs-Stands text more p (rw (sym ea) oa))))
            | inr h ↦ inr (inr (ground (arith, g, h)))
          ]
        ])
  Separate-Apart text more sep a b p q (inr i) j oa ob = absurd i
  Separate-Apart text more sep a b p q (inl i) (inr j) oa ob = absurd j

  -- The split of a text that goes on.
  abbrev cut : Characters → ℕ
  cut text = hold_split text (initial_split text (s ∷ [])) (s ∷ []) (initial_split text (s ∷ []))

  cut-le : (text : Characters) → cut text ≤ initial_split text (s ∷ [])
  cut-le text =
      hold_split-le text (initial_split text (s ∷ [])) (s ∷ []) (initial_split text (s ∷ []))
        (omega arith)

  cut-inside :
      (text more : Characters) (p : ℕ)
      → Separate s (text ++ more)
      → p < cut text
      → Stands (text ++ more) s p
      → p + length s ≤ cut text
  cut-inside text more p sep l st =
      let o =
        Stands-Occurs text more p (omega (arith, cut-le text, In-short (s ∷ []) s (inl refl))) st in
      elim (hold_split-Whole text (s ∷ []) s p (Separate-Apart text more sep) (inl refl) o) [
        | inl h ↦ h
        | inr h ↦ absurd (omega arith)
      ]

  replace-cut :
      (text more : Characters)
      → Separate s (text ++ more)
      → replace_secret s 0 (text ++ more)
        ≡ replace_secret s 0 (take (cut text) text)
          ++ replace_secret s 0 (drop (cut text) text ++ more)
  replace-cut text more sep =
      let whole : take (cut text) text ++ (drop (cut text) text ++ more) ≡ text ++ more =
        sym (append_assoc (take (cut text) text) (drop (cut text) text) more)
        ∙ ap (λ l. l ++ more) (take-drop (cut text) text) in
      let size : length (take (cut text) text) ≡ cut text =
        length-take (cut text) text (omega (arith, cut-le text)) in
      ap (replace_secret s 0) (sym whole)
      ∙ replace_secret-append s 0 (take (cut text) text) (drop (cut text) text ++ more)
          (omega arith)
          (λ p l st.
            omega
              (arith, size, cut-inside text more p sep (omega (arith, size)) (rw (sym whole) st)))

  Separate-drop : (text : Characters) (n : ℕ) → Separate s text → Separate s (drop n text)
  Separate-drop text n sep p q l sp sq = omega (
    arith,
    sep (n + p) (n + q) (omega arith) (rw (drop-add n p text) sp) (rw (drop-add n q text) sq),
  )

  redact-replace :
      (text : Characters) → 4 ≤ text_units s → redact text (s ∷ []) ≡ replace_secret s 0 text
  unfolding redact
  redact-replace text long = ground (arith, long)

stream_step :
    (s text more : Characters) (given last : Characters)
    → 4 ≤ text_units s
    → Separate s (text ++ more)
    → given ++ redact last (s ∷ []) ≡ redact (drop (cut s text) text ++ more) (s ∷ [])
    → (redact (take (cut s text) text) (s ∷ []) ++ given) ++ redact last (s ∷ [])
      ≡ redact (text ++ more) (s ∷ [])
stream_step s text more given last long sep ih =
    append_assoc (redact (take (cut s text) text) (s ∷ [])) given (redact last (s ∷ []))
    ∙ (ap (λ l. redact (take (cut s text) text) (s ∷ []) ++ l) ih
        ∙ rw
            (
              redact-replace s (text ++ more) long,
              redact-replace s (take (cut s text) text) long,
              redact-replace s (drop (cut s text) text ++ more) long,
            )
            (sym (replace-cut s text more sep)))

stream-redact :
    (s : Characters) (pieces : List Characters) (tail : Characters)
    → 4 ≤ text_units s
    → Separate s (tail ++ all_of pieces)
    → (stream tail pieces (s ∷ [])).0 ++ redact (stream tail pieces (s ∷ [])).1 (s ∷ [])
      ≡ redact (tail ++ all_of pieces) (s ∷ [])
unfolding stream redact_stream
stream-redact s [] tail long sep = ap (λ t. redact t (s ∷ [])) (sym (append-nil tail))
stream-redact s (piece ∷ pieces) tail long sep =
    let text : Characters = tail ++ piece in
    let whole : text ++ all_of pieces ≡ tail ++ all_of (piece ∷ pieces) =
      append_assoc tail piece (all_of pieces) in
    let sep' : Separate s (text ++ all_of pieces) = rw whole sep in
    let fits : cut s text ≤ length text = omega (arith, cut-le s text) in
    let rest = stream (drop (cut s text) text) pieces (s ∷ []) in
    let kept : Separate s (drop (cut s text) text ++ all_of pieces) =
      rw (sym (drop-append (cut s text) text (all_of pieces) fits))
        (Separate-drop s (text ++ all_of pieces) (cut s text) sep') in
    stream_step s text (all_of pieces) rest.0 rest.1 long sep'
      (stream-redact s pieces (drop (cut s text) text) long kept)
    ∙ ap (λ t. redact t (s ∷ [])) whole

suffix :
    (s : Characters) (pieces : List Characters) (tail : Characters)
    → (n : ℕ) × ((stream tail pieces (s ∷ [])).1 ≡ drop n (tail ++ all_of pieces))
      × (n ≤ length (tail ++ all_of pieces))
unfolding stream redact_stream
suffix s [] tail = (0, sym (append-nil tail), omega arith)
suffix s (piece ∷ pieces) tail =
    let text : Characters = tail ++ piece in
    let n = cut s text in
    let fits : n ≤ length text = omega (arith, cut-le s text) in
    let (m, e, b) = suffix s pieces (drop n text) in
    let whole : drop n text ++ all_of pieces ≡ drop n (tail ++ (piece ++ all_of pieces)) =
      sym (drop-append n text (all_of pieces) fits)
      ∙ ap (drop n) (append_assoc tail piece (all_of pieces)) in
    (
      n + m,
      e ∙ (ap (drop m) whole ∙ sym (drop-add n m (tail ++ (piece ++ all_of pieces)))),
      omega (
        arith,
        b,
        ap length whole,
        length-drop n (tail ++ (piece ++ all_of pieces)),
        fits,
        length-append text (all_of pieces),
        ap length (append_assoc tail piece (all_of pieces)),
      ),
    )

-- No suffix of the text is the beginning of the secret, of four characters or more.
abbrev pub Complete : Characters → Characters → Type 0
Complete s text = (start : ℕ) → start < length text → partial_at text s start ≡ false

finish_loop-Complete :
    (text s : Characters) (left start split : ℕ)
    → start + left ≤ length text
    → Complete s text
    → finish_loop text s left start split ≡ split
unfolding finish_loop
finish_loop-Complete text s zero start split h c = refl
finish_loop-Complete text s (suc left) start split h c =
    rw (c start (omega arith)) (finish_loop-Complete text s left (start + 1) split (omega arith) c)

take_all : (xs : Characters) → take (length xs) xs ≡ xs
take_all [] = refl
take_all (x ∷ xs) = ap (λ l. x ∷ l) (take_all xs)

redact_tail-nil : (s : Characters) → redact_tail [] (s ∷ []) ≡ []
unfolding redact_tail redact replace_secret any
redact_tail-nil s = ground arith

redact_stream-finish :
    (s text : Characters)
    → 4 ≤ text_units s
    → Complete s text
    → (redact_stream text [] (s ∷ []) true).0 ≡ redact text (s ∷ [])
unfolding redact_stream finish_split
redact_stream-finish s text long c =
    rw
      (
        append-nil text,
        finish_loop-Complete text s (length text) 0 (length text) (omega arith) c,
        take_all text,
        drop_past (length text) text (omega arith),
        redact_tail-nil s,
      )
      (append-nil (redact text (s ∷ [])))

partial_at-drop :
    (s text : Characters) (n start : ℕ)
    → n ≤ length text
    → partial_at (drop n text) s start ≡ partial_at text s (n + start)
partial_at-drop s text n start h =
    let left : length (drop n text) - start ≡ length text - (n + start) =
      omega (arith, length-drop n text, h) in
    rw (sym (drop-add n start text), left) refl

Complete-drop :
    (s text : Characters) (n : ℕ) → n ≤ length text → Complete s text → Complete s (drop n text)
Complete-drop s text n h c start l =
    partial_at-drop s text n start h ∙ c (n + start) (omega (arith, length-drop n text))

-- What `captureWorkerStderr` gives on in all, over the pieces and the end.
abbrev pub captured : List Characters → Characters → Characters
captured pieces s =
    (stream [] pieces (s ∷ [])).0
    ++ (redact_stream (stream [] pieces (s ∷ [])).1 [] (s ∷ []) true).0

-- For one secret of at least four units whose places in the whole text do not overlap, and a text
-- that does not end within the secret: what `redactStream` gives on, in whatever pieces the text
-- comes, is what `redact` makes of the whole text at once.
pub captured-redact :
    (s : Characters) (pieces : List Characters)
    → 4 ≤ text_units s
    → Separate s (all_of pieces)
    → Complete s (all_of pieces)
    → captured pieces s ≡ redact (all_of pieces) (s ∷ [])
captured-redact s pieces long sep c =
    let (n, e, b) = suffix s pieces [] in
    let complete : Complete s (stream [] pieces (s ∷ [])).1 =
      rw e (Complete-drop s (all_of pieces) n b c) in
    rw (redact_stream-finish s (stream [] pieces (s ∷ [])).1 long complete)
      (stream-redact s pieces [] long sep)
