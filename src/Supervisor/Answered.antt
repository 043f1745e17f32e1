-- ===== src/Supervisor/Answered.antt =====
-- Every wait of src/daemon/supervisor.ts is settled at most once, and at the session's end once unless
-- a look at the output throws.
use opencode_pty.Prelude.{
  ℕ, ◌+◌, ◌≤◌, ◌<◌, Bool, false, List, [], ◌∷◌, ◌++◌, ltb, ◌==◌, if◌then◌else◌, ◌≡◌, ◌⊎◌, inl, inr,
  refl, sym, none, Option-cases, arith, Bool-cases, All,
}
use opencode_pty.Session.{WaitResult}
use opencode_pty.Registry.Maps.{remove_number, has_number}
use opencode_pty.Supervisor.Pending.{
  PendingWaits, no_waits, numbers, add_wait, settle_wait, WaitEvent, wait_event, wait_events, Look,
  end_result, resolve_waits, resolve_exit_waits,
}

-- How often a number is in a list.
abbrev pub count : ℕ → List ℕ → ℕ
count n [] = 0
count n (m ∷ ms) = (if m == n then 1 else 0) + count n ms

abbrev pub one_if : Bool → ℕ
one_if b = if b then 1 else 0

-- A wait that was called is pending or settled, once; its reservation is back exactly if it is
-- settled; and its promise is resolved exactly if its result was also stored.
pub record IsSettled (stored : ℕ → Bool) (s : PendingWaits) : Type 0 where
  pub once : (n : ℕ) → count n s.pending + count n (numbers s.settled) ≡ one_if (ltb n s.calls)
  pub returned : (n : ℕ) → count n s.released ≡ count n (numbers s.settled)
  pub answered :
      (n : ℕ) → count n s.resolved ≡ (if stored n then count n (numbers s.settled) else 0)

count-append : (n : ℕ) (xs ys : List ℕ) → count n (xs ++ ys) ≡ count n xs + count n ys
count-append n [] ys = omega arith
count-append n (x ∷ xs) ys = omega (arith, count-append n xs ys)

count-remove :
    (n m : ℕ) (xs : List ℕ) → count n (remove_number xs m) ≡ (if m == n then 0 else count n xs)
unfolding remove_number
count-remove n m [] = ground arith
count-remove n m (x ∷ xs) = ground (arith, count-remove n m xs)

has-count : (n : ℕ) (xs : List ℕ) → has_number xs n ≡ ltb 0 (count n xs)
unfolding has_number
has-count n [] = ground arith
has-count n (x ∷ xs) = ground (arith, has-count n xs)

-- What stays through any steps: the calls that were made, and that a wait is settled.
record Later (s t : PendingWaits) : Type 0 where
  calls : s.calls ≤ t.calls
  kept : (n : ℕ) → count n (numbers s.settled) ≤ count n (numbers t.settled)

Later-trans : (s t u : PendingWaits) → Later s t → Later t u → Later s u
Later-trans s t u a b = record {
  calls = omega (arith, a.calls, b.calls);
  kept = λ n. omega (arith, a.kept n, b.kept n);
}

All-calls : (ns : List ℕ) (a b : ℕ) → a ≤ b → All (λ n. n < a) ns → All (λ n. n < b) ns
All-calls [] a b h k = tt
All-calls (n ∷ ns) a b h k = (omega (arith, k.0), All-calls ns a b h k.1)

counted-All : (ns : List ℕ) (a : ℕ) → ((n : ℕ) → 0 < count n ns → n < a) → All (λ n. n < a) ns
counted-All [] a h = tt
counted-All (n ∷ ns) a h = (h n (ground arith), counted-All ns a (λ m k. h m (ground (arith, k))))

module _ (stored : ℕ → Bool) where
  no_waits-IsSettled : IsSettled stored no_waits
  no_waits-IsSettled = record {
    once = λ n. ground arith;
    returned = λ n. refl;
    answered = λ n. ground arith;
  }

  add_wait-IsSettled : (s : PendingWaits) → IsSettled stored s → IsSettled stored (add_wait s)
  unfolding add_wait
  add_wait-IsSettled s v = record {
    once = λ n. ground (arith, v.once n, v.once s.calls, count-append n s.pending (s.calls ∷ []));
    returned = v.returned;
    answered = v.answered;
  }

  settle_wait-IsSettled :
      (n : ℕ) (result : WaitResult) (s : PendingWaits)
      → n < s.calls
      → IsSettled stored s
      → IsSettled stored (settle_wait stored n result s)
  unfolding settle_wait
  settle_wait-IsSettled n result s lt v = elim (Bool-cases (has_number (numbers s.settled) n)) [
    | inl y ↦ rw y v
    | inr fresh ↦ rw fresh (record {
      once = λ m. ground (
        arith,
        lt,
        fresh,
        v.once m,
        v.once n,
        count-remove m n s.pending,
        has-count n (numbers s.settled),
      );
      returned = λ m. ground (arith, v.returned m);
      answered = λ m. elim (Bool-cases (n == m)) [
        | inl e ↦
            let same : n ≡ m = ground (arith, e) in rw (sym same) (ground (arith, v.answered n))
        | inr e ↦ ground (arith, e, v.answered m)
      ];
    })
  ]

  event_settles :
      (n : ℕ) (result : WaitResult) (s : PendingWaits)
      → IsSettled stored s
      → IsSettled stored (if ltb n s.calls then settle_wait stored n result s else s)
  event_settles n result s v = elim (Bool-cases (ltb n s.calls)) [
    | inl y ↦ rw y (settle_wait-IsSettled n result s (ground (arith, y)) v)
    | inr old ↦ rw old v
  ]

  wait_event-IsSettled :
      (event : WaitEvent) (s : PendingWaits)
      → IsSettled stored s
      → IsSettled stored (wait_event stored event s)
  unfolding wait_event
  wait_event-IsSettled WaitEvent.called s v = add_wait-IsSettled s v
  wait_event-IsSettled (WaitEvent.deadline n result) s v = event_settles n result s v
  wait_event-IsSettled (WaitEvent.looked n result) s v = event_settles n result s v

  wait_events-IsSettled :
      (events : List WaitEvent) (s : PendingWaits)
      → IsSettled stored s
      → IsSettled stored (wait_events stored events s)
  unfolding wait_events
  wait_events-IsSettled [] s v = v
  wait_events-IsSettled (event ∷ events) s v =
      wait_events-IsSettled events (wait_event stored event s) (wait_event-IsSettled event s v)

  settle_wait-Later :
      (n : ℕ) (result : WaitResult) (s : PendingWaits) → Later s (settle_wait stored n result s)
  unfolding settle_wait
  settle_wait-Later n result s = record { calls = ground arith; kept = λ m. ground arith }

  wait_event-Later : (event : WaitEvent) (s : PendingWaits) → Later s (wait_event stored event s)
  unfolding wait_event add_wait settle_wait
  wait_event-Later WaitEvent.called s = record { calls = ground arith; kept = λ m. ground arith }
  wait_event-Later (WaitEvent.deadline n result) s = record {
    calls = ground arith;
    kept = λ m. ground arith;
  }
  wait_event-Later (WaitEvent.looked n result) s = record {
    calls = ground arith;
    kept = λ m. ground arith;
  }

  wait_events-Later :
      (events : List WaitEvent) (s : PendingWaits) → Later s (wait_events stored events s)
  unfolding wait_events
  wait_events-Later [] s = record { calls = omega arith; kept = λ m. omega arith }
  wait_events-Later (event ∷ events) s =
      Later-trans s (wait_event stored event s)
        (wait_events stored events (wait_event stored event s)) (wait_event-Later event s)
        (wait_events-Later events (wait_event stored event s))

  settle_wait-settled :
      (n : ℕ) (result : WaitResult) (s : PendingWaits)
      → 1 ≤ count n (numbers (settle_wait stored n result s).settled)
  unfolding settle_wait
  settle_wait-settled n result s = ground (arith, has-count n (numbers s.settled))

-- A look at one of the waits throws.
pub data Fails (look : ℕ → Look) (ns : List ℕ) : Type 0 where
  at_wait : (n : ℕ) → 0 < count n ns → look n ≡ Look.failed → Fails look ns

Fails-later : (look : ℕ → Look) (n : ℕ) (ns : List ℕ) → Fails look ns → Fails look (n ∷ ns)
Fails-later look n ns (Fails.at_wait m h e) = Fails.at_wait m (ground (arith, h)) e

-- Each of the waits is settled, or a look throws.
abbrev pub Ended : (ℕ → Look) → List ℕ → PendingWaits → Type 0
Ended look ns t = ((n : ℕ) → 0 < count n ns → 1 ≤ count n (numbers t.settled)) ⊎ Fails look ns

failed-look : (look : Look) (ended : WaitResult) → end_result look ended ≡ none → look ≡ Look.failed
failed-look Look.failed ended e = refl
failed-look Look.unmatched ended e = ground (arith, e)
failed-look (Look.matched result) ended e = ground (arith, e)

module _ (stored : ℕ → Bool) (look : ℕ → Look) (ended : ℕ → WaitResult)
    (between : ℕ → List WaitEvent) where
  abbrev loop : List ℕ → PendingWaits → PendingWaits
  loop ns s = resolve_waits stored look ended between ns s

  resolve_waits-Later : (ns : List ℕ) (s : PendingWaits) → Later s (loop ns s)
  unfolding resolve_waits
  resolve_waits-Later [] s = record { calls = omega arith; kept = λ m. omega arith }
  resolve_waits-Later (n ∷ ns) s =
      let u : PendingWaits = wait_events stored (between n) s in
      let before = wait_events-Later stored (between n) s in
      elim (Option-cases (end_result (look n) (ended n))) [
        | inl e ↦ rw (e, resolve_waits) before
        | inr (result, e) ↦
            let t : PendingWaits = settle_wait stored n result u in
            rw (e, resolve_waits)
              (Later-trans s u (loop ns t) before (
                Later-trans u t (loop ns t) (settle_wait-Later stored n result u)
                  (resolve_waits-Later ns t)))
      ]

  resolve_waits-IsSettled :
      (ns : List ℕ) (s : PendingWaits)
      → All (λ n. n < s.calls) ns
      → IsSettled stored s
      → IsSettled stored (loop ns s) × Ended look ns (loop ns s)
  unfolding resolve_waits
  resolve_waits-IsSettled [] s lt v = (v, inl (λ n h. absurd (omega arith)))
  resolve_waits-IsSettled (n ∷ ns) s lt v =
      let u : PendingWaits = wait_events stored (between n) s in
      let before = wait_events-Later stored (between n) s in
      let w = wait_events-IsSettled stored (between n) s v in
      elim (Option-cases (end_result (look n) (ended n))) [
        | inl e ↦
            rw (e, resolve_waits)
              (w, inr (Fails.at_wait n (ground arith) (failed-look (look n) (ended n) e)))
        | inr (result, e) ↦
            let t : PendingWaits = settle_wait stored n result u in
            let calls : s.calls ≤ t.calls =
              omega (arith, before.calls, (settle_wait-Later stored n result u).calls) in
            let (x, all) =
              resolve_waits-IsSettled ns t (All-calls ns s.calls t.calls calls lt.1)
                (settle_wait-IsSettled stored n result u (omega (arith, before.calls, lt.0)) w) in
            rw (e, resolve_waits)
              (
                x,
                elim all [
                  | inr fails ↦ inr (Fails-later look n ns fails)
                  | inl each ↦ inl (λ m h. elim (Bool-cases (n == m)) [
                    | inl f ↦
                        let same : n ≡ m = ground (arith, f) in
                        rw (sym same) (
                          omega (
                            arith,
                            settle_wait-settled stored n result u,
                            (resolve_waits-Later ns t).kept n,
                          ))
                    | inr f ↦ each m (ground (arith, f, h))
                  ])
                ],
              )
      ]

-- The timer of a wait that is pending settles it.
deadline-settles :
    (stored : ℕ → Bool) (n : ℕ) (result : WaitResult) (t : PendingWaits)
    → IsSettled stored t
    → 0 < count n t.pending
    → count n (numbers (wait_event stored (WaitEvent.deadline n result) t).settled) ≡ 1
unfolding wait_event settle_wait
deadline-settles stored n result t v h =
    ground (arith, h, v.once n, has-count n (numbers t.settled))

-- Whatever calls, timers and looks at the output come before and between: a wait is pending or
-- settled, once; its reservation is back exactly if it is settled, and its promise is resolved
-- exactly if the record was also stored. When the session has ended, the loop settles each wait that
-- was pending, once, unless the persist queue is rejected or a look at one of these waits throws; and
-- a wait that is still pending then is settled by its timer.
pub resolve_exit_waits-IsSettled :
    (stored : ℕ → Bool) (queue_ok : Bool) (events : List WaitEvent) (look : ℕ → Look)
    (ended : ℕ → WaitResult) (between : ℕ → List WaitEvent)
    → let s = wait_events stored events no_waits in
      let t = resolve_exit_waits stored queue_ok look ended between s in
      IsSettled stored t
      × (((n : ℕ)
            → 0 < count n s.pending
            → (count n t.pending ≡ 0) × (count n (numbers t.settled) ≡ 1))
          ⊎ (queue_ok ≡ false)
          ⊎ Fails look s.pending)
      × ((n : ℕ) (result : WaitResult)
          → 0 < count n t.pending
          → count n (numbers (wait_event stored (WaitEvent.deadline n result) t).settled) ≡ 1)
unfolding resolve_exit_waits
resolve_exit_waits-IsSettled stored queue_ok events look ended between =
    let s : PendingWaits = wait_events stored events no_waits in
    let v : IsSettled stored s =
      wait_events-IsSettled stored events no_waits (no_waits-IsSettled stored) in
    elim (Bool-cases queue_ok) [
      | inr rejected ↦
          rw rejected (v, inr (inl refl), λ n result h. deadline-settles stored n result s v h)
      | inl runs ↦
          let t : PendingWaits = resolve_waits stored look ended between s.pending s in
          let (w, all) =
            resolve_waits-IsSettled stored look ended between s.pending s
              (counted-All s.pending s.calls (λ n h. ground (arith, h, v.once n))) v in
          rw runs (
            w,
            elim all [
              | inr fails ↦ inr (inr fails)
              | inl each ↦
                  inl (λ n h.
                    (ground (arith, w.once n, each n h), ground (arith, w.once n, each n h)))
            ],
            λ n result h. deadline-settles stored n result t w h,
          )
    ]
