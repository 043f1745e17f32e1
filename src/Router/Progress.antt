-- ===== src/Router/Progress.antt =====
-- Every task of src/daemon/session-router.ts can come to its end.
use opencode_pty.Prelude.{
  ℕ, zero, suc, ◌<◌, true, false, ◌≡◌, refl, ◌⊎◌, inl, inr, arith, Option-cases,
}
use opencode_pty.Router.Lanes.{Phase, Router, finished, previous_settled, set_phase, Turn, Reach}
use opencode_pty.Router.Invariant.{Inv, Turn-Inv, Reach-Inv}

pub data Steps (r : Router) : Router → Type 0 where
  stop : Steps r r
  then : {s t : Router} → Steps r s → Turn s t → Steps r t

-- A state that follows from `r`, in which task `n` has settled and the tasks after it stand as in `r`.
pub record Drained (r : Router) (n : ℕ) : Type 0 where
  pub last : Router
  pub steps : Steps r last
  pub sound : Inv last
  pub done : finished (last.phase n) ≡ true
  pub same_count : last.count ≡ r.count
  pub same_after : (k : ℕ) → last.after k ≡ r.after k
  pub later : (k : ℕ) → n < k → last.phase k ≡ r.phase k

module _ (r s : Router) (n : ℕ) (reached : Steps r s) (v : Inv s) (same_count : s.count ≡ r.count)
    (same_after : (k : ℕ) → s.after k ≡ r.after k) (later : (k : ℕ) → n < k → s.phase k ≡ r.phase k)
    (lt : n < s.count) where
  settle_running : s.phase n ≡ Phase.running → Drained r n
  unfolding set_phase
  settle_running w = record {
    last = set_phase n (Phase.settled false) s;
    steps = Steps.then reached (Turn.finish n false lt w);
    sound = Turn-Inv (Turn.finish n false lt w) v;
    done = ground arith;
    same_count = same_count;
    same_after = same_after;
    later = λ k h. ground (arith, h, later k h);
  }

start_waiting :
    (r s : Router) (n : ℕ)
    → Steps r s
    → Inv s
    → s.count ≡ r.count
    → ((k : ℕ) → s.after k ≡ r.after k)
    → ((k : ℕ) → n < k → s.phase k ≡ r.phase k)
    → n < s.count
    → s.phase n ≡ Phase.waiting
    → previous_settled s (s.after n) ≡ true
    → Drained r n
unfolding set_phase
start_waiting r s n reached v c a later lt w p =
    settle_running r (set_phase n Phase.running s) n (Steps.then reached (Turn.start n lt w p))
      (Turn-Inv (Turn.start n lt w p) v) c a (λ k h. ground (arith, h, later k h)) lt (ground arith)

Phase-cases : (p : Phase) → (p ≡ Phase.waiting) ⊎ (p ≡ Phase.running) ⊎ (finished p ≡ true)
Phase-cases Phase.waiting = inl refl
Phase-cases Phase.running = inr (inl refl)
Phase-cases (Phase.settled failed) = inr (inr refl)
Phase-cases Phase.forgotten = inr (inr refl)

drain : (bound : ℕ) (r : Router) (n : ℕ) → n < bound → Inv r → n < r.count → Drained r n
drain zero r n b v lt = absurd (omega arith)
drain (suc bound) r n b v lt = elim (Phase-cases (r.phase n)) [
  | inl w ↦ elim (Option-cases (r.after n)) [
    | inl e ↦ start_waiting r r n Steps.stop v refl (λ k. refl) (λ k h. refl) lt w (rw e refl)
    | inr (m, e) ↦
        let below : m < n = v.linked_lt n m lt e in
        let d = drain bound r m (omega arith) v (omega arith) in
        start_waiting r d.last n d.steps d.sound d.same_count d.same_after
          (λ k h. d.later k (omega arith)) (ground (arith, d.same_count, lt))
          (ground (arith, w, d.later n below)) (ground (arith, e, d.same_after n, d.done))
  ]
  | inr (inl w) ↦ settle_running r r n Steps.stop v refl (λ k. refl) (λ k h. refl) lt w
  | inr (inr f) ↦ record {
    last = r;
    steps = Steps.stop;
    sound = v;
    done = f;
    same_count = refl;
    same_after = λ k. refl;
    later = λ k h. refl;
  }
]

-- In every state that is reached, every task that was given out can still settle, by steps of the
-- event loop that call nothing and leave the later tasks as they are: no task waits for one that
-- cannot run.
pub Reach-Drained : {r : Router} (n : ℕ) → Reach r → n < r.count → Drained r n
Reach-Drained {r} n h lt = drain (suc n) r n (omega arith) (Reach-Inv h) lt
