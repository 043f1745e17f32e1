-- ===== src/Router/Order.antt =====
-- The order in which the tasks of src/daemon/session-router.ts run.
use opencode_pty.Prelude.{ℕ, ◌<◌, String, true, false, some, ◌≡◌, arith, inl, inr, Option-cases}
use opencode_pty.Registry.Maps.{get}
use opencode_pty.Router.Lanes.{Phase, Router, finished, started, Reach}
use opencode_pty.Router.Invariant.{is_forgotten, Reach-Inv}

pub record InOrder (r : Router) : Type 0 where
  pub first_come :
      (n k : ℕ)
      → n < r.count
      → k < n
      → r.owner k ≡ r.owner n
      → started (r.phase n) ≡ true
      → finished (r.phase k) ≡ true
  pub alone :
      (n k : ℕ)
      → n < r.count
      → k < r.count
      → r.owner k ≡ r.owner n
      → r.phase n ≡ Phase.running
      → r.phase k ≡ Phase.running
      → n ≡ k
  pub tracked :
      (id : String) (k : ℕ)
      → k < r.count
      → r.owner k ≡ id
      → finished (r.phase k) ≡ false
      → (m : ℕ) × (get r.lanes id ≡ some m)
  pub dropped : (id : String) (m : ℕ) → get r.lanes id ≡ some m → is_forgotten (r.phase m) ≡ false

-- However calls, starts, ends (with an error or not) and callbacks interleave: a task of a session
-- starts only when every task that was given to `mutate` for the session before it has ended, no two
-- tasks of a session run at once, a session with a task that has not ended has an entry in the map,
-- and the entry is gone when the callback of its task is done.
pub Reach-InOrder : {r : Router} → Reach r → InOrder r
Reach-InOrder {r} h =
    let v = Reach-Inv h in
    record {
      first_come = λ n k lt l o st. v.ordered n k lt st l o;
      alone = λ n k ln lk o rn rk. ground (arith, ln, lk, o, rn, rk, v.ordered n k, v.ordered k n);
      tracked = λ id k lt o f. elim (Option-cases (get r.lanes id)) [
        | inl e ↦ absurd (ground (arith, f, v.idle id k e lt o))
        | inr (m, e) ↦ (m, e)
      ];
      dropped = v.live;
    }
