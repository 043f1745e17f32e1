-- ===== src/Router/Examples.antt =====
-- Two calls for one session and one for another (src/daemon/session-router.ts); the first runs.
use opencode_pty.Prelude.{◌<◌, refl, arith}
use opencode_pty.Registry.Maps.{get, set, delete}
use opencode_pty.Router.Lanes.{Phase, Router, initial, mutate, set_phase, Turn, Reach}
use opencode_pty.Router.Order.{InOrder, Reach-InOrder}
use opencode_pty.Router.Progress.{Drained, Reach-Drained}

abbrev three_calls : Router
three_calls = mutate "a" (mutate "b" (mutate "a" initial))

abbrev first_runs : Router
first_runs = set_phase 0 Phase.running three_calls

first_runs-Reach : Reach first_runs
unfolding mutate get set delete
first_runs-Reach =
    Reach.next
      (Reach.next (Reach.next (Reach.next Reach.here (Turn.call "a")) (Turn.call "b"))
        (Turn.call "a"))
      (Turn.start 0 (omega arith) refl refl)

Reach-InOrder_example : InOrder first_runs
Reach-InOrder_example = Reach-InOrder first_runs-Reach

last_waits : 2 < first_runs.count
unfolding mutate set_phase
last_waits = omega arith

Reach-Drained_example : Drained first_runs 2
Reach-Drained_example = Reach-Drained 2 first_runs-Reach last_waits
