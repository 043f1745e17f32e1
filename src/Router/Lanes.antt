-- ===== src/Router/Lanes.antt =====
-- The promise chains of `SessionRouter` in src/daemon/session-router.ts. `mutate` and `persist` are
-- the same code over two maps; the state is that of one of them.
use opencode_pty.Prelude.{
  ℕ, ◌+◌, ◌<◌, String, Bool, true, false, Option, none, some, [], ◌==◌, if◌then◌else◌,
  get_or_default, ◌≡◌,
}
use opencode_pty.Registry.Maps.{Map, get, set, delete}

-- A task waits for `previous`, runs, settles (with an error or not), and then its `settled.then`
-- callback is done.
pub data Phase : Type 0 where
  waiting running : Phase
  settled : (failed : Bool) → Phase
  forgotten : Phase

-- `after` is the task whose `settled` promise is the `previous` of a task; `none` is
-- `Promise.resolve()`. A lane's entry is the task that made the promise.
pub record Router : Type 0 where
  pub count : ℕ
  pub owner : ℕ → String
  pub after : ℕ → Option ℕ
  pub phase : ℕ → Phase
  pub lanes : Map ℕ

abbrev pub initial : Router
initial = record {
  count = 0;
  owner = λ _. "";
  after = λ _. none;
  phase = λ _. Phase.waiting;
  lanes = [];
}

abbrev pub update : {A : Type 0} → (ℕ → A) → ℕ → A → ℕ → A
update f n a m = if m == n then a else f m

abbrev pub finished : Phase → Bool
finished Phase.waiting = false
finished Phase.running = false
finished (Phase.settled failed) = true
finished Phase.forgotten = true

abbrev pub started : Phase → Bool
started Phase.waiting = false
started _ = true

-- The synchronous part of `mutate(id, task)`.
unfoldable pub mutate : String → Router → Router
mutate id r = record r {
  count = r.count + 1;
  owner = update r.owner r.count id;
  after = update r.after r.count (get r.lanes id);
  phase = update r.phase r.count Phase.waiting;
  lanes = set r.lanes id r.count;
}

-- `previous.then(task, task)` may call the task.
abbrev pub previous_settled : Router → Option ℕ → Bool
previous_settled r none = true
previous_settled r (some m) = finished (r.phase m)

unfoldable pub set_phase : ℕ → Phase → Router → Router
set_phase n phase r = record r { phase = update r.phase n phase }

abbrev pub is_lane : ℕ → Option ℕ → Bool
is_lane n none = false
is_lane n (some m) = m == n

-- `if (this.mutations.get(id) === settled) this.mutations.delete(id)`
unfoldable pub forget : ℕ → Router → Router
forget n r = record r {
  phase = update r.phase n Phase.forgotten;
  lanes = if is_lane n (get r.lanes (r.owner n)) then delete r.lanes (r.owner n) else r.lanes;
}

-- What the event loop may do next. A task's end is up to the task.
pub data Turn (r : Router) : Router → Type 0 where
  call : (id : String) → Turn r (mutate id r)
  start :
      (n : ℕ)
      → n < r.count
      → r.phase n ≡ Phase.waiting
      → previous_settled r (r.after n) ≡ true
      → Turn r (set_phase n Phase.running r)
  finish :
      (n : ℕ) (failed : Bool)
      → n < r.count
      → r.phase n ≡ Phase.running
      → Turn r (set_phase n (Phase.settled failed) r)
  callback :
      (n : ℕ) (failed : Bool) → n < r.count → r.phase n ≡ Phase.settled failed → Turn r (forget n r)

pub data Reach : Router → Type 0 where
  here : Reach initial
  next : {r s : Router} → Reach r → Turn r s → Reach s

-- `version` and `bumpVersion`.
unfoldable pub version : Map ℕ → String → ℕ
version versions id = get_or_default (get versions id) 0

unfoldable pub bump_version : Map ℕ → String → Map ℕ × ℕ
unfolding version
bump_version versions id = let next = version versions id + 1 in (set versions id next, next)
