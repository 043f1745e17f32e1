-- ===== src/Router/Invariant.antt =====
-- The invariant of the promise chains of src/daemon/session-router.ts.
use opencode_pty.Prelude.{
  ℕ, ◌≤◌, ◌<◌, String, eq_iff, Bool, true, false, none, some, ◌≡◌, arith, ◌⊎◌, inl, inr,
  Option-cases,
}
use opencode_pty.Registry.Maps.{get}
use opencode_pty.Registry.MapLaws.{get-set, get-delete}
use opencode_pty.Router.Lanes.{
  Phase, Router, initial, finished, started, mutate, previous_settled, set_phase, forget, Turn,
  Reach,
}

abbrev pub is_forgotten : Phase → Bool
is_forgotten Phase.forgotten = true
is_forgotten _ = false

pub record Inv (r : Router) : Type 0 where
  pub newest_lt : (id : String) (m : ℕ) → get r.lanes id ≡ some m → m < r.count
  pub newest_owner : (id : String) (m : ℕ) → get r.lanes id ≡ some m → r.owner m ≡ id
  pub newest_last :
      (id : String) (m k : ℕ) → get r.lanes id ≡ some m → k < r.count → r.owner k ≡ id → k ≤ m
  pub live : (id : String) (m : ℕ) → get r.lanes id ≡ some m → is_forgotten (r.phase m) ≡ false
  pub idle :
      (id : String) (k : ℕ)
      → get r.lanes id ≡ none
      → k < r.count
      → r.owner k ≡ id
      → finished (r.phase k) ≡ true
  pub linked_lt : (n m : ℕ) → n < r.count → r.after n ≡ some m → m < n
  pub linked_owner : (n m : ℕ) → n < r.count → r.after n ≡ some m → r.owner m ≡ r.owner n
  pub linked_last :
      (n m k : ℕ) → n < r.count → r.after n ≡ some m → k < n → r.owner k ≡ r.owner n → k ≤ m
  pub unlinked :
      (n k : ℕ)
      → n < r.count
      → r.after n ≡ none
      → k < n
      → r.owner k ≡ r.owner n
      → finished (r.phase k) ≡ true
  pub ordered :
      (n k : ℕ)
      → n < r.count
      → started (r.phase n) ≡ true
      → k < n
      → r.owner k ≡ r.owner n
      → finished (r.phase k) ≡ true

initial-Inv : Inv initial
unfolding get
initial-Inv = record {
  newest_lt = λ id m h. ground (arith, h);
  newest_owner = λ id m h. ground (arith, h);
  newest_last = λ id m k h lt o. absurd (omega arith);
  live = λ id m h. ground (arith, h);
  idle = λ id k h lt o. absurd (omega arith);
  linked_lt = λ n m lt h. absurd (omega arith);
  linked_owner = λ n m lt h. absurd (omega arith);
  linked_last = λ n m k lt h l o. absurd (omega arith);
  unlinked = λ n k lt h l o. absurd (omega arith);
  ordered = λ n k lt h l o. absurd (omega arith);
}

mutate-Inv : (r : Router) (id : String) → Inv r → Inv (mutate id r)
unfolding mutate
mutate-Inv r id v = record {
  newest_lt =
      λ x m h. ground (arith, h, get-set r.lanes id x r.count, eq_iff id x, v.newest_lt x m);
  newest_owner = λ x m h.
      ground
        (arith, h, get-set r.lanes id x r.count, eq_iff id x, v.newest_lt x m, v.newest_owner x m);
  newest_last = λ x m k h lt o. ground (
    arith,
    h,
    lt,
    o,
    get-set r.lanes id x r.count,
    eq_iff id x,
    v.newest_lt x m,
    v.newest_last x m k,
  );
  live = λ x m h.
      ground (arith, h, get-set r.lanes id x r.count, eq_iff id x, v.newest_lt x m, v.live x m);
  idle =
      λ x k h lt o. ground (arith, h, lt, o, get-set r.lanes id x r.count, eq_iff id x, v.idle x k);
  linked_lt = λ n m lt h. ground (arith, lt, h, v.linked_lt n m, v.newest_lt id m);
  linked_owner = λ n m lt h.
      ground
        (arith, lt, h, v.linked_lt n m, v.linked_owner n m, v.newest_lt id m, v.newest_owner id m);
  linked_last =
      λ n m k lt h l o. ground (arith, lt, h, l, o, v.linked_last n m k, v.newest_last id m k);
  unlinked = λ n k lt h l o. ground (arith, lt, h, l, o, v.unlinked n k, v.idle id k);
  ordered = λ n k lt h l o. ground (arith, lt, h, l, o, v.ordered n k);
}

finished-started : (p : Phase) → finished p ≡ true → started p ≡ true
finished-started Phase.waiting h = ground (arith, h)
finished-started Phase.running h = ground arith
finished-started (Phase.settled failed) h = ground arith
finished-started Phase.forgotten h = ground arith

-- A task whose `previous` has settled has only finished tasks of its session before it.
pub earlier_finished :
    (r : Router) (n k : ℕ)
    → Inv r
    → n < r.count
    → previous_settled r (r.after n) ≡ true
    → k < n
    → r.owner k ≡ r.owner n
    → finished (r.phase k) ≡ true
earlier_finished r n k v lt p l o = elim (Option-cases (r.after n)) [
  | inl e ↦ v.unlinked n k lt e l o
  | inr (m, e) ↦ ground (
    arith,
    e,
    p,
    lt,
    l,
    o,
    v.linked_lt n m,
    v.linked_owner n m,
    v.linked_last n m k,
    v.ordered m k,
    finished-started (r.phase m),
  )
]

start-Inv :
    (r : Router) (n : ℕ)
    → n < r.count
    → r.phase n ≡ Phase.waiting
    → previous_settled r (r.after n) ≡ true
    → Inv r
    → Inv (set_phase n Phase.running r)
unfolding set_phase
start-Inv r n lt w p v = record {
  newest_lt = v.newest_lt;
  newest_owner = v.newest_owner;
  newest_last = v.newest_last;
  linked_lt = v.linked_lt;
  linked_owner = v.linked_owner;
  linked_last = v.linked_last;
  live = λ x m h. ground (arith, v.live x m h);
  idle = λ x k h l o. ground (arith, w, v.idle x k h l o);
  unlinked = λ i k l h j o. ground (arith, w, v.unlinked i k l h j o);
  ordered = λ i k l h j o.
      ground (arith, w, lt, l, h, j, o, v.ordered i k, earlier_finished r n k v lt p);
}

settle-Inv :
    (r : Router) (n : ℕ) (failed : Bool)
    → n < r.count
    → r.phase n ≡ Phase.running
    → Inv r
    → Inv (set_phase n (Phase.settled failed) r)
unfolding set_phase
settle-Inv r n failed lt w v = record {
  newest_lt = v.newest_lt;
  newest_owner = v.newest_owner;
  newest_last = v.newest_last;
  linked_lt = v.linked_lt;
  linked_owner = v.linked_owner;
  linked_last = v.linked_last;
  live = λ x m h. ground (arith, v.live x m h);
  idle = λ x k h l o. ground (arith, w, v.idle x k h l o);
  unlinked = λ i k l h j o. ground (arith, w, v.unlinked i k l h j o);
  ordered = λ i k l h j o. ground (arith, w, lt, l, h, j, o, v.ordered i k);
}

forget-kept :
    (r : Router) (n m : ℕ) (x : String) → get (forget n r).lanes x ≡ some m → get r.lanes x ≡ some m
unfolding forget
forget-kept r n m x h = ground (arith, h, eq_iff (r.owner n) x, get-delete r.lanes (r.owner n) x)

forget-emptied :
    (r : Router) (n : ℕ) (x : String)
    → get (forget n r).lanes x ≡ none
    → (get r.lanes x ≡ none) ⊎ (get r.lanes (r.owner n) ≡ some n) × (r.owner n ≡ x)
unfolding forget
forget-emptied r n x h = elim (Option-cases (get r.lanes x)) [
  | inl e ↦ inl e
  | inr (m, e) ↦ inr (
    ground (arith, h, e, eq_iff (r.owner n) x, get-delete r.lanes (r.owner n) x),
    ground (arith, h, e, eq_iff (r.owner n) x, get-delete r.lanes (r.owner n) x),
  )
]

forget-live :
    (r : Router) (n : ℕ) (x : String) (m : ℕ)
    → Inv r
    → get r.lanes x ≡ some m
    → get (forget n r).lanes x ≡ some m
    → is_forgotten ((forget n r).phase m) ≡ false
unfolding forget
forget-live r n x m v e h = ground (
  arith,
  e,
  h,
  v.live x m,
  v.newest_owner x m,
  eq_iff (r.owner n) x,
  get-delete r.lanes (r.owner n) x,
)

forget-Inv :
    (r : Router) (n : ℕ) (failed : Bool)
    → n < r.count
    → r.phase n ≡ Phase.settled failed
    → Inv r
    → Inv (forget n r)
unfolding forget
forget-Inv r n failed lt w v = record {
  newest_lt = λ x m h. v.newest_lt x m (forget-kept r n m x h);
  newest_owner = λ x m h. v.newest_owner x m (forget-kept r n m x h);
  newest_last = λ x m k h l o. v.newest_last x m k (forget-kept r n m x h) l o;
  linked_lt = v.linked_lt;
  linked_owner = v.linked_owner;
  linked_last = v.linked_last;
  live = λ x m h. forget-live r n x m v (forget-kept r n m x h) h;
  idle = λ x k h l o. elim (forget-emptied r n x h) [
    | inl e ↦ ground (arith, w, v.idle x k e l o)
    | inr (e, own) ↦
        ground (arith, w, l, o, own, v.newest_last (r.owner n) n k e l, v.ordered n k lt)
  ];
  unlinked = λ i k l h j o. ground (arith, w, v.unlinked i k l h j o);
  ordered = λ i k l h j o. ground (arith, w, lt, l, h, j, o, v.ordered i k);
}

pub Turn-Inv : {r s : Router} → Turn r s → Inv r → Inv s
Turn-Inv {r} (Turn.call id) v = mutate-Inv r id v
Turn-Inv {r} (Turn.start n lt w p) v = start-Inv r n lt w p v
Turn-Inv {r} (Turn.finish n failed lt w) v = settle-Inv r n failed lt w v
Turn-Inv {r} (Turn.callback n failed lt w) v = forget-Inv r n failed lt w v

pub Reach-Inv : {r : Router} → Reach r → Inv r
Reach-Inv Reach.here = initial-Inv
Reach-Inv (Reach.next h st) = Turn-Inv st (Reach-Inv h)
