-- ===== src/Registry/MapLaws.antt =====
-- What a map holds after `set` and `delete`.
use opencode_pty.Prelude.{
  ℕ, ◌-◌, ◌≤◌, String, str_eq, eq_iff, none, some, [], ◌∷◌, ◌≡◌, arith, length, if◌then◌else◌,
}
use opencode_pty.Registry.Maps.{Map, get, set, delete, count_of}
use opencode_pty.Registry.Input.{subtract}

module _ {V : Type 0} where
  pub get-delete :
      (entries : Map V) (key other : String)
      → get (delete entries key) other ≡ (if str_eq key other then none else get entries other)
  unfolding get delete
  get-delete [] key other = ground arith
  get-delete ((k, v) ∷ entries) key other =
      ground (arith, eq_iff k key, eq_iff k other, eq_iff key other, get-delete entries key other)

  pub get-set :
      (entries : Map V) (key other : String) (value : V)
      → get (set entries key value) other
        ≡ (if str_eq key other then some value else get entries other)
  unfolding get set
  get-set entries key other value = ground (arith, get-delete entries key other)

  pub length-delete :
      (entries : Map V) (key : String) → length (delete entries key) ≤ length entries
  unfolding delete
  length-delete [] key = ground arith
  length-delete ((k, v) ∷ entries) key = ground (arith, length-delete entries key)

pub count_of-set :
    (entries : Map ℕ) (key other : String) (n : ℕ)
    → count_of (set entries key n) other ≡ (if str_eq key other then n else count_of entries other)
count_of-set entries key other n = ground (arith, get-set entries key other n)

pub count_of-subtract :
    (entries : Map ℕ) (key other : String) (n : ℕ)
    → count_of (subtract entries key n) other
      ≡ (if str_eq key other then count_of entries other - n else count_of entries other)
unfolding subtract
count_of-subtract entries key other n = ground (
  arith,
  eq_iff key other,
  get-set entries key other (count_of entries key - n),
  get-delete entries key other,
)
