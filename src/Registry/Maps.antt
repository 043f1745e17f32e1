-- ===== src/Registry/Maps.antt =====
-- Maps from texts, and sets (the Map and Set of JavaScript).
use opencode_pty.Prelude.{
  ℕ, String, str_eq, Bool, true, false, Option, none, some, List, [], ◌∷◌, length, ◌==◌,
  if◌then◌else◌,
}

abbrev pub Map : Type 0 → Type 0
Map V = List (String × V)

unfoldable pub get : {V : Type 0} → Map V → String → Option V
get [] key = none
get ((k, v) ∷ entries) key = if str_eq k key then some v else get entries key

unfoldable pub delete : {V : Type 0} → Map V → String → Map V
delete [] key = []
delete ((k, v) ∷ entries) key =
    let rest = delete entries key in if str_eq k key then rest else (k, v) ∷ rest

unfoldable pub set : {V : Type 0} → Map V → String → V → Map V
unfolding delete
set entries key value = (key, value) ∷ delete entries key

-- `map.get(key) ?? 0`
abbrev or_zero : Option ℕ → ℕ
or_zero none = 0
or_zero (some n) = n

abbrev pub count_of : Map ℕ → String → ℕ
count_of entries key = or_zero (get entries key)

-- A set of texts, and a set of numbers.
unfoldable pub has : List String → String → Bool
has [] x = false
has (y ∷ ys) x = if str_eq y x then true else has ys x

unfoldable pub add : List String → String → List String
unfolding has
add xs x = if has xs x then xs else x ∷ xs

unfoldable pub remove : List String → String → List String
remove [] x = []
remove (y ∷ ys) x = let rest = remove ys x in if str_eq y x then rest else y ∷ rest

unfoldable pub has_number : List ℕ → ℕ → Bool
has_number [] n = false
has_number (m ∷ ms) n = if m == n then true else has_number ms n

unfoldable pub add_number : List ℕ → ℕ → List ℕ
unfolding has_number
add_number ns n = if has_number ns n then ns else n ∷ ns

unfoldable pub remove_number : List ℕ → ℕ → List ℕ
remove_number [] n = []
remove_number (m ∷ ms) n = let rest = remove_number ms n in if m == n then rest else m ∷ rest

-- `map.get(key) ?? new Set()`, and `map.get(key)?.size ?? 0`.
abbrev or_empty : {A : Type 0} → Option (List A) → List A
or_empty none = []
or_empty (some xs) = xs

abbrev pub set_of : {A : Type 0} → Map (List A) → String → List A
set_of entries key = or_empty (get entries key)

abbrev pub size_of : {A : Type 0} → Map (List A) → String → ℕ
size_of entries key = length (set_of entries key)

-- `if (!set?.size) map.delete(key)` after the set was changed in place.
abbrev pub put_set : {A : Type 0} → Map (List A) → String → List A → Map (List A)
put_set entries key [] = delete entries key
put_set entries key (x ∷ xs) = set entries key (x ∷ xs)
