-- ===== src/Http/Headers.antt =====
-- DeepSeerLib/include/DeepSeer/Http/HeaderMap.hpp. `std::map` is a list of entries in the order of
-- its comparator; an assignment under an equivalent name keeps the name that is stored.
pub mod Order
pub mod Laws
use deep_seer.Base.{
  ℕ, zero, suc, ◌≡◌, Bool, true, false, not, ◌&&◌, List, [], ◌∷◌, ◌++◌, Option, none, some, length,
  ltb, ◌==◌, if◌then◌else◌, codes, to_lower, stoull,
}
use deep_seer.Core.Buffer.{Bytes}

abbrev pub Entry : Type 0
Entry = Bytes × Bytes

abbrev pub HeaderMap : Type 0
HeaderMap = List Entry

-- `CaseInsensitiveLess`.
unfoldable pub less : Bytes → Bytes → Bool
less [] [] = false
less [] (y ∷ ys) = true
less (x ∷ xs) [] = false
less (x ∷ xs) (y ∷ ys) =
    if ltb (to_lower x) (to_lower y)
    then true
    else if ltb (to_lower y) (to_lower x)
    then false
    else less xs ys

-- `headers_.find(name)`: the value of the entry with an equivalent name.
unfoldable pub get : HeaderMap → Bytes → Option Bytes
unfolding less
get [] name = none
get ((k, v) ∷ m) name = if not (less k name) && not (less name k) then some v else get m name

-- `HeaderMap::has`.
unfoldable pub has : HeaderMap → Bytes → Bool
unfolding get
has m name = elim (get m name) [ none ↦ false | some v ↦ true ]

-- `HeaderMap::set`.
unfoldable pub set : Bytes → Bytes → HeaderMap → HeaderMap
unfolding less
set name value [] = (name, value) ∷ []
set name value ((k, v) ∷ m) =
    if less name k
    then (name, value) ∷ (k, v) ∷ m
    else if less k name
    then (k, v) ∷ set name value m
    else (k, value) ∷ m

-- `HeaderMap::append`.
unfoldable pub append : Bytes → Bytes → HeaderMap → HeaderMap
unfolding get set
append name value m = elim (get m name) [
  | some v ↦ set name (v ++ codes ", " ++ value) m
  | none ↦ set name value m
]

-- `HeaderMap::remove`.
unfoldable pub remove : Bytes → HeaderMap → HeaderMap
unfolding less
remove name [] = []
remove name ((k, v) ∷ m) =
    if not (less k name) && not (less name k) then m else (k, v) ∷ remove name m

-- `HeaderMap::contentLength`.
unfoldable pub content_length : HeaderMap → Option ℕ
unfolding get stoull
content_length m = elim (get m (codes "Content-Length")) [ none ↦ none | some v ↦ stoull v ]

-- `HeaderMap::size`.
abbrev pub size : HeaderMap → ℕ
size m = length m

-- `HeaderMap::empty`: the size, converted to `bool`.
unfoldable pub empty : HeaderMap → Bool
empty m = not (size m == 0)
