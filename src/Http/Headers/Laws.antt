-- ===== src/Http/Headers/Laws.antt =====
-- `HeaderMap` against a function from names, equal up to case, to values.
use deep_seer.Base.{
  ◌≡◌, ◌↔◌, refl, ap, fun_ext, ◌∙◌, true, false, not, ◌&&◌, List, [], ◌∷◌, ◌++◌, arith, Option,
  none, some, All, if◌then◌else◌, codes, Bool-cases, inl, inr, Option-cases,
}
use deep_seer.Core.Buffer.{Bytes}
use deep_seer.Http.Headers.{HeaderMap, Entry, less, get, set, append, remove, empty}
use deep_seer.Http.Headers.Order.{
  same_name, less-same_name, less_trans, same_name-congr, same_name_refl, same_name_comm,
}

-- The entries stand in the order of the comparator, with no two equivalent names.
abbrev pub IsSorted : HeaderMap → Type 0
IsSorted [] = Unit
IsSorted ((k, v) ∷ m) = All (λ (e : Entry). less k e.0 ≡ true) m × IsSorted m

get-cons :
    (k v j : Bytes) (m : HeaderMap)
    → get ((k, v) ∷ m) j ≡ (if same_name k j then some v else get m j)
unfolding get
get-cons k v j m = rw (less-same_name k j)

pub differ_of_less : (k n : Bytes) → less k n ≡ true → same_name k n ≡ false
differ_of_less k n h = ground (arith, less-same_name k n)

-- What `set` leaves under each name.
pub get-set :
    (name value j : Bytes) (m : HeaderMap)
    → get (set name value m) j ≡ (if same_name name j then some value else get m j)
unfolding set
get-set name value j [] = get-cons name value j []
get-set name value j ((k, v) ∷ m) = elim (Bool-cases (less name k)) [
  | inl a ↦ rw a (get-cons name value j ((k, v) ∷ m))
  | inr a ↦ rw a (elim (Bool-cases (less k name)) [
    | inl b ↦
        rw (b, get-cons k v j (set name value m), get-cons k v j m, get-set name value j m)
          (ground (
            arith,
            differ_of_less k name b,
            same_name_comm k j,
            same_name_comm k name,
            same_name-congr name j k,
          ))
    | inr b ↦
        rw (b, get-cons k value j m, get-cons k v j m)
          (ground (arith, less-same_name k name, same_name-congr k name j))
  ])
]

-- Above a name there is no entry under it.
get_above :
    (k j : Bytes) (m : HeaderMap)
    → All (λ (e : Entry). less k e.0 ≡ true) m
    → same_name k j ≡ true
    → get m j ≡ none
get_above k j [] a h = unfold get in refl
get_above k j ((e, v) ∷ m) a h =
    rw (get-cons e v j m, get_above k j m a.1 h)
      (ground (arith, differ_of_less k e a.0, same_name-congr k j e, same_name_comm j e))

pub get-remove :
    (name j : Bytes) (m : HeaderMap)
    → IsSorted m
    → get (remove name m) j ≡ (if same_name name j then none else get m j)
unfolding remove
get-remove name j [] s = unfold get in ground arith
get-remove name j ((k, v) ∷ m) s = elim (Bool-cases (same_name k name)) [
  | inl e ↦
      rw (less-same_name k name, e, get-cons k v j m)
        (ground (arith, same_name-congr k name j, get_above k j m s.0))
  | inr e ↦
      rw
        (
          less-same_name k name,
          e,
          get-cons k v j (remove name m),
          get-cons k v j m,
          get-remove name j m s.1,
        )
        (ground (arith, same_name-congr name j k, same_name_comm k name, same_name_comm k j))
]

set_above :
    (k name value : Bytes) (m : HeaderMap)
    → less k name ≡ true
    → All (λ (e : Entry). less k e.0 ≡ true) m
    → All (λ (e : Entry). less k e.0 ≡ true) (set name value m)
unfolding set
set_above k name value [] h a = (h, tt)
set_above k name value ((e, v) ∷ m) h a = elim (Bool-cases (less name e)) [
  | inl x ↦ rw x (h, (a.0, a.1))
  | inr x ↦ rw x (elim (Bool-cases (less e name)) [
    | inl y ↦ rw y (a.0, set_above k name value m h a.1)
    | inr y ↦ rw y (a.0, a.1)
  ])
]

above_trans :
    (k n : Bytes) (m : HeaderMap)
    → less n k ≡ true
    → All (λ (e : Entry). less k e.0 ≡ true) m
    → All (λ (e : Entry). less n e.0 ≡ true) m
above_trans k n [] h a = tt
above_trans k n ((e, v) ∷ m) h a = (less_trans n k e h a.0, above_trans k n m h a.1)

pub set-IsSorted : (name value : Bytes) (m : HeaderMap) → IsSorted m → IsSorted (set name value m)
unfolding set
set-IsSorted name value [] s = (tt, tt)
set-IsSorted name value ((k, v) ∷ m) s = elim (Bool-cases (less name k)) [
  | inl x ↦ rw x ((x, above_trans k name m x s.0), (s.0, s.1))
  | inr x ↦ rw x (elim (Bool-cases (less k name)) [
    | inl y ↦ rw y (set_above k name value m y s.0, set-IsSorted name value m s.1)
    | inr y ↦ rw y (s.0, s.1)
  ])
]

remove_above :
    (k name : Bytes) (m : HeaderMap)
    → All (λ (e : Entry). less k e.0 ≡ true) m
    → All (λ (e : Entry). less k e.0 ≡ true) (remove name m)
unfolding remove
remove_above k name [] a = tt
remove_above k name ((e, v) ∷ m) a = elim (Bool-cases (not (less e name) && not (less name e))) [
  | inl x ↦ rw x a.1
  | inr x ↦ rw x (a.0, remove_above k name m a.1)
]

pub remove-IsSorted : (name : Bytes) (m : HeaderMap) → IsSorted m → IsSorted (remove name m)
unfolding remove
remove-IsSorted name [] s = tt
remove-IsSorted name ((k, v) ∷ m) s = elim (Bool-cases (not (less k name) && not (less name k))) [
  | inl x ↦ rw x s.1
  | inr x ↦ rw x (remove_above k name m s.0, remove-IsSorted name m s.1)
]

-- The calls that change a header map.
pub data Op : Type 0 where
  sets appends : Bytes → Bytes → Op
  removes : Bytes → Op

unfoldable pub step : HeaderMap → Op → HeaderMap
step m (sets n v) = set n v m
step m (appends n v) = append n v m
step m (removes n) = remove n m

unfoldable pub run : HeaderMap → List Op → HeaderMap
unfolding step
run m [] = m
run m (o ∷ os) = run (step m o) os

abbrev pub joined : Option Bytes → Bytes → Bytes
joined none v = v
joined (some w) v = w ++ codes ", " ++ v

-- The value under name `j` after a call, from the values before it.
abbrev pub spec_step : (Bytes → Option Bytes) → Op → Bytes → Option Bytes
spec_step f (sets n v) j = if same_name n j then some v else f j
spec_step f (appends n v) j = if same_name n j then some (joined (f n) v) else f j
spec_step f (removes n) j = if same_name n j then none else f j

abbrev pub spec_run : (Bytes → Option Bytes) → List Op → Bytes → Option Bytes
spec_run f [] j = f j
spec_run f (o ∷ os) j = spec_run (spec_step f o) os j

step-refines :
    (m : HeaderMap) (o : Op)
    → IsSorted m
    → ((j : Bytes) → get (step m o) j ≡ spec_step (get m) o j) × IsSorted (step m o)
unfolding step append
step-refines m (sets n v) s = (λ j. get-set n v j m, set-IsSorted n v m s)
step-refines m (appends n v) s = elim (Option-cases (get m n)) [
  | inl e ↦ rw (e, append) (λ j. get-set n v j m, set-IsSorted n v m s)
  | inr (w, e) ↦ rw (e, append) (λ j. get-set n (w ++ codes ", " ++ v) j m, set-IsSorted n _ m s)
]
step-refines m (removes n) s = (λ j. get-remove n j m s, remove-IsSorted n m s)

-- After any sequence of `set`, `append` and `remove` on a map in order, `get` under every name
-- returns what the calls under that name, up to case, have left there, and the map is in order.
pub headers_refine :
    (m : HeaderMap) (os : List Op)
    → IsSorted m
    → ((j : Bytes) → get (run m os) j ≡ spec_run (get m) os j) × IsSorted (run m os)
unfolding run
headers_refine m [] s = (λ j. refl, s)
headers_refine m (o ∷ os) s =
    let (here, sorted) = step-refines m o s in
    let (after, kept) = headers_refine (step m o) os sorted in
    (λ j. after j ∙ ap (λ f. spec_run f os j) (fun_ext here), kept)

-- `HeaderMap::empty` answers the opposite of its name: it is true exactly if some name has a value.
pub empty_inverted :
    (m : HeaderMap) → (empty m ≡ true) ↔ ((n : Bytes) × (v : Bytes) × (get m n ≡ some v))
unfolding empty
empty_inverted [] = (λ h. absurd (ground arith), λ h. absurd (unfold get in ground arith))
empty_inverted ((k, v) ∷ m) =
    (λ h. (k, v, get-cons k v k m ∙ rw (same_name_refl k)), λ h. ground arith)
