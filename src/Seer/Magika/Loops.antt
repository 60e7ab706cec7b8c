-- ===== src/Seer/Magika/Loops.antt =====
-- When the loops of SeerLib/src/Magika/MagikaModel.cpp stay within their arrays.
use deep_seer.Base.{
  ℕ, zero, suc, ◌+◌, ◌-◌, ◌*◌, ◌<◌, ◌≡◌, refl, ap, subst, ◌∙◌, List, [], ◌∷◌, ◌++◌, Option, none,
  some, map, arith, length, length-append, get_elem?, All, ◌>>=◌,
}
use deep_seer.Seer.Magika.Layers.{tabulate, grid, fold_range}

abbrev pub Succeeds : {A : Type 0} → Option A → Type 0
Succeeds {A} o = (a : A) × (o ≡ some a)

-- An array of so many elements.
abbrev pub Yields : {A : Type 0} → ℕ → Option (List A) → Type 0
Yields {A} n o = (xs : List A) × (o ≡ some xs) × (length xs ≡ n)

pub bind_lem :
    {A B : Type 0} (o : Option A) (f : A → Option B)
    → Succeeds o
    → ((a : A) → Succeeds (f a))
    → Succeeds (o >>= f)
bind_lem o f (a, e) g = let (b, h) = g a in (b, ap (λ x. x >>= f) e ∙ h)

pub elem_lem :
    {A : Type 0} (xs : List A) (n i : ℕ) → length xs ≡ n → i < n → Succeeds (get_elem? xs i)
elem_lem [] n i e h = absurd (omega arith)
elem_lem (x ∷ xs) n zero e h = (x, refl)
elem_lem (x ∷ xs) n (suc i) e h = elem_lem xs (n - 1) i (omega arith) (omega arith)

pub elem-All :
    {A : Type 0} (P : A → Type 0) (xs : List A) (i : ℕ) (v : A)
    → All P xs
    → get_elem? xs i ≡ some v
    → P v
elem-All P [] i v h e = cc
elem-All P (x ∷ xs) zero v h e = subst (λ o. elim o [ none ↦ Unit {0} | some y ↦ P y ]) e h.0
elem-All P (x ∷ xs) (suc i) v h e = elem-All P xs i v h.1 e

tabulate_lem :
    {A : Type 0} (n i : ℕ) (f : ℕ → Option A)
    → ((j : ℕ) → j < i + n → Succeeds (f j))
    → Yields n (tabulate n i f)
unfolding tabulate
tabulate_lem zero i f h = ([], refl, refl)
tabulate_lem (suc n) i f h =
    let (v, e) = h i (omega arith) in
    let (vs, k, l) = tabulate_lem n (suc i) f (λ j p. h j (omega (arith, p))) in
    (
      v ∷ vs,
      ap (λ o. o >>= λ x. tabulate n (suc i) f >>= λ xs. some (x ∷ xs)) e
          ∙ ap (λ o. o >>= λ xs. some (v ∷ xs)) k,
      ap suc l,
    )

grid_lem :
    {A : Type 0} (n m i : ℕ) (f : ℕ → ℕ → Option A)
    → ((j k : ℕ) → j < i + n → k < m → Succeeds (f j k))
    → Yields (n * m) (grid n m i f)
unfolding grid
grid_lem zero m i f h = ([], refl, omega arith)
grid_lem (suc n) m i f h =
    let (row, e, l) = tabulate_lem m 0 (f i) (λ k p. h i k (omega arith) (omega (arith, p))) in
    let (rest, g, k) = grid_lem n m (suc i) f (λ j c p q. h j c (omega (arith, p)) q) in
    (
      row ++ rest,
      ap (λ o. o >>= λ x. grid n m (suc i) f >>= λ xs. some (x ++ xs)) e
          ∙ ap (λ o. o >>= λ xs. some (row ++ xs)) g,
      grind (arith, length-append {0} row rest, l, k),
    )

fold_lem :
    {A : Type 0} (n i : ℕ) (f : ℕ → A → Option A) (a : A)
    → ((j : ℕ) (b : A) → j < i + n → Succeeds (f j b))
    → Succeeds (fold_range n i f a)
unfolding fold_range
fold_lem zero i f a h = (a, refl)
fold_lem (suc n) i f a h =
    bind_lem (f i a) (fold_range n (suc i) f) (h i a (omega arith))
      (λ b. fold_lem n (suc i) f b (λ j c p. h j c (omega (arith, p))))

pub read_lem :
    {A B : Type 0} (xs : List A) (n i : ℕ) (g : A → B)
    → length xs ≡ n
    → i < n
    → Succeeds (get_elem? xs i >>= λ v. some (g v))
read_lem xs n i g l p = let (v, e) = elem_lem xs n i l p in (g v, ap (λ o. o >>= λ x. some (g x)) e)

-- Element `c` of row `r`.
pub index_lem : (r c rows cols : ℕ) → r < rows → c < cols → r * cols + c < rows * cols
index_lem r c rows cols p q = grind arith

pub length-map : {A B : Type 0} (f : A → B) (xs : List A) → length (map f xs) ≡ length xs
length-map f [] = refl
length-map f (x ∷ xs) = ap suc (length-map f xs)

pub chain-Yields :
    {A B : Type 0} (n m : ℕ) (o : Option (List A)) (f : List A → Option (List B))
    → Yields n o
    → ((xs : List A) → length xs ≡ n → Yields m (f xs))
    → Yields m (o >>= f)
chain-Yields n m o f (xs, e, l) g = let (b, h, k) = g xs l in (b, ap (λ x. x >>= f) e ∙ h, k)

-- The same for loops that start at 0.
pub tabulate_all :
    {A : Type 0} (n : ℕ) (f : ℕ → Option A)
    → ((j : ℕ) → j < n → Succeeds (f j))
    → Yields n (tabulate n 0 f)
tabulate_all n f h = tabulate_lem n 0 f (λ j p. h j (omega (arith, p)))

pub grid_all :
    {A : Type 0} (n m : ℕ) (f : ℕ → ℕ → Option A)
    → ((j k : ℕ) → j < n → k < m → Succeeds (f j k))
    → Yields (n * m) (grid n m 0 f)
grid_all n m f h = grid_lem n m 0 f (λ j k p q. h j k (omega (arith, p)) q)

pub fold_all :
    {A : Type 0} (n : ℕ) (f : ℕ → A → Option A) (a : A)
    → ((j : ℕ) (b : A) → j < n → Succeeds (f j b))
    → Succeeds (fold_range n 0 f a)
fold_all n f a h = fold_lem n 0 f a (λ j b p. h j b (omega (arith, p)))

pub bind-Yields :
    {A B : Type 0} (n : ℕ) (o : Option A) (f : A → Option (List B))
    → Succeeds o
    → ((a : A) → Yields n (f a))
    → Yields n (o >>= f)
bind-Yields n o f (a, e) g = let (b, h, k) = g a in (b, ap (λ x. x >>= f) e ∙ h, k)

-- A step that succeeds, before a run whose result has a property.
pub run_lem :
    {A B : Type 0} {a : A} (o : Option A) (f : A → Option B) (P : B → Type 0)
    → o ≡ some a
    → (b : B) × (f a ≡ some b) × P b
    → (b : B) × ((o >>= f) ≡ some b) × P b
run_lem o f P e (b, h, p) = (b, ap (λ x. x >>= f) e ∙ h, p)
