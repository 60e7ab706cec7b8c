-- ===== src/Http/Headers/Order.antt =====
-- `CaseInsensitiveLess` is a strict order whose equivalence is equality up to case.
use deep_seer.Base.{
  ℕ, ◌≡◌, refl, ap, Bool, true, false, not, ◌&&◌, [], ◌∷◌, map, arith, ltb, to_lower, same,
  same_iff, if◌then◌else◌, ◌==◌,
}
use deep_seer.Core.Buffer.{Bytes}
use deep_seer.Http.Headers.{less}

-- Equality of names up to case.
abbrev pub same_name : Bytes → Bytes → Bool
same_name a b = same (map to_lower a) (map to_lower b)

-- No byte is looked at twice: the comparison is one of the folded bytes.
compare_byte : ℕ → ℕ → Bool → Bool
compare_byte a b rest = if ltb a b then true else if ltb b a then false else rest

compare_byte-less :
    (x y : ℕ) (xs ys : Bytes)
    → less (x ∷ xs) (y ∷ ys) ≡ compare_byte (to_lower x) (to_lower y) (less xs ys)
unfolding less compare_byte
compare_byte-less x y xs ys = refl

equivalent_byte :
    (a b : ℕ) (p q r : Bool)
    → (not p && not q) ≡ r
    → (not (compare_byte a b p) && not (compare_byte b a q)) ≡ (a == b && r)
unfolding compare_byte
equivalent_byte a b p q r h = ground arith

-- Two names are equivalent under the comparator exactly if they are equal up to case.
pub less-same_name : (a b : Bytes) → (not (less a b) && not (less b a)) ≡ same_name a b
unfolding same
less-same_name [] [] = unfold less in refl
less-same_name [] (y ∷ ys) = unfold less in refl
less-same_name (x ∷ xs) [] = unfold less in refl
less-same_name (x ∷ xs) (y ∷ ys) =
    rw (compare_byte-less x y xs ys, compare_byte-less y x ys xs)
      (equivalent_byte (to_lower x) (to_lower y) (less xs ys) (less ys xs) _ (less-same_name xs ys))

trans_byte :
    (a b c : ℕ) (p q r : Bool)
    → (p ≡ true → q ≡ true → r ≡ true)
    → compare_byte a b p ≡ true
    → compare_byte b c q ≡ true
    → compare_byte a c r ≡ true
unfolding compare_byte
trans_byte a b c p q r h e f = ground arith

pub less_trans : (a b c : Bytes) → less a b ≡ true → less b c ≡ true → less a c ≡ true
unfolding less compare_byte
less_trans [] [] c h k = k
less_trans [] (y ∷ ys) [] h k = k
less_trans [] (y ∷ ys) (z ∷ zs) h k = refl
less_trans (x ∷ xs) [] c h k = absurd (ground arith)
less_trans (x ∷ xs) (y ∷ ys) [] h k = k
less_trans (x ∷ xs) (y ∷ ys) (z ∷ zs) h k =
    trans_byte (to_lower x) (to_lower y) (to_lower z) (less xs ys) (less ys zs) (less xs zs)
      (less_trans xs ys zs) h k

irrefl_byte : (a : ℕ) (p : Bool) → p ≡ false → compare_byte a a p ≡ false
unfolding compare_byte
irrefl_byte a p h = ground arith

pub less_irrefl : (a : Bytes) → less a a ≡ false
less_irrefl [] = unfold less in refl
less_irrefl (x ∷ xs) =
    rw (compare_byte-less x x xs xs) (irrefl_byte (to_lower x) (less xs xs) (less_irrefl xs))

-- Names that are equal up to case are equal to the same names.
pub same_name-congr : (a b c : Bytes) → same_name a b ≡ true → same_name a c ≡ same_name b c
same_name-congr a b c h = ap (λ x. same x (map to_lower c)) ((same_iff _ _).0 h)

pub same_name_refl : (a : Bytes) → same_name a a ≡ true
same_name_refl a = (same_iff _ _).1 refl

pub same_name_comm : (a b : Bytes) → same_name a b ≡ same_name b a
same_name_comm a b =
    ground (
      arith,
      same_iff (map to_lower a) (map to_lower b),
      same_iff (map to_lower b) (map to_lower a),
    )
