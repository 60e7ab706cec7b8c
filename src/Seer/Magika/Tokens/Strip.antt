-- ===== src/Seer/Magika/Tokens/Strip.antt =====
-- The whitespace loops of `MagikaModel::extractInputTokens`, as functions on the text.
use deep_seer.Base.{
  ℕ, zero, suc, ◌≤◌, ◌<◌, ◌≡◌, refl, sym, ap, ◌∙◌, inl, inr, Bool, true, false, [], ◌∷◌, ◌++◌, some,
  arith, if◌then◌else◌, Bool-cases, length, length-take, take, drop, get_elem?, ◌>>=◌,
}
use deep_seer.Core.Buffer.{Bytes, is_empty}
use deep_seer.Seer.Magika.Tokens.{is_whitespace, beg_start, end_pos}

-- The text without leading, and without trailing whitespace.
unfoldable pub strip_left : Bytes → Bytes
strip_left [] = []
strip_left (b ∷ bs) = if is_whitespace b then strip_left bs else b ∷ bs

unfoldable pub strip_right : Bytes → Bytes
strip_right [] = []
strip_right (b ∷ bs) =
    let rest = strip_right bs in
    if is_whitespace b then (if is_empty rest then [] else b ∷ rest) else b ∷ rest

pub strip_left_lem : (bs : Bytes) → strip_left bs ≡ drop (beg_start bs) bs
unfolding strip_left beg_start
strip_left_lem [] = refl
strip_left_lem (b ∷ bs) = elim (Bool-cases (is_whitespace b)) [
  | inl e ↦ rw e (strip_left_lem bs)
  | inr e ↦ rw e
]

pub beg_start-le : (bs : Bytes) → beg_start bs ≤ length bs
unfolding beg_start
beg_start-le [] = omega arith
beg_start-le (b ∷ bs) = ground (arith, beg_start-le bs)

elem_at :
    (k : ℕ) (p : Bytes)
    → k < length p
    → (b : ℕ) × (get_elem? p k ≡ some b) × (take (suc k) p ≡ take k p ++ b ∷ [])
elem_at k [] h = absurd (omega arith)
elem_at zero (x ∷ p) h = (x, refl, refl)
elem_at (suc k) (x ∷ p) h = let (b, e, t) = elem_at k p (omega arith) in (b, e, ap (x ∷◌) t)

strip_right-snoc :
    (xs : Bytes) (b : ℕ)
    → strip_right (xs ++ b ∷ []) ≡ (if is_whitespace b then strip_right xs else xs ++ b ∷ [])
unfolding strip_right
strip_right-snoc [] b = ground arith
strip_right-snoc (x ∷ xs) b = elim (Bool-cases (is_whitespace b)) [
  | inl e ↦ rw (strip_right-snoc xs b, e)
  | inr e ↦ rw (strip_right-snoc xs b, e) (kept xs)
]
  where
    kept :
        (ys : Bytes)
        → (if is_whitespace x
            then (if is_empty (ys ++ b ∷ []) then [] else x ∷ (ys ++ b ∷ []))
            else x ∷ (ys ++ b ∷ []))
          ≡ x ∷ (ys ++ b ∷ [])
    kept [] = ground arith
    kept (y ∷ ys) = ground arith

pub end_pos_lem :
    (p : Bytes) (k : ℕ) → k ≤ length p → end_pos p k ≡ some (length (strip_right (take k p)))
unfolding end_pos strip_right
end_pos_lem p zero h = refl
end_pos_lem p (suc k) h =
    let (b, e, t) = elem_at k p (omega arith) in
    let whole : length (take (suc k) p) ≡ suc k = omega (arith, h, length-take {0} (suc k) p) in
    ap (λ o. o >>= λ c. if is_whitespace c then end_pos p k else some (suc k)) e
    ∙ ap (λ o. if is_whitespace b then o else some (suc k)) (end_pos_lem p k (omega arith))
    ∙ branches (is_whitespace b) (length (strip_right (take k p))) (suc k)
    ∙ ap (λ n. some (if is_whitespace b then length (strip_right (take k p)) else n))
        (sym whole ∙ ap length t)
    ∙ sym (ap some (measured (is_whitespace b) (strip_right (take k p)) (take k p ++ b ∷ [])))
    ∙ sym (ap (λ x. some (length x)) (ap strip_right t ∙ strip_right-snoc (take k p) b))
  where
    branches : (f : Bool) (m n : ℕ) → (if f then some m else some n) ≡ some (if f then m else n)
    branches true m n = refl
    branches false m n = refl

    measured :
        (f : Bool) (xs ys : Bytes)
        → length (if f then xs else ys) ≡ (if f then length xs else length ys)
    measured true xs ys = refl
    measured false xs ys = refl

pub strip_right-take : (p : Bytes) → strip_right p ≡ take (length (strip_right p)) p
unfolding strip_right
strip_right-take [] = refl
strip_right-take (b ∷ bs) = go (is_whitespace b) (strip_right bs) (strip_right-take bs)
  where
    go :
        (f : Bool) (rest : Bytes)
        → rest ≡ take (length rest) bs
        → (if f then (if is_empty rest then [] else b ∷ rest) else b ∷ rest)
          ≡ take
              (length (if f then (if is_empty rest then [] else b ∷ rest) else b ∷ rest))
              (b ∷ bs)
    go true [] h = refl
    go true (x ∷ rest) h = ap (b ∷◌) h
    go false rest h = ap (b ∷◌) h
