-- ===== src/Core/Buffer/Drains.antt =====
-- The loop of `Buffer::drain`.
use deep_seer.Base.{
  ℕ, suc, ◌+◌, ◌-◌, ◌≤◌, ◌<◌, ◌≡◌, refl, sym, ap, ◌∙◌, inl, inr, List, [], ◌∷◌, ◌++◌, length, drop,
  min, arith, All, length-append, drop-append_right, drop-append_left, ◌==◌, Bool-cases, drop_all,
  ==_iff,
}
use deep_seer.Core.Buffer.{Slice, slice_data, slice_length, drain_slice, drain_loop, bytes_of}
use deep_seer.Core.Buffer.Slices.{IsValid, length-slice_data, slice_data-drain, drain-IsValid}

-- A slice that holds data.
abbrev pub IsFilled : Slice → Type 0
IsFilled s = 0 < slice_length s

pub record Drained (n : ℕ) (ss rest : List Slice) (moved left : ℕ) : Type 0 where
  pub dropped : bytes_of (drop moved rest) ≡ drop n (bytes_of ss)
  pub valid : All IsValid rest
  pub same_length : length rest ≡ length ss
  pub in_range : moved ≤ length rest
  pub taken : n ≡ left + min n (length (bytes_of ss))
  pub filled : All IsFilled ss → All IsFilled (drop moved rest)

-- Nothing to drain.
Drained-zero : (ss : List Slice) (n : ℕ) → All IsValid ss → n ≡ 0 → Drained n ss ss 0 0
Drained-zero ss n v e = record {
  dropped = ap (λ k. drop k (bytes_of ss)) (sym e);
  valid = v;
  same_length = refl;
  in_range = omega arith;
  taken = omega arith;
  filled = λ f. f;
}

length-bytes_of-cons :
    (s : Slice) (ss : List Slice)
    → IsValid s
    → length (bytes_of (s ∷ ss)) ≡ slice_length s + length (bytes_of ss)
unfolding bytes_of
length-bytes_of-cons s ss v =
    omega (arith, length-append (slice_data s) (bytes_of ss), length-slice_data s v)

-- The front slice is used up and the loop goes on behind it.
Drained-next :
    (s : Slice) (ss rest : List Slice) (n t moved left : ℕ)
    → IsValid s
    → t ≡ slice_length s
    → slice_length s ≤ n
    → Drained (n - t) ss rest moved left
    → Drained n (s ∷ ss) (drain_slice t s ∷ rest) (suc moved) left
unfolding bytes_of
Drained-next s ss rest n t moved left v e h d = record {
  dropped =
      d.dropped
      ∙ ap (λ k. drop k (bytes_of ss)) (omega (arith, length-slice_data s v))
      ∙ sym
          (drop-append_right n (slice_data s) (bytes_of ss) (omega (arith, length-slice_data s v)));
  valid = (drain-IsValid s t v (omega arith), d.valid);
  same_length = ap suc d.same_length;
  in_range = omega (arith, d.in_range);
  taken = omega (arith, d.taken, length-append (slice_data s) (bytes_of ss), length-slice_data s v);
  filled = λ f. d.filled f.1;
}

-- The front slice has more than was asked for.
Drained-here :
    (s : Slice) (ss : List Slice) (n t : ℕ)
    → IsValid s
    → All IsValid ss
    → t ≡ n
    → n < slice_length s
    → Drained n (s ∷ ss) (drain_slice t s ∷ ss) 0 (n - t)
unfolding bytes_of
Drained-here s ss n t v vs e h = record {
  dropped =
      ap (λ d. d ++ bytes_of ss) (slice_data-drain s t ∙ ap (λ k. drop k (slice_data s)) e)
      ∙ sym
          (drop-append_left n (slice_data s) (bytes_of ss) (omega (arith, length-slice_data s v)));
  valid = (drain-IsValid s t v (omega arith), vs);
  same_length = refl;
  in_range = omega arith;
  taken = omega (arith, length-append (slice_data s) (bytes_of ss), length-slice_data s v);
  filled = λ f. (omega arith, f.1);
}

pub drain_loop-Drained :
    (ss : List Slice) (n : ℕ)
    → All IsValid ss
    → Drained n ss (drain_loop ss n).0 (drain_loop ss n).1 (drain_loop ss n).2
unfolding drain_loop bytes_of
drain_loop-Drained [] n v = record {
  dropped = sym (drop_all n [] (omega arith));
  valid = tt;
  same_length = refl;
  in_range = omega arith;
  taken = omega arith;
  filled = λ f. tt;
}
drain_loop-Drained (s ∷ ss) n v = elim (Bool-cases (n == 0)) [
  | inl z ↦ rw z (Drained-zero (s ∷ ss) n v ((==_iff n 0).0 z))
  | inr z ↦ rw z (elim (Bool-cases (slice_length (drain_slice (min n (slice_length s)) s) == 0)) [
    | inl e ↦ rw e (
        Drained-next s ss _ n _ _ _ v.0 (ground arith) (ground arith) (drain_loop-Drained ss _ v.1))
    | inr e ↦ rw e (Drained-here s ss n _ v.0 v.1 (ground arith) (ground arith))
  ])
]
