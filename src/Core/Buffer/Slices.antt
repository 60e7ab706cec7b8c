-- ===== src/Core/Buffer/Slices.antt =====
-- The validity of slices, and the bytes of a run of slices under the loops of Core/Buffer.antt.
use deep_seer.Base.{
  ℕ, ◌≤◌, ◌≡◌, refl, sym, ap, ◌∙◌, ◌++◌, length, take, drop, arith, length-append, length-take,
  length-drop, drop-drop, drop-append_left, take_all,
}
use deep_seer.Core.Buffer.{
  Bytes, Slice, slice_data, slice_length, available, fill, commit_slice, drain_slice,
}

-- The three zones of a slice lie in order, and all that is readable was stored.
pub record IsValid (s : Slice) : Type 0 where
  pub read_le : s.read_pos ≤ s.write_pos
  pub write_le : s.write_pos ≤ s.capacity
  pub stored : s.write_pos ≤ length s.storage

pub length-slice_data : (s : Slice) → IsValid s → length (slice_data s) ≡ slice_length s
length-slice_data s v =
    omega (
      arith,
      length-drop s.read_pos (take s.write_pos s.storage),
      length-take s.write_pos s.storage,
    )

-- What is stored in the reservation and committed joins the end of the data.
pub slice_data-commit :
    (s : Slice) (n : ℕ) (bs : Bytes)
    → IsValid s
    → length bs ≡ n
    → slice_data (commit_slice n (fill bs s)) ≡ slice_data s ++ bs
slice_data-commit s n bs v e =
    ap (drop s.read_pos)
      (take_all _ _ (omega (arith, length-append (take s.write_pos s.storage) bs, cut)))
    ∙ drop-append_left s.read_pos (take s.write_pos s.storage) bs (omega (arith, cut))
  where
    cut : length (take s.write_pos s.storage) ≡ s.write_pos
    cut = omega (arith, length-take s.write_pos s.storage)

pub commit-IsValid :
    (s : Slice) (n : ℕ) (bs : Bytes)
    → IsValid s
    → length bs ≡ n
    → n ≤ available s
    → IsValid (commit_slice n (fill bs s))
commit-IsValid s n bs v e h = record {
  read_le = omega arith;
  write_le = omega arith;
  stored =
      omega
        (arith, length-append (take s.write_pos s.storage) bs, length-take s.write_pos s.storage);
}

pub slice_data-drain : (s : Slice) (n : ℕ) → slice_data (drain_slice n s) ≡ drop n (slice_data s)
slice_data-drain s n = sym (drop-drop n s.read_pos _ (take s.write_pos s.storage) refl)

pub drain-IsValid : (s : Slice) (n : ℕ) → IsValid s → n ≤ slice_length s → IsValid (drain_slice n s)
drain-IsValid s n v h = record {
  read_le = omega arith;
  write_le = omega arith;
  stored = omega arith;
}
