-- ===== src/Core/Buffer/Loops.antt =====
-- The loops of `Buffer::add` and `Buffer::drain` on a run of slices.
use deep_seer.Base.{
  ℕ, zero, suc, ◌≤◌, ◌<◌, ◌≡◌, refl, sym, ap, ◌∙◌, ◌⊎◌, inl, inr, false, List, [], ◌∷◌, ◌++◌,
  length, take, drop, min, max, arith, All, append_assoc, append-nil, length-append, length-take,
  length-drop, All-append, ◌==◌, ◌||◌, take-append-drop, Bool-cases,
}
use deep_seer.Core.Buffer.{
  Bytes, Slice, slice_data, available, fill, commit_slice, make_slice, default_capacity, is_empty,
  back_available, map_back, ensure_back, add_loop, bytes_of,
}
use deep_seer.Core.Buffer.Slices.{IsValid, slice_data-commit, commit-IsValid}

pub bytes_of-append : (xs ys : List Slice) → bytes_of (xs ++ ys) ≡ bytes_of xs ++ bytes_of ys
unfolding bytes_of
bytes_of-append [] ys = refl
bytes_of-append (s ∷ xs) ys =
    ap (◌++◌ (slice_data s)) (bytes_of-append xs ys)
    ∙ sym (append_assoc (slice_data s) (bytes_of xs) (bytes_of ys))

abbrev pub store : ℕ → Bytes → Slice → Slice
store n bs s = commit_slice n (fill bs s)

-- Storing in the last slice appends to the bytes of the run and keeps every slice valid.
pub map_back-store :
    (ss : List Slice) (n : ℕ) (bs : Bytes)
    → All IsValid ss
    → 0 < length ss
    → length bs ≡ n
    → n ≤ back_available ss
    → (bytes_of (map_back (store n bs) ss) ≡ bytes_of ss ++ bs)
      × All IsValid (map_back (store n bs) ss)
unfolding map_back bytes_of back_available
map_back-store [] n bs v p e h = absurd (omega arith)
map_back-store (s ∷ []) n bs v p e h = (
  append-nil _
      ∙ slice_data-commit s n bs v.0 e
      ∙ ap (λ d. d ++ bs) (sym (append-nil (slice_data s))),
  (commit-IsValid s n bs v.0 e h, tt),
)
map_back-store (s ∷ t ∷ ss) n bs v p e h =
    let (q, w) = map_back-store (t ∷ ss) n bs v.1 (omega arith) e h in
    (ap (◌++◌ (slice_data s)) q ∙ sym (append_assoc (slice_data s) _ bs), (v.0, w))

pub length-map_back : (f : Slice → Slice) (ss : List Slice) → length (map_back f ss) ≡ length ss
unfolding map_back
length-map_back f [] = refl
length-map_back f (s ∷ []) = refl
length-map_back f (s ∷ t ∷ ss) = ap suc (length-map_back f (t ∷ ss))

back_available-append : (ss : List Slice) (t : Slice) → back_available (ss ++ t ∷ []) ≡ available t
unfolding back_available
back_available-append [] t = refl
back_available-append (s ∷ []) t = refl
back_available-append (s ∷ u ∷ ss) t = back_available-append (u ∷ ss) t

-- What `add` and `reserve` find after they made sure of a slice with room.
pub record Ensured (n : ℕ) (ss grown : List Slice) : Type 0 where
  pub same_bytes : bytes_of grown ≡ bytes_of ss
  pub valid : All IsValid grown
  pub room : 0 < back_available grown
  pub present : 0 < length grown
  pub longer : length ss ≤ length grown

make_slice-IsValid : (n : ℕ) → IsValid (make_slice n)
make_slice-IsValid n = record {
  read_le = omega arith;
  write_le = omega arith;
  stored = omega arith;
}

Ensured-grown :
    (n : ℕ) (ss : List Slice)
    → All IsValid ss
    → Ensured n ss (ss ++ make_slice (max n default_capacity) ∷ [])
unfolding bytes_of
Ensured-grown n ss v = record {
  same_bytes = bytes_of-append ss _ ∙ append-nil (bytes_of ss);
  valid = All-append IsValid ss _ v (make_slice-IsValid _, tt);
  room = omega (arith, back_available-append ss (make_slice (max n default_capacity)));
  present = omega (arith, length-append ss (make_slice (max n default_capacity) ∷ []));
  longer = omega (arith, length-append ss (make_slice (max n default_capacity) ∷ []));
}

Ensured-kept :
    (n : ℕ) (ss : List Slice)
    → All IsValid ss
    → (is_empty ss || back_available ss == 0) ≡ false
    → Ensured n ss ss
Ensured-kept n [] v h = absurd (ground arith)
Ensured-kept n (s ∷ ss) v h = record {
  same_bytes = refl;
  valid = v;
  room = ground arith;
  present = omega arith;
  longer = omega arith;
}

pub ensure_back-Ensured :
    (n : ℕ) (ss : List Slice) → All IsValid ss → Ensured n ss (ensure_back n ss)
unfolding ensure_back
ensure_back-Ensured n ss v = elim (Bool-cases (is_empty ss || back_available ss == 0)) [
  | inl e ↦ rw e (Ensured-grown n ss v)
  | inr e ↦ rw e (Ensured-kept n ss v e)
]

-- `rounds` rounds are enough for as many bytes: each stores one at least.
pub add_loop_lem :
    (rounds : ℕ) (ss : List Slice) (bs : Bytes)
    → All IsValid ss
    → length bs ≤ rounds
    → (bytes_of (add_loop rounds ss bs) ≡ bytes_of ss ++ bs) × All IsValid (add_loop rounds ss bs)
unfolding add_loop
add_loop_lem zero ss [] v h = (sym (append-nil (bytes_of ss)), v)
add_loop_lem zero ss (x ∷ xs) v h = absurd (omega arith)
add_loop_lem (suc rounds) ss [] v h = (sym (append-nil (bytes_of ss)), v)
add_loop_lem (suc rounds) ss (x ∷ xs) v h =
    let bs : Bytes = x ∷ xs in
    let grown : List Slice = ensure_back (length bs) ss in
    let en : Ensured (length bs) ss grown = ensure_back-Ensured (length bs) ss v in
    let n : ℕ = min (back_available grown) (length bs) in
    let st =
      map_back-store grown n (take n bs) en.valid en.present (omega (arith, length-take n bs))
        (omega arith) in
    let ih =
      add_loop_lem rounds (map_back (store n (take n bs)) grown) (drop n bs) st.1
        (omega (arith, length-drop n bs, en.room)) in
    (
      ih.0
          ∙ ap (λ d. d ++ drop n bs) (st.0 ∙ ap (λ d. d ++ take n bs) en.same_bytes)
          ∙ append_assoc (bytes_of ss) (take n bs) (drop n bs)
          ∙ ap (◌++◌ (bytes_of ss)) (take-append-drop n bs),
      ih.1,
    )

-- The loop touches nothing before the last slice, so it passes over drained slices.
map_back-cons :
    (f : Slice → Slice) (s : Slice) (ss : List Slice)
    → 0 < length ss
    → map_back f (s ∷ ss) ≡ s ∷ map_back f ss
unfolding map_back
map_back-cons f s [] p = absurd (omega arith)
map_back-cons f s (t ∷ ss) p = refl

back_available-cons :
    (s : Slice) (ss : List Slice) → 0 < length ss → back_available (s ∷ ss) ≡ back_available ss
unfolding back_available
back_available-cons s [] p = absurd (omega arith)
back_available-cons s (t ∷ ss) p = refl

ensure_back-cons :
    (n : ℕ) (s : Slice) (ss : List Slice)
    → 0 < length ss
    → ensure_back n (s ∷ ss) ≡ s ∷ ensure_back n ss
unfolding ensure_back
ensure_back-cons n s [] p = absurd (omega arith)
ensure_back-cons n s (t ∷ ss) p = rw (back_available-cons s (t ∷ ss) p) (ground arith)

add_loop-cons :
    (rounds : ℕ) (s : Slice) (ss : List Slice) (bs : Bytes)
    → All IsValid ss
    → 0 < length ss
    → length bs ≤ rounds
    → add_loop rounds (s ∷ ss) bs ≡ s ∷ add_loop rounds ss bs
unfolding add_loop
add_loop-cons zero s ss bs v p h = refl
add_loop-cons (suc rounds) s ss [] v p h = refl
add_loop-cons (suc rounds) s ss (x ∷ xs) v p h =
    let bs : Bytes = x ∷ xs in
    let grown : List Slice = ensure_back (length bs) ss in
    let en : Ensured (length bs) ss grown = ensure_back-Ensured (length bs) ss v in
    let n : ℕ = min (back_available grown) (length bs) in
    let st =
      map_back-store grown n (take n bs) en.valid en.present (omega (arith, length-take n bs))
        (omega arith) in
    rw
      (
        ensure_back-cons (length bs) s ss p,
        back_available-cons s grown en.present,
        map_back-cons (store n (take n bs)) s grown en.present,
      )
      (add_loop-cons rounds s (map_back (store n (take n bs)) grown) (drop n bs) st.1
        (omega (arith, length-map_back (store n (take n bs)) grown, en.present))
        (omega (arith, length-drop n bs, en.room)))

pub drop-add_loop :
    (front : ℕ) (ss : List Slice) (bs : Bytes)
    → All IsValid ss
    → (front ≡ 0) ⊎ (front < length ss)
    → drop front (add_loop (length bs) ss bs) ≡ add_loop (length bs) (drop front ss) bs
drop-add_loop zero ss bs v f = refl
drop-add_loop (suc front) [] bs v f = absurd (omega arith)
drop-add_loop (suc front) (s ∷ ss) bs v f =
    rw (add_loop-cons (length bs) s ss bs v.1 (omega arith) le_self)
      (drop-add_loop front ss bs v.1 (omega arith))
  where
    le_self : length bs ≤ length bs
    le_self = omega arith

pub le-length-add_loop :
    (rounds : ℕ) (ss : List Slice) (bs : Bytes)
    → All IsValid ss
    → length bs ≤ rounds
    → length ss ≤ length (add_loop rounds ss bs)
unfolding add_loop
le-length-add_loop zero ss bs v h = omega arith
le-length-add_loop (suc rounds) ss [] v h = omega arith
le-length-add_loop (suc rounds) ss (x ∷ xs) v h =
    let bs : Bytes = x ∷ xs in
    let grown : List Slice = ensure_back (length bs) ss in
    let en : Ensured (length bs) ss grown = ensure_back-Ensured (length bs) ss v in
    let n : ℕ = min (back_available grown) (length bs) in
    let st =
      map_back-store grown n (take n bs) en.valid en.present (omega (arith, length-take n bs))
        (omega arith) in
    omega (
      arith,
      en.longer,
      en.room,
      length-map_back (store n (take n bs)) grown,
      le-length-add_loop rounds (map_back (store n (take n bs)) grown) (drop n bs) st.1
          (omega (arith, length-drop n bs, en.room)),
    )

-- The same for the single store of `commit`.
pub drop-map_back :
    (front : ℕ) (f : Slice → Slice) (ss : List Slice)
    → (front ≡ 0) ⊎ (front < length ss)
    → drop front (map_back f ss) ≡ map_back f (drop front ss)
drop-map_back zero f ss h = refl
drop-map_back (suc front) f [] h = absurd (omega arith)
drop-map_back (suc front) f (s ∷ ss) h =
    rw (map_back-cons f s ss (omega arith)) (drop-map_back front f ss (omega arith))

pub back_available-drop :
    (front : ℕ) (ss : List Slice)
    → (front ≡ 0) ⊎ (front < length ss)
    → back_available (drop front ss) ≡ back_available ss
back_available-drop zero ss h = refl
back_available-drop (suc front) [] h = absurd (omega arith)
back_available-drop (suc front) (s ∷ ss) h =
    back_available-drop front ss (omega arith) ∙ sym (back_available-cons s ss (omega arith))

pub drop-ensure_back :
    (front n : ℕ) (ss : List Slice)
    → (front ≡ 0) ⊎ (front < length ss)
    → drop front (ensure_back n ss) ≡ ensure_back n (drop front ss)
drop-ensure_back zero n ss h = refl
drop-ensure_back (suc front) n [] h = absurd (omega arith)
drop-ensure_back (suc front) n (s ∷ ss) h =
    rw (ensure_back-cons n s ss (omega arith)) (drop-ensure_back front n ss (omega arith))
