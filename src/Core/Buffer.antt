-- ===== src/Core/Buffer.antt =====
-- DeepSeerLib/src/Core/Buffer.cpp and DeepSeerLib/include/DeepSeer/Core/Buffer.hpp: `Slice` and
-- `Buffer`. The storage of a slice is the list of the bytes stored so far; what lies behind them is
-- never read. Sizes count bytes in memory and do not wrap.
pub mod Slices
pub mod Loops
pub mod Drains
pub mod Laws
pub mod Filled
pub mod Refinement
use deep_seer.Base.{
  ℕ, zero, suc, ◌+◌, ◌-◌, ◌*◌, ◌≡◌, Bool, true, false, ◌||◌, List, [], ◌∷◌, ◌++◌, length, take,
  drop, min, max, ◌==◌, ltb, leb, if◌then◌else◌,
}

abbrev pub Bytes : Type 0
Bytes = List ℕ

-- `Slice::kDefaultCapacity`.
abbrev pub default_capacity : ℕ
default_capacity = 16384

pub record Slice : Type 0 where
  pub storage : Bytes
  pub capacity : ℕ
  pub read_pos : ℕ
  pub write_pos : ℕ

-- `Slice::Slice(size_t)`.
abbrev pub make_slice : ℕ → Slice
make_slice n = record { storage = []; capacity = n; read_pos = 0; write_pos = 0 }

abbrev pub slice_data : Slice → Bytes
slice_data s = drop s.read_pos (take s.write_pos s.storage)

abbrev pub slice_length : Slice → ℕ
slice_length s = s.write_pos - s.read_pos

abbrev pub available : Slice → ℕ
available s = s.capacity - s.write_pos

-- A write through the span that `Slice::reservation` returns.
abbrev pub fill : Bytes → Slice → Slice
fill bs s = record s { storage = take s.write_pos s.storage ++ bs }

-- `Slice::commit`; its assertion is `IsValid.write_le` of Slices after the call.
abbrev pub commit_slice : ℕ → Slice → Slice
commit_slice n s = record s { write_pos = s.write_pos + n }

-- `Slice::drain`; its assertion is `IsValid.read_le` of Slices after the call.
abbrev pub drain_slice : ℕ → Slice → Slice
drain_slice n s = record s { read_pos = s.read_pos + n }

pub record Buffer : Type 0 where
  pub slices : List Slice
  pub total_length : ℕ
  pub front_slice : ℕ

abbrev pub empty_buffer : Buffer
empty_buffer = record { slices = []; total_length = 0; front_slice = 0 }

-- `slices_.back().available()`, 0 with no slice.
unfoldable pub back_available : List Slice → ℕ
back_available [] = 0
back_available (s ∷ []) = available s
back_available (s ∷ t ∷ ss) = back_available (t ∷ ss)

unfoldable pub map_back : (Slice → Slice) → List Slice → List Slice
map_back f [] = []
map_back f (s ∷ []) = f s ∷ []
map_back f (s ∷ t ∷ ss) = s ∷ map_back f (t ∷ ss)

abbrev pub is_empty {ℓ} : {A : Type ℓ} → List A → Bool
is_empty [] = true
is_empty (x ∷ xs) = false

-- `if (slices_.empty() || slices_.back().available() == 0) slices_.emplace_back(...)`.
unfoldable pub ensure_back : ℕ → List Slice → List Slice
unfolding back_available
ensure_back n ss =
    if is_empty ss || back_available ss == 0
    then ss ++ make_slice (max n default_capacity) ∷ []
    else ss

-- The loop of `Buffer::add`, with the number of rounds at most the number of bytes.
unfoldable pub add_loop : ℕ → List Slice → Bytes → List Slice
unfolding ensure_back map_back
add_loop zero ss bs = ss
add_loop (suc rounds) ss [] = ss
add_loop (suc rounds) ss (x ∷ xs) =
    let grown = ensure_back (suc (length xs)) ss in
    let n = min (back_available grown) (suc (length xs)) in
    add_loop rounds (map_back (λ s. commit_slice n (fill (take n (x ∷ xs)) s)) grown)
      (drop n (x ∷ xs))

-- `Buffer::add`.
unfoldable pub add : Bytes → Buffer → Buffer
unfolding add_loop
add bs b = record {
  slices = add_loop (length bs) b.slices bs;
  total_length = b.total_length + length bs;
  front_slice = b.front_slice;
}

-- `Buffer::reserve`: the buffer and the size of the span.
unfoldable pub reserve : ℕ → Buffer → Buffer × ℕ
unfolding ensure_back
reserve hint b =
    let grown = ensure_back hint b.slices in (record b { slices = grown }, back_available grown)

-- What the caller stores in the reserved span, and `Buffer::commit` of that many bytes.
unfoldable pub commit : Bytes → Buffer → Buffer
unfolding map_back
commit bs b = record {
  slices = map_back (λ s. commit_slice (length bs) (fill bs s)) b.slices;
  total_length = b.total_length + length bs;
  front_slice = b.front_slice;
}

-- The loop of `Buffer::drain`, from `frontSlice_` on: the slices, how far `frontSlice_` moved and
-- what remains. A slice that keeps data has taken all that remained, which ends the loop.
unfoldable pub drain_loop : List Slice → ℕ → List Slice × ℕ × ℕ
drain_loop [] remaining = ([], 0, remaining)
drain_loop (s ∷ ss) remaining =
    let to_drain = min remaining (slice_length s) in
    let s' = drain_slice to_drain s in
    let (rest, moved, left) = drain_loop ss (remaining - to_drain) in
    if remaining == 0
    then (s ∷ ss, 0, 0)
    else if slice_length s' == 0
    then (s' ∷ rest, suc moved, left)
    else (s' ∷ ss, 0, remaining - to_drain)

-- `Buffer::compactSlices`.
abbrev pub compact_slices : Buffer → Buffer
compact_slices b = record b { slices = drop b.front_slice b.slices; front_slice = 0 }

-- The end of `Buffer::drain`: clear, compact or leave.
unfoldable pub settle : Buffer → Buffer
settle b =
    if b.front_slice == length b.slices
    then record b { slices = []; front_slice = 0 }
    else if leb (length b.slices) (b.front_slice * 2)
    then compact_slices b
    else b

-- `Buffer::drain`.
unfoldable pub drain : ℕ → Buffer → Buffer
unfolding drain_loop settle
drain n b =
    let (rest, moved, left) = drain_loop (drop b.front_slice b.slices) n in
    settle (record {
      slices = take b.front_slice b.slices ++ rest;
      total_length = b.total_length - (n - left);
      front_slice = b.front_slice + moved;
    })

-- `Buffer::slices`.
abbrev pub active : Buffer → List Slice
active b = drop b.front_slice b.slices

unfoldable pub bytes_of : List Slice → Bytes
bytes_of [] = []
bytes_of (s ∷ ss) = slice_data s ++ bytes_of ss

-- `Buffer::linearize`, and `Buffer::toString`.
unfoldable pub linearize : Buffer → Bytes
unfolding bytes_of
linearize b = bytes_of (active b)

-- `Buffer::empty`.
abbrev pub empty : Buffer → Bool
empty b = b.total_length == 0

-- `Buffer::move`: this buffer and the other one.
unfoldable pub move : Buffer → Buffer → Buffer × Buffer
move b other =
    let b' = if ltb 0 b.front_slice then compact_slices b else b in
    (
      record {
        slices = b'.slices ++ active other;
        total_length = b'.total_length + other.total_length;
        front_slice = b'.front_slice;
      },
      empty_buffer,
    )
