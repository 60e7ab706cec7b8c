-- ===== src/Seer/Magika/File.antt =====
-- `MagikaModel::loadFromFile` (SeerLib/src/Magika/MagikaModel.cpp). The stream is the bytes not yet
-- read and its state; a float in the file is its 32-bit pattern. `thrown` is the exception of
-- `std::vector::resize` for 2^63 bytes or more; for less, memory is taken to be enough.
pub mod Reads
pub mod Tensors
pub mod Written
use deep_seer.Base.{
  ℕ, zero, suc, ◌+◌, ◌-◌, ◌*◌, ◌/◌, ◌%◌, ◌≡◌, Bool, true, false, ◌||◌, not, List, [], ◌∷◌, ◌++◌,
  Option, none, some, map, if◌then◌else◌, length, leb, ◌>>=◌, ◌==◌, take, drop, same, codes,
}
use deep_seer.Core.Buffer.{Bytes}
use deep_seer.Seer.Magika.Layers.{Floats, MagikaModel}

pub data LoadError : Type 0 where
  cannot_open bad_magic : LoadError
  bad_version : ℕ → LoadError
  tensor_name : LoadError
  tensor_data : Bytes → LoadError
  label_cut missing_tensors : LoadError

pub data Loaded (A : Type 0) : Type 0 where
  loaded : A → Loaded A
  failed : LoadError → Loaded A
  thrown : Loaded A

abbrev pub and_then : {A B : Type 0} → Loaded A → (A → Loaded B) → Loaded B
and_then (loaded a) f = f a
and_then (failed e) f = failed e
and_then thrown f = thrown

pub record Stream : Type 0 where
  pub rest : Bytes
  pub good : Bool

-- `f.read`: a stream that has failed reads nothing, and a short read fails the stream.
unfoldable pub read : ℕ → Stream → Bytes × Stream
read n s =
    if s.good
    then (take n s.rest, record { rest = drop n s.rest; good = leb n (length s.rest) })
    else ([], s)

-- A little-endian number.
unfoldable pub little_endian : Bytes → ℕ
little_endian [] = 0
little_endian (b ∷ bs) = b + 256 * little_endian bs

-- `readVal` into a `uint32_t` that is 0.
unfoldable pub read_val : Stream → ℕ × Stream
unfolding read
read_val s = let r = read 4 s in (little_endian r.0, r.1)

-- `readString`; `none` is its `false`.
unfoldable pub read_string : Stream → Option (Bytes × Stream)
unfolding read read_val
read_string s =
    let v = read_val s in
    let r = read v.0 v.1 in if v.1.good then (if r.1.good then some r else none) else none

-- The 32-bit patterns of `count` floats.
unfoldable pub words : ℕ → Bytes → List ℕ
words zero bs = []
words (suc n) bs = little_endian (take 4 bs) ∷ words n (drop 4 bs)

-- `readFloats`; 2^61 floats take 2^63 bytes.
unfoldable pub read_floats : ℕ → Stream → Loaded (Option (List ℕ × Stream))
unfolding read
read_floats count s =
    let r = read (count * 4) s in
    if leb 2305843009213693952 count
    then thrown
    else if r.1.good
    then loaded (some (words count r.0, r.1))
    else loaded none

pub record Tensor : Type 0 where
  pub name : Bytes
  pub shape : List ℕ
  pub bits : List ℕ

unfoldable pub read_dims : ℕ → Stream → List ℕ × Stream
unfolding read_val
read_dims zero s = ([], s)
read_dims (suc n) s = let v = read_val s in let r = read_dims n v.1 in (v.0 ∷ r.0, r.1)

-- `count *= d` over the shape, in `size_t`.
unfoldable pub count_from : ℕ → List ℕ → ℕ
count_from count [] = count
count_from count (d ∷ ds) = count_from (count * d % 18446744073709551616) ds

-- One turn of the loop over the tensors.
unfoldable pub read_tensor : Stream → Loaded (Tensor × Stream)
unfolding read_string read_val read_dims count_from read_floats
read_tensor s = elim (read_string s) [
  | none ↦ failed tensor_name
  | some (name, t) ↦
      let dims = read_val t in
      let shape = read_dims dims.0 dims.1 in
      and_then (read_floats (count_from 1 shape.0) shape.1) (λ o. elim o [
        | none ↦ failed (tensor_data name)
        | some (bits, u) ↦ loaded (record { name = name; shape = shape.0; bits = bits }, u)
      ])
]

-- The map from names; the tensor written last comes first.
unfoldable pub read_tensors : ℕ → List Tensor → Stream → Loaded (List Tensor × Stream)
unfolding read_tensor
read_tensors zero ts s = loaded (ts, s)
read_tensors (suc n) ts s = and_then (read_tensor s) (λ r. read_tensors n (r.0 ∷ ts) r.1)

unfoldable pub read_labels : ℕ → Stream → Loaded (List Bytes × Stream)
unfolding read_string
read_labels zero s = loaded ([], s)
read_labels (suc n) s = elim (read_string s) [
  | none ↦ failed label_cut
  | some (l, t) ↦ and_then (read_labels n t) (λ r. loaded (l ∷ r.0, r.1))
]

-- `get`.
unfoldable pub tensor_bits : List Tensor → Bytes → Option (List ℕ)
tensor_bits [] name = none
tensor_bits (t ∷ ts) name = if same t.name name then some t.bits else tensor_bits ts name

module _ (floats : Floats) where
  -- The check that the required tensors exist, and the model.
  unfoldable pub assemble : List Tensor → List Bytes → Option (MagikaModel floats)
  unfolding tensor_bits
  assemble ts labels = do
    ew ← tensor_bits ts (codes "embed_weight")
    eb ← tensor_bits ts (codes "embed_bias")
    l0s ← tensor_bits ts (codes "ln0_scale")
    l0b ← tensor_bits ts (codes "ln0_bias")
    cw ← tensor_bits ts (codes "conv_weight")
    cb ← tensor_bits ts (codes "conv_bias")
    l1s ← tensor_bits ts (codes "ln1_scale")
    l1b ← tensor_bits ts (codes "ln1_bias")
    ow ← tensor_bits ts (codes "output_weight")
    ob ← tensor_bits ts (codes "output_bias")
    let of_bits = map floats.of_bits
    some (record {
      embed_weight = of_bits ew;
      embed_bias = of_bits eb;
      ln0_scale = of_bits l0s;
      ln0_bias = of_bits l0b;
      conv_weight = of_bits cw;
      conv_bias = of_bits cb;
      ln1_scale = of_bits l1s;
      ln1_bias = of_bits l1b;
      output_weight = of_bits ow;
      output_bias = of_bits ob;
      num_classes = length labels;
      labels = labels;
    })

  -- The part of the reader behind the version.
  unfoldable pub load_body : Stream → Loaded (MagikaModel floats)
  unfolding read_val read_tensors read_labels assemble
  load_body s =
      let count = read_val s in
      and_then (read_tensors count.0 [] count.1) (λ r.
        let label_count = read_val r.1 in
        and_then (read_labels label_count.0 label_count.1)
          (λ q. elim (assemble r.0 q.0) [ none ↦ failed missing_tensors | some m ↦ loaded m ]))

  -- `MagikaModel::loadFromFile`: `none` is a file that does not open, and `stack` the four bytes
  -- that the uninitialised `magic` holds before the read.
  unfoldable pub load : Bytes → Option Bytes → Loaded (MagikaModel floats)
  unfolding read read_val load_body
  load stack none = failed cannot_open
  load stack (some contents) =
      let magic = read 4 (record { rest = contents; good = true }) in
      let version = read_val magic.1 in
      if not (same (take 4 (magic.0 ++ drop (length magic.0) stack)) (codes "DSMG"))
      then failed bad_magic
      else if version.0 == 1
      then load_body version.1
      else failed (bad_version version.0)
