-- ===== src/Seer/Magika/File/Tensors.antt =====
-- The tensors and the labels of a weight file, read one by one (SeerLib/src/Magika/MagikaModel.cpp).
use deep_seer.Base.{
  ℕ, ◌<◌, ◌≡◌, refl, ap, ◌∙◌, List, [], ◌∷◌, ◌++◌, Option, none, some, arith, length, All,
}
use deep_seer.Core.Buffer.{Bytes}
use deep_seer.Seer.Magika.File.{
  Stream, Loaded, loaded, failed, and_then, Tensor, read_tensor, read_tensors, read_labels,
  read_val, read_dims, read_floats, count_from, tensor_data, tensor_name, label_cut,
}
use deep_seer.Seer.Magika.File.Reads.{
  ready, to_bytes, word_bytes, IsWord, product, read_val_lem, read_string_lem, read_floats_lem,
  read_dims_lem, count_product,
}

-- A tensor and a label in the file, before the bytes that follow.
abbrev pub put_string : Bytes → Bytes → Bytes
put_string s ys = to_bytes (length s) ++ (s ++ ys)

abbrev pub put_tensor : Tensor → Bytes → Bytes
put_tensor t ys =
    put_string t.name
      (to_bytes (length t.shape) ++ (word_bytes t.shape ++ (word_bytes t.bits ++ ys)))

abbrev pub put_tensors : List Tensor → Bytes → Bytes
put_tensors [] ys = ys
put_tensors (t ∷ ts) ys = put_tensor t (put_tensors ts ys)

abbrev pub put_labels : List Bytes → Bytes → Bytes
put_labels [] ys = ys
put_labels (l ∷ ls) ys = put_string l (put_labels ls ys)

-- What the format's 32-bit numbers can hold, a shape that counts the data, and a size that
-- `std::vector` accepts.
pub record IsStorable (t : Tensor) : Type 0 where
  pub name_fits : length t.name < 4294967296
  pub rank_fits : length t.shape < 4294967296
  pub dims_fit : All IsWord t.shape
  pub counted : product t.shape ≡ length t.bits
  pub size_fits : length t.bits < 2305843009213693952
  pub bits_fit : All IsWord t.bits

-- What `loadFromFile` does behind each read of a tensor.
pub after_floats : Bytes → List ℕ → Loaded (Option (List ℕ × Stream)) → Loaded (Tensor × Stream)
after_floats name shape l = and_then l (λ o. elim o [
  | none ↦ failed (tensor_data name)
  | some (bits, u) ↦ loaded (record { name = name; shape = shape; bits = bits }, u)
])

pub after_dims : Bytes → List ℕ × Stream → Loaded (Tensor × Stream)
unfolding after_floats read_floats count_from
after_dims name r = after_floats name r.0 (read_floats (count_from 1 r.0) r.1)

pub after_rank : Bytes → ℕ × Stream → Loaded (Tensor × Stream)
unfolding after_dims read_dims
after_rank name v = after_dims name (read_dims v.0 v.1)

pub after_name : Option (Bytes × Stream) → Loaded (Tensor × Stream)
unfolding after_rank read_val
after_name o = elim o [ none ↦ failed tensor_name | some (name, t) ↦ after_rank name (read_val t) ]

pub read_tensor_lem :
    (t : Tensor) (ys : Bytes)
    → IsStorable t
    → read_tensor (ready (put_tensor t ys)) ≡ loaded (t, ready ys)
unfolding read_tensor after_name after_rank after_dims after_floats
read_tensor_lem t ys s =
    ap after_name (read_string_lem t.name _ s.name_fits)
    ∙ ap (after_rank t.name) (read_val_lem (length t.shape) _ s.rank_fits)
    ∙ ap (after_dims t.name) (read_dims_lem t.shape _ s.dims_fit)
    ∙ ap (after_floats t.name t.shape) (
        read_floats_lem t.bits ys _
          (count_product t.shape (omega (arith, s.counted, s.size_fits)) ∙ s.counted) s.size_fits
          s.bits_fit)

-- The map of the tensors after they have been read.
abbrev pub inserted : List Tensor → List Tensor → List Tensor
inserted [] acc = acc
inserted (t ∷ ts) acc = inserted ts (t ∷ acc)

pub read_tensors_lem :
    (ts acc : List Tensor) (ys : Bytes)
    → All IsStorable ts
    → read_tensors (length ts) acc (ready (put_tensors ts ys)) ≡ loaded (inserted ts acc, ready ys)
unfolding read_tensors
read_tensors_lem [] acc ys h = refl
read_tensors_lem (t ∷ ts) acc ys h =
    ap (λ l. and_then l (λ r. read_tensors (length ts) (r.0 ∷ acc) r.1))
      (read_tensor_lem t (put_tensors ts ys) h.0)
    ∙ read_tensors_lem ts (t ∷ acc) ys h.1

pub read_labels_lem :
    (ls : List Bytes) (ys : Bytes)
    → All (λ l. length l < 4294967296) ls
    → read_labels (length ls) (ready (put_labels ls ys)) ≡ loaded (ls, ready ys)
unfolding read_labels
read_labels_lem [] ys h = refl
read_labels_lem (l ∷ ls) ys h =
    ap
      (λ o. elim o as (λ _. Loaded (List Bytes × Stream)) [
        | none ↦ failed label_cut
        | some (k, t) ↦ and_then (read_labels (length ls) t) (λ r. loaded (k ∷ r.0, r.1))
      ])
      (read_string_lem l _ h.0)
    ∙ ap (λ q. and_then q (λ r. loaded (l ∷ r.0, r.1))) (read_labels_lem ls ys h.1)
