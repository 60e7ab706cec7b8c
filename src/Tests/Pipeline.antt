-- ===== src/Tests/Pipeline.antt =====
-- A weight file of full size, loaded and used.
use deep_seer.Base.{
  ℕ, suc, zero, ◌+◌, ◌-◌, ◌*◌, ◌/◌, ◌<◌, ◌≡◌, refl, sym, ◌∙◌, List, [], ◌∷◌, some, none, arith, All,
  length, map, replicate, length-replicate, get_elem?, ltb, codes,
}
use deep_seer.Core.Buffer.{Bytes}
use deep_seer.Seer.Magika.Layers.{Floats, MagikaModel, dense, softmax, predict}
use deep_seer.Seer.Magika.Loops.{length-map}
use deep_seer.Seer.Magika.Forward.{IsShaped, IsSized, features}
use deep_seer.Seer.Magika.File.{loaded, load}
use deep_seer.Seer.Magika.File.Reads.{IsWord, product}
use deep_seer.Seer.Magika.File.Tensors.{IsStorable}
use deep_seer.Seer.Magika.File.Written.{
  Block, Weights, tensors_of, weights_file, unlabelled_file, model_of, cut_file_lem,
}
use deep_seer.Seer.MagikaEngine.{MagikaEngine, InferenceResult, create, classify, classify_lem}

-- Natural numbers in the place of the floats.
abbrev pub naturals : Floats
naturals = record {
  Float = ℕ;
  zero_float = 0;
  one = 1;
  half = 0;
  sqrt_2_over_pi = 1;
  gelu_cubic = 0;
  ln_eps = 1;
  neg_infinity = 0;
  of_nat = λ n. n;
  plus = ◌+◌;
  minus = ◌-◌;
  times = ◌*◌;
  over = ◌/◌;
  less = ltb;
  tanh = λ n. n;
  sqrt = λ n. n;
  exp = λ n. n + 1;
  of_bits = λ n. n;
}

-- An array of one pattern; its length is known without computing it.
unfoldable filled : ℕ → List ℕ
filled n = replicate n 1065353216

length-filled : (n : ℕ) → length (filled n) ≡ n
unfolding filled
length-filled n = length-replicate n 1065353216

All-replicate : (n : ℕ) → All IsWord (replicate n 1065353216)
All-replicate zero = tt
All-replicate (suc n) = (omega arith, All-replicate n)

All-filled : (n : ℕ) → All IsWord (filled n)
unfolding filled
All-filled n = All-replicate n

block_of : List ℕ → ℕ → Block
block_of shape n = record { shape = shape; bits = filled n }

full_weights : Weights
unfolding block_of
full_weights = record {
  embed_weight = block_of (257 ∷ 64 ∷ []) (257 * 64);
  embed_bias = block_of (64 ∷ []) 64;
  ln0_scale = block_of (512 ∷ []) 512;
  ln0_bias = block_of (512 ∷ []) 512;
  conv_weight = block_of (512 ∷ 256 ∷ 5 ∷ []) (512 * 256 * 5);
  conv_bias = block_of (512 ∷ []) 512;
  ln1_scale = block_of (512 ∷ []) 512;
  ln1_bias = block_of (512 ∷ []) 512;
  output_weight = block_of (512 ∷ 2 ∷ []) (512 * 2);
  output_bias = block_of (2 ∷ []) 2;
}

storable :
    (name : Bytes) (shape : List ℕ) (n : ℕ)
    → length name < 4294967296
    → length shape < 4294967296
    → All IsWord shape
    → product shape ≡ n
    → n < 2305843009213693952
    → IsStorable (record { name = name; shape = shape; bits = filled n })
storable name shape n h k a p s = record {
  name_fits = h;
  rank_fits = k;
  dims_fit = a;
  counted = p ∙ sym (length-filled n);
  size_fits = omega (arith, length-filled n, s);
  bits_fit = All-filled n;
}

full-IsStorable : All IsStorable (tensors_of full_weights)
unfolding full_weights block_of
full-IsStorable = (
  storable _ _ _ (omega arith) (omega arith) (omega arith, (omega arith, tt)) refl (omega arith),
  (
    storable _ _ _ (omega arith) (omega arith) (omega arith, tt) refl (omega arith),
    (
      storable _ _ _ (omega arith) (omega arith) (omega arith, tt) refl (omega arith),
      (
        storable _ _ _ (omega arith) (omega arith) (omega arith, tt) refl (omega arith),
        (
          storable _ _ _ (omega arith) (omega arith) (omega arith, (omega arith, (omega arith, tt)))
              refl (omega arith),
          (
            storable _ _ _ (omega arith) (omega arith) (omega arith, tt) refl (omega arith),
            (
              storable _ _ _ (omega arith) (omega arith) (omega arith, tt) refl (omega arith),
              (
                storable _ _ _ (omega arith) (omega arith) (omega arith, tt) refl (omega arith),
                (
                  storable _ _ _ (omega arith) (omega arith) (omega arith, (omega arith, tt)) refl
                      (omega arith),
                  (
                    storable _ _ _ (omega arith) (omega arith) (omega arith, tt) refl (omega arith),
                    tt,
                  ),
                ),
              ),
            ),
          ),
        ),
      ),
    ),
  ),
)

size_lem : (n : ℕ) → length (map naturals.of_bits (filled n)) ≡ n
size_lem n = length-map naturals.of_bits (filled n) ∙ length-filled n

two_labels : List Bytes
two_labels = codes "gif" ∷ codes "png" ∷ []

full-IsShaped : IsShaped naturals (model_of naturals full_weights two_labels)
unfolding full_weights block_of two_labels
full-IsShaped = record {
  embed_weight_size = size_lem (257 * 64);
  embed_bias_size = size_lem 64;
  ln0_scale_size = size_lem 512;
  ln0_bias_size = size_lem 512;
  conv_weight_size = size_lem (512 * 256 * 5);
  conv_bias_size = size_lem 512;
  ln1_scale_size = size_lem 512;
  ln1_bias_size = size_lem 512;
  output_weight_size = size_lem (512 * 2);
  output_bias_size = size_lem 2;
  some_class = omega arith;
}

full-IsSized : IsSized naturals (model_of naturals full_weights [])
unfolding full_weights block_of
full-IsSized = record {
  embed_weight_size = size_lem (257 * 64);
  embed_bias_size = size_lem 64;
  ln0_scale_size = size_lem 512;
  ln0_bias_size = size_lem 512;
  conv_weight_size = size_lem (512 * 256 * 5);
  conv_bias_size = size_lem 512;
  ln1_scale_size = size_lem 512;
  ln1_bias_size = size_lem 512;
}

cut_file_lem_example :
    (m : MagikaModel naturals) × (load naturals (0 ∷ []) (some (unlabelled_file full_weights []))
      ≡ loaded m)
    × (m.num_classes ≡ 0)
    × (m.labels ≡ [])
    × ((xs : List ℕ) × (features naturals m (codes "GIF89a") ≡ some xs)
        × (dense naturals m xs ≡ some []))
    × (softmax naturals [] ≡ none)
    × (predict naturals m (codes "GIF89a") ≡ none)
cut_file_lem_example =
    cut_file_lem naturals full_weights (0 ∷ []) (codes "GIF89a") full-IsStorable full-IsSized
      (ground arith)

two_labels_fit : (length two_labels < 4294967296) × All (λ l. length l < 4294967296) two_labels
unfolding two_labels
two_labels_fit = (omega arith, ground arith)

classify_lem_example :
    (e : MagikaEngine naturals) × (r : InferenceResult naturals) × (i : ℕ) × (create naturals
        (0 ∷ [])
        (some (weights_file full_weights two_labels []))
      ≡ loaded e)
    × (classify naturals e (codes "GIF89a") ≡ some r)
    × (get_elem? two_labels i ≡ some r.label)
classify_lem_example =
    classify_lem naturals full_weights two_labels [] (0 ∷ []) (codes "GIF89a") full-IsStorable
      two_labels_fit.0 two_labels_fit.1 full-IsShaped (ground arith)
