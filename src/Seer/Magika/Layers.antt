-- ===== src/Seer/Magika/Layers.antt =====
-- The forward pass of SeerLib/src/Magika/MagikaModel.cpp. Its floats and their operations are a
-- parameter; each output element is computed by the source's operations in the source's order.
-- Where the source fills an array by nested loops, the array is the list of its elements in order.
use deep_seer.Base.{
  ℕ, zero, suc, ◌+◌, ◌-◌, ◌*◌, Bool, List, [], ◌∷◌, ◌++◌, Option, none, some, map, if◌then◌else◌,
  length, get_elem?, codes, ◌>>=◌,
}
use deep_seer.Core.Buffer.{Bytes}
use deep_seer.Seer.Magika.Tokens.{extract_input_tokens}

-- `float`, its constants in the source, and the operations that the source uses.
pub record Floats : Type 1 where
  pub Float : Type 0
  pub zero_float : Float
  pub one : Float
  pub half : Float
  pub sqrt_2_over_pi : Float
  pub gelu_cubic : Float
  pub ln_eps : Float
  pub neg_infinity : Float
  pub of_nat : ℕ → Float
  pub plus : Float → Float → Float
  pub minus : Float → Float → Float
  pub times : Float → Float → Float
  pub over : Float → Float → Float
  pub less : Float → Float → Bool
  pub tanh : Float → Float
  pub sqrt : Float → Float
  pub exp : Float → Float
  pub of_bits : ℕ → Float

abbrev pub input_len : ℕ
input_len = 2048

abbrev pub embed_dim : ℕ
embed_dim = 64

abbrev pub reshaped_seq : ℕ
reshaped_seq = 512

abbrev pub reshaped_dim : ℕ
reshaped_dim = 256

abbrev pub conv_out : ℕ
conv_out = 512

abbrev pub kernel_size : ℕ
kernel_size = 5

-- The elements that `for (i = start; i < start + n; ++i)` computes, and those of two nested loops.
unfoldable pub tabulate : {A : Type 0} → ℕ → ℕ → (ℕ → Option A) → Option (List A)
tabulate zero i f = some []
tabulate (suc n) i f = do v ← f i; vs ← tabulate n (suc i) f; some (v ∷ vs)

unfoldable pub grid : {A : Type 0} → ℕ → ℕ → ℕ → (ℕ → ℕ → Option A) → Option (List A)
grid zero m i f = some []
grid (suc n) m i f = do row ← tabulate m 0 (f i); rest ← grid n m (suc i) f; some (row ++ rest)

-- A loop that updates one variable.
unfoldable pub fold_range : {A : Type 0} → ℕ → ℕ → (ℕ → A → Option A) → A → Option A
fold_range zero i f a = some a
fold_range (suc n) i f a = do b ← f i a; fold_range n (suc i) f b

module _ (floats : Floats) where
  open floats use {
    Float, zero_float, one, half, sqrt_2_over_pi, gelu_cubic, ln_eps, neg_infinity, of_nat, plus,
    minus, times, over, less, tanh, sqrt, exp,
  }

  -- The weights of `MagikaModel`.
  pub record MagikaModel : Type 0 where
    pub embed_weight : List Float
    pub embed_bias : List Float
    pub ln0_scale : List Float
    pub ln0_bias : List Float
    pub conv_weight : List Float
    pub conv_bias : List Float
    pub ln1_scale : List Float
    pub ln1_bias : List Float
    pub output_weight : List Float
    pub output_bias : List Float
    pub num_classes : ℕ
    pub labels : List Bytes

  pub record Prediction : Type 0 where
    pub class_index : ℕ
    pub confidence : Float
    pub label : Bytes

  -- `std::max`.
  abbrev pub larger : Float → Float → Float
  larger a b = if less a b then b else a

  -- `embedding`.
  unfoldable pub embedding : MagikaModel → List ℕ → Option (List Float)
  embedding m tokens = grid input_len embed_dim 0 (λ i d. do
    tok ← get_elem? tokens i
    w ← get_elem? m.embed_weight (tok * embed_dim + d)
    b ← get_elem? m.embed_bias d
    some (plus w b))

  -- `gelu`.
  unfoldable pub gelu : List Float → List Float
  gelu = map (λ x.
      let inner = times sqrt_2_over_pi (plus x (times (times (times gelu_cubic x) x) x)) in
      times (times half x) (plus one (tanh inner)))

  -- The mean and the deviation of one feature in `layerNorm`.
  unfoldable pub feature_mean : List Float → ℕ → ℕ → ℕ → Option Float
  feature_mean xs seq_len dim d = do
    sum ←
        fold_range seq_len 0 (λ s acc. do v ← get_elem? xs (s * dim + d); some (plus acc v))
          zero_float
    some (times sum (over one (of_nat seq_len)))

  unfoldable pub feature_inv_std : List Float → ℕ → ℕ → ℕ → Option Float
  unfolding feature_mean
  feature_inv_std xs seq_len dim d = do
    mean ← feature_mean xs seq_len dim d
    squares ←
        fold_range seq_len 0
          (λ s acc. do v ← get_elem? xs (s * dim + d); some (plus acc (times v v))) zero_float
    let spread = minus (times squares (over one (of_nat seq_len))) (times mean mean)
    some (over one (sqrt (plus (larger zero_float spread) ln_eps)))

  -- `layerNorm`.
  unfoldable pub layer_norm : List Float → List Float → List Float → ℕ → ℕ → Option (List Float)
  unfolding feature_mean feature_inv_std
  layer_norm xs scale bias seq_len dim = do
    means ← tabulate dim 0 (feature_mean xs seq_len dim)
    inv_stds ← tabulate dim 0 (feature_inv_std xs seq_len dim)
    grid seq_len dim 0 (λ s d. do
      v ← get_elem? xs (s * dim + d)
      mean ← get_elem? means d
      inv_std ← get_elem? inv_stds d
      k ← get_elem? scale s
      b ← get_elem? bias s
      some (plus (times (times (minus v mean) inv_std) k) b))

  -- `conv1d`.
  unfoldable pub conv1d : MagikaModel → List Float → ℕ → Option (List Float)
  conv1d m input seq_len = grid (seq_len - kernel_size + 1) conv_out 0 (λ pos oc. do
    start ← get_elem? m.conv_bias oc
    fold_range reshaped_dim 0
        (λ ic sum.
          fold_range kernel_size 0
            (λ k acc. do
              x ← get_elem? input ((pos + k) * reshaped_dim + ic)
              w ← get_elem? m.conv_weight ((oc * reshaped_dim + ic) * kernel_size + k)
              some (plus acc (times x w)))
            sum)
        start)

  -- `globalMaxPool`.
  unfoldable pub global_max_pool : List Float → ℕ → Option (List Float)
  global_max_pool input seq_len = tabulate conv_out 0 (λ c.
      fold_range seq_len 0
        (λ s best. do v ← get_elem? input (s * conv_out + c); some (larger best v)) neg_infinity)

  -- The second normalisation, written out in `predict`.
  unfoldable pub vector_norm : MagikaModel → List Float → Option (List Float)
  vector_norm m pooled = do
    sum ← fold_range conv_out 0 (λ i acc. do v ← get_elem? pooled i; some (plus acc v)) zero_float
    let mean = over sum (of_nat conv_out)
    squares ←
        fold_range conv_out 0
          (λ i acc. do
            v ← get_elem? pooled i
            some (plus acc (times (minus v mean) (minus v mean))))
          zero_float
    let inv_std = over one (sqrt (plus (over squares (of_nat conv_out)) ln_eps))
    tabulate conv_out 0 (λ i. do
      v ← get_elem? pooled i
      k ← get_elem? m.ln1_scale i
      b ← get_elem? m.ln1_bias i
      some (plus (times (times (minus v mean) inv_std) k) b))

  -- `dense`.
  unfoldable pub dense : MagikaModel → List Float → Option (List Float)
  dense m input = tabulate m.num_classes 0 (λ c. do
    start ← get_elem? m.output_bias c
    fold_range conv_out 0
        (λ i sum. do
          x ← get_elem? input i
          w ← get_elem? m.output_weight (i * m.num_classes + c)
          some (plus sum (times x w)))
        start)

  -- `std::max_element`: the first largest element and its index; none is the end of an empty range.
  unfoldable pub max_element : ℕ → List Float → ℕ → Float → ℕ × Float
  max_element i [] at best = (at, best)
  max_element i (x ∷ xs) at best =
      max_element (suc i) xs (if less best x then i else at) (if less best x then x else best)

  unfoldable pub max_of : List Float → Option (ℕ × Float)
  unfolding max_element
  max_of [] = none
  max_of (x ∷ xs) = some (max_element 1 xs 0 x)

  -- `softmax`, over the whole vector.
  unfoldable pub softmax : List Float → Option (List Float)
  unfolding max_of
  softmax xs = do
    top ← max_of xs
    let es = map (λ x. exp (minus x top.1)) xs
    sum ← fold_range (length xs) 0 (λ i acc. do v ← get_elem? es i; some (plus acc v)) zero_float
    some (map (λ e. over e sum) es)

  -- `predict`.
  unfoldable pub predict : MagikaModel → Bytes → Option Prediction
  predict m payload = do
    tokens ← extract_input_tokens payload
    embedded ← embedding m tokens
    normed ← layer_norm (gelu embedded) m.ln0_scale m.ln0_bias reshaped_seq reshaped_dim
    convolved ← conv1d m normed reshaped_seq
    pooled ← global_max_pool (gelu convolved) (reshaped_seq - kernel_size + 1)
    scaled ← vector_norm m pooled
    logits ← dense m scaled
    probabilities ← softmax logits
    best ← max_of probabilities
    some (record {
      class_index = best.0;
      confidence = best.1;
      label = elim (get_elem? m.labels best.0) [ none ↦ codes "unknown" | some l ↦ l ];
    })
