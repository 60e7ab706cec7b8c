-- ===== src/Seer/Magika/Forward.antt =====
-- `MagikaModel::predict` reads and writes within its arrays (SeerLib/src/Magika/MagikaModel.cpp).
use deep_seer.Base.{
  Option, none, some, ℕ, suc, ◌+◌, ◌*◌, ◌≤◌, ◌<◌, ◌≡◌, refl, ◌∙◌, List, [], ◌∷◌, some, map, arith,
  if◌then◌else◌, length, get_elem?, codes, All, ◌>>=◌,
}
use deep_seer.Core.Buffer.{Bytes}
use deep_seer.Seer.Magika.Tokens.{extract_input_tokens, beg_size, end_size}
use deep_seer.Seer.Magika.Tokens.Layout.{layout, tokens_lem}
use deep_seer.Seer.Magika.Layers.{
  Floats, MagikaModel, Prediction, embedding, gelu, feature_mean, feature_inv_std, layer_norm,
  conv1d, global_max_pool, vector_norm, dense, max_element, max_of, softmax, predict,
}
use deep_seer.Seer.Magika.Loops.{
  Succeeds, Yields, bind_lem, elem_lem, elem-All, tabulate_all, grid_all, fold_all, read_lem,
  index_lem, run_lem, length-map, bind-Yields, chain-Yields,
}

module _ (floats : Floats) where
  open floats use {
    Float, zero_float, one, ln_eps, neg_infinity, of_nat, plus, minus, times, over, less, sqrt, exp,
  }

  -- The sizes that the comments of `MagikaModel` give its weights, and one class at least.
  pub record IsShaped (m : MagikaModel floats) : Type 0 where
    pub embed_weight_size : length m.embed_weight ≡ 257 * 64
    pub embed_bias_size : length m.embed_bias ≡ 64
    pub ln0_scale_size : length m.ln0_scale ≡ 512
    pub ln0_bias_size : length m.ln0_bias ≡ 512
    pub conv_weight_size : length m.conv_weight ≡ 512 * 256 * 5
    pub conv_bias_size : length m.conv_bias ≡ 512
    pub ln1_scale_size : length m.ln1_scale ≡ 512
    pub ln1_bias_size : length m.ln1_bias ≡ 512
    pub output_weight_size : length m.output_weight ≡ 512 * m.num_classes
    pub output_bias_size : length m.output_bias ≡ m.num_classes
    pub some_class : 0 < m.num_classes

  -- The sizes of the weights before the last layer.
  pub record IsSized (m : MagikaModel floats) : Type 0 where
    pub embed_weight_size : length m.embed_weight ≡ 257 * 64
    pub embed_bias_size : length m.embed_bias ≡ 64
    pub ln0_scale_size : length m.ln0_scale ≡ 512
    pub ln0_bias_size : length m.ln0_bias ≡ 512
    pub conv_weight_size : length m.conv_weight ≡ 512 * 256 * 5
    pub conv_bias_size : length m.conv_bias ≡ 512
    pub ln1_scale_size : length m.ln1_scale ≡ 512
    pub ln1_bias_size : length m.ln1_bias ≡ 512

  shaped-IsSized : (m : MagikaModel floats) → IsShaped m → IsSized m
  shaped-IsSized m s = record {
    embed_weight_size = s.embed_weight_size;
    embed_bias_size = s.embed_bias_size;
    ln0_scale_size = s.ln0_scale_size;
    ln0_bias_size = s.ln0_bias_size;
    conv_weight_size = s.conv_weight_size;
    conv_bias_size = s.conv_bias_size;
    ln1_scale_size = s.ln1_scale_size;
    ln1_bias_size = s.ln1_bias_size;
  }

  embedding_lem :
      (m : MagikaModel floats) (tokens : List ℕ)
      → IsSized m
      → length tokens ≡ 2048
      → All (λ t. t ≤ 256) tokens
      → Yields (2048 * 64) (embedding floats m tokens)
  unfolding embedding
  embedding_lem m tokens s l h = grid_all 2048 64 _ (λ i d p q.
      let (tok, e) = elem_lem tokens 2048 i l p in
      let bound = elem-All (λ t. t ≤ 256) tokens i tok h e in
      let (w, f) =
        elem_lem m.embed_weight (257 * 64) (tok * 64 + d) s.embed_weight_size
          (omega (arith, bound, q)) in
      let (b, g) = elem_lem m.embed_bias 64 d s.embed_bias_size q in
      (plus w b, rw (e, f, g, ◌>>=◌)))

  length-gelu : (xs : List Float) → length (gelu floats xs) ≡ length xs
  unfolding gelu
  length-gelu xs = length-map _ xs

  mean_lem :
      (xs : List Float) (seq dim d : ℕ)
      → length xs ≡ seq * dim
      → d < dim
      → Succeeds (feature_mean floats xs seq dim d)
  unfolding feature_mean
  mean_lem xs seq dim d l p =
      bind_lem _ _
        (fold_all seq _ zero_float (λ s acc q.
          read_lem xs (seq * dim) (s * dim + d) (plus acc) l (index_lem s d seq dim q p)))
        (λ sum. (times sum (over one (of_nat seq)), refl))

  inv_std_lem :
      (xs : List Float) (seq dim d : ℕ)
      → length xs ≡ seq * dim
      → d < dim
      → Succeeds (feature_inv_std floats xs seq dim d)
  unfolding feature_inv_std
  inv_std_lem xs seq dim d l p = bind_lem _ _ (mean_lem xs seq dim d l p) (λ mean.
      bind_lem _ _
        (fold_all seq _ zero_float (λ s acc q.
          read_lem xs (seq * dim) (s * dim + d) (λ v. plus acc (times v v)) l
            (index_lem s d seq dim q p)))
        (λ squares. (_, refl)))

  layer_norm_lem :
      (xs scale bias : List Float) (seq dim : ℕ)
      → length xs ≡ seq * dim
      → length scale ≡ seq
      → length bias ≡ seq
      → Yields (seq * dim) (layer_norm floats xs scale bias seq dim)
  unfolding layer_norm
  layer_norm_lem xs scale bias seq dim l ls lb =
      chain-Yields dim (seq * dim) _ _ (tabulate_all dim _ (λ d p. mean_lem xs seq dim d l p))
        (λ means lm.
          chain-Yields dim (seq * dim) _ _
            (tabulate_all dim _ (λ d p. inv_std_lem xs seq dim d l p))
            (λ stds lv. grid_all seq dim _ (λ s d p q.
              bind_lem _ _ (elem_lem xs (seq * dim) (s * dim + d) l (index_lem s d seq dim p q))
                (λ v. bind_lem _ _ (elem_lem means dim d lm q) (λ mean.
                  bind_lem _ _ (elem_lem stds dim d lv q) (λ inv_std.
                    bind_lem _ _ (elem_lem scale seq s ls p) (λ k.
                      read_lem bias seq s (plus (times (times (minus v mean) inv_std) k)) lb
                        p)))))))

  conv1d_lem :
      (m : MagikaModel floats) (xs : List Float)
      → IsSized m
      → length xs ≡ 512 * 256
      → Yields (508 * 512) (conv1d floats m xs 512)
  unfolding conv1d
  conv1d_lem m xs s l = grid_all 508 512 _ (λ pos oc p q.
      bind_lem _ _ (elem_lem m.conv_bias 512 oc s.conv_bias_size q) (λ start.
        fold_all 256 _ start (λ ic sum r. fold_all 5 _ sum (λ k acc u.
          bind_lem _ _ (elem_lem xs (512 * 256) ((pos + k) * 256 + ic) l (omega (arith, p, r, u)))
            (λ x.
              read_lem m.conv_weight (512 * 256 * 5) ((oc * 256 + ic) * 5 + k)
                (λ w. plus acc (times x w)) s.conv_weight_size (omega (arith, q, r, u)))))))

  max_pool_lem :
      (xs : List Float) → length xs ≡ 508 * 512 → Yields 512 (global_max_pool floats xs 508)
  unfolding global_max_pool
  max_pool_lem xs l = tabulate_all 512 _ (λ c p.
      fold_all 508 _ neg_infinity
        (λ s best q. read_lem xs (508 * 512) (s * 512 + c) _ l (omega (arith, p, q))))

  vector_norm_lem :
      (m : MagikaModel floats) (xs : List Float)
      → IsSized m
      → length xs ≡ 512
      → Yields 512 (vector_norm floats m xs)
  unfolding vector_norm
  vector_norm_lem m xs s l =
      bind-Yields 512 _ _ (fold_all 512 _ zero_float (λ i acc p. read_lem xs 512 i (plus acc) l p))
        (λ sum.
          let mean = over sum (of_nat 512) in
          bind-Yields 512 _ _
            (fold_all 512 _ zero_float (λ i acc p.
              read_lem xs 512 i (λ v. plus acc (times (minus v mean) (minus v mean))) l p))
            (λ squares.
              let inv_std = over one (sqrt (plus (over squares (of_nat 512)) ln_eps)) in
              tabulate_all 512 _ (λ i p. bind_lem _ _ (elem_lem xs 512 i l p) (λ v.
                bind_lem _ _ (elem_lem m.ln1_scale 512 i s.ln1_scale_size p) (λ g.
                  read_lem m.ln1_bias 512 i (plus (times (times (minus v mean) inv_std) g))
                    s.ln1_bias_size p)))))

  dense_lem :
      (m : MagikaModel floats) (xs : List Float)
      → IsShaped m
      → length xs ≡ 512
      → Yields m.num_classes (dense floats m xs)
  unfolding dense
  dense_lem m xs s l = tabulate_all m.num_classes _ (λ c p.
      bind_lem _ _ (elem_lem m.output_bias m.num_classes c s.output_bias_size p) (λ start.
        fold_all 512 _ start (λ i sum q. bind_lem _ _ (elem_lem xs 512 i l q) (λ x.
          read_lem m.output_weight (512 * m.num_classes) (i * m.num_classes + c)
            (λ w. plus sum (times x w)) s.output_weight_size
            (index_lem i c 512 m.num_classes q p)))))

  -- `predict` up to its last layer.
  abbrev pub features : MagikaModel floats → Bytes → Option (List Float)
  features m payload = do
    tokens ← extract_input_tokens payload
    embedded ← embedding floats m tokens
    normed ← layer_norm floats (gelu floats embedded) m.ln0_scale m.ln0_bias 512 256
    convolved ← conv1d floats m normed 512
    pooled ← global_max_pool floats (gelu floats convolved) 508
    vector_norm floats m pooled

  pub features_lem :
      (m : MagikaModel floats) (payload : Bytes)
      → IsSized m
      → All (λ b. b < 256) payload
      → Yields 512 (features m payload)
  features_lem m payload s h =
      let (tokens_eq, size, bound) = tokens_lem payload h in
      let IsWide : List Float → Type 0 = λ xs. length xs ≡ 512 in
      let tokens = layout beg_size end_size payload in
      let (embedded, e1, l1) = embedding_lem m tokens s size bound in
      let (normed, e2, l2) =
        layer_norm_lem (gelu floats embedded) m.ln0_scale m.ln0_bias 512 256
          (length-gelu embedded ∙ l1) s.ln0_scale_size s.ln0_bias_size in
      let (convolved, e3, l3) = conv1d_lem m normed s l2 in
      let (pooled, e4, l4) = max_pool_lem (gelu floats convolved) (length-gelu convolved ∙ l3) in
      run_lem _ _ IsWide tokens_eq (
        run_lem _ _ IsWide e1 (
          run_lem _ _ IsWide e2
            (run_lem _ _ IsWide e3 (run_lem _ _ IsWide e4 (vector_norm_lem m pooled s l4)))))

  max_element_lem :
      (xs : List Float) (i at : ℕ) (best : Float)
      → at < i
      → (max_element floats i xs at best).0 < i + length xs
  unfolding max_element
  max_element_lem [] i at best h = omega (arith, h)
  max_element_lem (x ∷ xs) i at best h = omega (
    arith,
    max_element_lem xs (suc i) (if less best x then i else at) (if less best x then x else best)
        (ground arith),
  )

  max_of_lem :
      (xs : List Float) (n : ℕ)
      → length xs ≡ n
      → 0 < n
      → (r : ℕ × Float) × (max_of floats xs ≡ some r) × (r.0 < n)
  unfolding max_of
  max_of_lem [] n l h = absurd (omega arith)
  max_of_lem (x ∷ xs) n l h =
      (max_element floats 1 xs 0 x, refl, omega (arith, l, max_element_lem xs 1 0 x (omega arith)))

  softmax_lem : (xs : List Float) (n : ℕ) → length xs ≡ n → 0 < n → Yields n (softmax floats xs)
  unfolding softmax
  softmax_lem xs n l h =
      let (top, e, _) = max_of_lem xs n l h in
      bind-Yields n _ _ (top, e)
        (λ t.
          let es : List Float = map (λ x. exp (minus x t.1)) xs in
          let size : length es ≡ length xs = length-map _ xs in
          bind-Yields n _ _
            (fold_all (length xs) _ zero_float
              (λ i acc p. read_lem es (length xs) i (plus acc) size p))
            (λ sum. (map (λ x. over x sum) es, refl, length-map _ es ∙ size ∙ l)))

  -- The label of a class.
  abbrev pub label_of : List Bytes → ℕ → Bytes
  label_of labels i = elim (get_elem? labels i) [ none ↦ codes "unknown" | some l ↦ l ]

  pub prediction_lem :
      (m : MagikaModel floats) (payload : Bytes)
      → IsShaped m
      → All (λ b. b < 256) payload
      → (r : Prediction floats) × (predict floats m payload ≡ some r)
        × ((r.class_index < m.num_classes) × (r.label ≡ label_of m.labels r.class_index))
  unfolding predict
  prediction_lem m payload s h =
      let sized = shaped-IsSized m s in
      let (tokens_eq, size, bound) = tokens_lem payload h in
      let IsClass : Prediction floats → Type 0 =
        λ r. (r.class_index < m.num_classes) × (r.label ≡ label_of m.labels r.class_index) in
      let tokens = layout beg_size end_size payload in
      let (embedded, e1, l1) = embedding_lem m tokens sized size bound in
      let (normed, e2, l2) =
        layer_norm_lem (gelu floats embedded) m.ln0_scale m.ln0_bias 512 256
          (length-gelu embedded ∙ l1) s.ln0_scale_size s.ln0_bias_size in
      let (convolved, e3, l3) = conv1d_lem m normed sized l2 in
      let (pooled, e4, l4) = max_pool_lem (gelu floats convolved) (length-gelu convolved ∙ l3) in
      let (scaled, e5, l5) = vector_norm_lem m pooled sized l4 in
      let (logits, e6, l6) = dense_lem m scaled s l5 in
      let (probabilities, e7, l7) = softmax_lem logits m.num_classes l6 s.some_class in
      let (best, e8, below) = max_of_lem probabilities m.num_classes l7 s.some_class in
      run_lem _ _ IsClass tokens_eq (
        run_lem _ _ IsClass e1 (
          run_lem _ _ IsClass e2 (
            run_lem _ _ IsClass e3 (
              run_lem _ _ IsClass e4 (
                run_lem _ _ IsClass e5 (
                  run_lem _ _ IsClass e6
                    (run_lem _ _ IsClass e7 (run_lem _ _ IsClass e8 (_, refl, (below, refl))))))))))

  -- On a model of the sizes that its comments give, with at least one class, `predict` of any
  -- payload reads no element outside its arrays, returns a prediction, and the prediction's class
  -- is one of the model's.
  pub predict_lem :
      (m : MagikaModel floats) (payload : Bytes)
      → IsShaped m
      → All (λ b. b < 256) payload
      → (r : Prediction floats) × (predict floats m payload ≡ some r)
        × (r.class_index < m.num_classes)
  predict_lem m payload s h =
      let (r, e, (below, label)) = prediction_lem m payload s h in (r, e, below)
