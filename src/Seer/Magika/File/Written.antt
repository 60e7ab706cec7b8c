-- ===== src/Seer/Magika/File/Written.antt =====
-- The files that tools/extract_magika_weights.py writes, read by `loadFromFile`
-- (SeerLib/src/Magika/MagikaModel.cpp).
use deep_seer.Base.{
  ℕ, zero, suc, ◌<◌, ◌≡◌, refl, ap, ◌∙◌, false, List, [], ◌∷◌, ◌++◌, Option, none, some, map, arith,
  if◌then◌else◌, not, same, take, drop, ◌==◌, length, All, codes, ◌>>=◌,
}
use deep_seer.Core.Buffer.{Bytes}
use deep_seer.Seer.Magika.Layers.{
  Floats, MagikaModel, predict, embedding, layer_norm, gelu, conv1d, global_max_pool, vector_norm,
  dense, softmax, max_of, tabulate,
}
use deep_seer.Seer.Magika.Tokens.{extract_input_tokens}
use deep_seer.Seer.Magika.Forward.{IsSized, features, features_lem}
use deep_seer.Seer.Magika.File.{
  Stream, Loaded, loaded, failed, missing_tensors, bad_magic, bad_version, little_endian, and_then,
  Tensor, read_tensors, read_labels, read_val, assemble, load_body, load,
}
use deep_seer.Seer.Magika.File.Reads.{ready, to_bytes, read_lem, read_val_lem}
use deep_seer.Seer.Magika.File.Tensors.{
  put_tensors, put_labels, IsStorable, inserted, read_tensors_lem, read_labels_lem,
}

-- The data of one tensor, and the ten that the tool writes.
pub record Block : Type 0 where
  pub shape : List ℕ
  pub bits : List ℕ

pub record Weights : Type 0 where
  pub embed_weight : Block
  pub embed_bias : Block
  pub ln0_scale : Block
  pub ln0_bias : Block
  pub conv_weight : Block
  pub conv_bias : Block
  pub ln1_scale : Block
  pub ln1_bias : Block
  pub output_weight : Block
  pub output_bias : Block

abbrev named : Bytes → Block → Tensor
named n b = record { name = n; shape = b.shape; bits = b.bits }

abbrev pub tensors_of : Weights → List Tensor
tensors_of w =
    named (codes "embed_weight") w.embed_weight
    ∷ named (codes "embed_bias") w.embed_bias
    ∷ named (codes "ln0_scale") w.ln0_scale
    ∷ named (codes "ln0_bias") w.ln0_bias
    ∷ named (codes "conv_weight") w.conv_weight
    ∷ named (codes "conv_bias") w.conv_bias
    ∷ named (codes "ln1_scale") w.ln1_scale
    ∷ named (codes "ln1_bias") w.ln1_bias
    ∷ named (codes "output_weight") w.output_weight
    ∷ named (codes "output_bias") w.output_bias
    ∷ []

-- A file up to its labels, and a whole one, before the bytes that follow.
abbrev pub unlabelled_file : Weights → Bytes → Bytes
unlabelled_file w ys =
    codes "DSMG" ++ (to_bytes 1 ++ (to_bytes 10 ++ put_tensors (tensors_of w) ys))

abbrev pub weights_file : Weights → List Bytes → Bytes → Bytes
weights_file w ls ys = unlabelled_file w (to_bytes (length ls) ++ put_labels ls ys)

module _ (floats : Floats) where
  abbrev pub model_of : Weights → List Bytes → MagikaModel floats
  model_of w ls = record {
    embed_weight = map floats.of_bits w.embed_weight.bits;
    embed_bias = map floats.of_bits w.embed_bias.bits;
    ln0_scale = map floats.of_bits w.ln0_scale.bits;
    ln0_bias = map floats.of_bits w.ln0_bias.bits;
    conv_weight = map floats.of_bits w.conv_weight.bits;
    conv_bias = map floats.of_bits w.conv_bias.bits;
    ln1_scale = map floats.of_bits w.ln1_scale.bits;
    ln1_bias = map floats.of_bits w.ln1_bias.bits;
    output_weight = map floats.of_bits w.output_weight.bits;
    output_bias = map floats.of_bits w.output_bias.bits;
    num_classes = length ls;
    labels = ls;
  }

  assemble_lem :
      (w : Weights) (ls : List Bytes)
      → assemble floats (inserted (tensors_of w) []) ls ≡ some (model_of w ls)
  unfolding assemble same
  assemble_lem w ls = refl

  -- What `load_body` does behind the tensors and behind the labels.
  after_labels : List Tensor → Loaded (List Bytes × Stream) → Loaded (MagikaModel floats)
  unfolding assemble
  after_labels ts l =
      and_then l
        (λ q. elim (assemble floats ts q.0) [ none ↦ failed missing_tensors | some m ↦ loaded m ])

  after_tensors : Loaded (List Tensor × Stream) → Loaded (MagikaModel floats)
  unfolding after_labels read_val read_labels
  after_tensors l = and_then l (λ r.
      let label_count = read_val r.1 in after_labels r.0 (read_labels label_count.0 label_count.1))

  -- The label count of a file that has ended.
  cut_labels :
      read_labels (read_val (ready [])).0 (read_val (ready [])).1
      ≡ loaded ([], record { rest = []; good = false })
  unfolding read_labels read_val little_endian
  cut_labels = refl

  -- What `load` does behind the magic and behind the version.
  after_version : ℕ × Stream → Loaded (MagikaModel floats)
  unfolding load_body
  after_version v = if v.0 == 1 then load_body floats v.1 else failed (bad_version v.0)

  after_magic : Bytes → Bytes × Stream → Loaded (MagikaModel floats)
  unfolding after_version same read_val
  after_magic stack m =
      if not (same (take 4 (m.0 ++ drop (length m.0) stack)) (codes "DSMG"))
      then failed bad_magic
      else after_version (read_val m.1)

  header_lem :
      (stack zs : Bytes)
      → load floats stack (some (codes "DSMG" ++ (to_bytes 1 ++ zs))) ≡ load_body floats (ready zs)
  unfolding load after_magic after_version same
  header_lem stack zs =
      ap (after_magic stack) (read_lem (codes "DSMG") (to_bytes 1 ++ zs) 4 refl)
      ∙ ap after_version (read_val_lem 1 zs (omega arith))

  body_lem :
      (ts : List Tensor) (ys : Bytes)
      → length ts < 4294967296
      → All IsStorable ts
      → load_body floats (ready (to_bytes (length ts) ++ put_tensors ts ys))
        ≡ after_tensors (loaded (inserted ts [], ready ys))
  unfolding load_body after_tensors after_labels
  body_lem ts ys p h =
      ap (λ v. after_tensors (read_tensors v.0 [] v.1))
        (read_val_lem (length ts) (put_tensors ts ys) p)
      ∙ ap after_tensors (read_tensors_lem ts [] ys h)

  labels_lem :
      (w : Weights) (ls : List Bytes) (s : Stream) (t : Stream)
      → read_labels (read_val s).0 (read_val s).1 ≡ loaded (ls, t)
      → after_tensors (loaded (inserted (tensors_of w) [], s)) ≡ loaded (model_of w ls)
  unfolding after_tensors after_labels
  labels_lem w ls s t e =
      ap (after_labels (inserted (tensors_of w) [])) e
      ∙ ap
          (λ o. elim o as (λ _. Loaded (MagikaModel floats)) [
            | none ↦ failed missing_tensors
            | some m ↦ loaded m
          ])
          (assemble_lem w ls)

  -- `loadFromFile` reads what the extraction tool writes: a file of the ten tensors and the labels,
  -- with sizes that its 32-bit fields hold, loads as the model of these weights and labels, whatever
  -- bytes follow them.
  pub load-weights_file :
      (w : Weights) (ls : List Bytes) (rest stack : Bytes)
      → All IsStorable (tensors_of w)
      → length ls < 4294967296
      → All (λ l. length l < 4294967296) ls
      → load floats stack (some (weights_file w ls rest)) ≡ loaded (model_of w ls)
  load-weights_file w ls rest stack h p q =
      header_lem stack _
      ∙ body_lem (tensors_of w) (to_bytes (length ls) ++ put_labels ls rest) (omega arith) h
      ∙ labels_lem w ls _ (ready rest)
          (ap (λ v. read_labels v.0 v.1) (read_val_lem (length ls) _ p) ∙ read_labels_lem ls rest q)

  bind_none :
      {A B : Type 0} (o : Option A) (f : A → Option B) → ((a : A) → f a ≡ none) → (o >>= f) ≡ none
  bind_none none f h = refl
  bind_none (some a) f h = h a

  tabulate_none : {A : Type 0} (n : ℕ) (f : ℕ → Option A) → n ≡ 0 → tabulate n 0 f ≡ some []
  unfolding tabulate
  tabulate_none zero f e = refl
  tabulate_none (suc n) f e = absurd (omega arith)

  -- A model with no class has no largest element.
  no_logits :
      {B : Type 0} (m : MagikaModel floats) (xs : List floats.Float)
      → (f : List floats.Float → Option B) → m.num_classes ≡ 0
      → (dense floats m xs >>= λ ys. softmax floats ys >>= f) ≡ none
  unfolding dense tabulate softmax max_of
  no_logits m xs f e =
      ap (λ o. o >>= λ ys. softmax floats ys >>= f) (tabulate_none m.num_classes _ e)

  no_class_lem :
      (m : MagikaModel floats) (payload : Bytes)
      → m.num_classes ≡ 0
      → predict floats m payload ≡ none
  unfolding predict
  no_class_lem m payload e = bind_none (extract_input_tokens payload) _ (λ tokens.
      bind_none (embedding floats m tokens) _ (λ embedded.
        bind_none (layer_norm floats (gelu floats embedded) m.ln0_scale m.ln0_bias 512 256) _
          (λ normed. bind_none (conv1d floats m normed 512) _ (λ convolved.
            bind_none (global_max_pool floats (gelu floats convolved) 508) _ (λ pooled.
              bind_none (vector_norm floats m pooled) _ (λ scaled. no_logits m scaled _ e))))))

  -- A file whose tensors before the last layer have the sizes of the model, and which ends before its
  -- labels, also loads, since the read of the number of labels is not checked: as a model with no
  -- class and no label. On every payload of bytes all layers before the last succeed; the last gives
  -- no value, softmax then dereferences the end of an empty array, and so `predict` has no result.
  pub cut_file_lem :
      (w : Weights) (stack payload : Bytes)
      → All IsStorable (tensors_of w)
      → IsSized floats (model_of w [])
      → All (λ b. b < 256) payload
      → (m : MagikaModel floats) × (load floats stack (some (unlabelled_file w [])) ≡ loaded m)
        × (m.num_classes ≡ 0)
        × (m.labels ≡ [])
        × ((xs : List floats.Float) × (features floats m payload ≡ some xs)
            × (dense floats m xs ≡ some []))
        × (softmax floats [] ≡ none)
        × (predict floats m payload ≡ none)
  unfolding dense softmax max_of
  cut_file_lem w stack payload h s b =
      let (xs, e, wide) = features_lem floats (model_of w []) payload s b in
      (
        model_of w [],
        header_lem stack _
            ∙ body_lem (tensors_of w) [] (omega arith) h
            ∙ labels_lem w [] (ready []) _ cut_labels,
        refl,
        refl,
        (xs, e, tabulate_none 0 _ refl),
        refl,
        no_class_lem (model_of w []) payload refl,
      )
