-- ===== src/Seer/MagikaEngine.antt =====
-- SeerLib/src/Magika/MagikaEngine.cpp: the engine that classifies with a loaded model.
use deep_seer.Base.{
  ℕ, ◌<◌, ◌≡◌, refl, sym, ap, ◌∙◌, List, Option, none, some, All, length, get_elem?, codes, ◌>>=◌,
}
use deep_seer.Core.Buffer.{Bytes}
use deep_seer.Seer.Magika.Layers.{Floats, MagikaModel, Prediction, predict}
use deep_seer.Seer.Magika.Loops.{elem_lem}
use deep_seer.Seer.Magika.Forward.{IsShaped, prediction_lem}
use deep_seer.Seer.Magika.File.{Loaded, loaded, and_then, load}
use deep_seer.Seer.Magika.File.Tensors.{IsStorable}
use deep_seer.Seer.Magika.File.Written.{
  Weights, tensors_of, weights_file, model_of, load-weights_file,
}

module _ (floats : Floats) where
  -- `InferenceResult`, without the time that the engine measures.
  pub record InferenceResult : Type 0 where
    pub label : Bytes
    pub confidence : floats.Float
    pub model_name : Bytes

  pub record MagikaEngine : Type 0 where
    pub model : MagikaModel floats

  -- `MagikaEngine::create`.
  unfoldable pub create : Bytes → Option Bytes → Loaded MagikaEngine
  unfolding load
  create stack contents = and_then (load floats stack contents) (λ m. loaded (record { model = m }))

  -- `MagikaEngine::classify`; none is an access out of range.
  unfoldable pub classify : MagikaEngine → Bytes → Option InferenceResult
  unfolding predict
  classify e payload = predict floats e.model payload >>= λ (p : Prediction floats).
      some (record { label = p.label; confidence = p.confidence; model_name = codes "magika-v1" })

  -- From the weight file to the answer: from a file that the extraction tool writes, with tensors of
  -- the sizes of the model and at least one label, an engine is created, and it classifies every
  -- payload of bytes without leaving its arrays, as one of the labels of the file.
  pub classify_lem :
      (w : Weights) (ls : List Bytes) (rest stack payload : Bytes)
      → All IsStorable (tensors_of w)
      → length ls < 4294967296
      → All (λ l. length l < 4294967296) ls
      → IsShaped floats (model_of floats w ls)
      → All (λ b. b < 256) payload
      → (e : MagikaEngine) × (r : InferenceResult) × (i : ℕ) × (create stack
            (some (weights_file w ls rest))
          ≡ loaded e)
        × (classify e payload ≡ some r)
        × (get_elem? ls i ≡ some r.label)
  unfolding create classify
  classify_lem w ls rest stack payload h p q s b =
      let m = model_of floats w ls in
      let (r, e, (below, label)) = prediction_lem floats m payload s b in
      let (l, found) = elem_lem ls (length ls) r.class_index refl below in
      let is_label : r.label ≡ l =
        label ∙ ap (λ o. elim o as (λ _. Bytes) [ none ↦ codes "unknown" | some k ↦ k ]) found in
      (
        record { model = m },
        record { label = r.label; confidence = r.confidence; model_name = codes "magika-v1" },
        r.class_index,
        ap (λ x. and_then x (λ m. loaded (record { model = m })))
            (load-weights_file floats w ls rest stack h p q),
        ap
            (λ (o : Option (Prediction floats)). o >>= λ p. some (record {
              label = p.label;
              confidence = p.confidence;
              model_name = codes "magika-v1";
            }))
            e,
        found ∙ ap (λ k. some k) (sym is_label),
      )
