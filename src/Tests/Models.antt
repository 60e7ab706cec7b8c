-- ===== src/Tests/Models.antt =====
-- The theorems on the model of SeerLib, on the certificates and on TLS connections at concrete inputs.
use deep_seer.Base.{
  ◌&&◌, not, false, true, ℕ, ◌+◌, ◌*◌, ◌<◌, ◌≤◌, ◌≡◌, refl, List, [], ◌∷◌, none, some, arith, All,
  length, replicate, length-replicate, codes,
}
use deep_seer.Core.Buffer.{Bytes}
use deep_seer.Tests.Pipeline.{naturals}
use deep_seer.Seer.Magika.Tokens.{extract_input_tokens, beg_size, end_size}
use deep_seer.Seer.Magika.Tokens.Layout.{layout, tokens_lem}
use deep_seer.Seer.Magika.Layers.{MagikaModel, Prediction, predict}
use deep_seer.Seer.Magika.Forward.{IsShaped, predict_lem}
use deep_seer.Seer.Magika.File.{loaded, load}
use deep_seer.Seer.Magika.File.Tensors.{IsStorable}
use deep_seer.Seer.Magika.File.Written.{
  Block, Weights, tensors_of, weights_file, model_of, load-weights_file,
}
use deep_seer.Net.Tls.{
  make_tls, want_read, handshake_ok, handshake_wants, wrote, write_failed, read_bytes, read_end,
  starts_read, closes, writes, continue_handshake, start_read, handle_io, owner_calls, write,
  do_write, after_flush,
}
use deep_seer.Net.Flush.{flush}
use deep_seer.Core.Buffer.{add, drain}
use deep_seer.Net.Tls.{classify}
use deep_seer.Net.Tls.Tidy.{terminals, followers, openness, owns_fd, watches}
use deep_seer.Net.Tls.Lifecycle.{Call, starts_handshake, owner, ios, tls_life_lem, tls_sane_lem}
use deep_seer.Net.Tls.Lifecycle
use deep_seer.Tls.CertGenerator.{CertGenerator, CaAnswers, create, LeafAnswers, generate}
use deep_seer.Tls.CertGenerator.Handles.{
  acquired, released, owned_by_generator, owned_by_pair, handles_lem,
}
use deep_seer.Tls.CertCache.{CertCache, make_cache}
use deep_seer.Tls.CertCache.Hits.{ups, frees, holds}
use deep_seer.Tls.CertCache.Lru.{Op, gets, puts, run, spec_run, lru_refines}

abbrev payload : Bytes
payload = codes "  GIF89a "

tokens_lem_example :
    (extract_input_tokens payload ≡ some (layout beg_size end_size payload))
    × (length (layout beg_size end_size payload) ≡ 2048)
    × All (λ t. t ≤ 256) (layout beg_size end_size payload)
tokens_lem_example = tokens_lem payload (ground arith)

-- An array of one value; its length is known without computing it.
unfoldable filled : ℕ → ℕ → List ℕ
filled = replicate

length-filled : (n v : ℕ) → length (filled n v) ≡ n
unfolding filled
length-filled = length-replicate

abbrev flat_model : MagikaModel naturals
flat_model = record {
  embed_weight = filled (257 * 64) 1;
  embed_bias = filled 64 2;
  ln0_scale = filled 512 1;
  ln0_bias = filled 512 0;
  conv_weight = filled (512 * 256 * 5) 1;
  conv_bias = filled 512 3;
  ln1_scale = filled 512 1;
  ln1_bias = filled 512 0;
  output_weight = filled (512 * 2) 1;
  output_bias = filled 2 0;
  num_classes = 2;
  labels = codes "gif" ∷ codes "png" ∷ [];
}

flat_model-IsShaped : IsShaped naturals flat_model
flat_model-IsShaped = record {
  embed_weight_size = length-filled (257 * 64) 1;
  embed_bias_size = length-filled 64 2;
  ln0_scale_size = length-filled 512 1;
  ln0_bias_size = length-filled 512 0;
  conv_weight_size = length-filled (512 * 256 * 5) 1;
  conv_bias_size = length-filled 512 3;
  ln1_scale_size = length-filled 512 1;
  ln1_bias_size = length-filled 512 0;
  output_weight_size = length-filled (512 * 2) 1;
  output_bias_size = length-filled 2 0;
  some_class = omega arith;
}

predict_lem_example :
    (r : Prediction naturals) × (predict naturals flat_model payload ≡ some r)
    × (r.class_index < flat_model.num_classes)
predict_lem_example = predict_lem naturals flat_model payload flat_model-IsShaped (ground arith)

abbrev block : Block
block = record { shape = 1 ∷ 2 ∷ []; bits = 1065353216 ∷ 0 ∷ [] }

abbrev weights : Weights
weights = record {
  embed_weight = block;
  embed_bias = block;
  ln0_scale = block;
  ln0_bias = block;
  conv_weight = block;
  conv_bias = block;
  ln1_scale = block;
  ln1_bias = block;
  output_weight = block;
  output_bias = block;
}

abbrev labels : List Bytes
labels = codes "gif" ∷ codes "png" ∷ []

block-IsStorable :
    (n : Bytes)
    → length n < 4294967296
    → IsStorable (record { name = n; shape = block.shape; bits = block.bits })
block-IsStorable n h = record {
  name_fits = h;
  rank_fits = omega arith;
  dims_fit = ground arith;
  counted = refl;
  size_fits = omega arith;
  bits_fit = ground arith;
}

weights-IsStorable : All IsStorable (tensors_of weights)
weights-IsStorable = (
  block-IsStorable _ (omega arith),
  (
    block-IsStorable _ (omega arith),
    (
      block-IsStorable _ (omega arith),
      (
        block-IsStorable _ (omega arith),
        (
          block-IsStorable _ (omega arith),
          (
            block-IsStorable _ (omega arith),
            (
              block-IsStorable _ (omega arith),
              (
                block-IsStorable _ (omega arith),
                (block-IsStorable _ (omega arith), (block-IsStorable _ (omega arith), tt)),
              ),
            ),
          ),
        ),
      ),
    ),
  ),
)

load-weights_file_example :
    load naturals (0 ∷ []) (some (weights_file weights labels (7 ∷ [])))
    ≡ loaded (model_of naturals weights labels)
load-weights_file_example =
    load-weights_file naturals weights labels (7 ∷ []) (0 ∷ []) weights-IsStorable (omega arith)
      ground arith

abbrev cache_calls : List Op
cache_calls =
    puts (codes "a") 1
    ∷ puts (codes "b") 2
    ∷ gets (codes "a")
    ∷ puts (codes "c") 3
    ∷ gets (codes "b")
    ∷ []

lru_refines_example :
    (d : CertCache) × (run cache_calls (make_cache 2) ≡ some (d, (spec_run 2 cache_calls []).1))
    × (d.order ≡ (spec_run 2 cache_calls []).0)
    × (length d.order ≤ 2)
    × ((x : ℕ) → ups x d.calls ≡ frees x d.calls + holds x d.order)
lru_refines_example = lru_refines 2 cache_calls (omega arith)

abbrev ca_answers : CaAnswers
ca_answers = record { cert_file = some 3; cert = some 10; key_file = some 3; key = none }

abbrev authority : CertGenerator
authority = record { ca_cert = 10; ca_key = 11 }

abbrev leaf_answers : LeafAnswers
leaf_answers = record {
  key = some 12;
  cert = some 13;
  random = 5000000000;
  adds_name = false;
  alternative_name = some 14;
  constraints = none;
  signs = true;
}

handles_lem_example :
    (acquired 10 (create (codes "ca.pem") (codes "ca.key") ca_answers).1
      ≡ released 10 (create (codes "ca.pem") (codes "ca.key") ca_answers).1
        + owned_by_generator 10 (create (codes "ca.pem") (codes "ca.key") ca_answers).0)
    × (acquired 10 (generate authority (codes "a.org") leaf_answers).1
        ≡ released 10 (generate authority (codes "a.org") leaf_answers).1
          + owned_by_pair 10 (generate authority (codes "a.org") leaf_answers).0)
handles_lem_example =
    handles_lem (codes "ca.pem") (codes "ca.key") (codes "a.org") ca_answers authority leaf_answers
      10

-- The owner answers the data inside its callback.
abbrev tls_calls : List Lifecycle.Call
tls_calls =
    starts_handshake (handshake_wants want_read)
    ∷ ios handshake_ok [] (λ i d. wrote (length d))
    ∷ owner starts_read
    ∷ ios handshake_ok
        (read_bytes (codes "hi") (writes (λ i d. wrote (length d)) (codes "ho") ∷ [])
          ∷ read_end
          ∷ [])
        (λ i d. wrote (length d))
    ∷ owner (writes (λ i d. write_failed) (codes "late"))
    ∷ []

tls_life_lem_example :
    (terminals (Lifecycle.run tls_calls (make_tls 5 false)).1
        + openness (Lifecycle.run tls_calls (make_tls 5 false)).0
      ≤ 1)
    × (followers (Lifecycle.run tls_calls (make_tls 5 false)).1 ≡ 0)
unfolding continue_handshake start_read handle_io owner_calls write do_write flush after_flush add
    classify drain
tls_life_lem_example = tls_life_lem tls_calls 5 false (tt, (tt, (tt, ((λ h. refl, tt), (tt, tt)))))

-- Here the owner closes the connection inside its callback for data.
abbrev rude_calls : List Lifecycle.Call
rude_calls =
    starts_handshake handshake_ok
    ∷ owner starts_read
    ∷ ios handshake_ok (read_bytes (codes "hi") (closes ∷ []) ∷ read_end ∷ []) (λ i d. write_failed)
    ∷ []

tls_sane_lem_example :
    (owns_fd (Lifecycle.run rude_calls (make_tls 5 false)).0
      ≡ not (Lifecycle.run rude_calls (make_tls 5 false)).0.closed)
    × ((watches (Lifecycle.run rude_calls (make_tls 5 false)).0
          && (Lifecycle.run rude_calls (make_tls 5 false)).0.closed)
        ≡ false)
tls_sane_lem_example = tls_sane_lem rude_calls 5 false
