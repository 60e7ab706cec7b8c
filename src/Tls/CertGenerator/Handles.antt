-- ===== src/Tls/CertGenerator/Handles.antt =====
-- The handles of `CertGenerator` (DeepSeerLib/src/Tls/CertGenerator.cpp).
use deep_seer.Base.{
  ℕ, ◌+◌, ◌≡◌, Bool, true, false, List, [], ◌∷◌, Option, none, some, if◌then◌else◌, ◌==◌, arith,
}
use deep_seer.Core.Types.{Expected, ok, unexpected}
use deep_seer.Core.Buffer.{Bytes}
use deep_seer.Tls.CertGenerator.{
  HandleCall, acquires, releases, CertGenerator, CaAnswers, create, LeafAnswers, CertKeyPair, leaf,
  generate,
}

-- 1 for the same handle.
abbrev pub one_if : ℕ → ℕ → ℕ
one_if h n = if n == h then 1 else 0

abbrev pub acquired : ℕ → List HandleCall → ℕ
acquired h [] = 0
acquired h (acquires n ∷ cs) = one_if h n + acquired h cs
acquired h (releases n ∷ cs) = acquired h cs

abbrev pub released : ℕ → List HandleCall → ℕ
released h [] = 0
released h (acquires n ∷ cs) = released h cs
released h (releases n ∷ cs) = one_if h n + released h cs

-- The handles that a result owns.
abbrev pub owned_by_generator : ℕ → Expected CertGenerator → ℕ
owned_by_generator h (unexpected e) = 0
owned_by_generator h (ok g) = one_if h g.ca_cert + one_if h g.ca_key

abbrev pub owned_by_pair : ℕ → Expected CertKeyPair → ℕ
owned_by_pair h (unexpected e) = 0
owned_by_pair h (ok p) = one_if h p.cert.handle + one_if h p.key

create_cases :
    (cert_path key_path : Bytes) (f c g k : Option ℕ) (h : ℕ)
    → let r =
        create cert_path key_path (record { cert_file = f; cert = c; key_file = g; key = k }) in
      acquired h r.1 ≡ released h r.1 + owned_by_generator h r.0
unfolding create
create_cases cp kp none c g k h = omega arith
create_cases cp kp (some f) none g k h = omega arith
create_cases cp kp (some f) (some c) none k h = omega arith
create_cases cp kp (some f) (some c) (some g) none h = omega arith
create_cases cp kp (some f) (some c) (some g) (some k) h = omega arith

generate_cases :
    (ca : CertGenerator) (hostname : Bytes) (k c : Option ℕ) (r : ℕ) (n : Bool) (e b : Option ℕ)
    (s : Bool) (h : ℕ)
    → let g = generate ca hostname (record {
      key = k;
      cert = c;
      random = r;
      adds_name = n;
      alternative_name = e;
      constraints = b;
      signs = s;
    }) in
      acquired h g.1 ≡ released h g.1 + owned_by_pair h g.0
unfolding generate leaf
generate_cases ca name none c r n e b s h = omega arith
generate_cases ca name (some k) none r n e b s h = omega arith
generate_cases ca name (some k) (some c) r n none none true h = omega arith
generate_cases ca name (some k) (some c) r n none (some b) true h = omega arith
generate_cases ca name (some k) (some c) r n (some e) none true h = omega arith
generate_cases ca name (some k) (some c) r n (some e) (some b) true h = omega arith
generate_cases ca name (some k) (some c) r n none none false h = omega arith
generate_cases ca name (some k) (some c) r n none (some b) false h = omega arith
generate_cases ca name (some k) (some c) r n (some e) none false h = omega arith
generate_cases ca name (some k) (some c) r n (some e) (some b) false h = omega arith

-- Whatever OpenSSL and the C library answer, `create` and `generate` acquire every handle once more
-- than they release it for each place in which their result owns it: none leaks on an error, none is
-- released twice, and none that the result owns is released.
pub handles_lem :
    (cert_path key_path hostname : Bytes) (a : CaAnswers) (ca : CertGenerator) (b : LeafAnswers)
    (h : ℕ)
    → (acquired h (create cert_path key_path a).1
        ≡ released h (create cert_path key_path a).1
          + owned_by_generator h (create cert_path key_path a).0)
      × (acquired h (generate ca hostname b).1
          ≡ released h (generate ca hostname b).1 + owned_by_pair h (generate ca hostname b).0)
handles_lem cp kp n a ca b h = (
  create_cases cp kp a.cert_file a.cert a.key_file a.key h,
  generate_cases ca n b.key b.cert b.random b.adds_name b.alternative_name b.constraints b.signs h,
)
