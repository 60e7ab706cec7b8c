-- ===== src/Tls/CertGenerator.antt =====
-- DeepSeerLib/src/Tls/CertGenerator.cpp and its header. What OpenSSL and the C library answer is an
-- argument; a handle is a number, and the acquisitions and releases of handles are recorded.
pub mod Handles
use deep_seer.Base.{
  ℕ, ◌+◌, ◌*◌, ◌%◌, Bool, true, false, List, [], ◌∷◌, ◌++◌, Option, none, some, if◌then◌else◌, ◌==◌,
  codes,
}
use mathlib.Core.Option
use deep_seer.Core.Types.{config_error, cert_generation_failed, Expected, ok, unexpected}
use deep_seer.Core.Buffer.{Bytes}
use deep_seer.Net.Socket.{error}

-- A handle is acquired or released.
pub data HandleCall : Type 0 where
  acquires releases : ℕ → HandleCall

-- `caCert_` and `caKey_`.
pub record CertGenerator : Type 0 where
  pub ca_cert : ℕ
  pub ca_key : ℕ

-- `fopen`, `PEM_read_X509` and `PEM_read_PrivateKey`; none is a null pointer.
pub record CaAnswers : Type 0 where
  pub cert_file : Option ℕ
  pub cert : Option ℕ
  pub key_file : Option ℕ
  pub key : Option ℕ

-- `CertGenerator::create`.
unfoldable pub create : Bytes → Bytes → CaAnswers → Expected CertGenerator × List HandleCall
create cert_path key_path c = elim c.cert_file [
  | none ↦ (error config_error (codes "Cannot open CA cert: " ++ cert_path), [])
  | some f ↦ elim c.cert [
    | none ↦ (error config_error (codes "Failed to parse CA cert"), acquires f ∷ releases f ∷ [])
    | some x ↦ elim c.key_file [
      | none ↦ (
        error config_error (codes "Cannot open CA key: " ++ key_path),
        acquires f ∷ acquires x ∷ releases f ∷ releases x ∷ [],
      )
      | some g ↦ elim c.key [
        | none ↦ (
          error config_error (codes "Failed to parse CA key"),
          acquires f ∷ acquires x ∷ releases f ∷ acquires g ∷ releases g ∷ releases x ∷ [],
        )
        | some k ↦ (
          ok (record { ca_cert = x; ca_key = k }),
          acquires f ∷ acquires x ∷ releases f ∷ acquires g ∷ acquires k ∷ releases g ∷ [],
        )
      ]
    ]
  ]
]

-- `EVP_RSA_gen`, `X509_new`, the random number, `X509_NAME_add_entry_by_txt`, whose failure the source
-- ignores, the two `X509V3_EXT_conf_nid` and `X509_sign`.
pub record LeafAnswers : Type 0 where
  pub key : Option ℕ
  pub cert : Option ℕ
  pub random : ℕ
  pub adds_name : Bool
  pub alternative_name : Option ℕ
  pub constraints : Option ℕ
  pub signs : Bool

-- The contents of a certificate; the bounds of its validity are seconds before and after the present,
-- and its issuer is the subject of the certificate with that handle.
pub record Certificate : Type 0 where
  pub handle : ℕ
  pub version : ℕ
  pub serial : ℕ
  pub valid_before : ℕ
  pub valid_after : ℕ
  pub common_name : Option Bytes
  pub issuer : ℕ
  pub public_key : ℕ
  pub alternative_name : Option Bytes
  pub constraints : Option Bytes
  pub signer : Option ℕ

-- `CertKeyPair`.
pub record CertKeyPair : Type 0 where
  pub cert : Certificate
  pub key : ℕ

-- What a C function reads of `c_str()`.
unfoldable pub c_str : Bytes → Bytes
c_str [] = []
c_str (c ∷ cs) = let rest = c_str cs in if c == 0 then [] else c ∷ rest

-- An extension is added and freed where it could be made.
abbrev pub extension_calls : Option ℕ → List HandleCall
extension_calls none = []
extension_calls (some e) = acquires e ∷ releases e ∷ []

-- The certificate before it is signed.
unfoldable pub leaf : CertGenerator → Bytes → ℕ → ℕ → LeafAnswers → Certificate
unfolding c_str
leaf ca hostname key cert a = record {
  handle = cert;
  version = 2;
  serial = a.random % 2147483648;
  valid_before = 86400;
  valid_after = 180 * 86400;
  common_name = if a.adds_name then some (c_str hostname) else none;
  issuer = ca.ca_cert;
  public_key = key;
  alternative_name = Option.map (λ e. c_str (codes "DNS:" ++ hostname)) a.alternative_name;
  constraints = Option.map (λ e. codes "CA:FALSE") a.constraints;
  signer = none;
}

-- `CertGenerator::generate`: the smart pointers release the certificate and then the key.
unfoldable pub generate :
    CertGenerator → Bytes → LeafAnswers → Expected CertKeyPair × List HandleCall
unfolding leaf
generate ca hostname a = elim a.key [
  | none ↦ (error cert_generation_failed (codes "Failed to generate RSA key"), [])
  | some k ↦ elim a.cert [
    | none ↦
        (error cert_generation_failed (codes "Failed to create X509"), acquires k ∷ releases k ∷ [])
    | some x ↦
        let calls =
          acquires k
          ∷ acquires x
          ∷ (extension_calls a.alternative_name ++ extension_calls a.constraints) in
        if a.signs
        then (
          ok (record {
            cert = record (leaf ca hostname k x a) { signer = some ca.ca_key };
            key = k;
          }),
          calls,
        )
        else (
          error cert_generation_failed (codes "Failed to sign certificate"),
          calls ++ releases x ∷ releases k ∷ [],
        )
  ]
]
