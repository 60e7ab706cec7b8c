-- ===== src/Http/Message.antt =====
-- DeepSeerLib/include/DeepSeer/Http/Message.hpp.
use deep_seer.Base.{
  ℕ, ◌≡◌, ◌≢◌, refl, sym, ◌∙◌, Bool, false, [], ◌⊎◌, inl, inr, arith, if◌then◌else◌, codes, same,
  same_iff, Bool-cases,
}
use deep_seer.Core.Buffer.{Bytes}
use deep_seer.Http.Headers.{HeaderMap}

pub data HttpMethod : Type 0 where
  get_method post put delete patch head options connect trace unknown : HttpMethod

-- `methodToString`.
unfoldable pub method_to_string : HttpMethod → Bytes
method_to_string get_method = codes "GET"
method_to_string post = codes "POST"
method_to_string put = codes "PUT"
method_to_string delete = codes "DELETE"
method_to_string patch = codes "PATCH"
method_to_string head = codes "HEAD"
method_to_string options = codes "OPTIONS"
method_to_string connect = codes "CONNECT"
method_to_string trace = codes "TRACE"
method_to_string unknown = codes "UNKNOWN"

-- `stringToMethod`.
unfoldable pub string_to_method : Bytes → HttpMethod
unfolding same
string_to_method s =
    if same s (codes "GET")
    then get_method
    else if same s (codes "POST")
    then post
    else if same s (codes "PUT")
    then put
    else if same s (codes "DELETE")
    then delete
    else if same s (codes "PATCH")
    then patch
    else if same s (codes "HEAD")
    then head
    else if same s (codes "OPTIONS")
    then options
    else if same s (codes "CONNECT")
    then connect
    else if same s (codes "TRACE")
    then trace
    else if same s (codes "UNKNOWN")
    then unknown
    else unknown

pub record HttpRequest : Type 0 where
  pub method : HttpMethod
  pub url : Bytes
  pub host : Bytes
  pub port : ℕ
  pub version_major : ℕ
  pub version_minor : ℕ
  pub headers : HeaderMap
  pub has_body : Bool

pub record HttpResponse : Type 0 where
  pub status_code : ℕ
  pub reason : Bytes
  pub version_major : ℕ
  pub version_minor : ℕ
  pub headers : HeaderMap
  pub has_body : Bool

-- The values of the default member initialisers.
abbrev pub blank_request : HttpRequest
blank_request = record {
  method = unknown;
  url = [];
  host = [];
  port = 80;
  version_major = 1;
  version_minor = 1;
  headers = [];
  has_body = false;
}

abbrev pub blank_response : HttpResponse
blank_response = record {
  status_code = 0;
  reason = [];
  version_major = 1;
  version_minor = 1;
  headers = [];
  has_body = false;
}

read_printed : (m : HttpMethod) → string_to_method (method_to_string m) ≡ m
unfolding string_to_method method_to_string
read_printed get_method = refl
read_printed post = refl
read_printed put = refl
read_printed delete = refl
read_printed patch = refl
read_printed head = refl
read_printed options = refl
read_printed connect = refl
read_printed trace = refl
read_printed unknown = refl

abbrev Prints : Bytes → HttpMethod → Type 0
Prints s m = m ≢ unknown → method_to_string m ≡ s

-- One test of the ladder.
Prints-test :
    (s name : Bytes) (m rest : HttpMethod)
    → method_to_string m ≡ name
    → Prints s rest
    → Prints s (if same s name then m else rest)
Prints-test s name m rest e h = elim (Bool-cases (same s name)) [
  | inl y ↦ rw y (λ _. e ∙ sym ((same_iff s name).0 y))
  | inr n ↦ rw n h
]

print_read : (s : Bytes) → Prints s (string_to_method s)
unfolding string_to_method method_to_string
print_read s = Prints-test s _ get_method _ refl (
    Prints-test s _ post _ refl (
      Prints-test s _ put _ refl (
        Prints-test s _ delete _ refl (
          Prints-test s _ patch _ refl (
            Prints-test s _ head _ refl (
              Prints-test s _ options _ refl (
                Prints-test s _ connect _ refl (
                  Prints-test s _ trace _ refl
                    (Prints-test s _ unknown _ refl (λ h. absurd (h refl)))))))))))

known_lem : (k : HttpMethod) → (k ≡ unknown) ⊎ (k ≢ unknown)
known_lem get_method = inr (λ h. ground arith)
known_lem post = inr (λ h. ground arith)
known_lem put = inr (λ h. ground arith)
known_lem delete = inr (λ h. ground arith)
known_lem patch = inr (λ h. ground arith)
known_lem head = inr (λ h. ground arith)
known_lem options = inr (λ h. ground arith)
known_lem connect = inr (λ h. ground arith)
known_lem trace = inr (λ h. ground arith)
known_lem unknown = inl refl

-- Reading a printed method gives the method back, and any text is read as `unknown` or is the
-- printed name of the method that it is read as.
pub method_roundtrip :
    (m : HttpMethod) (s : Bytes)
    → (string_to_method (method_to_string m) ≡ m)
      × ((string_to_method s ≡ unknown) ⊎ (method_to_string (string_to_method s) ≡ s))
method_roundtrip m s = (
  read_printed m,
  elim (known_lem (string_to_method s)) [ inl h ↦ inl h | inr h ↦ inr (print_read s h) ],
)
