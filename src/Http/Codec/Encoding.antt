-- ===== src/Http/Codec/Encoding.antt =====
-- The bytes that the encoders append, read back line by line.
pub mod Added
pub mod Heads
use deep_seer.Base.{
  ℕ, ◌≡◌, ◌≢◌, refl, sym, ap, ◌∙◌, Bool, true, false, List, [], ◌∷◌, ◌++◌, map, append_assoc,
  append-nil, Option, none, some, arith, if◌then◌else◌, All, All-append, ◌==◌, codes, to_decimal,
  to_decimal-All, is_digit, ==_iff, Bool-cases, inl, inr,
}
use mathlib.Core.Option
use deep_seer.Core.Buffer.{Bytes, Buffer, empty_buffer, add, linearize, is_empty}
use deep_seer.Core.Buffer.Laws.{IsWellFormed, linearize-add, add-IsWellFormed, empty-IsWellFormed}
use deep_seer.Http.Headers.{HeaderMap, Entry}
use deep_seer.Http.Message.{HttpMethod, HttpRequest, HttpResponse, method_to_string}
use deep_seer.Http.Message
use deep_seer.Http.Codec.{
  crlf, header_line, add_headers, request_line, status_line, encode_request, encode_response,
}
use deep_seer.Http.Codec.Encoding.Added.{encode_request_lem, encode_response_lem}
use deep_seer.Http.Codec.Encoding.Heads.{
  read_head, IsPlain, header_text, ArePlain, read_head-message,
}

digits-IsPlain : (s : Bytes) → All (λ c. is_digit c ≡ true) s → IsPlain s
digits-IsPlain [] h = tt
digits-IsPlain (c ∷ s) h = (ground arith, digits-IsPlain s h.1)

number-IsPlain : (n : ℕ) → IsPlain (to_decimal n)
number-IsPlain n = digits-IsPlain (to_decimal n) (to_decimal-All n)

method-IsPlain : (m : HttpMethod) → IsPlain (method_to_string m)
unfolding method_to_string
method-IsPlain Message.get_method = omega arith
method-IsPlain Message.post = omega arith
method-IsPlain Message.put = omega arith
method-IsPlain Message.delete = omega arith
method-IsPlain Message.patch = omega arith
method-IsPlain Message.head = omega arith
method-IsPlain Message.options = omega arith
method-IsPlain Message.connect = omega arith
method-IsPlain Message.trace = omega arith
method-IsPlain Message.unknown = omega arith

-- `<method> <url> HTTP/<major>.<minor>`, and `HTTP/<major>.<minor> <status> <reason>`.
abbrev pub request_text : HttpRequest → Bytes
request_text req =
    method_to_string req.method
    ++ codes " "
    ++ req.url
    ++ codes " HTTP/"
    ++ to_decimal req.version_major
    ++ codes "."
    ++ to_decimal req.version_minor

abbrev pub status_text : HttpResponse → Bytes
status_text resp =
    codes "HTTP/"
    ++ to_decimal resp.version_major
    ++ codes "."
    ++ to_decimal resp.version_minor
    ++ codes " "
    ++ to_decimal resp.status_code
    ++ codes " "
    ++ resp.reason

-- Texts one behind another.
abbrev glue : Bytes → List Bytes → Bytes
glue s [] = s
glue s (t ∷ ts) = glue (s ++ t) ts

IsPlain-glue : (s : Bytes) (ts : List Bytes) → IsPlain s → All IsPlain ts → IsPlain (glue s ts)
IsPlain-glue s [] p a = p
IsPlain-glue s (t ∷ ts) p a = IsPlain-glue (s ++ t) ts (All-append (λ c. c ≢ 13) s t p a.0) a.1

literal-IsPlain : IsPlain (codes " ") × IsPlain (codes ".") × IsPlain (codes " HTTP/")
literal-IsPlain = omega arith

request_text-IsPlain : (req : HttpRequest) → IsPlain req.url → IsPlain (request_text req)
request_text-IsPlain req u =
    IsPlain-glue (method_to_string req.method)
      (codes " "
        ∷ req.url
        ∷ codes " HTTP/"
        ∷ to_decimal req.version_major
        ∷ codes "."
        ∷ to_decimal req.version_minor
        ∷ [])
      (method-IsPlain req.method)
      (
        literal-IsPlain.0,
        (
          u,
          (
            literal-IsPlain.2,
            (
              number-IsPlain req.version_major,
              (literal-IsPlain.1, (number-IsPlain req.version_minor, tt)),
            ),
          ),
        ),
      )

status_text-IsPlain : (resp : HttpResponse) → IsPlain resp.reason → IsPlain (status_text resp)
status_text-IsPlain resp r =
    IsPlain-glue (codes "HTTP/")
      (to_decimal resp.version_major
        ∷ codes "."
        ∷ to_decimal resp.version_minor
        ∷ codes " "
        ∷ to_decimal resp.status_code
        ∷ codes " "
        ∷ resp.reason
        ∷ [])
      (omega arith)
      (
        number-IsPlain resp.version_major,
        (
          literal-IsPlain.1,
          (
            number-IsPlain resp.version_minor,
            (literal-IsPlain.0, (number-IsPlain resp.status_code, (literal-IsPlain.0, (r, tt)))),
          ),
        ),
      )

request_text_ne : (req : HttpRequest) → request_text req ≢ []
unfolding method_to_string
request_text_ne req = go req.method
  where
    go :
        (m : HttpMethod)
        → method_to_string m
            ++ codes " "
            ++ req.url
            ++ codes " HTTP/"
            ++ to_decimal req.version_major
            ++ codes "."
            ++ to_decimal req.version_minor
          ≢ []
    go Message.get_method = λ h. cc
    go Message.post = λ h. cc
    go Message.put = λ h. cc
    go Message.delete = λ h. cc
    go Message.patch = λ h. cc
    go Message.head = λ h. cc
    go Message.options = λ h. cc
    go Message.connect = λ h. cc
    go Message.trace = λ h. cc
    go Message.unknown = λ h. cc

-- The head that `encodeRequest` writes into an empty buffer is read back as the request line and
-- one line for each header in order, and whatever follows it is left, if neither the URL nor a
-- header has a CR.
pub read_head-encode_request :
    (req : HttpRequest) (rest : Bytes)
    → IsPlain req.url
    → ArePlain req.headers
    → read_head false [] (linearize (encode_request req empty_buffer) ++ rest)
      ≡ some (request_text req ∷ map header_text req.headers, rest)
read_head-encode_request req rest u a =
    read_head-message (request_text req) rest (linearize (encode_request req empty_buffer))
      req.headers (request_text-IsPlain req u) (request_text_ne req) a
      ((encode_request_lem req empty_buffer empty-IsWellFormed).0
        ∙ unfold linearize in simp append_assoc)

-- The head that `encodeResponse` writes into an empty buffer is read back as the status line and
-- one line for each header in order, and whatever follows it is left, if neither the reason nor a
-- header has a CR.
pub read_head-encode_response :
    (resp : HttpResponse) (rest : Bytes)
    → IsPlain resp.reason
    → ArePlain resp.headers
    → read_head false [] (linearize (encode_response resp empty_buffer) ++ rest)
      ≡ some (status_text resp ∷ map header_text resp.headers, rest)
read_head-encode_response resp rest r a =
    read_head-message (status_text resp) rest (linearize (encode_response resp empty_buffer))
      resp.headers (status_text-IsPlain resp r) (λ h. cc) a
      ((encode_response_lem resp empty_buffer empty-IsWellFormed).0
        ∙ unfold linearize in simp append_assoc)
