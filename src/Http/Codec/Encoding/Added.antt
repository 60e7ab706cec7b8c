-- ===== src/Http/Codec/Encoding/Added.antt =====
-- The bytes that the encoders append to a buffer.
use deep_seer.Base.{◌≡◌, sym, ap, ◌∙◌, [], ◌∷◌, ◌++◌, append_assoc, append-nil}
use deep_seer.Core.Buffer.{Bytes, Buffer, add, linearize}
use deep_seer.Core.Buffer.Laws.{IsWellFormed, linearize-add, add-IsWellFormed}
use deep_seer.Http.Headers.{HeaderMap}
use deep_seer.Http.Message.{HttpRequest, HttpResponse}
use deep_seer.Http.Codec.{
  crlf, header_line, add_headers, request_line, status_line, encode_request, encode_response,
}

abbrev pub header_bytes : HeaderMap → Bytes
header_bytes [] = []
header_bytes ((k, v) ∷ m) = header_line k v ++ header_bytes m

add_headers_lem :
    (m : HeaderMap) (out : Buffer)
    → IsWellFormed out
    → (linearize (add_headers m out) ≡ linearize out ++ header_bytes m)
      × IsWellFormed (add_headers m out)
unfolding add_headers
add_headers_lem [] out w = (sym (append-nil (linearize out)), w)
add_headers_lem ((k, v) ∷ m) out w =
    let (lin, valid) = add_headers_lem m (add (header_line k v) out) (add-IsWellFormed _ out w) in
    (
      lin
          ∙ ap (λ d. d ++ header_bytes m) (linearize-add (header_line k v) out w)
          ∙ append_assoc (linearize out) (header_line k v) (header_bytes m),
      valid,
    )

-- A start line, the headers and the empty line, as both encoders add them.
head_lem :
    (line : Bytes) (m : HeaderMap) (out : Buffer)
    → IsWellFormed out
    → let done = add crlf (add_headers m (add line out)) in
      (linearize done ≡ linearize out ++ (line ++ (header_bytes m ++ crlf))) × IsWellFormed done
head_lem line m out w =
    let (lin, valid) = add_headers_lem m (add line out) (add-IsWellFormed line out w) in
    (
      linearize-add crlf (add_headers m (add line out)) valid
          ∙ ap (λ d. d ++ crlf) (lin ∙ ap (λ d. d ++ header_bytes m) (linearize-add line out w))
          ∙ append_assoc (linearize out ++ line) (header_bytes m) crlf
          ∙ append_assoc (linearize out) line (header_bytes m ++ crlf),
      add-IsWellFormed crlf _ valid,
    )

pub encode_request_lem :
    (req : HttpRequest) (out : Buffer)
    → IsWellFormed out
    → (linearize (encode_request req out)
        ≡ linearize out ++ (request_line req ++ (header_bytes req.headers ++ crlf)))
      × IsWellFormed (encode_request req out)
unfolding encode_request
encode_request_lem req out w = head_lem (request_line req) req.headers out w

pub encode_response_lem :
    (resp : HttpResponse) (out : Buffer)
    → IsWellFormed out
    → (linearize (encode_response resp out)
        ≡ linearize out ++ (status_line resp ++ (header_bytes resp.headers ++ crlf)))
      × IsWellFormed (encode_response resp out)
unfolding encode_response
encode_response_lem resp out w = head_lem (status_line resp) resp.headers out w
