-- ===== src/Http/Codec.antt =====
-- DeepSeerLib/src/Http/Http1/Codec.cpp, DeepSeerLib/include/DeepSeer/Http/Http1/Codec.hpp and
-- DeepSeerLib/include/DeepSeer/Http/Codec.hpp. The parser llhttp is not part of the repository: it
-- enters as the sequence of callbacks that it makes on a chunk, each with the fields of `llhttp_t`
-- that the code reads. A `std::stoi` that throws inside a callback is `none`: nothing catches it.
pub mod Encoding
pub mod Hosts
pub mod Assembly
use deep_seer.Base.{
  ℕ, suc, ◌+◌, ◌-◌, ◌%◌, ◌<◌, ◌≡◌, Bool, true, false, not, ◌&&◌, ◌||◌, List, [], ◌∷◌, ◌++◌, Option,
  none, some, length, take, drop, if◌then◌else◌, ltb, codes, find, find_text, find_from, substr,
  stoi_u16, to_decimal, ◌>>=◌,
}
use deep_seer.Core.Types.{ErrorCode, parse_error, Error, Expected, ok, unexpected}
use deep_seer.Core.Buffer.{Bytes, Buffer, empty_buffer, add, drain, linearize, is_empty}
use deep_seer.Http.Headers.{HeaderMap, get, set}
use deep_seer.Http.Message.{
  HttpMethod, HttpRequest, HttpResponse, method_to_string, string_to_method, blank_request,
  blank_response,
}

-- `llhttp_type_t`.
pub data ParserType : Type 0 where
  http_both http_request http_response : ParserType

-- The fields of `llhttp_t` that the callbacks read; `method_name` is `llhttp_method_name(method)`.
pub record Parser : Type 0 where
  pub type : ParserType
  pub method_name : Bytes
  pub http_major : ℕ
  pub http_minor : ℕ
  pub content_length : ℕ
  pub chunked : Bool
  pub status_code : ℕ

-- The callbacks of `llhttp_settings_t`.
pub data Call : Type 0 where
  message_begin : Call
  url_part status_part header_field_part header_value_part : Bytes → Call
  headers_complete : Call
  body_part : Bytes → Call
  message_complete : Call

-- Which members of `CodecCallbacks` are set.
pub record CodecCallbacks : Type 0 where
  pub on_request : Bool
  pub on_response : Bool
  pub on_body : Bool
  pub on_message_complete : Bool

-- A call of a member of `CodecCallbacks`.
pub data Emit : Type 0 where
  request_head : HttpRequest → Emit
  response_head : HttpResponse → Emit
  body_chunk : Buffer → Bool → Emit
  complete : Emit

pub record Codec : Type 0 where
  pub callbacks : CodecCallbacks
  pub current_request : HttpRequest
  pub current_response : HttpResponse
  pub current_header_field : Bytes
  pub current_header_value : Bytes
  pub building_request : Bool
  pub in_header_value : Bool

-- `Http1Codec::Http1Codec(Type)`, before `setCallbacks`.
abbrev pub make_codec : Codec
make_codec = record {
  callbacks = record {
    on_request = false;
    on_response = false;
    on_body = false;
    on_message_complete = false;
  };
  current_request = blank_request;
  current_response = blank_response;
  current_header_field = [];
  current_header_value = [];
  building_request = true;
  in_header_value = false;
}

-- `Http1Codec::setCallbacks`.
abbrev pub set_callbacks : CodecCallbacks → Codec → Codec
set_callbacks cbs c = record c { callbacks = cbs }

-- The test of `finishHeader`: does a header belong to the request?
abbrev pub for_request : ParserType → Bool → Bool
for_request http_request building = true
for_request http_both building = building
for_request http_response building = false

-- `Http1Codec::finishHeader`.
unfoldable pub finish_header : ParserType → Codec → Codec
finish_header t c =
    let req = c.current_request in
    let resp = c.current_response in
    if is_empty c.current_header_field
    then c
    else if for_request t c.building_request
    then record c {
      current_request = record req {
        headers = set c.current_header_field c.current_header_value req.headers;
      };
      current_header_field = [];
      current_header_value = [];
    }
    else record c {
      current_response = record resp {
        headers = set c.current_header_field c.current_header_value resp.headers;
      };
      current_header_field = [];
      current_header_value = [];
    }

-- A host with an optional port after the first colon; none where `std::stoi` throws. The argument
-- in front is where the colon stands.
unfoldable pub host_at : Option ℕ → Bytes → HttpRequest → Option HttpRequest
host_at none h req = some (record req { host = h })
host_at (some colon) h req = do
  p ← stoi_u16 (drop (suc colon) h)
  some (record req { host = take colon h; port = p })

abbrev pub host_port : Bytes → HttpRequest → Option HttpRequest
host_port h req = host_at (find b':' h) h req

-- The authority of an absolute URL, as `parseHostFromUrl` cuts it out.
unfoldable pub host_part : Bytes → Option Bytes
host_part url = do
  scheme_end ← find_text (codes "://") url
  elim (find_from b'/' (scheme_end + 3) url) [
    | none ↦ some (drop (scheme_end + 3) url)
    | some path_start ↦ some (substr (scheme_end + 3) (path_start - (scheme_end + 3)) url)
  ]

-- `Http1Codec::parseHostFromUrl`.
unfoldable pub parse_host_from_url : Bytes → HttpRequest → Option HttpRequest
parse_host_from_url url req = elim (host_part url) [ none ↦ some req | some h ↦ host_port h req ]

-- The `Host` header, if there is one.
unfoldable pub from_host_header : Option Bytes → HttpRequest → Option HttpRequest
from_host_header none req = some req
from_host_header (some h) req = host_port h req

-- The part of `onHeadersComplete` that finds the host.
unfoldable pub extract_host : HttpRequest → Option HttpRequest
extract_host req = do
  r ← from_host_header (get req.headers (codes "Host")) req
  if is_empty r.host then parse_host_from_url r.url r else some r

-- The request branch of `onHeadersComplete`, without the callback.
unfoldable pub complete_request : Parser → HttpRequest → Option HttpRequest
complete_request p req = extract_host (record req {
  method = string_to_method p.method_name;
  version_major = p.http_major;
  version_minor = p.http_minor;
  has_body = ltb 0 p.content_length || p.chunked;
})

-- The response branch. `status_code` is a `uint16_t` in both places.
unfoldable pub complete_response : Parser → HttpResponse → HttpResponse
complete_response p resp = record resp {
  status_code = p.status_code;
  version_major = p.http_major;
  version_minor = p.http_minor;
  has_body = true;
}

abbrev pub is_request : ParserType → Bool
is_request http_request = true
is_request http_both = false
is_request http_response = false

abbrev pub emit_if : Bool → Emit → List Emit
emit_if b e = if b then e ∷ [] else []

-- `onHeadersComplete`.
unfoldable pub on_headers_complete : Parser → Codec → Option (Codec × List Emit)
on_headers_complete p c0 =
    let c = finish_header p.type c0 in
    if is_request p.type
    then (complete_request p c.current_request >>= λ req. some (
      record c { building_request = true; current_request = req },
      emit_if c.callbacks.on_request (request_head req),
    ))
    else let resp = complete_response p c.current_response in
      some (
        record c { building_request = false; current_response = resp },
        emit_if c.callbacks.on_response (response_head resp),
      )

-- The static callbacks `onMessageBegin` to `onMessageComplete`.
unfoldable pub on_call : Parser → Call → Codec → Option (Codec × List Emit)
on_call p message_begin c = some (
  record c {
    current_request = blank_request;
    current_response = blank_response;
    current_header_field = [];
    current_header_value = [];
    in_header_value = false;
  },
  [],
)
on_call p (url_part s) c =
    let req = c.current_request in
    some (record c { current_request = record req { url = req.url ++ s } }, [])
on_call p (status_part s) c =
    let resp = c.current_response in
    some (record c { current_response = record resp { reason = resp.reason ++ s } }, [])
on_call p (header_field_part s) c0 =
    let c = if c0.in_header_value then finish_header p.type c0 else c0 in
    some
      (record c { current_header_field = c.current_header_field ++ s; in_header_value = false }, [])
on_call p (header_value_part s) c =
    some
      (record c { current_header_value = c.current_header_value ++ s; in_header_value = true }, [])
on_call p headers_complete c = on_headers_complete p c
on_call p (body_part s) c =
    some (c, emit_if c.callbacks.on_body (body_chunk (add s empty_buffer) false))
on_call p message_complete c = some (
  c,
  emit_if c.callbacks.on_body (body_chunk empty_buffer true)
      ++ emit_if c.callbacks.on_message_complete complete,
)

-- The callbacks that one `llhttp_execute` makes, with what they emit in order.
unfoldable pub run_calls : List (Parser × Call) → Codec → Option (Codec × List Emit)
run_calls [] c = some (c, [])
run_calls ((p, k) ∷ ks) c = do
  (c', es) ← on_call p k c
  (d, fs) ← run_calls ks c'
  some (d, es ++ fs)

-- The results of `llhttp_execute` that `decode` tells apart.
pub data Errno : Type 0 where
  hpe_ok hpe_paused hpe_paused_upgrade : Errno
  hpe_error : Bytes → Errno

-- The result of `Http1Codec::decode(span)`.
abbrev pub decode_result : Errno → Expected (Unit {0})
decode_result hpe_ok = ok tt
decode_result hpe_paused = ok tt
decode_result hpe_paused_upgrade = ok tt
decode_result (hpe_error name) =
    unexpected (record { code = parse_error; message = codes "HTTP parse error: " ++ name })

-- `HttpCodec::decode(Buffer&)` behind the parser: the buffer is drained whatever the result.
abbrev pub drained : Buffer → Buffer
drained b = drain b.total_length b

abbrev pub crlf : Bytes
crlf = 13 ∷ 10 ∷ []

-- `std::format("{}: {}\r\n", name, value)`.
abbrev pub header_line : Bytes → Bytes → Bytes
header_line name value = name ++ codes ": " ++ value ++ crlf

unfoldable pub add_headers : HeaderMap → Buffer → Buffer
add_headers [] out = out
add_headers ((k, v) ∷ m) out = add_headers m (add (header_line k v) out)

abbrev pub request_line : HttpRequest → Bytes
request_line req =
    method_to_string req.method
    ++ (codes " "
        ++ (req.url
            ++ (codes " HTTP/"
                ++ (to_decimal req.version_major
                    ++ (codes "." ++ (to_decimal req.version_minor ++ crlf))))))

abbrev pub status_line : HttpResponse → Bytes
status_line resp =
    codes "HTTP/"
    ++ (to_decimal resp.version_major
        ++ (codes "."
            ++ (to_decimal resp.version_minor
                ++ (codes " "
                    ++ (to_decimal resp.status_code ++ (codes " " ++ (resp.reason ++ crlf)))))))

-- `Http1Codec::encodeRequest`.
unfoldable pub encode_request : HttpRequest → Buffer → Buffer
unfolding add_headers
encode_request req out = add crlf (add_headers req.headers (add (request_line req) out))

-- `Http1Codec::encodeResponse`.
unfoldable pub encode_response : HttpResponse → Buffer → Buffer
unfolding add_headers
encode_response resp out = add crlf (add_headers resp.headers (add (status_line resp) out))

-- `Http1Codec::encodeBody`.
abbrev pub encode_body : Bytes → Buffer → Buffer
encode_body bs out = add bs out
