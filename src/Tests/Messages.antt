-- ===== src/Tests/Messages.antt =====
-- The theorems on messages, buffers and sessions at concrete inputs.
use deep_seer.Base.{
  ℕ, ◌≡◌, ◌⊎◌, ◌↔◌, refl, true, false, List, [], ◌∷◌, ◌++◌, none, some, arith, map, length, codes,
  ◌>>=◌, to_decimal,
}
use deep_seer.Core.Buffer.{Bytes, Buffer, empty_buffer, add, linearize}
use deep_seer.Core.Buffer.Laws.{IsWellFormed, empty-IsWellFormed}
use deep_seer.Core.Buffer.Refinement
use deep_seer.Http.Headers.{HeaderMap, get, empty}
use deep_seer.Http.Headers.Laws
use deep_seer.Http.Message.{
  HttpRequest, HttpResponse, blank_request, blank_response, unknown, get_method, method_to_string,
  string_to_method, method_roundtrip,
}
use deep_seer.Http.Codec.{
  Parser, hpe_ok, http_request, Codec, make_codec, request_head, response_head, emit_if,
  complete_request, run_calls, host_port, on_headers_complete, encode_request, encode_response,
  finish_header,
}
use deep_seer.Http.Codec.Assembly.{Pieces, concat, collect, message_calls, message_lem}
use deep_seer.Http.Codec.Encoding.{
  request_text, status_text, read_head-encode_request, read_head-encode_response,
}
use deep_seer.Http.Codec.Encoding.Heads.{read_head, header_text}
use deep_seer.Http.Codec.Hosts.{host_port_lem, host_header_throws}
use deep_seer.Proxy.Session.{Session, start, Dial, in_progress, on_connect_event, established}
use deep_seer.Proxy.Session.Events.{upstream_emits}
use deep_seer.Http.Codec.{Emit, body_chunk, complete}
use deep_seer.Proxy.Session.{make_peer, close_peer}
use deep_seer.Tls.CertCache.{CertCache, make_cache, up_ref}
use deep_seer.Proxy.Session.Interception.{Exchange}
use deep_seer.Proxy.Session.Finality.{after_complete_lem}
use deep_seer.Proxy.Session.Tunnel.{
  Arrival, from_client, from_upstream, arrive, client_bytes, upstream_bytes, IsTunnel, tunnel_lem,
}
use deep_seer.Http.Headers.Laws.{IsSorted}

abbrev open_session : Session
open_session = start false none true

abbrev hello : Buffer
hello = add (codes "hi") empty_buffer

abbrev ok_response : HttpResponse
ok_response = record blank_response {
  status_code = 200;
  reason = codes "OK";
  headers = (codes "Content-Length", codes "2") ∷ (codes "transfer-encoding", codes "chunked") ∷ [];
}

abbrev slow_dial : Bytes → ℕ → Dial
slow_dial h p = in_progress 7

abbrev some_request : HttpRequest
some_request = record blank_request {
  method = get_method;
  url = codes "http://a/b";
  host = codes "a";
  headers = (codes "Host", codes "a") ∷ [];
}

abbrev asked_session : Session
asked_session = record (start false none false) { is_connect = true }

abbrev arrivals : List Arrival
arrivals = from_client [] hpe_ok hello ∷ from_upstream [] hpe_ok hello ∷ []

tunnel_lem_example :
    (t : Session) × ((on_connect_event asked_session >>= arrive slow_dial arrivals) ≡ some t)
    × IsTunnel true t (([] ++ established) ++ upstream_bytes arrivals) (client_bytes arrivals)
tunnel_lem_example = tunnel_lem slow_dial arrivals asked_session true [] refl refl refl refl refl

abbrev buffer_calls : List Refinement.Op
buffer_calls = Refinement.adds (codes "abc") ∷ Refinement.drains 1 ∷ []

buffer_refines_example :
    (linearize (Refinement.run empty_buffer buffer_calls)
      ≡ Refinement.spec_run (linearize empty_buffer) buffer_calls)
    × ((Refinement.run empty_buffer buffer_calls).total_length
        ≡ length (Refinement.spec_run (linearize empty_buffer) buffer_calls))
    × IsWellFormed (Refinement.run empty_buffer buffer_calls)
buffer_refines_example =
    Refinement.buffer_refines empty_buffer buffer_calls empty-IsWellFormed (tt, (tt, tt))

abbrev header_ops : List Laws.Op
header_ops = Laws.sets (codes "Host") (codes "a") ∷ Laws.appends (codes "host") (codes "b") ∷ []

headers_refine_example :
    ((j : Bytes) → get (Laws.run [] header_ops) j ≡ Laws.spec_run (get []) header_ops j)
    × Laws.IsSorted (Laws.run [] header_ops)
headers_refine_example = Laws.headers_refine [] header_ops tt

abbrev host_headers : HeaderMap
host_headers = (codes "Host", codes "a") ∷ []

empty_inverted_example :
    (empty host_headers ≡ true) ↔ ((n : Bytes) × (v : Bytes) × (get host_headers n ≡ some v))
empty_inverted_example = Laws.empty_inverted host_headers

method_roundtrip_example :
    (string_to_method (method_to_string get_method) ≡ get_method)
    × ((string_to_method (codes "GET") ≡ unknown)
        ⊎ (method_to_string (string_to_method (codes "GET")) ≡ codes "GET"))
method_roundtrip_example = method_roundtrip get_method (codes "GET")

abbrev parser : Parser
parser = record {
  type = http_request;
  method_name = codes "GET";
  http_major = 1;
  http_minor = 1;
  content_length = 0;
  chunked = false;
  status_code = 0;
}

abbrev pieces : List Pieces
pieces =
    record {
      name = codes "Ho";
      names = codes "st" ∷ [];
      value = codes "a";
      values = codes ".b" ∷ [];
    }
    ∷ []

message_lem_example :
    (run_calls (message_calls parser (codes "/" ∷ codes "x" ∷ []) pieces) make_codec >>= λ x.
    some x.1)
    ≡ (complete_request parser (record blank_request {
      url = concat (codes "/" ∷ codes "x" ∷ []);
      headers = collect [] pieces;
    })
        >>= λ r. some (emit_if make_codec.callbacks.on_request (request_head r)))
message_lem_example =
    message_lem parser refl (codes "/" ∷ codes "x" ∷ []) pieces make_codec (λ h. cc, tt)

read_head-encode_request_example :
    read_head false [] (linearize (encode_request some_request empty_buffer) ++ codes "body")
    ≡ some (request_text some_request ∷ map header_text some_request.headers, codes "body")
read_head-encode_request_example =
    read_head-encode_request some_request (codes "body") (omega arith) (omega arith)

read_head-encode_response_example :
    read_head false [] (linearize (encode_response ok_response empty_buffer) ++ codes "hi")
    ≡ some (status_text ok_response ∷ map header_text ok_response.headers, codes "hi")
read_head-encode_response_example =
    read_head-encode_response ok_response (codes "hi") (omega arith) (omega arith)

host_port_lem_example :
    (host_port (codes "a.b" ++ b':' ∷ to_decimal 8080) blank_request
      ≡ some (record blank_request { host = codes "a.b"; port = 8080 }))
    × (host_port (codes "a.b") blank_request ≡ some (record blank_request { host = codes "a.b" }))
host_port_lem_example = host_port_lem (codes "a.b") 8080 blank_request (omega arith) (omega arith)

abbrev bad_host : Codec
bad_host = record make_codec {
  current_request = record blank_request { headers = (codes "Host", codes "x:abc") ∷ [] };
}

host_header_throws_example : on_headers_complete parser bad_host ≡ none
unfolding finish_header get
host_header_throws_example =
    host_header_throws parser bad_host (codes "x") (codes "abc") refl refl (omega arith)
      (refl, refl, refl, refl)

abbrev late_events : List Emit
late_events = response_head ok_response ∷ body_chunk hello true ∷ complete ∷ []

after_complete_lem_example :
    ((upstream_emits (complete ∷ late_events) open_session).client
      ≡ some (close_peer (record make_peer { reading = true })))
    × ((upstream_emits (complete ∷ late_events) open_session).closed ≡ true)
after_complete_lem_example =
    after_complete_lem late_events open_session (record make_peer { reading = true }) refl refl refl

abbrev connect_session : Session
connect_session = record (start true (some (make_cache 4)) true) {
  is_connect = true;
  connect_hostname = codes "a.org";
}

abbrev filled_cache : CertCache
filled_cache = record {
  max_entries = 4;
  order = record { hostname = codes "a.org"; ctx = 9 } ∷ [];
  map = codes "a.org" ∷ [];
  calls = up_ref 9 ∷ [];
}

abbrev exchanges : List Exchange
exchanges =
    record {
      request = record blank_request { url = codes "https://a.org" };
      request_body = hello ∷ [];
      response = ok_response;
      response_body = hello ∷ [];
    }
    ∷ []
