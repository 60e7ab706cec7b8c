-- ===== src/Proxy/Session.antt =====
-- DeepSeerLib/src/Proxy/ProxySession.cpp and DeepSeerLib/include/DeepSeer/Proxy/ProxySession.hpp.
-- A connection, plain or TLS, is what the session sees of it: whether it is open and reads, and the
-- bytes it has been given to write. Its errors are later events. The address lookup and the outcome
-- of `connect` are an argument. `none` is a `std::stoi` that throws or a null or failed result that
-- is dereferenced.
pub mod Heads
pub mod Events
pub mod Response
pub mod Request
pub mod Tunnel
pub mod Finality
pub mod Interception
use deep_seer.Base.{
  ℕ, ◌+◌, ◌-◌, ◌≡◌, Bool, true, false, not, ◌&&◌, List, [], ◌∷◌, ◌++◌, Option, none, some,
  if◌then◌else◌, ltb, ◌==◌, codes, substr, drop, find_text, find_from, rfind, stoi_u16, ◌>>=◌,
}
use deep_seer.Core.Buffer.{
  Bytes, Slice, slice_data, Buffer, empty_buffer, add, move, empty, linearize, active,
}
use deep_seer.Http.Headers.{set, remove}
use deep_seer.Http.Message.{
  HttpMethod, connect, HttpRequest, HttpResponse, blank_request, blank_response,
}
use deep_seer.Http.Codec.{
  Codec, CodecCallbacks, make_codec, set_callbacks, encode_request, encode_response,
}
use deep_seer.Tls.CertCache.{CertCache}

pub record Peer : Type 0 where
  pub connected : Bool
  pub reading : Bool
  pub written : Bytes

abbrev pub make_peer : Peer
make_peer = record { connected = true; reading = false; written = [] }

-- `close`, and the two overloads of `write`: nothing is done by a closed connection.
abbrev pub close_peer : Peer → Peer
close_peer p = record p { connected = false }

unfoldable pub peer_write : Bytes → Peer → Peer
peer_write bs p = if p.connected then record p { written = p.written ++ bs } else p

unfoldable pub peer_write_buffer : Buffer → Peer → Peer × Buffer
unfolding peer_write
peer_write_buffer b p =
    (peer_write (linearize b) p, if p.connected then (move empty_buffer b).1 else b)

pub record Session : Type 0 where
  pub client : Option Peer
  pub upstream : Option Peer
  pub tls_client : Option Peer
  pub tls_upstream : Option Peer
  -- The descriptor of `connectingSocket_`, and the one watched for the end of its `connect`.
  pub connecting : Option ℕ
  pub watched : Option ℕ
  pub has_cert_gen : Bool
  pub cert_cache : Option CertCache
  pub client_codec : Codec
  pub upstream_codec : Codec
  pub current_request : HttpRequest
  pub connect_hostname : Bytes
  pub pending_body : Buffer
  pub response_body : Buffer
  pub has_inspector : Bool
  -- The calls of `payloadInspector_`.
  pub inspected : List (Bytes × Bytes)
  pub is_tunnel : Bool
  pub is_connect : Bool
  pub is_tls_mitm : Bool
  pub closed : Bool

-- `kMaxInspectBytes`.
abbrev pub max_inspect_bytes : ℕ
max_inspect_bytes = 16777216

-- The callbacks that `start` and the end of the MITM handshakes give to the codecs.
abbrev pub client_callbacks : CodecCallbacks
client_callbacks = record {
  on_request = true;
  on_response = false;
  on_body = true;
  on_message_complete = false;
}

abbrev pub upstream_callbacks : CodecCallbacks
upstream_callbacks = record {
  on_request = false;
  on_response = true;
  on_body = true;
  on_message_complete = true;
}

-- `ProxySession::ProxySession`, `setPayloadInspector` and `start`.
abbrev pub start : Bool → Option CertCache → Bool → Session
start cert_gen cache inspector = record {
  client = some (record make_peer { reading = true });
  upstream = none;
  tls_client = none;
  tls_upstream = none;
  connecting = none;
  watched = none;
  has_cert_gen = cert_gen;
  cert_cache = cache;
  client_codec = set_callbacks client_callbacks make_codec;
  upstream_codec = set_callbacks upstream_callbacks make_codec;
  current_request = blank_request;
  connect_hostname = [];
  pending_body = empty_buffer;
  response_body = empty_buffer;
  has_inspector = inspector;
  inspected = [];
  is_tunnel = false;
  is_connect = false;
  is_tls_mitm = false;
  closed = false;
}

-- A call through a shared pointer that is tested first.
unfoldable pub on_peer : (Peer → Peer) → Option Peer → Option Peer
on_peer f none = none
on_peer f (some p) = some (f p)

unfoldable pub is_set {ℓ} : {A : Type ℓ} → Option A → Bool
is_set none = false
is_set (some x) = true

-- `ProxySession::close`.
unfoldable pub close : Session → Session
unfolding on_peer is_set
close s = if s.closed then s else record s {
  closed = true;
  connecting = none;
  watched = if is_set s.connecting then none else s.watched;
  client = on_peer close_peer s.client;
  upstream = on_peer close_peer s.upstream;
  tls_client = on_peer close_peer s.tls_client;
  tls_upstream = on_peer close_peer s.tls_upstream;
}

-- `writeToClient`, of bytes or of the contents of a buffer.
unfoldable pub write_to_client : Bytes → Session → Session
unfolding on_peer is_set peer_write
write_to_client bs s =
    if s.is_tls_mitm && is_set s.tls_client
    then record s { tls_client = on_peer (peer_write bs) s.tls_client }
    else record s { client = on_peer (peer_write bs) s.client }

-- What a write through a pointer leaves of the buffer.
unfoldable pub left_over : Buffer → Option Peer → Buffer
unfolding peer_write_buffer
left_over b none = b
left_over b (some p) = (peer_write_buffer b p).1

-- `writeToUpstream`, and what is left of the buffer.
unfoldable pub write_to_upstream : Buffer → Session → Session × Buffer
unfolding on_peer is_set peer_write left_over
write_to_upstream b s =
    if s.is_tls_mitm && is_set s.tls_upstream
    then (
      record s { tls_upstream = on_peer (peer_write (linearize b)) s.tls_upstream },
      left_over b s.tls_upstream,
    )
    else (
      record s { upstream = on_peer (peer_write (linearize b)) s.upstream },
      left_over b s.upstream,
    )

-- `clientConnected`.
abbrev pub client_connected : Session → Bool
client_connected s =
    if s.is_tls_mitm
    then is_set s.tls_client
    else elim s.client [ none ↦ false | some p ↦ p.connected ]

-- The response of `sendError`, and `sendError`.
abbrev pub error_response : ℕ → Bytes → HttpResponse
error_response status reason = record blank_response {
  status_code = status;
  reason = reason;
  headers = set (codes "Connection") (codes "close") (set (codes "Content-Length") (codes "0") []);
}

unfoldable pub send_error : ℕ → Bytes → Session → Session
unfolding write_to_client
send_error status reason s =
    write_to_client (linearize (encode_response (error_response status reason) empty_buffer)) s

-- The change of an absolute URL to origin form in `forwardRequest`.
unfoldable pub origin_form : Bytes → Bytes
origin_form url = elim (find_text (codes "://") url) [
  | none ↦ url
  | some i ↦ elim (find_from 47 (i + 3) url) [ none ↦ codes "/" | some j ↦ drop j url ]
]

-- The writes of `pendingBody_` in `forwardRequest` and in `onRequestBody`.
unfoldable pub flush_pending : Session → Session
unfolding write_to_upstream
flush_pending s = let r = write_to_upstream s.pending_body s in record r.0 { pending_body = r.1 }

-- `forwardRequest`, with `setupUpstreamCallbacks`. A null `upstream_` is dereferenced outside MITM.
unfoldable pub forward_request : Session → Option Session
unfolding on_peer write_to_upstream flush_pending
forward_request s =
    let req = record s.current_request { url = origin_form s.current_request.url } in
    let ready =
      if s.is_tls_mitm
      then s
      else record s { upstream = on_peer (λ p. record p { reading = true }) s.upstream } in
    let head = record ready { current_request = req } in
    let sent = (write_to_upstream (encode_request req empty_buffer) head).0 in
    if not s.is_tls_mitm && not (is_set s.upstream)
    then none
    else some (if empty sent.pending_body then sent else flush_pending sent)

-- The reply to CONNECT.
abbrev pub established : Bytes
established = codes "HTTP/1.1 200 Connection Established" ++ 13 ∷ 10 ∷ 13 ∷ 10 ∷ []

-- `startTlsMitm` up to the first handshake, whose outcome is an event.
unfoldable pub start_tls_mitm : Session → Option Session
unfolding peer_write
start_tls_mitm s = do
  c ← s.client
  u ← s.upstream
  some (record s {
    is_tls_mitm = true;
    client =
        some (if c.connected then record (peer_write established c) { reading = false } else c);
    upstream = none;
    tls_upstream = some make_peer;
  })

-- `startTunnel`.
unfoldable pub start_tunnel : Session → Option Session
unfolding peer_write start_tls_mitm
start_tunnel s = if s.has_cert_gen then start_tls_mitm s else (do
  c ← s.client
  u ← s.upstream
  some (record s {
    is_tunnel = true;
    client = some (peer_write established c);
    upstream = some (record u { reading = true });
  }))

-- `onUpstreamConnected`.
unfoldable pub on_upstream_connected : Session → Option Session
unfolding start_tunnel forward_request
on_upstream_connected s =
    let wrapped = record s { upstream = some make_peer; connecting = none } in
    if s.closed
    then some s
    else if s.is_connect
    then start_tunnel wrapped
    else forward_request wrapped

-- What `Address::fromHostPort`, `Socket::createSocket` and `Socket::connect` come to; the
-- descriptor is that of the new socket.
pub data Dial : Type 0 where
  no_address no_socket : Dial
  refused immediate in_progress : ℕ → Dial

-- `connectUpstream`: the result of the lookup is dereferenced without a test.
unfoldable pub connect_upstream : Dial → Session → Option Session
unfolding send_error on_upstream_connected
connect_upstream no_address s = none
connect_upstream no_socket s = some (send_error 502 (codes "Bad Gateway") s)
connect_upstream (refused fd) s =
    some (send_error 502 (codes "Bad Gateway") (record s { connecting = some fd }))
connect_upstream (immediate fd) s = on_upstream_connected (record s { connecting = some fd })
connect_upstream (in_progress fd) s = some (record s { connecting = some fd; watched = some fd })

-- The callback of the watch in `connectUpstream`.
abbrev pub on_connect_event : Session → Option Session
on_connect_event s = on_upstream_connected (record s { watched = none })

-- The host and the port in the target of CONNECT.
unfoldable pub connect_target : Bytes → Option (Bytes × ℕ)
connect_target url = elim (rfind 58 url) [
  | none ↦ some (url, 443)
  | some i ↦ stoi_u16 (drop (i + 1) url) >>= (λ p. some (substr 0 i url, p))
]

-- `method == HttpMethod::CONNECT`.
abbrev pub asks_connect : HttpMethod → Bool
asks_connect connect = true
asks_connect _ = false

module _ (dial : Bytes → ℕ → Dial) where
  -- `handleConnect`.
  unfoldable pub handle_connect : Session → Option Session
  unfolding connect_target
  handle_connect s = do
    t ← connect_target s.current_request.url
    connect_upstream (dial t.0 t.1) (record s { connect_hostname = t.0 })

  -- `onRequest`.
  unfoldable pub on_request : HttpRequest → Session → Option Session
  unfolding handle_connect connect_upstream
  on_request req s =
      if asks_connect req.method
      then handle_connect (record s { current_request = req; is_connect = true })
      else if s.is_tls_mitm
      then forward_request (record s { current_request = req })
      else connect_upstream (dial req.host (if req.port == 0 then 80 else req.port))
          (record s { current_request = req })

-- `onRequestBody`.
unfoldable pub on_request_body : Buffer → Session → Session
unfolding flush_pending
on_request_body body s =
    if empty body
    then s
    else flush_pending (record s { pending_body = (move s.pending_body body).0 })

-- The head that `onResponse` forwards, and `onResponse`.
unfoldable pub forwarded_head : Bool → HttpResponse → HttpResponse
forwarded_head mitm r =
    let unchunked = remove (codes "Transfer-Encoding") r.headers in
    record r { headers = if mitm then unchunked else remove (codes "Content-Length") unchunked }

unfoldable pub on_response : HttpResponse → Session → Session
unfolding write_to_client forwarded_head
on_response r s =
    write_to_client (linearize (encode_response (forwarded_head s.is_tls_mitm r) empty_buffer)) s

-- The loop of `onResponseBody`.
unfoldable pub add_slices : List Slice → Buffer → Buffer
add_slices [] b = b
add_slices (s ∷ ss) b = add_slices ss (add (slice_data s) b)

-- `onResponseBody`.
unfoldable pub on_response_body : Buffer → Session → Session
unfolding write_to_client add_slices
on_response_body body s =
    let inspected =
      if s.has_inspector && ltb s.response_body.total_length max_inspect_bytes
      then record s { response_body = add_slices (active body) s.response_body }
      else s in
    if empty body then inspected else write_to_client (linearize body) inspected

-- `onResponseComplete`.
unfoldable pub on_response_complete : Session → Session
unfolding close
on_response_complete s =
    let calls =
      if s.has_inspector && not (empty s.response_body)
      then s.inspected ++ (linearize s.response_body, s.current_request.url) ∷ []
      else s.inspected in
    let ended = record s {
      inspected = calls;
      pending_body = empty_buffer;
      response_body = empty_buffer;
    } in
    if s.is_tls_mitm then ended else close ended
