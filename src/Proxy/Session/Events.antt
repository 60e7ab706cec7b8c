-- ===== src/Proxy/Session/Events.antt =====
-- The callbacks of ProxySession.cpp that its connections and its codecs call, and the two ends of
-- the TLS handshakes of `startTlsMitm`.
use deep_seer.Base.{ℕ, ◌&&◌, true, List, [], ◌∷◌, Option, none, some, if◌then◌else◌, codes, ◌>>=◌}
use deep_seer.Core.Types.{ok, unexpected}
use deep_seer.Core.Buffer.{Bytes, Buffer, linearize}
use deep_seer.Http.Codec.{
  Parser, Call, Emit, request_head, response_head, body_chunk, complete, run_calls, Errno,
  decode_result, make_codec, set_callbacks,
}
use deep_seer.Tls.CertCache.{put}
use deep_seer.Proxy.Session.{
  Session, make_peer, Dial, client_callbacks, upstream_callbacks, is_set, on_peer, peer_write,
  close, write_to_client, send_error, on_request, on_request_body, on_response, on_response_body,
  on_response_complete,
}

-- What the upstream codec calls.
unfoldable pub upstream_emit : Emit → Session → Session
unfolding on_response on_response_body on_response_complete
upstream_emit (request_head r) s = s
upstream_emit (response_head r) s = on_response r s
upstream_emit (body_chunk b end) s = on_response_body b s
upstream_emit complete s = on_response_complete s

unfoldable pub upstream_emits : List Emit → Session → Session
unfolding upstream_emit
upstream_emits [] s = s
upstream_emits (e ∷ es) s = upstream_emits es (upstream_emit e s)

-- `onUpstreamData`, and the `onData` of `tlsUpstream_`.
unfoldable pub on_upstream_data : List (Parser × Call) → Errno → Buffer → Session → Option Session
unfolding close write_to_client
on_upstream_data calls e d s = if s.is_tunnel then some (write_to_client (linearize d) s) else (do
  (c, es) ← run_calls calls s.upstream_codec
  elim (decode_result e) [
    | ok u ↦ some (upstream_emits es (record s { upstream_codec = c }))
    | unexpected err ↦ some (close (upstream_emits es (record s { upstream_codec = c })))
  ])

module _ (dial : Bytes → ℕ → Dial) where
  -- What the client codec calls.
  unfoldable pub client_emit : Emit → Session → Option Session
  unfolding on_request on_request_body
  client_emit (request_head r) s = on_request dial r s
  client_emit (response_head r) s = some s
  client_emit (body_chunk b end) s = some (on_request_body b s)
  client_emit complete s = some s

  unfoldable pub client_emits : List Emit → Session → Option Session
  unfolding client_emit
  client_emits [] s = some s
  client_emits (e ∷ es) s = client_emit e s >>= client_emits es

  -- `onClientData`.
  unfoldable pub on_client_data : List (Parser × Call) → Errno → Buffer → Session → Option Session
  unfolding on_peer is_set peer_write send_error close client_emits
  on_client_data calls e d s =
      if s.is_tunnel && is_set s.upstream
      then some (record s { upstream = on_peer (peer_write (linearize d)) s.upstream })
      else (do
        (c, es) ← run_calls calls s.client_codec
        t ← client_emits es (record s { client_codec = c })
        elim (decode_result e) [
          | ok u ↦ some t
          | unexpected err ↦ some (close (send_error 400 (codes "Bad Request") t))
        ])

  -- The `onData` of `tlsClient_`.
  unfoldable pub on_tls_client_data : List (Parser × Call) → Errno → Session → Option Session
  unfolding close client_emits
  on_tls_client_data calls e s = do
    (c, es) ← run_calls calls s.client_codec
    t ← client_emits es (record s { client_codec = c })
    elim (decode_result e) [ ok u ↦ some t | unexpected err ↦ some (close t) ]

-- The end of the handshake with the upstream: the certificate's context, if one was generated.
unfoldable pub on_upstream_handshake : Option ℕ → Session → Option Session
unfolding close put
on_upstream_handshake none s = some (close s)
on_upstream_handshake (some ctx) s =
    let wrapped = record s { client = none; tls_client = some make_peer } in
    elim s.cert_cache [
      | none ↦ some wrapped
      | some cc ↦
          put s.connect_hostname ctx cc >>= (λ d. some (record wrapped { cert_cache = some d }))
    ]

-- The end of the handshake with the client.
unfoldable pub on_client_handshake : Session → Session
unfolding on_peer
on_client_handshake s = record s {
  client_codec = set_callbacks client_callbacks make_codec;
  upstream_codec = set_callbacks upstream_callbacks make_codec;
  tls_client = on_peer (λ p. record p { reading = true }) s.tls_client;
  tls_upstream = on_peer (λ p. record p { reading = true }) s.tls_upstream;
}

-- A failed handshake, `onClientClose`, `onUpstreamClose` and the error callbacks.
abbrev pub on_end : Session → Session
on_end s = close s
