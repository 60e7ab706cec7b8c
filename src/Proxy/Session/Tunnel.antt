-- ===== src/Proxy/Session/Tunnel.antt =====
-- What the two ends of a CONNECT tunnel get (ProxySession.cpp, `startTunnel`, `onClientData` and
-- `onUpstreamData`).
use deep_seer.Base.{
  ℕ, ◌≡◌, refl, ap, ◌∙◌, Bool, true, false, List, [], ◌∷◌, ◌++◌, Option, none, some, if◌then◌else◌,
  if_true, if_false, append_assoc, append-nil, ◌>>=◌,
}
use deep_seer.Core.Buffer.{Bytes, Buffer, linearize}
use deep_seer.Http.Codec.{Parser, Call, Errno}
use deep_seer.Proxy.Session.{
  Session, Dial, established, on_peer, is_set, peer_write, write_to_client, start_tunnel,
  forward_request, on_upstream_connected, on_connect_event,
}
use deep_seer.Proxy.Session.Events.{on_client_data, on_upstream_data}

-- An open tunnel: what the client and the upstream were given so far.
pub record IsTunnel (reading : Bool) (s : Session) (to_client to_upstream : Bytes) : Type 0 where
  pub tunnel : s.is_tunnel ≡ true
  pub plain : s.is_tls_mitm ≡ false
  pub client_is :
      s.client ≡ some (record { connected = true; reading = reading; written = to_client })
  pub upstream_is :
      s.upstream ≡ some (record { connected = true; reading = true; written = to_upstream })

-- Data from either side, with what a parser would make of it.
pub data Arrival : Type 0 where
  from_client from_upstream : List (Parser × Call) → Errno → Buffer → Arrival

-- The bytes that came from either side, in order.
unfoldable pub client_bytes : List Arrival → Bytes
client_bytes [] = []
client_bytes (from_client calls e d ∷ rest) = linearize d ++ client_bytes rest
client_bytes (from_upstream calls e d ∷ rest) = client_bytes rest

unfoldable pub upstream_bytes : List Arrival → Bytes
upstream_bytes [] = []
upstream_bytes (from_client calls e d ∷ rest) = upstream_bytes rest
upstream_bytes (from_upstream calls e d ∷ rest) = linearize d ++ upstream_bytes rest

start_lem :
    (s : Session) (reading : Bool) (w : Bytes)
    → s.has_cert_gen ≡ false
    → s.client ≡ some (record { connected = true; reading = reading; written = w })
    → s.upstream ≡ some (record { connected = true; reading = false; written = [] })
    → start_tunnel s
      ≡ some (record s {
        has_cert_gen = false;
        is_tunnel = true;
        client = some (record { connected = true; reading = reading; written = w ++ established });
        upstream = some (record { connected = true; reading = true; written = [] });
      })
unfolding start_tunnel peer_write
start_lem s reading w g c u = rw (g, c, u)

module _ (dial : Bytes → ℕ → Dial) where
  unfoldable pub arrive : List Arrival → Session → Option Session
  arrive [] s = some s
  arrive (from_client calls e d ∷ rest) s = on_client_data dial calls e d s >>= arrive rest
  arrive (from_upstream calls e d ∷ rest) s = on_upstream_data calls e d s >>= arrive rest

  client_data_lem :
      (calls : List (Parser × Call)) (e : Errno) (d : Buffer) (s : Session) (r : Bool) (c u : Bytes)
      → IsTunnel r s c u
      → (t : Session) × (on_client_data dial calls e d s ≡ some t)
        × IsTunnel r t c (u ++ linearize d)
  unfolding on_client_data on_peer is_set peer_write
  client_data_lem calls e d s r c u i = (
    record s {
      is_tunnel = true;
      upstream = some (record { connected = true; reading = true; written = u ++ linearize d });
    },
    rw (i.tunnel, i.upstream_is),
    record { tunnel = refl; plain = i.plain; client_is = i.client_is; upstream_is = refl },
  )

  upstream_data_lem :
      (calls : List (Parser × Call)) (e : Errno) (d : Buffer) (s : Session) (r : Bool) (c u : Bytes)
      → IsTunnel r s c u
      → (t : Session) × (on_upstream_data calls e d s ≡ some t) × IsTunnel r t (c ++ linearize d) u
  unfolding on_upstream_data write_to_client on_peer is_set peer_write
  upstream_data_lem calls e d s r c u i = (
    record s {
      is_tunnel = true;
      is_tls_mitm = false;
      client = some (record { connected = true; reading = r; written = c ++ linearize d });
    },
    rw (i.tunnel, i.plain, i.client_is),
    record { tunnel = refl; plain = refl; client_is = refl; upstream_is = i.upstream_is },
  )

  arrive_lem :
      (rest : List Arrival) (s : Session) (r : Bool) (c u : Bytes)
      → IsTunnel r s c u
      → (t : Session) × (arrive rest s ≡ some t)
        × IsTunnel r t (c ++ upstream_bytes rest) (u ++ client_bytes rest)
  unfolding arrive client_bytes upstream_bytes
  arrive_lem [] s r c u i = (s, refl, rw (append-nil c, append-nil u) i)
  arrive_lem (from_client calls e d ∷ rest) s r c u i =
      let (t, h, j) = client_data_lem calls e d s r c u i in
      let (v, k, l) = arrive_lem rest t r c (u ++ linearize d) j in
      (v, rw h k, rw⁻¹ (append_assoc u (linearize d) (client_bytes rest)) l)
  arrive_lem (from_upstream calls e d ∷ rest) s r c u i =
      let (t, h, j) = upstream_data_lem calls e d s r c u i in
      let (v, k, l) = arrive_lem rest t r (c ++ linearize d) u j in
      (v, rw h k, rw⁻¹ (append_assoc c (linearize d) (upstream_bytes rest)) l)

  -- In a session that is open, asked for CONNECT, has no certificate generator, does not intercept
  -- and whose client is connected: when the connection to the upstream is made and then data comes
  -- from both sides in any order, every step succeeds, the client has been given the reply to
  -- CONNECT and then exactly the upstream's bytes in order, and the upstream exactly the client's,
  -- whatever an HTTP parser would make of them.
  pub tunnel_lem :
      (rest : List Arrival) (s : Session) (reading : Bool) (w : Bytes)
      → s.closed ≡ false
      → s.is_connect ≡ true
      → s.has_cert_gen ≡ false
      → s.is_tls_mitm ≡ false
      → s.client ≡ some (record { connected = true; reading = reading; written = w })
      → (t : Session) × ((on_connect_event s >>= arrive rest) ≡ some t)
        × IsTunnel reading t ((w ++ established) ++ upstream_bytes rest) (client_bytes rest)
  unfolding on_upstream_connected
  tunnel_lem rest s reading w o k g m c =
      let wrapped = record s {
        watched = none;
        upstream = some (record { connected = true; reading = false; written = [] });
        connecting = none;
      } in
      let opened = record wrapped {
        has_cert_gen = false;
        is_tunnel = true;
        client = some (record { connected = true; reading = reading; written = w ++ established });
        upstream = some (record { connected = true; reading = true; written = [] });
      } in
      let connected : on_connect_event s ≡ some opened =
        if_false s.closed (some (record s { watched = none }))
          (if s.is_connect then start_tunnel wrapped else forward_request wrapped) o
        ∙ if_true s.is_connect (start_tunnel wrapped) (forward_request wrapped) k
        ∙ start_lem wrapped reading w g c refl in
      let (t, h, i) =
        arrive_lem rest opened reading (w ++ established) []
          (record { tunnel = refl; plain = m; client_is = refl; upstream_is = refl }) in
      (t, ap (λ x. x >>= arrive rest) connected ∙ h, i)
