-- ===== src/Proxy/Session/Interception.antt =====
-- A session that intercepts TLS (ProxySession.cpp, `startTlsMitm` and the relays over both TLS
-- connections).
pub mod Writes
pub mod Requests
pub mod Responses
use deep_seer.Base.{
  ℕ, ◌≡◌, sym, Bool, true, false, ◌&&◌, inl, inr, List, [], ◌∷◌, ◌++◌, Option, some, All,
  Bool-cases, ◌==◌, ltb, ◌>>=◌,
}
use deep_seer.Core.Buffer.{Bytes, Buffer, linearize, empty, move, active}
use deep_seer.Core.Buffer.Laws.{IsWellFormed, linearize-move, empty-IsWellFormed}
use deep_seer.Http.Message.{HttpRequest, HttpResponse}
use deep_seer.Http.Codec.{request_head, response_head, encode_response}
use deep_seer.Http.Headers.Laws.{IsSorted}
use deep_seer.Proxy.Session.Heads.{origin_head, given_head}
use deep_seer.Proxy.Session.{
  Session, Dial, is_set, peer_write_buffer, left_over, write_to_client, write_to_upstream,
  flush_pending, forward_request, asks_connect, on_request, handle_connect, connect_upstream,
  on_request_body, forwarded_head, on_response_body, on_response_complete, add_slices,
  max_inspect_bytes, origin_form,
}
use deep_seer.Proxy.Session.Events.{client_emits, upstream_emits}
use deep_seer.Tls.CertCache.{CertCache}
use deep_seer.Proxy.Session.Request.{body_chunks, moved_lem, empty_lem}
use deep_seer.Proxy.Session.Response.{joined, chunks}

-- A request and its response, as the two codecs call back with them.
pub record Exchange : Type 0 where
  pub request : HttpRequest
  pub request_body : List Buffer
  pub response : HttpResponse
  pub response_body : List Buffer

-- A request that is not CONNECT, headers in the order of the map, and well-formed bodies.
pub record IsOrdinary (x : Exchange) : Type 0 where
  pub not_connect : asks_connect x.request.method ≡ false
  pub request_fine : All IsWellFormed x.request_body
  pub response_sorted : IsSorted x.response.headers
  pub response_fine : All IsWellFormed x.response_body

abbrev pub requests : List Exchange → Bytes
requests [] = []
requests (x ∷ xs) = (origin_head x.request ++ joined x.request_body) ++ requests xs

abbrev pub responses : List Exchange → Bytes
responses [] = []
responses (x ∷ xs) = (given_head true x.response ++ joined x.response_body) ++ responses xs

module _ (dial : Bytes → ℕ → Dial) where
  -- The exchanges of a session, one after another.
  unfoldable pub relay : List Exchange → Session → Option Session
  unfolding client_emits upstream_emits chunks body_chunks
  relay [] s = some s
  relay (x ∷ xs) s =
      client_emits dial (request_head x.request ∷ body_chunks x.request_body) s >>= λ (t : Session).
      relay xs (upstream_emits (response_head x.response ∷ chunks x.response_body) t)
