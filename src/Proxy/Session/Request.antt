-- ===== src/Proxy/Session/Request.antt =====
-- What the upstream of a plain session gets of a request (ProxySession.cpp, `onRequest`,
-- `onRequestBody`, `onUpstreamConnected` and `forwardRequest`).
use deep_seer.Base.{◌≡◌, refl, true, false, List, [], ◌∷◌, none, some, arith, ==_iff}
use deep_seer.Core.Buffer.{Bytes, Buffer, empty_buffer, linearize, empty, move}
use deep_seer.Core.Buffer.Laws.{IsWellFormed}
use deep_seer.Http.Message.{HttpRequest}
use deep_seer.Http.Codec.{Emit, body_chunk}
use deep_seer.Proxy.Session.Heads.{origin_head}
use deep_seer.Proxy.Session.{Session, origin_form}
use deep_seer.Proxy.Session.Response.{empty_of_length}

-- A plain session whose connection to the upstream is not there yet: `b` is the body so far.
pub record IsWaiting (req : HttpRequest) (s : Session) (b : Bytes) : Type 0 where
  pub not_closed : s.closed ≡ false
  pub plain : s.is_tls_mitm ≡ false
  pub not_connect : s.is_connect ≡ false
  pub no_upstream : s.upstream ≡ none
  pub request_is : s.current_request ≡ req
  pub body_is : linearize s.pending_body ≡ b
  pub body_fine : IsWellFormed s.pending_body

-- A plain session whose upstream was given `w`, with nothing pending.
pub record IsForwarding (s : Session) (w : Bytes) : Type 0 where
  pub plain : s.is_tls_mitm ≡ false
  pub upstream_is : s.upstream ≡ some (record { connected = true; reading = true; written = w })
  pub body_is : linearize s.pending_body ≡ []
  pub body_fine : IsWellFormed s.pending_body

pub moved_lem : (b : Buffer) → (move empty_buffer b).1 ≡ empty_buffer
unfolding move
moved_lem b = refl

pub empty_lem : (b : Buffer) → IsWellFormed b → empty b ≡ true → linearize b ≡ []
empty_lem b w h =
    empty_of_length (linearize b) (omega (arith, w.total, (==_iff b.total_length 0).0 h))

-- The state of `forwardRequest` before the pending body goes out.
abbrev head_sent : Session → Session
head_sent s = record s {
  is_tls_mitm = false;
  current_request = record s.current_request { url = origin_form s.current_request.url };
  upstream =
      some (record { connected = true; reading = true; written = origin_head s.current_request });
}

-- The calls of the client codec for chunks of a body.
unfoldable pub body_chunks : List Buffer → List Emit
body_chunks [] = []
body_chunks (c ∷ cs) = body_chunk c false ∷ body_chunks cs
