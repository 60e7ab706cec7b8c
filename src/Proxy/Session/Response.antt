-- ===== src/Proxy/Session/Response.antt =====
-- What the client of a plain session gets of a response (ProxySession.cpp, `onResponse` to
-- `onResponseComplete`).
use deep_seer.Base.{
  ◌≡◌, refl, Bool, true, false, List, [], ◌∷◌, ◌++◌, some, arith, if◌then◌else◌, length, ◌==◌,
}
use deep_seer.Core.Buffer.{Bytes, Buffer, linearize}
use deep_seer.Core.Buffer.Laws.{IsWellFormed}
use deep_seer.Http.Codec.{Emit, body_chunk, complete}
use deep_seer.Proxy.Session.{Session}

-- The chunks of a body, as one string.
unfoldable pub joined : List Buffer → Bytes
joined [] = []
joined (b ∷ bs) = linearize b ++ joined bs

-- A plain session that is open, whose client was given `w`, and whose inspector's copy is `b`.
-- `log` holds the inspector's calls so far and the URL of the request.
pub record IsPlain (reading : Bool) (log : List (Bytes × Bytes) × Bytes) (s : Session) (w : Bytes)
    (b : Bytes) : Type 0 where
  pub plain : s.is_tls_mitm ≡ false
  pub not_closed : s.closed ≡ false
  pub inspects : s.has_inspector ≡ true
  pub client_is : s.client ≡ some (record { connected = true; reading = reading; written = w })
  pub log_is : (s.inspected, s.current_request.url) ≡ log
  pub copy_is : linearize s.response_body ≡ b
  pub copy_fine : IsWellFormed s.response_body

pub empty_of_length : (b : Bytes) → length b ≡ 0 → b ≡ []
empty_of_length [] h = refl
empty_of_length (c ∷ b) h = absurd (omega (arith, h))

-- The calls of the codec for the body of a message.
unfoldable pub chunks : List Buffer → List Emit
chunks [] = complete ∷ []
chunks (b ∷ bs) = body_chunk b false ∷ chunks bs

-- What the end of a response leaves.
pub record IsAnswered (reading : Bool) (log : List (Bytes × Bytes) × Bytes) (s : Session)
    (w b : Bytes) : Type 0 where
  pub closed : s.closed ≡ true
  pub client_is : s.client ≡ some (record { connected = false; reading = reading; written = w })
  pub inspected_is : s.inspected ≡ (if length b == 0 then log.0 else log.0 ++ (b, log.1) ∷ [])
