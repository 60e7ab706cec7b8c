-- ===== src/Proxy/Session/Finality.antt =====
-- What a closed session of ProxySession.cpp does with the rest of a response.
use deep_seer.Base.{
  ◌≡◌, refl, sym, ap, subst, ◌++◌, ◌∙◌, Bool, true, false, not, ◌&&◌, List, [], ◌∷◌, some,
  if◌then◌else◌, if_false, if_true, ltb,
}
use deep_seer.Core.Buffer.{Bytes, Buffer, empty, linearize, empty_buffer}
use deep_seer.Http.Codec.{Emit, request_head, response_head, body_chunk, complete}
use deep_seer.Proxy.Session.{
  Peer, Session, close_peer, peer_write, on_peer, is_set, close, write_to_client, max_inspect_bytes,
  on_response, on_response_body, on_response_complete,
}
use deep_seer.Proxy.Session.Events.{upstream_emit, upstream_emits}

-- A closed session whose client connection is closed, and what it has been given to write.
record IsShut (d : Peer) (s : Session) : Type 0 where
  is_closed : s.closed ≡ true
  is_plain : s.is_tls_mitm ≡ false
  client_is : s.client ≡ some d
  disconnected : d.connected ≡ false

if-IsShut :
    (d : Peer) (b : Bool) (s t : Session) → IsShut d s → IsShut d t → IsShut d (if b then s else t)
if-IsShut d true s t i j = i
if-IsShut d false s t i j = j

write-IsShut : (d : Peer) (bs : Bytes) (s : Session) → IsShut d s → IsShut d (write_to_client bs s)
unfolding write_to_client on_peer is_set peer_write
write-IsShut d bs s i =
    let final : on_peer (peer_write bs) s.client ≡ some d =
      ap (on_peer (peer_write bs)) i.client_is
      ∙ ap some (if_false d.connected _ d i.disconnected) in
    if-IsShut d (s.is_tls_mitm && is_set s.tls_client) _ _
      (record {
        is_closed = i.is_closed;
        is_plain = i.is_plain;
        client_is = i.client_is;
        disconnected = i.disconnected;
      })
      (record {
        is_closed = i.is_closed;
        is_plain = i.is_plain;
        client_is = final;
        disconnected = i.disconnected;
      })

body-IsShut : (d : Peer) (b : Buffer) (s : Session) → IsShut d s → IsShut d (on_response_body b s)
unfolding on_response_body
body-IsShut d b s i =
    let kept =
      if-IsShut d (s.has_inspector && ltb s.response_body.total_length max_inspect_bytes) _ s
        (record {
          is_closed = i.is_closed;
          is_plain = i.is_plain;
          client_is = i.client_is;
          disconnected = i.disconnected;
        })
        i in
    if-IsShut d (empty b) _ _ kept (write-IsShut d (linearize b) _ kept)

-- The session at the end of `onResponseComplete`, before the close.
abbrev ended_session : Session → Session
ended_session s = record s {
  inspected =
      if s.has_inspector && not (empty s.response_body)
      then s.inspected ++ (linearize s.response_body, s.current_request.url) ∷ []
      else s.inspected;
  pending_body = empty_buffer;
  response_body = empty_buffer;
}

first-IsShut :
    (s : Session) (c : Peer)
    → s.is_tls_mitm ≡ false
    → s.closed ≡ false
    → s.client ≡ some c
    → IsShut (close_peer c) (on_response_complete s)
unfolding on_response_complete close on_peer
first-IsShut s c m n p =
    subst (IsShut (close_peer c))
      (sym (if_false s.is_tls_mitm (ended_session s) _ m ∙ if_false s.closed (ended_session s) _ n))
      (record {
        is_closed = refl;
        is_plain = m;
        client_is = ap (on_peer close_peer) p;
        disconnected = refl;
      })

complete-IsShut : (d : Peer) (s : Session) → IsShut d s → IsShut d (on_response_complete s)
unfolding on_response_complete close
complete-IsShut d s i =
    let ended : IsShut d (ended_session s) = record {
      is_closed = i.is_closed;
      is_plain = i.is_plain;
      client_is = i.client_is;
      disconnected = i.disconnected;
    } in
    if-IsShut d s.is_tls_mitm _ _ ended
      (subst (IsShut d) (sym (if_true s.closed _ _ i.is_closed)) ended)

emit-IsShut : (d : Peer) (e : Emit) (s : Session) → IsShut d s → IsShut d (upstream_emit e s)
unfolding upstream_emit on_response
emit-IsShut d (request_head r) s i = i
emit-IsShut d (response_head r) s i = write-IsShut d _ s i
emit-IsShut d (body_chunk b end) s i = body-IsShut d b s i
emit-IsShut d complete s i = complete-IsShut d s i

emits-IsShut :
    (d : Peer) (es : List Emit) (s : Session) → IsShut d s → IsShut d (upstream_emits es s)
unfolding upstream_emits
emits-IsShut d [] s i = i
emits-IsShut d (e ∷ es) s i = emits-IsShut d es (upstream_emit e s) (emit-IsShut d e s i)

-- The end of a response closes a plain session, and nothing of what the upstream codec reports after
-- it in the same read reaches the client: the client connection is closed, with the bytes that it had
-- been given before.
pub after_complete_lem :
    (es : List Emit) (s : Session) (c : Peer)
    → s.is_tls_mitm ≡ false
    → s.closed ≡ false
    → s.client ≡ some c
    → ((upstream_emits (complete ∷ es) s).client ≡ some (close_peer c))
      × ((upstream_emits (complete ∷ es) s).closed ≡ true)
unfolding upstream_emits upstream_emit
after_complete_lem es s c m n p =
    let i = emits-IsShut (close_peer c) es (on_response_complete s) (first-IsShut s c m n p) in
    (i.client_is, i.is_closed)
