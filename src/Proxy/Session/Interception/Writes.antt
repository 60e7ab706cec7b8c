-- ===== src/Proxy/Session/Interception/Writes.antt =====
-- What is written to the two TLS connections of an intercepting session.
use deep_seer.Base.{◌≡◌, refl, sym, subst, true, ◌++◌, Option, some}
use deep_seer.Core.Buffer.{Bytes, empty_buffer, linearize}
use deep_seer.Proxy.Session.{
  Peer, Session, on_peer, is_set, peer_write, peer_write_buffer, left_over, write_to_client,
  write_to_upstream, flush_pending,
}
use deep_seer.Proxy.Session.Request.{moved_lem}

-- An open TLS connection that reads and was given `w`.
abbrev pub talking : Bytes → Option Peer
talking w = some (record { connected = true; reading = true; written = w })

-- Both TLS connections are up; the client was given `c` and the upstream `u`.
pub record IsIntercepting (s : Session) (c u : Bytes) : Type 0 where
  pub intercepts : s.is_tls_mitm ≡ true
  pub client_is : s.tls_client ≡ talking c
  pub upstream_is : s.tls_upstream ≡ talking u
  pub no_pending : s.pending_body ≡ empty_buffer

pub flush-tls :
    (s : Session) (u : Bytes)
    → s.is_tls_mitm ≡ true
    → s.tls_upstream ≡ talking u
    → flush_pending s ≡ record s {
      is_tls_mitm = true;
      tls_upstream = talking (u ++ linearize s.pending_body);
      pending_body = empty_buffer;
    }
unfolding flush_pending write_to_upstream on_peer is_set left_over peer_write peer_write_buffer
flush-tls s u m t = rw (m, t, moved_lem)

write-tls :
    (s : Session) (bs c : Bytes)
    → s.is_tls_mitm ≡ true
    → s.tls_client ≡ talking c
    → write_to_client bs s ≡ record s { is_tls_mitm = true; tls_client = talking (c ++ bs) }
unfolding write_to_client on_peer is_set peer_write
write-tls s bs c m t = rw (m, t)

pub write-IsIntercepting :
    (s : Session) (bs c u : Bytes)
    → IsIntercepting s c u
    → IsIntercepting (write_to_client bs s) (c ++ bs) u
write-IsIntercepting s bs c u i =
    subst (λ t. IsIntercepting t (c ++ bs) u) (sym (write-tls s bs c i.intercepts i.client_is))
      (record {
        intercepts = refl;
        client_is = refl;
        upstream_is = i.upstream_is;
        no_pending = i.no_pending;
      })
