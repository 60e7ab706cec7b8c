-- ===== src/Proxy/Session/Interception/Requests.antt =====
-- The relay of a request over both TLS connections.
use deep_seer.Base.{
  ℕ, ◌≡◌, refl, sym, ap, subst, ◌∙◌, true, false, inl, inr, List, [], ◌∷◌, ◌++◌, some, All,
  if◌then◌else◌, if_true, if_false, Bool-cases, append_assoc, append-nil, ◌==◌,
}
use deep_seer.Core.Buffer.{Bytes, Buffer, empty_buffer, linearize, empty, move}
use deep_seer.Core.Buffer.Laws.{IsWellFormed, linearize-move, empty-IsWellFormed}
use deep_seer.Http.Message.{HttpRequest}
use deep_seer.Proxy.Session.Heads.{origin_head, origin_head_lem}
use deep_seer.Proxy.Session.{
  Session, Dial, on_peer, is_set, peer_write, left_over, write_to_upstream, flush_pending,
  forward_request, asks_connect, on_request, handle_connect, connect_upstream, on_request_body,
  origin_form,
}
use deep_seer.Proxy.Session.Events.{client_emit, client_emits}
use deep_seer.Proxy.Session.Request.{body_chunks, empty_lem}
use deep_seer.Proxy.Session.Response.{joined}
use deep_seer.Proxy.Session.Interception.Writes.{talking, IsIntercepting, flush-tls}

body-IsIntercepting :
    (s : Session) (b : Buffer) (c u : Bytes)
    → IsWellFormed b
    → IsIntercepting s c u
    → IsIntercepting (on_request_body b s) c (u ++ linearize b)
unfolding on_request_body linearize
body-IsIntercepting s b c u fine i =
    let more = record s { pending_body = (move s.pending_body b).0 } in
    let all : linearize (move s.pending_body b).0 ≡ linearize b =
      ap (λ p. linearize (move p b).0) i.no_pending
      ∙ linearize-move empty_buffer b empty-IsWellFormed in
    elim (Bool-cases (empty b)) [
      | inl h ↦
          subst (λ t. IsIntercepting t c (u ++ linearize b))
            (sym (if_true (empty b) s (flush_pending more) h))
            (subst (IsIntercepting s c) (sym (ap (λ x. u ++ x) (empty_lem b fine h) ∙ append-nil u))
              i)
      | inr h ↦
          subst (λ t. IsIntercepting t c (u ++ linearize b))
            (sym (
              if_false (empty b) s (flush_pending more) h
              ∙ flush-tls more u i.intercepts i.upstream_is))
            (record {
              intercepts = refl;
              client_is = i.client_is;
              upstream_is = ap (λ x. talking (u ++ x)) all;
              no_pending = refl;
            })
    ]

forward-IsIntercepting :
    (s : Session) (c u : Bytes)
    → IsIntercepting s c u
    → (t : Session) × (forward_request s ≡ some t)
      × IsIntercepting t c (u ++ origin_head s.current_request)
unfolding forward_request write_to_upstream on_peer is_set left_over peer_write
forward-IsIntercepting s c u i = (
  record s {
    is_tls_mitm = true;
    tls_upstream = talking (u ++ origin_head s.current_request);
    current_request = record s.current_request { url = origin_form s.current_request.url };
    pending_body = empty_buffer;
  },
  rw (i.intercepts, i.upstream_is, i.no_pending, origin_head_lem s.current_request),
  record { intercepts = refl; client_is = i.client_is; upstream_is = refl; no_pending = refl },
)

module _ (dial : Bytes → ℕ → Dial) where
  pub request-IsIntercepting :
      (r : HttpRequest) (s : Session) (c u : Bytes)
      → asks_connect r.method ≡ false
      → IsIntercepting s c u
      → (t : Session) × (on_request dial r s ≡ some t) × IsIntercepting t c (u ++ origin_head r)
  unfolding on_request
  request-IsIntercepting r s c u m i =
      let asked = record s { current_request = r } in
      let target = dial r.host (if r.port == 0 then 80 else r.port) in
      let (t, e, j) = forward-IsIntercepting asked c u (record {
        intercepts = i.intercepts;
        client_is = i.client_is;
        upstream_is = i.upstream_is;
        no_pending = i.no_pending;
      }) in
      (
        t,
        if_false (asks_connect r.method)
              (handle_connect dial (record s { current_request = r; is_connect = true }))
              (if s.is_tls_mitm then forward_request asked else connect_upstream target asked) m
            ∙ if_true s.is_tls_mitm (forward_request asked) (connect_upstream target asked)
                i.intercepts
            ∙ e,
        j,
      )

  pub bodies-IsIntercepting :
      (bs : List Buffer) (s : Session) (c u : Bytes)
      → All IsWellFormed bs
      → IsIntercepting s c u
      → (t : Session) × (client_emits dial (body_chunks bs) s ≡ some t)
        × IsIntercepting t c (u ++ joined bs)
  unfolding client_emits client_emit body_chunks joined
  bodies-IsIntercepting [] s c u fine i = (s, refl, rw (append-nil u) i)
  bodies-IsIntercepting (b ∷ bs) s c u fine i =
      let (t, e, j) =
        bodies-IsIntercepting bs (on_request_body b s) c (u ++ linearize b) fine.1
          (body-IsIntercepting s b c u fine.0 i) in
      (t, e, rw⁻¹ (append_assoc u (linearize b) (joined bs)) j)
