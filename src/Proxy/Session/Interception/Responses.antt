-- ===== src/Proxy/Session/Interception/Responses.antt =====
-- The relay of a response over both TLS connections.
use deep_seer.Base.{
  refl, sym, ap, subst, ◌∙◌, Bool, true, ◌&&◌, inl, inr, List, [], ◌∷◌, ◌++◌, All, if◌then◌else◌,
  if_true, if_false, Bool-cases, append_assoc, append-nil, ltb,
}
use deep_seer.Core.Buffer.{Bytes, Buffer, empty_buffer, linearize, empty, active}
use deep_seer.Core.Buffer.Laws.{IsWellFormed}
use deep_seer.Http.Message.{HttpResponse}
use deep_seer.Http.Codec.{encode_response}
use deep_seer.Http.Headers.Laws.{IsSorted}
use deep_seer.Proxy.Session.Heads.{given_head, given_head_lem}
use deep_seer.Proxy.Session.{
  Session, write_to_client, forwarded_head, on_response, on_response_body, on_response_complete,
  add_slices, max_inspect_bytes,
}
use deep_seer.Proxy.Session.Events.{upstream_emit, upstream_emits}
use deep_seer.Proxy.Session.Request.{empty_lem}
use deep_seer.Proxy.Session.Response.{joined, chunks}
use deep_seer.Proxy.Session.Interception.Writes.{IsIntercepting, write-IsIntercepting}

response_body-IsIntercepting :
    (b : Buffer) (s : Session) (c u : Bytes)
    → IsWellFormed b
    → IsIntercepting s c u
    → IsIntercepting (on_response_body b s) (c ++ linearize b) u
unfolding on_response_body
response_body-IsIntercepting b s c u fine i =
    let copied : Session = record s { response_body = add_slices (active b) s.response_body } in
    let keeps = s.has_inspector && ltb s.response_body.total_length max_inspect_bytes in
    let inspected = if keeps then copied else s in
    let kept : IsIntercepting inspected c u = elim (Bool-cases keeps) [
      | inl k ↦
          subst (λ t. IsIntercepting t c u) (sym (if_true keeps copied s k))
            (record {
              intercepts = i.intercepts;
              client_is = i.client_is;
              upstream_is = i.upstream_is;
              no_pending = i.no_pending;
            })
      | inr k ↦ subst (λ t. IsIntercepting t c u) (sym (if_false keeps copied s k)) i
    ] in
    elim (Bool-cases (empty b)) [
      | inl h ↦
          subst (λ t. IsIntercepting t (c ++ linearize b) u)
            (sym (if_true (empty b) inspected (write_to_client (linearize b) inspected) h))
            (subst (λ x. IsIntercepting inspected x u)
              (sym (ap (λ x. c ++ x) (empty_lem b fine h) ∙ append-nil c)) kept)
      | inr h ↦
          subst (λ t. IsIntercepting t (c ++ linearize b) u)
            (sym (if_false (empty b) inspected (write_to_client (linearize b) inspected) h))
            (write-IsIntercepting inspected (linearize b) c u kept)
    ]

complete-IsIntercepting :
    (s : Session) (c u : Bytes) → IsIntercepting s c u → IsIntercepting (on_response_complete s) c u
unfolding on_response_complete
complete-IsIntercepting s c u i =
    subst (λ t. IsIntercepting t c u) (sym (if_true s.is_tls_mitm _ _ i.intercepts))
      (record {
        intercepts = i.intercepts;
        client_is = i.client_is;
        upstream_is = i.upstream_is;
        no_pending = refl;
      })

pub chunks-IsIntercepting :
    (bs : List Buffer) (s : Session) (c u : Bytes)
    → All IsWellFormed bs
    → IsIntercepting s c u
    → IsIntercepting (upstream_emits (chunks bs) s) (c ++ joined bs) u
unfolding upstream_emits upstream_emit chunks joined
chunks-IsIntercepting [] s c u fine i = rw (append-nil c) (complete-IsIntercepting s c u i)
chunks-IsIntercepting (b ∷ bs) s c u fine i = rw⁻¹ (append_assoc c (linearize b) (joined bs)) (
    chunks-IsIntercepting bs (on_response_body b s) (c ++ linearize b) u fine.1
      (response_body-IsIntercepting b s c u fine.0 i))

pub response-IsIntercepting :
    (r : HttpResponse) (s : Session) (c u : Bytes)
    → IsSorted r.headers
    → IsIntercepting s c u
    → IsIntercepting (on_response r s) (c ++ given_head true r) u
unfolding on_response
response-IsIntercepting r s c u h i =
    let head = λ (m : Bool). linearize (encode_response (forwarded_head m r) empty_buffer) in
    subst (λ x. IsIntercepting (on_response r s) (c ++ x) u) (given_head_lem true r h)
      (subst (λ m. IsIntercepting (write_to_client (head m) s) (c ++ head true) u)
        (sym i.intercepts) (write-IsIntercepting s (head true) c u i))
