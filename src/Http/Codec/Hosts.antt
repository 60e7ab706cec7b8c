-- ===== src/Http/Codec/Hosts.antt =====
-- The host and port of a request.
use deep_seer.Base.{
  ℕ, ◌<◌, ◌≡◌, ◌≢◌, refl, ap, false, ◌||◌, [], ◌∷◌, ◌++◌, none, some, All, ◌==◌, codes, stoi_u16,
  to_u16, ltb, read_sign, skip_spaces, read_number, is_digit, is_space, to_decimal,
  stoi_u16-to_decimal, find-append, find-none, take-length-append, drop-suc-length-append,
}
use deep_seer.Core.Buffer.{Bytes}
use deep_seer.Http.Headers.{get}
use deep_seer.Http.Message.{HttpRequest, string_to_method}
use deep_seer.Http.Codec.{
  Parser, http_request, is_request, Codec, host_port, host_at, from_host_header, extract_host,
  complete_request, finish_header, on_headers_complete,
}

abbrev pub HasNo : ℕ → Bytes → Type 0
HasNo c s = All (λ x. x ≢ c) s

-- A host with a printed port below 65536 is split at its colon, and a host without a colon is
-- taken whole and leaves the port.
pub host_port_lem :
    (h : Bytes) (p : ℕ) (req : HttpRequest)
    → HasNo b':' h
    → p < 65536
    → (host_port (h ++ b':' ∷ to_decimal p) req ≡ some (record req { host = h; port = p }))
      × (host_port h req ≡ some (record req { host = h }))
unfolding host_at
host_port_lem h p req n k = (
  rw (
    find-append b':' h (to_decimal p) n,
    drop-suc-length-append h (to_decimal p) b':',
    stoi_u16-to_decimal p k,
    take-length-append h (b':' ∷ to_decimal p),
  ),
  rw (find-none b':' h n),
)

-- What stands behind the colon does not begin as a number does.
abbrev pub IsNoNumber : Bytes → Type 0
IsNoNumber [] = Unit
IsNoNumber (c ∷ cs) =
    (is_digit c ≡ false) × (is_space c ≡ false) × ((c == b'-') ≡ false) × ((c == b'+') ≡ false)

skip_other : (c : ℕ) (cs : Bytes) → is_space c ≡ false → skip_spaces (c ∷ cs) ≡ c ∷ cs
unfolding skip_spaces
skip_other c cs h = rw h

sign_other :
    (c : ℕ) (cs : Bytes)
    → (c == b'-') ≡ false
    → (c == b'+') ≡ false
    → read_sign (c ∷ cs) ≡ (false, c ∷ cs)
unfolding read_sign
sign_other c cs h k = rw (h, k)

stoi_u16_throws : (s : Bytes) → IsNoNumber s → stoi_u16 s ≡ none
unfolding stoi_u16 to_u16 read_number
stoi_u16_throws [] h = unfold read_sign skip_spaces in refl
stoi_u16_throws (c ∷ cs) h = rw (skip_other c cs h.1, sign_other c cs h.2 h.3, stoi_u16, h.0)

host_port_throws :
    (h r : Bytes) (req : HttpRequest)
    → HasNo b':' h
    → IsNoNumber r
    → host_port (h ++ b':' ∷ r) req ≡ none
unfolding host_at
host_port_throws h r req n k =
    rw (find-append b':' h r n, drop-suc-length-append h r b':', stoi_u16_throws r k)

extract_host_throws :
    (h r : Bytes) (req : HttpRequest)
    → HasNo b':' h
    → IsNoNumber r
    → get req.headers (codes "Host") ≡ some (h ++ b':' ∷ r)
    → extract_host req ≡ none
unfolding extract_host from_host_header
extract_host_throws h r req n k e = rw (e, host_port_throws h r req n k)

-- A `Host` header whose first colon is followed by a text that does not begin as a number makes
-- `std::stoi` throw out of the headers-complete callback of a request, whatever else it holds.
pub host_header_throws :
    (p : Parser) (c : Codec) (h r : Bytes)
    → p.type ≡ http_request
    → get (finish_header p.type c).current_request.headers (codes "Host") ≡ some (h ++ b':' ∷ r)
    → HasNo b':' h
    → IsNoNumber r
    → on_headers_complete p c ≡ none
unfolding on_headers_complete complete_request
host_header_throws p c h r t e n k =
    let req = (finish_header p.type c).current_request in
    let throws =
      extract_host_throws h r
        (record req {
          method = string_to_method p.method_name;
          version_major = p.http_major;
          version_minor = p.http_minor;
          has_body = ltb 0 p.content_length || p.chunked;
        })
        n k e in
    rw (ap is_request t, throws)
