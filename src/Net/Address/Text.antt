-- ===== src/Net/Address/Text.antt =====
-- `Address::toString` and `Address::fromString` (DeepSeerLib/src/Net/Address.cpp).
use deep_seer.Base.{
  ℕ, suc, ◌+◌, ◌-◌, ◌%◌, ◌<◌, ◌≡◌, ◌≢◌, refl, sym, ap, ◌∙◌, true, false, [], ◌∷◌, ◌++◌, Option,
  some, All, append_assoc, arith, ◌==◌, Bool-cases, inl, inr, length, length-append, codes, find,
  rfind, is_digit, substr, drop, to_decimal, to_decimal-All, stoull-to_decimal, rfind-append,
  find-append, take-length-append, drop-suc-length-append, ◌>>=◌,
}
use deep_seer.Core.Types.{ok}
use deep_seer.Core.Buffer.{Bytes}
use deep_seer.Net.Address.{
  Resolver, is_bracketed, from_host_port, from_parts, from_string, is_ipv6, to_string,
}

no_colon : (s : Bytes) → All (λ c. is_digit c ≡ true) s → All (λ c. c ≢ b':') s
no_colon [] h = tt
no_colon (c ∷ s) h = (ground (arith, h.0), no_colon s h.1)

module _ (resolver : Resolver) where
  open resolver use {Sockaddr, get_addr_info, get_name_info}

  front_lem :
      (host : Bytes) (p : ℕ)
      → is_bracketed host ≡ false
      → is_bracketed (host ++ (b':' ∷ to_decimal p)) ≡ false
  front_lem [] p b = refl
  front_lem (c ∷ cs) p b = b

  parts_lem :
      (a : Sockaddr) (host : Bytes) (p : ℕ)
      → p < 65536
      → get_addr_info host (to_decimal p) ≡ ok a
      → from_parts resolver host (to_decimal p) ≡ some (ok a)
  unfolding from_parts from_host_port
  parts_lem a host p h e =
      ap (λ (o : Option ℕ). o >>= λ n. some (from_host_port resolver host (n % 65536)))
        (stoull-to_decimal p h)
      ∙ ap (λ n. some (from_host_port resolver host n)) (let q : p % 65536 ≡ p = omega arith in q)
      ∙ rw (from_host_port, e) refl

  plain_lem :
      (a : Sockaddr) (host : Bytes) (p : ℕ)
      → p < 65536
      → is_bracketed (host ++ (b':' ∷ to_decimal p)) ≡ false
      → get_addr_info host (to_decimal p) ≡ ok a
      → from_string resolver (host ++ (b':' ∷ to_decimal p)) ≡ some (ok a)
  unfolding from_string
  plain_lem a host p h b e =
      let text = host ++ (b':' ∷ to_decimal p) in
      let last =
        rfind-append b':' host (to_decimal p) (no_colon (to_decimal p) (to_decimal-All p)) in
      let behind : drop (length host + 1) text ≡ to_decimal p =
        ap (λ k. drop k text) (let q : length host + 1 ≡ suc (length host) = omega arith in q)
        ∙ drop-suc-length-append host (to_decimal p) b':' in
      rw (from_string, last, b, behind, take-length-append host (b':' ∷ to_decimal p))
        (parts_lem a host p h e)

  bracketed_lem :
      (a : Sockaddr) (host : Bytes) (p : ℕ)
      → p < 65536
      → All (λ c. c ≢ b']') host
      → get_addr_info host (to_decimal p) ≡ ok a
      → from_string resolver (b'[' ∷ (host ++ (codes "]:" ++ to_decimal p))) ≡ some (ok a)
  unfolding from_string
  bracketed_lem a host p h b e =
      let port = to_decimal p in
      let text = b'[' ∷ (host ++ (codes "]:" ++ port)) in
      let inner = host ++ b']' ∷ [] in
      let split : inner ++ b':' ∷ port ≡ host ++ (codes "]:" ++ port) =
        append_assoc host (b']' ∷ []) (b':' ∷ port) in
      let size : length inner ≡ length host + 1 = length-append host (b']' ∷ []) in
      let last : rfind b':' text ≡ some (suc (suc (length host))) =
        ap (λ t. rfind b':' (b'[' ∷ t)) (sym split)
        ∙ rfind-append b':' (b'[' ∷ inner) port (no_colon port (to_decimal-All p))
        ∙ ap (λ n. some (suc n)) (size ∙ omega arith) in
      let first : find b']' text ≡ some (suc (length host)) =
        find-append b']' (b'[' ∷ host) (b':' ∷ port) (omega arith, b) in
      let meets : (suc (length host) + 1 == suc (suc (length host))) ≡ true = ground arith in
      let before : substr 1 (suc (length host) - 1) text ≡ host =
        ap (λ k. substr 1 k text) (let q : suc (length host) - 1 ≡ length host = omega arith in q)
        ∙ take-length-append host (codes "]:" ++ port) in
      let behind : drop (suc (suc (length host)) + 1) text ≡ port =
        ap (λ k. drop k text)
          (let q : suc (suc (length host)) + 1 ≡ suc (suc (length inner)) = omega (arith, size) in
            q)
        ∙ ap (drop (suc (length inner))) (sym split)
        ∙ drop-suc-length-append inner port b':' in
      rw (from_string, last, first, meets, before, behind) (parts_lem a host p h e)

  -- The text of an address is read back as the address, where the numeric host and port are what
  -- `getaddrinfo` resolves to it, the port is below 65536, and the host has no closing bracket and
  -- does not begin with an opening one.
  pub from_string-to_string :
      (a : Sockaddr) (host : Bytes) (p : ℕ)
      → get_name_info a ≡ some (host, to_decimal p)
      → get_addr_info host (to_decimal p) ≡ ok a
      → p < 65536
      → All (λ c. c ≢ b']') host
      → is_bracketed host ≡ false
      → from_string resolver (to_string resolver a) ≡ some (ok a)
  unfolding to_string
  from_string-to_string a host p n e h b f = elim (Bool-cases (is_ipv6 resolver a)) [
    | inl v ↦ rw (to_string, n, v) (bracketed_lem a host p h b e)
    | inr v ↦ rw (to_string, n, v) (plain_lem a host p h (front_lem host p f) e)
  ]
