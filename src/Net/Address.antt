-- ===== src/Net/Address.antt =====
-- DeepSeerLib/src/Net/Address.cpp: the text form of an address. `getaddrinfo` and `getnameinfo` and
-- the fields of a `sockaddr_storage` are a parameter. `none` is a `std::stoul` that throws.
pub mod Text
use deep_seer.Base.{
  ℕ, suc, ◌+◌, ◌-◌, ◌%◌, Bool, true, false, List, [], ◌∷◌, ◌++◌, Option, none, some, if◌then◌else◌,
  ◌==◌, codes, find, rfind, stoull, substr, take, drop, to_decimal, ◌>>=◌,
}
use deep_seer.Core.Types.{internal_error, Expected, ok, unexpected}
use deep_seer.Core.Buffer.{Bytes}
use deep_seer.Net.Socket.{error}

-- `ss_family`.
pub data Family : Type 0 where
  ipv4 ipv6 unix_or_other : Family

pub record Resolver : Type 1 where
  pub Sockaddr : Type 0
  pub family : Sockaddr → Family
  -- `sin_port` or `sin6_port`, after `ntohs`.
  pub port_field : Sockaddr → ℕ
  -- The first result of `getaddrinfo`, or its error text.
  pub get_addr_info : Bytes → Bytes → Expected Sockaddr
  -- The numeric host and service of `getnameinfo`.
  pub get_name_info : Sockaddr → Option (Bytes × Bytes)

-- `hostPort.front() == '['`.
abbrev pub is_bracketed : Bytes → Bool
is_bracketed [] = false
is_bracketed (c ∷ cs) = c == b'['

module _ (resolver : Resolver) where
  open resolver use {Sockaddr, family, port_field, get_addr_info, get_name_info}

  -- `Address::fromHostPort`.
  unfoldable pub from_host_port : Bytes → ℕ → Expected Sockaddr
  from_host_port host port = elim (get_addr_info host (to_decimal port)) [
    | unexpected e ↦ error internal_error (codes "getaddrinfo failed: " ++ e.message)
    | ok a ↦ ok a
  ]

  -- The end of `Address::fromString`.
  unfoldable pub from_parts : Bytes → Bytes → Option (Expected Sockaddr)
  unfolding from_host_port
  from_parts host port = stoull port >>= λ (n : ℕ). some (from_host_port host (n % 65536))

  -- `Address::fromString`.
  unfoldable pub from_string : Bytes → Option (Expected Sockaddr)
  unfolding from_parts
  from_string s = elim (rfind b':' s) [
    | none ↦ some (error internal_error (codes "Address construction got invalid address format"))
    | some colon ↦
        if is_bracketed s
        then elim (find b']' s) [
          | none ↦
              some (
                error internal_error
                  (codes "Address construction got invalide IPV6 address format"))
          | some end ↦
              if end + 1 == colon
              then from_parts (substr 1 (end - 1) s) (drop (colon + 1) s)
              else some (
                  error internal_error
                    (codes "Address construction got invalide IPV6 address format"))
        ]
        else from_parts (take colon s) (drop (colon + 1) s)
  ]

  -- `Address::isIpv6`.
  abbrev pub is_ipv6 : Sockaddr → Bool
  is_ipv6 a = elim (family a) [ ipv6 ↦ true | _ ↦ false ]

  -- `Address::toString`.
  unfoldable pub to_string : Sockaddr → Bytes
  to_string a = elim (get_name_info a) [
    | none ↦ []
    | some (host, port) ↦
        if is_ipv6 a then b'[' ∷ (host ++ (codes "]:" ++ port)) else host ++ (b':' ∷ port)
  ]

  -- `Address::port`.
  unfoldable pub port : Sockaddr → ℕ
  port a = elim (family a) [ ipv6 ↦ port_field a | ipv4 ↦ port_field a | unix_or_other ↦ 0 ]
