-- ===== src/Core/Types.antt =====
-- DeepSeerLib/include/DeepSeer/Core/Types.hpp: error codes, `Error` and `Expected<T>`.
use deep_seer.Base.{List, ℕ}

pub data ErrorCode : Type 0 where
  ok_code would_block fd_exhausted connection_closed connection_refused : ErrorCode
  connection_timeout read_error write_error : ErrorCode
  tls_handshake_failed cert_generation_failed : ErrorCode
  parse_error invalid_request invalid_response : ErrorCode
  upstream_unreachable tunnel_failed config_error internal_error : ErrorCode

pub record Error : Type 0 where
  pub code : ErrorCode
  pub message : List ℕ

-- `std::expected<T, Error>`.
pub data Expected {ℓ} (A : Type ℓ) : Type ℓ where
  ok : A → Expected A
  unexpected : Error → Expected A
