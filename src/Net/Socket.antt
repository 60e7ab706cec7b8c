-- ===== src/Net/Socket.antt =====
-- DeepSeerLib/src/Net/Socket.cpp: what the wrappers of the system calls make of their results. The
-- calls and the platform's error codes are parameters; the POSIX branches are modelled.
use deep_seer.Base.{ℕ, Bool, true, false, ◌++◌, Option, none, some, if◌then◌else◌, codes}
use deep_seer.Core.Types.{
  ErrorCode, would_block, fd_exhausted, connection_refused, read_error, write_error, internal_error,
  Expected, ok, unexpected,
}
use deep_seer.Core.Buffer.{Bytes}

-- `isWouldBlock`, `isInProgress`, `isFdExhausted` and `platformErrorStr`.
pub record Platform : Type 0 where
  pub is_would_block : ℕ → Bool
  pub is_in_progress : ℕ → Bool
  pub is_fd_exhausted : ℕ → Bool
  pub error_str : ℕ → Bytes

-- A system call's result: a count or descriptor, or -1 with `errno`.
pub data SysResult : Type 0 where
  returned : ℕ → SysResult
  failed : ℕ → SysResult

-- A socket owns a descriptor or none (`kInvalidFd`).
abbrev pub Socket : Type 0
Socket = Option ℕ

abbrev pub error {ℓ} : {A : Type ℓ} → ErrorCode → Bytes → Expected A
error c m = unexpected (record { code = c; message = m })

module _ (os : Platform) where
  -- `Socket::createSocket`.
  unfoldable pub create_socket : SysResult → Expected Socket
  create_socket (returned fd) = ok (some fd)
  create_socket (failed e) = error internal_error (codes "socket() failed: " ++ os.error_str e)

  -- `Socket::bindAndListen`, from the results of `bind` and `listen`.
  unfoldable pub bind_and_listen : SysResult → SysResult → Expected (Unit {0})
  bind_and_listen (failed e) l = error internal_error (codes "bind() failed: " ++ os.error_str e)
  bind_and_listen (returned n) (failed e) =
      error internal_error (codes "listen() failed: " ++ os.error_str e)
  bind_and_listen (returned n) (returned m) = ok tt

  -- `Socket::connect`: connected at once, in progress, or refused.
  unfoldable pub connect : SysResult → Expected Bool
  connect (returned n) = ok true
  connect (failed e) =
      if os.is_in_progress e
      then ok false
      else error connection_refused (codes "connect() failed: " ++ os.error_str e)

  -- `Socket::accept`.
  unfoldable pub accept : SysResult → Expected Socket
  accept (returned fd) = ok (some fd)
  accept (failed e) =
      if os.is_would_block e
      then error would_block (codes "accept() would block")
      else if os.is_fd_exhausted e
      then error fd_exhausted (codes "accept() fd exhausted: " ++ os.error_str e)
      else error internal_error (codes "accept() failed: " ++ os.error_str e)

  -- `Socket::setNonblocking`, from the results of the two `fcntl` calls.
  unfoldable pub set_nonblocking : SysResult → SysResult → Expected (Unit {0})
  set_nonblocking (returned n) (returned m) = ok tt
  set_nonblocking (failed e) s =
      error internal_error (codes "fcntl(O_NONBLOCK) failed: " ++ os.error_str e)
  set_nonblocking (returned n) (failed e) =
      error internal_error (codes "fcntl(O_NONBLOCK) failed: " ++ os.error_str e)

  -- `Socket::setReuseAddr`.
  unfoldable pub set_reuse_addr : SysResult → Expected (Unit {0})
  set_reuse_addr (returned n) = ok tt
  set_reuse_addr (failed e) =
      error internal_error (codes "setsockopt(SO_REUSEADDR) failed: " ++ os.error_str e)

  -- `Socket::read`: none is the -1 of a read that would block.
  unfoldable pub read : SysResult → Expected (Option ℕ)
  read (returned n) = ok (some n)
  read (failed e) =
      if os.is_would_block e
      then ok none
      else error read_error (codes "recv() failed: " ++ os.error_str e)

  -- `Socket::write`: 0 where it would block.
  unfoldable pub write : SysResult → Expected ℕ
  write (returned n) = ok n
  write (failed e) =
      if os.is_would_block e
      then ok 0
      else error write_error (codes "send() failed: " ++ os.error_str e)

-- `Socket::operator=(Socket&&)` on two sockets: the target, the source, and the descriptor that the
-- temporary closes.
unfoldable pub move_assign : Socket → Socket → Socket × Socket × Socket
move_assign target source = (source, none, target)

-- `Socket::close`: the socket, and the descriptor that is closed.
unfoldable pub close : Socket → Socket × Option ℕ
close s = (none, s)
