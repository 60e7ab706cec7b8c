-- ===== src/Net/Tls.antt =====
-- DeepSeerLib/src/Tls/TlsConnection.cpp and DeepSeerLib/include/DeepSeer/Tls/TlsConnection.hpp.
-- OpenSSL is not part of the repository: its answers to `SSL_do_handshake`, `SSL_read` and
-- `SSL_write`, as `SSL_get_error` tells them apart, are arguments.
pub mod Stream
pub mod Tidy
pub mod Steps
pub mod Lifecycle
use deep_seer.Base.{
  ℕ, zero, suc, ◌+◌, ◌≡◌, Bool, true, false, ◌||◌, not, List, [], ◌∷◌, ◌++◌, Option, none, some,
  if◌then◌else◌, ◌==◌, codes,
}
use deep_seer.Core.Types.{Error, read_error, write_error, tls_handshake_failed}
use deep_seer.Core.Buffer.{Bytes, Buffer, empty_buffer, add, move, empty}
use deep_seer.Net.Flush.{Sent, took, refused, Stop, finished, gap, cut_off, stopped, Flush, flush}
use deep_seer.Net.Connection.{Note, data_note, close_note, error_note, readable, writable}

pub record TlsConnection : Type 0 where
  pub fd : Option ℕ
  pub is_server : Bool
  pub handshake_done : Bool
  pub reading : Bool
  pub closed : Bool
  pub write_buf : Buffer
  pub watched : Option ℕ

-- `TlsConnection::TlsConnection`.
abbrev pub make_tls : ℕ → Bool → TlsConnection
make_tls fd server = record {
  fd = some fd;
  is_server = server;
  handshake_done = false;
  reading = false;
  closed = false;
  write_buf = empty_buffer;
  watched = none;
}

-- What OpenSSL asks for before the call is repeated.
pub data Want : Type 0 where
  want_read want_write : Want

-- The error handlers of a handshake, and the callbacks of the open connection.
pub data Event : Type 0 where
  handshake_complete : Event
  handshake_error : Error → Event
  note : Note → Event

pub record Outcome : Type 0 where
  pub conn : TlsConnection
  pub sent : Bytes
  pub events : List Event

abbrev pub quiet : TlsConnection → Outcome
quiet c = record { conn = c; sent = []; events = [] }

-- `TlsConnection::close`.
unfoldable pub close : TlsConnection → TlsConnection
close c = if c.closed then c else record c { closed = true; watched = none; fd = none }

abbrev pub want_mask : Want → ℕ
want_mask want_read = readable
want_mask want_write = writable

-- `events |= readable`, on the masks that `watchForSsl` meets.
abbrev pub or_readable : Want → ℕ
or_readable want_read = readable
or_readable want_write = readable + writable

-- `TlsConnection::watchForSsl`.
unfoldable pub watch_for_ssl : Want → TlsConnection → TlsConnection
watch_for_ssl w c = record c { watched = some (if c.reading then or_readable w else want_mask w) }

-- The answers of `SSL_do_handshake`.
pub data Handshake : Type 0 where
  handshake_ok : Handshake
  handshake_wants : Want → Handshake
  handshake_failed : Bytes → Handshake

-- `TlsConnection::continueHandshake`.
unfoldable pub continue_handshake : Handshake → TlsConnection → Outcome
unfolding close watch_for_ssl
continue_handshake h c = if c.closed then quiet c else elim h [
  | handshake_ok ↦ record {
    conn = record c { handshake_done = true };
    sent = [];
    events = handshake_complete ∷ [];
  }
  | handshake_wants w ↦ quiet (watch_for_ssl w c)
  | handshake_failed m ↦ record {
    conn = close c;
    sent = [];
    events = handshake_error (record { code = tls_handshake_failed; message = m }) ∷ [];
  }
]

-- `TlsConnection::startRead`.
unfoldable pub start_read : TlsConnection → TlsConnection
start_read c =
    if c.closed || not c.handshake_done
    then c
    else record c { reading = true; watched = some readable }

-- The answers of `SSL_write`: so many bytes, a want, or an error.
pub data Write : Type 0 where
  wrote : ℕ → Write
  write_wants : Want → Write
  write_failed : Write

-- Why `doWrite` stops: a want, or an error (none).
unfoldable pub classify : Write → Sent (Option Want)
classify (wrote n) = if n == 0 then refused none else took n
classify (write_wants w) = refused (some w)
classify write_failed = refused none

-- The end of `doWrite`.
unfoldable pub after_flush : TlsConnection → Bytes → Stop (Option Want) → Outcome
unfolding close watch_for_ssl
after_flush c out (stopped (some w)) = record { conn = watch_for_ssl w c; sent = out; events = [] }
after_flush c out (stopped none) = record {
  conn = close c;
  sent = out;
  events =
      note (error_note (record { code = write_error; message = codes "SSL_write error" })) ∷ [];
}
after_flush c out cut_off = record { conn = c; sent = out; events = [] }
after_flush c out finished = record {
  conn = if c.reading then record c { watched = some readable } else c;
  sent = out;
  events = [];
}
after_flush c out gap = record {
  conn = if c.reading then record c { watched = some readable } else c;
  sent = out;
  events = [];
}

module _ (ssl_write : ℕ → Bytes → Write) where
  -- `TlsConnection::doWrite`.
  unfoldable pub do_write : TlsConnection → Outcome
  do_write c =
      let f =
        flush (λ i d. classify (ssl_write i d)) (suc c.write_buf.total_length) 0 c.write_buf [] in
      if c.closed then quiet c else after_flush (record c { write_buf = f.buffer }) f.sent f.stop

  -- `TlsConnection::write(std::string_view)` and `TlsConnection::write(Buffer&)`.
  unfoldable pub write : Bytes → TlsConnection → Outcome
  write bs c = if c.closed then quiet c else do_write (record c { write_buf = add bs c.write_buf })

  unfoldable pub write_buffer : Buffer → TlsConnection → Outcome × Buffer
  write_buffer b c =
      let moved = move c.write_buf b in
      if c.closed then (quiet c, b) else (do_write (record c { write_buf = moved.0 }), moved.1)

-- What the owner calls, also in its callback for data.
pub data OwnerCall : Type 0 where
  starts_read closes : OwnerCall
  writes : (ℕ → Bytes → Write) → Bytes → OwnerCall
  passes : (ℕ → Bytes → Write) → Buffer → OwnerCall

abbrev pub owner_call : OwnerCall → TlsConnection → Outcome
owner_call starts_read c = quiet (start_read c)
owner_call closes c = quiet (close c)
owner_call (writes w bs) c = write w bs c
owner_call (passes w b) c = (write_buffer w b c).0

unfoldable pub owner_calls : List OwnerCall → TlsConnection → Outcome
owner_calls [] c = quiet c
owner_calls (k ∷ ks) c =
    let o = owner_call k c in
    let rest = owner_calls ks o.conn in
    record { conn = rest.conn; sent = o.sent ++ rest.sent; events = o.events ++ rest.events }

-- The answers of `SSL_read`, data with what the owner calls in `onData_`; `read_end` is
-- `SSL_ERROR_ZERO_RETURN` or `SSL_ERROR_SYSCALL`.
pub data Read : Type 0 where
  read_bytes : Bytes → List OwnerCall → Read
  read_wants_read read_end read_failed : Read

-- The loop of `TlsConnection::doRead`, over the answers until one is no data. It does not look again
-- whether the connection is closed.
unfoldable pub read_loop : List Read → TlsConnection → Outcome
unfolding owner_calls
read_loop [] c = quiet c
read_loop (read_bytes bs ks ∷ rs) c =
    let o = owner_calls ks c in
    let rest = read_loop rs o.conn in
    record {
      conn = rest.conn;
      sent = o.sent ++ rest.sent;
      events = note (data_note (add bs empty_buffer)) ∷ (o.events ++ rest.events);
    }
read_loop (read_wants_read ∷ rs) c = quiet c
read_loop (read_end ∷ rs) c = record { conn = close c; sent = []; events = note close_note ∷ [] }
read_loop (read_failed ∷ rs) c = record {
  conn = close c;
  sent = [];
  events = note (error_note (record { code = read_error; message = codes "SSL_read error" })) ∷ [];
}

-- `TlsConnection::doRead`.
unfoldable pub do_read : List Read → TlsConnection → Outcome
unfolding read_loop
do_read rs c = if c.closed then quiet c else read_loop rs c

-- `TlsConnection::handleIo`.
unfoldable pub handle_io : Handshake → List Read → (ℕ → Bytes → Write) → TlsConnection → Outcome
unfolding continue_handshake do_read do_write
handle_io h rs w c =
    let r = if c.reading then do_read rs c else quiet c in
    let s = if empty r.conn.write_buf then quiet r.conn else do_write w r.conn in
    if c.closed
    then quiet c
    else if not c.handshake_done
    then continue_handshake h c
    else record { conn = s.conn; sent = r.sent ++ s.sent; events = r.events ++ s.events }
