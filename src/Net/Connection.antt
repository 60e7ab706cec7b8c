-- ===== src/Net/Connection.antt =====
-- DeepSeerLib/src/Net/Connection.cpp and DeepSeerLib/include/DeepSeer/Net/Connection.hpp. The state
-- holds the registration that the connection has with its event loop; the answers of the socket are
-- arguments. What a callback of the owner does is a step of its own, after the one that calls it.
pub mod Writes
pub mod Stream
use deep_seer.Base.{
  ℕ, zero, suc, ◌+◌, ◌≡◌, Bool, true, false, List, [], ◌∷◌, ◌++◌, Option, none, some, if◌then◌else◌,
  ◌==◌,
}
use deep_seer.Core.Types.{Error, Expected, ok, unexpected}
use deep_seer.Core.Buffer.{
  Bytes, Buffer, empty_buffer, add, reserve, commit, drain, move, empty, default_capacity,
}
use deep_seer.Net.Flush.{Sent, took, refused, Stop, finished, gap, cut_off, stopped, Flush, flush}

pub record Connection : Type 0 where
  pub fd : Option ℕ
  pub closed : Bool
  pub reading : Bool
  pub write_buf : Buffer
  -- The mask under which the loop watches the descriptor.
  pub watched : Option ℕ

-- `Connection::Connection`.
abbrev pub make_connection : ℕ → Connection
make_connection fd = record {
  fd = some fd;
  closed = false;
  reading = false;
  write_buf = empty_buffer;
  watched = none;
}

-- Calls of `onData_`, `onClose_` and `onError_`.
pub data Note : Type 0 where
  data_note : Buffer → Note
  close_note : Note
  error_note : Error → Note

-- The new state, what the socket took, and the callbacks called.
pub record Outcome : Type 0 where
  pub conn : Connection
  pub sent : Bytes
  pub notes : List Note

abbrev pub quiet : Connection → Outcome
quiet c = record { conn = c; sent = []; notes = [] }

-- `IoEvent::Readable` and `IoEvent::Writable`.
abbrev pub readable : ℕ
readable = 1

abbrev pub writable : ℕ
writable = 2

-- The events that the connection is interested in.
abbrev pub interest : Connection → ℕ
interest c = (if c.reading then readable else 0) + (if empty c.write_buf then 0 else writable)

-- `Connection::updateEvents`.
unfoldable pub update_events : Connection → Connection
update_events c =
    if c.closed
    then c
    else if interest c == 0
    then record c { watched = none }
    else record c { watched = some (interest c) }

-- `Connection::startRead` and `Connection::stopRead`.
unfoldable pub start_read : Connection → Connection
unfolding update_events
start_read c = if c.closed then c else update_events (record c { reading = true })

unfoldable pub stop_read : Connection → Connection
unfolding update_events
stop_read c = if c.closed then c else update_events (record c { reading = false })

-- `Connection::close`.
unfoldable pub close : Connection → Connection
close c = if c.closed then c else record c { watched = none; fd = none; closed = true }

-- `Connection::releaseSocket`: the connection and the descriptor.
unfoldable pub release_socket : Connection → Connection × Option ℕ
release_socket c = (record c { watched = none; closed = true; fd = none }, c.fd)

-- The result of `Socket::write` as the loop of `handleWrite` reads it: 0 is a refusal.
unfoldable pub classify : Expected ℕ → Sent (Option Error)
classify (ok n) = if n == 0 then refused none else took n
classify (unexpected e) = refused (some e)

-- What `handleWrite` does when its loop has ended.
unfoldable pub after_flush : Connection → Bytes → Stop (Option Error) → Outcome
unfolding update_events close
after_flush c out finished = record { conn = update_events c; sent = out; notes = [] }
after_flush c out gap = record {
  conn = update_events (record c { write_buf = drain 0 c.write_buf });
  sent = out;
  notes = [];
}
after_flush c out cut_off = record { conn = c; sent = out; notes = [] }
after_flush c out (stopped none) = record { conn = update_events c; sent = out; notes = [] }
after_flush c out (stopped (some e)) = record {
  conn = close c;
  sent = out;
  notes = error_note e ∷ [];
}

module _ (socket_write : ℕ → Bytes → Expected ℕ) where
  -- `Connection::handleWrite`.
  unfoldable pub handle_write : Connection → Outcome
  handle_write c =
      let f =
        flush (λ i d. classify (socket_write i d)) (suc c.write_buf.total_length) 0 c.write_buf
          [] in
      if c.closed then quiet c else after_flush (record c { write_buf = f.buffer }) f.sent f.stop

  -- The immediate flush at the end of both `write` overloads.
  unfoldable pub flush_now : Connection → Outcome
  unfolding handle_write update_events
  flush_now c = let c' = update_events c in if empty c'.write_buf then quiet c' else handle_write c'

  -- `Connection::write(std::string_view)`.
  unfoldable pub write : Bytes → Connection → Outcome
  unfolding flush_now
  write bs c = if c.closed then quiet c else flush_now (record c { write_buf = add bs c.write_buf })

  -- `Connection::write(Buffer&)`: the outcome, and what is left in the caller's buffer.
  unfoldable pub write_buffer : Buffer → Connection → Outcome × Buffer
  unfolding flush_now
  write_buffer b c =
      let moved = move c.write_buf b in
      if c.closed then (quiet c, b) else (flush_now (record c { write_buf = moved.0 }), moved.1)

-- The results of `Socket::read`: an error, nothing now, the end, or bytes.
pub data Received : Type 0 where
  recv_failed : Error → Received
  recv_again : Received
  recv_end : Received
  recv_bytes : Bytes → Received

-- `Connection::handleRead`.
unfoldable pub handle_read : Received → Connection → Outcome
unfolding close
handle_read r c = if c.closed then quiet c else elim r [
  | recv_failed e ↦ record { conn = close c; sent = []; notes = error_note e ∷ [] }
  | recv_again ↦ quiet c
  | recv_end ↦ record { conn = close c; sent = []; notes = close_note ∷ [] }
  | recv_bytes bs ↦ record {
    conn = c;
    sent = [];
    notes = data_note (commit bs (reserve default_capacity empty_buffer).0) ∷ [];
  }
]
