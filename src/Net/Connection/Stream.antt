-- ===== src/Net/Connection/Stream.antt =====
-- A connection as a byte stream, over any sequence of calls and events.
use deep_seer.Base.{
  ℕ, ◌≡◌, refl, sym, ap, ◌∙◌, inl, inr, true, false, List, [], ◌∷◌, ◌++◌, if◌then◌else◌, if_true,
  if_false, Bool-cases, append_assoc, append-nil,
}
use deep_seer.Core.Types.{Expected}
use deep_seer.Core.Buffer.{
  Bytes, Buffer, empty_buffer, add, move, linearize, bytes_of, commit, reserve, default_capacity,
}
use deep_seer.Core.Buffer.Laws.{
  IsWellFormed, linearize-add, add-IsWellFormed, linearize-move, move-IsWellFormed,
  empty-IsWellFormed,
}
use deep_seer.Core.Buffer.Filled.{HasNoGap, add-HasNoGap, move-HasNoGap}
use deep_seer.Net.Connection.{
  Connection, make_connection, Outcome, quiet, Received, recv_failed, recv_again, recv_end,
  recv_bytes, start_read, stop_read, close, release_socket, data_note, close_note, error_note,
  handle_write, flush_now, write, write_buffer, handle_read,
}
use deep_seer.Net.Connection.Writes.{
  IsSocket, IsStream, update_events-IsStream, close-IsStream, handle_write-IsStream,
  flush_now-IsStream,
}

-- The calls of the owner and the events of the loop, each write with the socket's answers.
pub data Act : Type 0 where
  reads stops : Act
  writes : (ℕ → Bytes → Expected ℕ) → Bytes → Act
  writes_buffer : (ℕ → Bytes → Expected ℕ) → Buffer → Act
  on_writable : (ℕ → Bytes → Expected ℕ) → Act
  on_readable : Received → Act
  closes releases : Act

unfoldable pub step : Act → Connection → Outcome
step reads c = quiet (start_read c)
step stops c = quiet (stop_read c)
step (writes w bs) c = write w bs c
step (writes_buffer w b) c = (write_buffer w b c).0
step (on_writable w) c = handle_write w c
step (on_readable r) c = handle_read r c
step closes c = quiet (close c)
step releases c = quiet (release_socket c).0

-- What an act writes, while the connection is open.
abbrev pub written : Act → Connection → Bytes
written (writes w bs) c = if c.closed then [] else bs
written (writes_buffer w b) c = if c.closed then [] else linearize b
written _ c = []

-- The socket takes no more than it is offered, and a buffer that is written has no gap.
abbrev pub IsAllowed : Act → Type 0
IsAllowed (writes w bs) = IsSocket w
IsAllowed (writes_buffer w b) = IsSocket w × IsWellFormed b × HasNoGap b
IsAllowed (on_writable w) = IsSocket w
IsAllowed _ = Unit

-- All bytes sent, all bytes written, and the connection at the end.
unfoldable pub run : List Act → Connection → Bytes → Bytes → Connection × Bytes × Bytes
unfolding step
run [] c sent accepted = (c, sent, accepted)
run (a ∷ acts) c sent accepted =
    let o = step a c in run acts o.conn (sent ++ o.sent) (accepted ++ written a c)

abbrev pub AreAllowed : List Act → Type 0
AreAllowed [] = Unit
AreAllowed (a ∷ acts) = IsAllowed a × AreAllowed acts

IsStream-none :
    (c : Connection) (sent accepted : Bytes)
    → IsStream c sent accepted
    → IsStream c (sent ++ []) (accepted ++ [])
IsStream-none c sent accepted h = simp append-nil h

read-IsStream :
    (r : Received) (c : Connection) (sent accepted : Bytes)
    → IsStream c sent accepted
    → IsStream (handle_read r c).conn (sent ++ (handle_read r c).sent) (accepted ++ [])
unfolding handle_read
read-IsStream r c sent accepted h = elim (Bool-cases c.closed) [
  | inl e ↦ rw (if_true c.closed _ _ e) (IsStream-none c sent accepted h)
  | inr e ↦ rw (if_false c.closed _ _ e) (answered r e)
]
  where
    n : IsStream c (sent ++ []) (accepted ++ [])
    n = IsStream-none c sent accepted h

    answered :
        (q : Received)
        → c.closed ≡ false
        → let o : Outcome = elim q [
          | recv_failed f ↦ record { conn = close c; sent = []; notes = error_note f ∷ [] }
          | recv_again ↦ quiet c
          | recv_end ↦ record { conn = close c; sent = []; notes = close_note ∷ [] }
          | recv_bytes bs ↦ record {
            conn = c;
            sent = [];
            notes = data_note (commit bs (reserve default_capacity empty_buffer).0) ∷ [];
          }
        ] in
          IsStream o.conn (sent ++ o.sent) (accepted ++ [])
    answered (recv_failed f) e = close-IsStream c _ _ n.valid n.filled n.stream e
    answered recv_again e = n
    answered recv_end e = close-IsStream c _ _ n.valid n.filled n.stream e
    answered (recv_bytes bs) e = n

write_buffer-closed :
    (w : ℕ → Bytes → Expected ℕ) (b : Buffer) (c : Connection)
    → c.closed ≡ true
    → (write_buffer w b c).0 ≡ quiet c
unfolding write_buffer
write_buffer-closed w b c e =
    ap (λ p. p.0) (if_true {A = Outcome × Buffer} c.closed (quiet c, b) _ e)

write_buffer-open :
    (w : ℕ → Bytes → Expected ℕ) (b : Buffer) (c : Connection)
    → c.closed ≡ false
    → (write_buffer w b c).0 ≡ flush_now w (record c { write_buf = (move c.write_buf b).0 })
unfolding write_buffer
write_buffer-open w b c e =
    ap (λ p. p.0) (if_false {A = Outcome × Buffer} c.closed (quiet c, b) _ e)

-- One act keeps the invariant.
step-IsStream :
    (a : Act) (c : Connection) (sent accepted : Bytes)
    → IsStream c sent accepted
    → IsAllowed a
    → IsStream (step a c).conn (sent ++ (step a c).sent) (accepted ++ written a c)
unfolding step start_read stop_read write
step-IsStream reads c sent accepted h k =
    let n = IsStream-none c sent accepted h in
    elim (Bool-cases c.closed) [
      | inl e ↦ rw (if_true c.closed _ _ e) n
      | inr e ↦
          rw (if_false c.closed _ _ e)
            (update_events-IsStream (record c { reading = true }) _ _ n.valid n.filled n.stream e)
    ]
step-IsStream stops c sent accepted h k =
    let n = IsStream-none c sent accepted h in
    elim (Bool-cases c.closed) [
      | inl e ↦ rw (if_true c.closed _ _ e) n
      | inr e ↦
          rw (if_false c.closed _ _ e)
            (update_events-IsStream (record c { reading = false }) _ _ n.valid n.filled n.stream e)
    ]
step-IsStream (writes w bs) c sent accepted h k = elim (Bool-cases c.closed) [
  | inl e ↦
      rw (if_true c.closed (quiet c) _ e, if_true c.closed [] bs e)
        (IsStream-none c sent accepted h)
  | inr e ↦
      rw (if_false c.closed (quiet c) _ e, if_false c.closed [] bs e)
        (flush_now-IsStream w k (record c { write_buf = add bs c.write_buf }) sent (accepted ++ bs)
          (add-IsWellFormed bs c.write_buf h.valid) (add-HasNoGap bs c.write_buf h.valid h.filled)
          (ap (◌++◌ sent) (linearize-add bs c.write_buf h.valid)
            ∙ sym (append_assoc sent (linearize c.write_buf) bs)
            ∙ ap (λ d. d ++ bs) h.stream)
          e)
]
step-IsStream (writes_buffer w b) c sent accepted h k = elim (Bool-cases c.closed) [
  | inl e ↦
      rw (write_buffer-closed w b c e, if_true c.closed [] (linearize b) e)
        (IsStream-none c sent accepted h)
  | inr e ↦
      rw (write_buffer-open w b c e, if_false c.closed [] (linearize b) e)
        (flush_now-IsStream w k.0 (record c { write_buf = (move c.write_buf b).0 }) sent
          (accepted ++ linearize b) (move-IsWellFormed c.write_buf b h.valid k.1)
          (move-HasNoGap c.write_buf b h.filled k.2)
          (ap (◌++◌ sent) (linearize-move c.write_buf b h.valid)
            ∙ sym (append_assoc sent (linearize c.write_buf) (linearize b))
            ∙ ap (λ d. d ++ linearize b) h.stream)
          e)
]
step-IsStream (on_writable w) c sent accepted h k = elim (Bool-cases c.closed) [
  | inl e ↦
      unfold handle_write in rw (if_true c.closed (quiet c) _ e) (IsStream-none c sent accepted h)
  | inr e ↦ rw append-nil (handle_write-IsStream w k c sent accepted h.valid h.filled h.stream e)
]
step-IsStream (on_readable r) c sent accepted h k = read-IsStream r c sent accepted h
step-IsStream closes c sent accepted h k =
    let n = IsStream-none c sent accepted h in
    elim (Bool-cases c.closed) [
      | inl e ↦ unfold close in rw (if_true c.closed _ _ e) n
      | inr e ↦ close-IsStream c _ _ n.valid n.filled n.stream e
    ]
step-IsStream releases c sent accepted h k =
    let n = IsStream-none c sent accepted h in
    unfold release_socket in
    record {
      valid = n.valid;
      filled = n.filled;
      stream = n.stream;
      watches = refl;
      released = inr refl;
    }

fresh-IsStream : (fd : ℕ) → IsStream (make_connection fd) [] []
unfolding linearize
fresh-IsStream fd = record {
  valid = empty-IsWellFormed;
  filled = tt;
  stream = unfold bytes_of in refl;
  watches = unfold bytes_of in refl;
  released = inl refl;
}

run-IsStream :
    (acts : List Act) (c : Connection) (sent accepted : Bytes)
    → IsStream c sent accepted
    → AreAllowed acts
    → let (d, out, all) = run acts c sent accepted in IsStream d out all
unfolding run
run-IsStream [] c sent accepted h k = h
run-IsStream (a ∷ acts) c sent accepted h k =
    run-IsStream acts (step a c).conn (sent ++ (step a c).sent) (accepted ++ written a c)
      (step-IsStream a c sent accepted h k.0) k.1

-- After any sequence of calls and events on a new connection, where every buffer that is written is
-- well formed and has no gap, whatever the socket answers within what it was offered: the bytes sent,
-- followed by those that wait in the write buffer, are exactly the bytes written while the connection
-- was open, in order; the loop watches it for reading if it reads and for writing if bytes wait, and
-- not at all if neither holds or it is closed; and a closed connection has given its descriptor up.
pub connection-IsStream :
    (fd : ℕ) (acts : List Act)
    → AreAllowed acts
    → let (c, sent, accepted) = run acts (make_connection fd) [] [] in IsStream c sent accepted
connection-IsStream fd acts k = run-IsStream acts (make_connection fd) [] [] (fresh-IsStream fd) k
