-- ===== src/Net/Connection/Writes.antt =====
-- The writes of a connection as a byte stream (DeepSeerLib/src/Net/Connection.cpp).
use deep_seer.Base.{
  ◌+◌, Bool, true, ◌∷◌, ℕ, suc, ◌≤◌, ◌<◌, ◌≡◌, ◌≢◌, refl, sym, ap, ◌∙◌, ◌⊎◌, inl, inr, false, [],
  ◌++◌, Option, none, some, length, arith, if◌then◌else◌, if_true, if_false, Bool-cases,
  append_assoc, append-nil, ◌==◌,
}
use deep_seer.Core.Types.{Error, Expected, ok, unexpected}
use deep_seer.Core.Buffer.{Bytes, drain, empty, linearize}
use deep_seer.Core.Buffer.Laws.{IsWellFormed, linearize-drain, drain-IsWellFormed}
use deep_seer.Core.Buffer.Filled.{HasNoGap, drain-HasNoGap}
use deep_seer.Net.Flush.{took, Stop, finished, gap, cut_off, stopped, IsSend, flush, flush-Flushed}
use deep_seer.Net.Connection.{
  Connection, readable, writable, quiet, interest, update_events, close, classify, after_flush,
  handle_write, flush_now,
}

-- `send` takes no more than it is offered.
abbrev pub IsSocket : (ℕ → Bytes → Expected ℕ) → Type 0
IsSocket w = (i : ℕ) (d : Bytes) (n : ℕ) → w i d ≡ ok n → n ≤ length d

pub classify-took : (r : Expected ℕ) (n : ℕ) → classify r ≡ took n → (0 < n) × (r ≡ ok n)
unfolding classify
classify-took (ok m) n h = ground arith
classify-took (unexpected e) n h = absurd (ground arith)

pub IsSend-classify : (w : ℕ → Bytes → Expected ℕ) → IsSocket w → IsSend (λ i d. classify (w i d))
IsSend-classify w k i d n h = let (p, e) = classify-took (w i d) n h in (p, k i d n e)

-- What the event loop watches: the readable event, 1, if the owner reads, and the writable one, 2, if
-- bytes wait; nothing once closed or where neither holds. The arguments are whether it is closed,
-- whether the owner reads, and the bytes that wait.
abbrev pub expected_mask : Bool → Bool → Bytes → Option ℕ
expected_mask true reads waiting = none
expected_mask false false [] = none
expected_mask false true [] = some 1
expected_mask false false (b ∷ bs) = some 2
expected_mask false true (b ∷ bs) = some 3

abbrev pub Watches : Connection → Type 0
Watches c = c.watched ≡ expected_mask c.closed c.reading (linearize c.write_buf)

interest_mask :
    (reads : Bool) (waiting : Bytes) (n : ℕ)
    → n ≡ length waiting
    → let i = (if reads then readable else 0) + (if n == 0 then 0 else writable) in
      (if i == 0 then none else some i) ≡ expected_mask false reads waiting
interest_mask true [] n h = rw h refl
interest_mask false [] n h = rw h refl
interest_mask true (b ∷ bs) n h = ground (arith, h)
interest_mask false (b ∷ bs) n h = ground (arith, h)

expected_mask_lem :
    (c : Connection)
    → IsWellFormed c.write_buf
    → c.closed ≡ false
    → (if interest c == 0 then none else some (interest c))
      ≡ expected_mask c.closed c.reading (linearize c.write_buf)
expected_mask_lem c v o =
    interest_mask c.reading (linearize c.write_buf) c.write_buf.total_length v.total
    ∙ ap (λ b. expected_mask b c.reading (linearize c.write_buf)) (sym o)

-- The invariant of an open connection and of a closed one; `sent` is what the socket took so far and
-- `accepted` what was written while the connection was open.
pub record IsStream (c : Connection) (sent accepted : Bytes) : Type 0 where
  pub valid : IsWellFormed c.write_buf
  pub filled : HasNoGap c.write_buf
  pub stream : sent ++ linearize c.write_buf ≡ accepted
  pub watches : Watches c
  pub released : (c.closed ≡ false) ⊎ (c.fd ≡ none)

pub update_events-IsStream :
    (c : Connection) (sent accepted : Bytes)
    → IsWellFormed c.write_buf
    → HasNoGap c.write_buf
    → sent ++ linearize c.write_buf ≡ accepted
    → c.closed ≡ false
    → IsStream (update_events c) sent accepted
unfolding update_events
update_events-IsStream c sent accepted v g s o =
    rw (if_false c.closed _ _ o) (elim (Bool-cases (interest c == 0)) [
      | inl e ↦ rw (if_true (interest c == 0) _ _ e) (record {
        valid = v;
        filled = g;
        stream = s;
        watches =
            sym (if_true (interest c == 0) none (some (interest c)) e) ∙ expected_mask_lem c v o;
        released = inl o;
      })
      | inr e ↦ rw (if_false (interest c == 0) _ _ e) (record {
        valid = v;
        filled = g;
        stream = s;
        watches =
            sym (if_false (interest c == 0) none (some (interest c)) e) ∙ expected_mask_lem c v o;
        released = inl o;
      })
    ])

pub close-IsStream :
    (c : Connection) (sent accepted : Bytes)
    → IsWellFormed c.write_buf
    → HasNoGap c.write_buf
    → sent ++ linearize c.write_buf ≡ accepted
    → c.closed ≡ false
    → IsStream (close c) sent accepted
unfolding close
close-IsStream c sent accepted v g s o =
    rw (if_false c.closed _ _ o)
      (record { valid = v; filled = g; stream = s; watches = refl; released = inr refl })

pub after_flush-IsStream :
    (c : Connection) (out before accepted : Bytes) (w : Stop (Option Error))
    → IsWellFormed c.write_buf
    → HasNoGap c.write_buf
    → (before ++ out) ++ linearize c.write_buf ≡ accepted
    → c.closed ≡ false
    → w ≢ cut_off
    → IsStream (after_flush c out w).conn (before ++ (after_flush c out w).sent) accepted
unfolding after_flush
after_flush-IsStream c out before accepted finished v g s o k =
    update_events-IsStream c (before ++ out) accepted v g s o
after_flush-IsStream c out before accepted gap v g s o k =
    update_events-IsStream (record c { write_buf = drain 0 c.write_buf }) (before ++ out) accepted
      (drain-IsWellFormed 0 c.write_buf v) (drain-HasNoGap 0 c.write_buf v g)
      (ap (◌++◌ (before ++ out)) (linearize-drain 0 c.write_buf v) ∙ s) o
after_flush-IsStream c out before accepted cut_off v g s o k = absurd (k refl)
after_flush-IsStream c out before accepted (stopped none) v g s o k =
    update_events-IsStream c (before ++ out) accepted v g s o
after_flush-IsStream c out before accepted (stopped (some e)) v g s o k =
    close-IsStream c (before ++ out) accepted v g s o

module _ (w : ℕ → Bytes → Expected ℕ) (is_socket : IsSocket w) where
  pub handle_write-IsStream :
      (c : Connection) (before accepted : Bytes)
      → IsWellFormed c.write_buf
      → HasNoGap c.write_buf
      → before ++ linearize c.write_buf ≡ accepted
      → c.closed ≡ false
      → IsStream (handle_write w c).conn (before ++ (handle_write w c).sent) accepted
  unfolding handle_write
  handle_write-IsStream c before accepted v g s o =
      let f = flush (λ i d. classify (w i d)) (suc c.write_buf.total_length) 0 c.write_buf [] in
      let h =
        flush-Flushed (λ i d. classify (w i d)) (IsSend-classify w is_socket)
          (suc c.write_buf.total_length) 0 c.write_buf [] v g (omega arith) in
      rw
        (if_false c.closed (quiet c) (after_flush (record c { write_buf = f.buffer }) f.sent f.stop)
          o)
        (after_flush-IsStream (record c { write_buf = f.buffer }) f.sent before accepted f.stop
          h.valid h.filled
          (append_assoc before f.sent (linearize f.buffer) ∙ ap (◌++◌ before) h.conserved ∙ s) o
          h.ended)

  pub flush_now-IsStream :
      (c : Connection) (before accepted : Bytes)
      → IsWellFormed c.write_buf
      → HasNoGap c.write_buf
      → before ++ linearize c.write_buf ≡ accepted
      → c.closed ≡ false
      → IsStream (flush_now w c).conn (before ++ (flush_now w c).sent) accepted
  unfolding flush_now
  flush_now-IsStream c before accepted v g s o =
      let u = update_events-IsStream c before accepted v g s o in
      elim (Bool-cases (empty (update_events c).write_buf)) [
        | inl e ↦ rw e (rw append-nil u)
        | inr e ↦ rw e (
            handle_write-IsStream (update_events c) before accepted u.valid u.filled u.stream
              (unfold update_events in ground arith))
      ]
