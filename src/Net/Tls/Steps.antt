-- ===== src/Net/Tls/Steps.antt =====
-- The handshake, the writes and the calls of the owner of a TLS connection, one step each
-- (DeepSeerLib/src/Tls/TlsConnection.cpp).
use deep_seer.Base.{
  ℕ, suc, ◌≡◌, refl, sym, subst, true, false, not, ◌||◌, List, [], ◌∷◌, Option, none, some, inl,
  inr, arith, if◌then◌else◌, if_true, if_false, Bool-cases,
}
use deep_seer.Core.Buffer.{Bytes, Buffer, add, move}
use deep_seer.Net.Connection.{readable}
use deep_seer.Net.Flush.{Stop, finished, gap, cut_off, stopped, flush}
use deep_seer.Net.Tls.{
  TlsConnection, handshake_complete, Outcome, quiet, Want, Handshake, handshake_ok, handshake_wants,
  handshake_failed, continue_handshake, start_read, Write, classify, do_write, write, write_buffer,
  watch_for_ssl, close, after_flush, OwnerCall, starts_read, closes, writes, passes, owner_call,
  owner_calls,
}
use deep_seer.Net.Tls.Tidy.{
  IsSane, IsTidy, quiet-IsTidy, openness-closed, openness-open, ended-IsTidy, told-IsTidy,
  both-IsTidy, watching-IsSane, guard-IsTidy,
}

reading-IsTidy :
    (c : TlsConnection)
    → IsSane c
    → c.closed ≡ false
    → IsTidy c [] (if c.reading then record c { watched = some readable } else c)
reading-IsTidy c s o = elim (Bool-cases c.reading) [
  | inl e ↦
      subst (IsTidy c []) (sym (if_true c.reading _ c e))
        (quiet-IsTidy c _ (watching-IsSane c (some readable) s o) (omega arith))
  | inr e ↦
      subst (IsTidy c []) (sym (if_false c.reading (record c { watched = some readable }) c e))
        (quiet-IsTidy c c s (omega arith))
]

pub handshake-IsTidy :
    (h : Handshake) (c : TlsConnection)
    → IsSane c
    → IsTidy c (continue_handshake h c).events (continue_handshake h c).conn
unfolding continue_handshake watch_for_ssl
handshake-IsTidy handshake_ok c s = guard-IsTidy c _ s (λ o.
    told-IsTidy c _ handshake_complete (record { owned = s.owned; unwatched = s.unwatched }) o refl)
handshake-IsTidy (handshake_wants w) c s =
    guard-IsTidy c _ s (λ o. quiet-IsTidy c _ (watching-IsSane c _ s o) (omega arith))
handshake-IsTidy (handshake_failed m) c s = guard-IsTidy c _ s (λ o. ended-IsTidy c _ o refl)

after_flush-IsTidy :
    (c : TlsConnection) (out : Bytes) (w : Stop (Option Want))
    → IsSane c
    → c.closed ≡ false
    → IsTidy c (after_flush c out w).events (after_flush c out w).conn
unfolding after_flush watch_for_ssl
after_flush-IsTidy c out (stopped (some w)) s o =
    quiet-IsTidy c _ (watching-IsSane c _ s o) (omega arith)
after_flush-IsTidy c out (stopped none) s o = ended-IsTidy c _ o refl
after_flush-IsTidy c out cut_off s o = quiet-IsTidy c c s (omega arith)
after_flush-IsTidy c out finished s o = reading-IsTidy c s o
after_flush-IsTidy c out gap s o = reading-IsTidy c s o

pub do_write-IsTidy :
    (w : ℕ → Bytes → Write) (c : TlsConnection)
    → IsSane c
    → IsTidy c (do_write w c).events (do_write w c).conn
unfolding do_write
do_write-IsTidy w c s =
    let f = flush (λ i d. classify (w i d)) (suc c.write_buf.total_length) 0 c.write_buf [] in
    guard-IsTidy c _ s (λ o.
      let d : TlsConnection = record c { write_buf = f.buffer } in
      let t =
        after_flush-IsTidy d f.sent f.stop (record { owned = s.owned; unwatched = s.unwatched })
          o in
      record { sane = t.sane; silent = t.silent; single = t.single; last = t.last })

start_read-IsTidy : (c : TlsConnection) → IsSane c → IsTidy c [] (start_read c)
unfolding start_read
start_read-IsTidy c s =
    let waiting = c.closed || not c.handshake_done in
    let started : TlsConnection = record c { reading = true; watched = some readable } in
    elim (Bool-cases waiting) [
      | inl e ↦
          subst (IsTidy c []) (sym (if_true waiting c started e)) (quiet-IsTidy c c s (omega arith))
      | inr e ↦
          let o : c.closed ≡ false = ground (arith, e) in
          subst (IsTidy c []) (sym (if_false waiting c started e)) (
            quiet-IsTidy c started
              (record {
                owned = s.owned;
                unwatched = λ h. absurd (omega (arith, openness-closed c h, openness-open c o));
              })
              (omega arith))
    ]

pub close-IsTidy : (c : TlsConnection) → IsSane c → IsTidy c [] (close c)
unfolding close
close-IsTidy c s =
    let shut : TlsConnection = record c { closed = true; watched = none; fd = none } in
    elim (Bool-cases c.closed) [
      | inl o ↦
          subst (IsTidy c []) (sym (if_true c.closed c shut o)) (quiet-IsTidy c c s (omega arith))
      | inr o ↦
          subst (IsTidy c []) (sym (if_false c.closed c shut o))
            (quiet-IsTidy c shut (record { owned = refl; unwatched = λ h. refl }) (omega arith))
    ]

-- A write, where the buffer is replaced first.
filled-IsTidy :
    (w : ℕ → Bytes → Write) (b : Buffer) (c : TlsConnection)
    → IsSane c
    → IsTidy c
        (do_write w (record c { write_buf = b })).events
        (do_write w (record c { write_buf = b })).conn
filled-IsTidy w b c s =
    let t =
      do_write-IsTidy w (record c { write_buf = b })
        (record { owned = s.owned; unwatched = s.unwatched }) in
    record { sane = t.sane; silent = t.silent; single = t.single; last = t.last }

pub owner_call-IsTidy :
    (k : OwnerCall) (c : TlsConnection)
    → IsSane c
    → IsTidy c (owner_call k c).events (owner_call k c).conn
unfolding write write_buffer
owner_call-IsTidy starts_read c s = start_read-IsTidy c s
owner_call-IsTidy closes c s = close-IsTidy c s
owner_call-IsTidy (writes w bs) c s =
    guard-IsTidy c _ s (λ o. filled-IsTidy w (add bs c.write_buf) c s)
owner_call-IsTidy (passes w b) c s =
    let moved = move c.write_buf b in
    let open_case : Outcome × Buffer = (do_write w (record c { write_buf = moved.0 }), moved.1) in
    elim (Bool-cases c.closed) [
      | inl o ↦
          subst (λ (x : Outcome × Buffer). IsTidy c x.0.events x.0.conn)
            (sym (if_true c.closed (quiet c, b) open_case o)) (quiet-IsTidy c c s (omega arith))
      | inr o ↦
          subst (λ (x : Outcome × Buffer). IsTidy c x.0.events x.0.conn)
            (sym (if_false c.closed (quiet c, b) open_case o)) (filled-IsTidy w moved.0 c s)
    ]

pub owner_calls-IsTidy :
    (ks : List OwnerCall) (c : TlsConnection)
    → IsSane c
    → IsTidy c (owner_calls ks c).events (owner_calls ks c).conn
unfolding owner_calls
owner_calls-IsTidy [] c s = quiet-IsTidy c c s (omega arith)
owner_calls-IsTidy (k ∷ ks) c s =
    let t = owner_call-IsTidy k c s in
    both-IsTidy c (owner_call k c).conn _ _ _ t (owner_calls-IsTidy ks (owner_call k c).conn t.sane)
