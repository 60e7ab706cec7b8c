-- ===== src/Net/Tls/Stream.antt =====
-- A TLS connection's writes as a byte stream.
use deep_seer.Base.{
  Bool, ℕ, suc, ◌≤◌, ◌<◌, ◌≡◌, ◌≢◌, refl, sym, ap, ◌∙◌, inl, inr, true, false, [], ◌∷◌, ◌++◌,
  Option, none, some, length, arith, if◌then◌else◌, if_true, if_false, Bool-cases,
}
use deep_seer.Core.Buffer.{Bytes, add, linearize}
use deep_seer.Core.Buffer.Laws.{IsWellFormed, linearize-add, add-IsWellFormed}
use deep_seer.Core.Buffer.Filled.{HasNoGap, add-HasNoGap}
use deep_seer.Net.Flush.{
  refused, IsAsked, took, Stop, finished, gap, cut_off, stopped, IsSend, flush, flush-Flushed,
}
use deep_seer.Net.Tls.{
  TlsConnection, quiet, Want, want_read, want_write, Write, wrote, write_wants, write_failed,
  classify, want_mask, or_readable, watch_for_ssl, close, after_flush, do_write, write,
}

-- `SSL_write` takes no more than it is offered.
abbrev pub IsSsl : (ℕ → Bytes → Write) → Type 0
IsSsl w = (i : ℕ) (d : Bytes) (n : ℕ) → w i d ≡ wrote n → n ≤ length d

classify-took : (r : Write) (n : ℕ) → classify r ≡ took n → (0 < n) × (r ≡ wrote n)
unfolding classify
classify-took (wrote m) n h = ground arith
classify-took (write_wants w) n h = absurd (ground arith)
classify-took write_failed n h = absurd (ground arith)

IsSend-classify : (w : ℕ → Bytes → Write) → IsSsl w → IsSend (λ i d. classify (w i d))
IsSend-classify w k i d n h = let (p, e) = classify-took (w i d) n h in (p, k i d n e)

-- The mask for a wish of OpenSSL, where the owner reads or not: readable is 1, writable is 2.
abbrev pub mask_for : Want → Bool → ℕ
mask_for want_read reads = 1
mask_for want_write false = 2
mask_for want_write true = 3

-- After a write: the connection is closed with its descriptor given up, or all was sent, or OpenSSL
-- answered the offer of the front of what waits with a wish, and the loop watches for that, and for
-- reading too if the owner reads.
pub data Progress (ssl : ℕ → Bytes → Write) (c : TlsConnection) : Type 0 where
  shut : c.closed ≡ true → c.fd ≡ none → c.watched ≡ none → Progress ssl c
  done : linearize c.write_buf ≡ [] → Progress ssl c
  waits :
      (w : Want) (i : ℕ) (d rest : Bytes)
      → ssl i d ≡ write_wants w
      → linearize c.write_buf ≡ d ++ rest
      → c.watched ≡ some (mask_for w c.reading)
      → Progress ssl c

classify-refused : (r : Write) (w : Want) → classify r ≡ refused (some w) → r ≡ write_wants w
unfolding classify
classify-refused (wrote m) w h = absurd (ground arith)
classify-refused (write_wants u) w h = ground arith
classify-refused write_failed w h = absurd (ground arith)

mask_lem :
    (w : Want) (reads : Bool) → (if reads then or_readable w else want_mask w) ≡ mask_for w reads
mask_lem want_read true = refl
mask_lem want_read false = refl
mask_lem want_write true = refl
mask_lem want_write false = refl

nil_of_length : (s : Bytes) → length s ≡ 0 → s ≡ []
nil_of_length [] h = refl
nil_of_length (x ∷ s) h = absurd (omega arith)

after_flush_lem :
    (ssl : ℕ → Bytes → Write) (c : TlsConnection) (out : Bytes) (w : Stop (Option Want))
    → IsWellFormed c.write_buf
    → c.closed ≡ false
    → (w ≡ finished → c.write_buf.total_length ≡ 0)
    → w ≢ cut_off
    → w ≢ gap
    → ((u : Option Want) → w ≡ stopped u → IsAsked (λ i d. classify (ssl i d)) c.write_buf u)
    → ((after_flush c out w).sent ≡ out)
      × ((after_flush c out w).conn.write_buf ≡ c.write_buf)
      × Progress ssl (after_flush c out w).conn
unfolding after_flush watch_for_ssl
after_flush_lem ssl c out (stopped (some w)) v o z k g a =
    let (i, d, rest, e, l) = a (some w) refl in
    (
      refl,
      refl,
      waits w i d rest (classify-refused (ssl i d) w e) l (ap some (mask_lem w c.reading)),
    )
after_flush_lem ssl c out (stopped none) v o z k g a =
    unfold close in rw (if_false c.closed _ _ o) (refl, refl, shut refl refl refl)
after_flush_lem ssl c out cut_off v o z k g a = absurd (k refl)
after_flush_lem ssl c out gap v o z k g a = absurd (g refl)
after_flush_lem ssl c out finished v o z k g a =
    let nothing = nil_of_length (linearize c.write_buf) (sym v.total ∙ z refl) in
    elim (Bool-cases c.reading) [
      | inl e ↦ rw (if_true c.reading _ _ e) (refl, refl, done nothing)
      | inr e ↦ rw (if_false c.reading _ _ e) (refl, refl, done nothing)
    ]

-- A write on an open TLS connection with a well-formed write buffer without gaps loses, repeats and
-- reorders nothing, whatever OpenSSL answers within what it was offered:
-- what was sent, followed by what waits, is what waited before followed by the new bytes; and either
-- all was sent, or OpenSSL answered the offer of the front of what waits with a wish to read or write
-- and the loop watches for that, and for reading too if the owner reads, or the connection is shut.
pub tls_write_lem :
    (w : ℕ → Bytes → Write) (bs : Bytes) (c : TlsConnection)
    → IsSsl w
    → IsWellFormed c.write_buf
    → HasNoGap c.write_buf
    → c.closed ≡ false
    → ((write w bs c).sent ++ linearize (write w bs c).conn.write_buf ≡ linearize c.write_buf ++ bs)
      × Progress w (write w bs c).conn
unfolding write do_write
tls_write_lem w bs c k v g o =
    let b = add bs c.write_buf in
    let valid = add-IsWellFormed bs c.write_buf v in
    let f = flush (λ i d. classify (w i d)) (suc b.total_length) 0 b [] in
    let h =
      flush-Flushed (λ i d. classify (w i d)) (IsSend-classify w k) (suc b.total_length) 0 b []
        valid (add-HasNoGap bs c.write_buf v g) (omega arith) in
    let a =
      after_flush_lem w (record c { write_buf = f.buffer }) f.sent f.stop h.valid o h.all_sent
        h.ended h.no_gap h.asked in
    let ended = after_flush (record c { write_buf = f.buffer }) f.sent f.stop in
    rw (if_false c.closed (quiet c) _ o, if_false c.closed (quiet (record c { write_buf = b })) _ o)
      (
        ap (λ s. s ++ linearize ended.conn.write_buf) a.0
            ∙ ap (λ x. f.sent ++ linearize x) a.1
            ∙ h.conserved
            ∙ linearize-add bs c.write_buf v,
        a.2,
      )
