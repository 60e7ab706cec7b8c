-- ===== src/Net/Flush.antt =====
-- The loop `while (!writeBuf_.empty()) { ... writeBuf_.drain(n); }` of `Connection::handleWrite`
-- (DeepSeerLib/src/Net/Connection.cpp) and of `TlsConnection::doWrite`
-- (DeepSeerLib/src/Tls/TlsConnection.cpp). `send i d` is the answer of the operating system, or of
-- OpenSSL, to the i-th call of the loop, on the data `d` of the front slice.
use deep_seer.Base.{
  ℕ, zero, suc, ◌≤◌, ◌<◌, ◌≡◌, ◌≢◌, refl, ap, ◌∙◌, inl, inr, List, [], ◌∷◌, ◌++◌, length, take,
  drop, arith, All, All-drop, if◌then◌else◌, Bool-cases, append_assoc, length-drop,
  take-append-drop, take-append_left, ==_iff, length-append,
}
use deep_seer.Core.Buffer.{
  Bytes, Slice, Buffer, slice_data, active, drain, empty, linearize, bytes_of, is_empty,
}
use deep_seer.Core.Buffer.Slices.{IsValid, length-slice_data}
use deep_seer.Core.Buffer.Drains.{IsFilled}
use deep_seer.Core.Buffer.Laws.{IsWellFormed, linearize-drain, drain-IsWellFormed}
use deep_seer.Core.Buffer.Filled.{HasNoGap, drain-HasNoGap}

-- The answer to one call: so many bytes were taken, at least one, or none were, and why.
pub data Sent (W : Type 0) : Type 0 where
  took : ℕ → Sent W
  refused : W → Sent W

-- Why the loop ended: nothing was left, the front slice was empty, or the last call was refused.
-- `cut_off` is the end of the fuel, which the theorems exclude.
pub data Stop (W : Type 0) : Type 0 where
  finished gap cut_off : Stop W
  stopped : W → Stop W

pub record Flush (W : Type 0) : Type 0 where
  pub buffer : Buffer
  pub sent : Bytes
  pub stop : Stop W

module _ {W : Type 0} (send : ℕ → Bytes → Sent W) where
  -- What is done with the data of the front slice, where `rest` goes on with the loop.
  unfoldable pub flush_front : Bytes → Buffer → Bytes → Sent W → (ℕ → Bytes → Flush W) → Flush W
  flush_front d b out (took n) rest = rest n (take n d)
  flush_front d b out (refused w) rest = record { buffer = b; sent = out; stop = stopped w }

  unfoldable pub flush_slices : List Slice → ℕ → Buffer → Bytes → (ℕ → Bytes → Flush W) → Flush W
  unfolding flush_front
  flush_slices [] i b out rest = record { buffer = b; sent = out; stop = finished }
  flush_slices (s ∷ ss) i b out rest =
      if is_empty (slice_data s)
      then record { buffer = b; sent = out; stop = gap }
      else flush_front (slice_data s) b out (send i (slice_data s)) rest

  -- The loop from its `i`-th call on.
  unfoldable pub flush : ℕ → ℕ → Buffer → Bytes → Flush W
  unfolding flush_slices
  flush zero i b out = record { buffer = b; sent = out; stop = cut_off }
  flush (suc fuel) i b out =
      let rest = λ (n : ℕ) (d : Bytes). flush fuel (suc i) (drain n b) (out ++ d) in
      if empty b
      then record { buffer = b; sent = out; stop = finished }
      else flush_slices (active b) i b out rest

  -- A call takes no more than it was offered, and something.
  abbrev pub IsSend : Type 0
  IsSend = (i : ℕ) (d : Bytes) (n : ℕ) → send i d ≡ took n → (0 < n) × (n ≤ length d)

  -- A call that offered the front of what waits was refused, for this reason.
  abbrev pub IsAsked : Buffer → W → Type 0
  IsAsked b w =
      (i : ℕ) × (d : Bytes) × (rest : Bytes) × (send i d ≡ refused w) × (linearize b ≡ d ++ rest)

  -- Nothing is lost, repeated or reordered, and the loop ends by itself.
  pub record Flushed (b : Buffer) (out : Bytes) (f : Flush W) : Type 0 where
    pub conserved : f.sent ++ linearize f.buffer ≡ out ++ linearize b
    pub valid : IsWellFormed f.buffer
    pub filled : HasNoGap f.buffer
    pub all_sent : f.stop ≡ finished → f.buffer.total_length ≡ 0
    pub ended : f.stop ≢ cut_off
    pub no_gap : f.stop ≢ gap
    pub asked : (w : W) → f.stop ≡ stopped w → IsAsked f.buffer w

  Flushed-now :
      (b : Buffer) (out : Bytes) (w : Stop W)
      → IsWellFormed b
      → HasNoGap b
      → (w ≡ finished → b.total_length ≡ 0)
      → w ≢ cut_off
      → w ≢ gap
      → ((u : W) → w ≡ stopped u → IsAsked b u)
      → Flushed b out (record { buffer = b; sent = out; stop = w })
  Flushed-now b out w v g z e f a = record {
    conserved = refl;
    valid = v;
    filled = g;
    all_sent = z;
    ended = e;
    no_gap = f;
    asked = a;
  }

  Flushed-slices :
      (is_send : IsSend) (ss : List Slice) (i : ℕ) (b : Buffer) (out : Bytes)
      (rest : ℕ → Bytes → Flush W)
      → IsWellFormed b
      → HasNoGap b
      → All IsValid ss
      → All IsFilled ss
      → active b ≡ ss
      → b.total_length ≢ 0
      → ((n : ℕ) → 0 < n → n ≤ length (linearize b) → Flushed b out (rest n (take n (linearize b))))
      → Flushed b out (flush_slices ss i b out rest)
  unfolding flush_slices
  Flushed-slices is_send [] i b out rest v g sv sf a ne k =
      absurd (ne (v.total ∙ unfold linearize bytes_of in ap (λ x. length (bytes_of x)) a))
  Flushed-slices is_send (s ∷ ss) i b out rest v g sv sf a ne k = by_data (slice_data s) refl
    where
      front : linearize b ≡ slice_data s ++ bytes_of ss
      front = unfold linearize bytes_of in ap (λ x. bytes_of x) a

      by_answer :
          (r : Sent W)
          → send i (slice_data s) ≡ r
          → Flushed b out (flush_front (slice_data s) b out r rest)
      by_answer (took n) e =
          let (p, q) = is_send i (slice_data s) n e in
          let same : take n (linearize b) ≡ take n (slice_data s) =
            ap (take n) front ∙ take-append_left n (slice_data s) (bytes_of ss) q in
          rw (← same)
            (k n p (omega (arith, ap length front, length-append (slice_data s) (bytes_of ss))))
      by_answer (refused w) e =
          Flushed-now b out (stopped w) v g (λ h. cc) (λ h. cc) (λ h. cc)
            (λ u h. (i, slice_data s, bytes_of ss, (let k : w ≡ u = cc in cc), front))

      by_data :
          (d : Bytes)
          → slice_data s ≡ d
          → Flushed b out (
              if is_empty (slice_data s)
              then record { buffer = b; sent = out; stop = gap }
              else flush_front (slice_data s) b out (send i (slice_data s)) rest)
      by_data [] e = absurd (omega (arith, ap length e, length-slice_data s sv.0, sf.0))
      by_data (x ∷ d) e = rw (ap is_empty e) (by_answer (send i (slice_data s)) refl)

  Flushed-step :
      (n : ℕ) (b : Buffer) (out : Bytes) (f : Flush W)
      → IsWellFormed b
      → Flushed (drain n b) (out ++ take n (linearize b)) f
      → Flushed b out f
  Flushed-step n b out f v h = record {
    conserved =
        h.conserved
        ∙ ap (◌++◌ (out ++ take n (linearize b))) (linearize-drain n b v)
        ∙ append_assoc out (take n (linearize b)) (drop n (linearize b))
        ∙ ap (◌++◌ out) (take-append-drop n (linearize b));
    valid = h.valid;
    filled = h.filled;
    all_sent = h.all_sent;
    ended = h.ended;
    no_gap = h.no_gap;
    asked = h.asked;
  }

  -- With more fuel than there are bytes: each round sends one at least.
  pub flush-Flushed :
      (is_send : IsSend) (fuel i : ℕ) (b : Buffer) (out : Bytes)
      → IsWellFormed b
      → HasNoGap b
      → b.total_length < fuel
      → Flushed b out (flush fuel i b out)
  unfolding flush
  flush-Flushed is_send zero i b out v g h = absurd (omega arith)
  flush-Flushed is_send (suc fuel) i b out v g h = elim (Bool-cases (empty b)) [
    | inl e ↦ rw e (
        Flushed-now b out finished v g (λ _. (==_iff b.total_length 0).0 e) (λ h. cc) (λ h. cc)
          (λ u h. absurd cc))
    | inr e ↦ rw e (
        Flushed-slices is_send (active b) i b out (λ n d. flush fuel (suc i) (drain n b) (out ++ d))
          v g (All-drop IsValid b.front_slice b.slices v.slices_valid) g refl (ground arith)
          (λ n p q. Flushed-step n b out _ v (
            flush-Flushed is_send fuel (suc i) (drain n b) (out ++ take n (linearize b))
              (drain-IsWellFormed n b v) (drain-HasNoGap n b v g)
              (omega (
                arith,
                (drain-IsWellFormed n b v).total,
                ap length (linearize-drain n b v),
                length-drop n (linearize b),
                v.total,
              )))))
  ]
