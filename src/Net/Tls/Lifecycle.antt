-- ===== src/Net/Tls/Lifecycle.antt =====
-- The life of a TLS connection (DeepSeerLib/src/Tls/TlsConnection.cpp): its ends, and what follows.
use deep_seer.Base.{
  ℕ, ◌+◌, ◌≤◌, ◌≡◌, refl, ap, Bool, true, false, not, ◌&&◌, List, [], ◌∷◌, ◌++◌, inl, inr, arith,
  if◌then◌else◌, Bool-cases,
}
use deep_seer.Core.Buffer.{Bytes, add, empty, empty_buffer}
use deep_seer.Net.Connection.{data_note}
use deep_seer.Net.Tls.{
  TlsConnection, make_tls, Event, note, Outcome, quiet, Handshake, continue_handshake, Write, Read,
  read_bytes, read_wants_read, read_end, read_failed, do_read, do_write, handle_io, read_loop,
  OwnerCall, owner_call, owner_calls,
}
use deep_seer.Net.Tls.Tidy.{
  terminals, followers, owns_fd, watches, IsSane, openness, IsTidy, quiet-IsTidy, ended-IsTidy,
  told-IsTidy, both-IsTidy, guard-IsTidy,
}
use deep_seer.Net.Tls.Steps.{
  handshake-IsTidy, do_write-IsTidy, close-IsTidy, owner_call-IsTidy, owner_calls-IsTidy,
}

-- What the owner calls in its callbacks for these data leaves an open connection open.
abbrev pub StaysOpen : List Read → TlsConnection → Type 0
StaysOpen [] c = Unit
StaysOpen (read_bytes bs ks ∷ rs) c =
    (c.closed ≡ false → (owner_calls ks c).conn.closed ≡ false)
    × StaysOpen rs (owner_calls ks c).conn
StaysOpen (r ∷ rs) c = Unit

read_loop-IsTidy :
    (rs : List Read) (c : TlsConnection)
    → IsSane c
    → StaysOpen rs c
    → c.closed ≡ false
    → IsTidy c (read_loop rs c).events (read_loop rs c).conn
unfolding read_loop
read_loop-IsTidy [] c s k o = quiet-IsTidy c c s (omega arith)
read_loop-IsTidy (read_bytes bs ks ∷ rs) c s k o =
    let d = (owner_calls ks c).conn in
    let t = owner_calls-IsTidy ks c s in
    both-IsTidy c c _ (note (data_note (add bs empty_buffer)) ∷ []) _ (told-IsTidy c c _ s o refl)
      (both-IsTidy c d _ _ _ t (read_loop-IsTidy rs d t.sane k.1 (k.0 o)))
read_loop-IsTidy (read_wants_read ∷ rs) c s k o = quiet-IsTidy c c s (omega arith)
read_loop-IsTidy (read_end ∷ rs) c s k o = ended-IsTidy c _ o refl
read_loop-IsTidy (read_failed ∷ rs) c s k o = ended-IsTidy c _ o refl

do_read-IsTidy :
    (rs : List Read) (c : TlsConnection)
    → IsSane c
    → StaysOpen rs c
    → IsTidy c (do_read rs c).events (do_read rs c).conn
unfolding do_read
do_read-IsTidy rs c s k = guard-IsTidy c _ s (λ o. read_loop-IsTidy rs c s k o)

-- A step under a test.
if-IsTidy :
    (b : Bool) (c : TlsConnection) (r t : Outcome)
    → IsTidy c r.events r.conn
    → IsTidy c t.events t.conn
    → IsTidy c (if b then r else t).events (if b then r else t).conn
if-IsTidy true c r t i j = i
if-IsTidy false c r t i j = j

handle_io-IsTidy :
    (h : Handshake) (rs : List Read) (w : ℕ → Bytes → Write) (c : TlsConnection)
    → IsSane c
    → StaysOpen rs c
    → IsTidy c (handle_io h rs w c).events (handle_io h rs w c).conn
unfolding handle_io
handle_io-IsTidy h rs w c s k =
    let r = if c.reading then do_read rs c else quiet c in
    let read =
      if-IsTidy c.reading c (do_read rs c) (quiet c) (do_read-IsTidy rs c s k)
        (quiet-IsTidy c c s (omega arith)) in
    let d = r.conn in
    let wrote =
      if-IsTidy (empty d.write_buf) d (quiet d) (do_write w d)
        (quiet-IsTidy d d read.sane (omega arith)) (do_write-IsTidy w d read.sane) in
    guard-IsTidy c _ s (λ o.
      if-IsTidy (not c.handshake_done) c _ _ (handshake-IsTidy h c s)
        (both-IsTidy c d _ _ _ read wrote))

-- What the owner calls and what the event loop calls, with the answers of OpenSSL.
pub data Call : Type 0 where
  starts_handshake : Handshake → Call
  owner : OwnerCall → Call
  ios : Handshake → List Read → (ℕ → Bytes → Write) → Call

abbrev pub step : Call → TlsConnection → Outcome
step (starts_handshake h) c = continue_handshake h c
step (owner k) c = owner_call k c
step (ios h rs w) c = handle_io h rs w c

-- A sequence of calls: the connection, and the events that its owner is told.
unfoldable pub run : List Call → TlsConnection → TlsConnection × List Event
run [] c = (c, [])
run (k ∷ ks) c = let r = step k c in let rest = run ks r.conn in (rest.0, r.events ++ rest.1)

-- The owner never closes the connection, by a call or by a write that fails, in its callback for
-- data.
abbrev pub IsCalm : Call → TlsConnection → Type 0
IsCalm (starts_handshake h) c = Unit
IsCalm (owner k) c = Unit
IsCalm (ios h rs w) c = StaysOpen rs c

abbrev pub AreCalm : List Call → TlsConnection → Type 0
AreCalm [] c = Unit
AreCalm (k ∷ ks) c = IsCalm k c × AreCalm ks (step k c).conn

step-IsTidy :
    (k : Call) (c : TlsConnection)
    → IsSane c
    → IsCalm k c
    → IsTidy c (step k c).events (step k c).conn
step-IsTidy (starts_handshake h) c s k = handshake-IsTidy h c s
step-IsTidy (owner k) c s _ = owner_call-IsTidy k c s
step-IsTidy (ios h rs w) c s k = handle_io-IsTidy h rs w c s k

run-IsTidy :
    (ks : List Call) (c : TlsConnection)
    → IsSane c
    → AreCalm ks c
    → IsTidy c (run ks c).1 (run ks c).0
unfolding run
run-IsTidy [] c s h = quiet-IsTidy c c s (omega arith)
run-IsTidy (k ∷ ks) c s h =
    let t = step-IsTidy k c s h.0 in
    both-IsTidy c (step k c).conn _ _ _ t (run-IsTidy ks (step k c).conn t.sane h.1)

fresh-IsSane : (fd : ℕ) (server : Bool) → IsSane (make_tls fd server)
fresh-IsSane fd server = record { owned = refl; unwatched = λ h. refl }

-- Over any sequence of calls and I/O events on a new TLS connection, with any answers of OpenSSL, in
-- which the owner's calls inside its callback for data leave the connection open: the owner is told
-- at most one end of the connection (a failed handshake, a close or an error), none while the
-- connection is open, and nothing behind it.
pub tls_life_lem :
    (ks : List Call) (fd : ℕ) (server : Bool)
    → AreCalm ks (make_tls fd server)
    → (terminals (run ks (make_tls fd server)).1 + openness (run ks (make_tls fd server)).0 ≤ 1)
      × (followers (run ks (make_tls fd server)).1 ≡ 0)
tls_life_lem ks fd server h =
    let t = run-IsTidy ks (make_tls fd server) (fresh-IsSane fd server) h in (t.single, t.last)

-- A choice between two steps.
if-IsSane :
    (b : Bool) (r t : Outcome) → IsSane r.conn → IsSane t.conn → IsSane (if b then r else t).conn
if-IsSane true r t i j = i
if-IsSane false r t i j = j

read_loop-IsSane : (rs : List Read) (c : TlsConnection) → IsSane c → IsSane (read_loop rs c).conn
unfolding read_loop
read_loop-IsSane [] c s = s
read_loop-IsSane (read_bytes bs ks ∷ rs) c s =
    read_loop-IsSane rs (owner_calls ks c).conn (owner_calls-IsTidy ks c s).sane
read_loop-IsSane (read_wants_read ∷ rs) c s = s
read_loop-IsSane (read_end ∷ rs) c s = (close-IsTidy c s).sane
read_loop-IsSane (read_failed ∷ rs) c s = (close-IsTidy c s).sane

handle_io-IsSane :
    (h : Handshake) (rs : List Read) (w : ℕ → Bytes → Write) (c : TlsConnection)
    → IsSane c
    → IsSane (handle_io h rs w c).conn
unfolding handle_io do_read
handle_io-IsSane h rs w c s =
    let r = if c.reading then do_read rs c else quiet c in
    let read : IsSane r.conn =
      if-IsSane c.reading (do_read rs c) (quiet c)
        (if-IsSane c.closed (quiet c) (read_loop rs c) s (read_loop-IsSane rs c s)) s in
    if-IsSane c.closed (quiet c) _ s (
      if-IsSane (not c.handshake_done) (continue_handshake h c) _ (handshake-IsTidy h c s).sane (
        if-IsSane (empty r.conn.write_buf) (quiet r.conn) (do_write w r.conn) read
          (do_write-IsTidy w r.conn read).sane))

step-IsSane : (k : Call) (c : TlsConnection) → IsSane c → IsSane (step k c).conn
step-IsSane (starts_handshake h) c s = (handshake-IsTidy h c s).sane
step-IsSane (owner k) c s = (owner_call-IsTidy k c s).sane
step-IsSane (ios h rs w) c s = handle_io-IsSane h rs w c s

run-IsSane : (ks : List Call) (c : TlsConnection) → IsSane c → IsSane (run ks c).0
unfolding run
run-IsSane [] c s = s
run-IsSane (k ∷ ks) c s = run-IsSane ks (step k c).conn (step-IsSane k c s)

never_both : (c : TlsConnection) → IsSane c → (watches c && c.closed) ≡ false
never_both c s = elim (Bool-cases c.closed) [
  | inl o ↦ ap (λ b. b && c.closed) (s.unwatched o)
  | inr o ↦ ground (arith, o)
]

-- Over any sequence of calls and I/O events on a new TLS connection, with any answers of OpenSSL and
-- any calls of the owner inside its callback for data, the descriptor is owned exactly as long as
-- the connection is open, and a closed connection watches nothing.
pub tls_sane_lem :
    (ks : List Call) (fd : ℕ) (server : Bool)
    → (owns_fd (run ks (make_tls fd server)).0 ≡ not (run ks (make_tls fd server)).0.closed)
      × ((watches (run ks (make_tls fd server)).0 && (run ks (make_tls fd server)).0.closed)
          ≡ false)
tls_sane_lem ks fd server =
    let s = run-IsSane ks (make_tls fd server) (fresh-IsSane fd server) in
    (s.owned, never_both (run ks (make_tls fd server)).0 s)
