-- ===== src/Server.antt =====
-- DeepSeerLib/src/Server/Server.cpp: the server over the listener of Net/Listener and the sessions of
-- Proxy/Session. The event loop belongs to the listener; the sessions' own events are functions on
-- them. The result of `CertGenerator::create` and the answers of the kernel are arguments.
pub mod Shutdown
use deep_seer.Base.{
  ℕ, zero, suc, Bool, true, false, ◌||◌, List, [], ◌∷◌, ◌++◌, Option, none, some, map,
  if◌then◌else◌, ◌>>=◌,
}
use mathlib.Core.Option
use deep_seer.Core.Types.{Error, Expected, ok, unexpected}
use deep_seer.Core.Buffer.{Bytes}
use deep_seer.Event.Kqueue.{Loop, make_loop}
use deep_seer.Event.Kqueue
use deep_seer.Net.Socket.{Platform}
use deep_seer.Net.Listener.{
  Callback, Listener, make_listener, StartCalls, Answer, on_readable, resume_accepting,
}
use deep_seer.Net.Listener
use deep_seer.Proxy.Session.{Session}
use deep_seer.Proxy.Session
use deep_seer.Tls.CertCache.{CertCache, make_cache}

pub record Server : Type 0 where
  pub ca_cert_path : Bytes
  pub ca_key_path : Bytes
  pub has_cert_gen : Bool
  pub cert_cache : CertCache
  pub has_inspector : Bool
  pub listener : Option Listener
  -- Shared pointers, which may be null.
  pub sessions : List (Option Session)

-- What the loop does while the server runs: it calls the accept loop, which is given the answers, or
-- the end of the listener's pause, or a callback of the session at an index.
pub data Event : Type 0 where
  arrivals : List Answer → Event
  resumes : Event
  session_event : ℕ → (Session → Session) → Event

-- `Server::Server`, and `Server::setPayloadInspector`.
abbrev pub make_server : Bytes → Bytes → Server
make_server cert key = record {
  ca_cert_path = cert;
  ca_key_path = key;
  has_cert_gen = false;
  cert_cache = make_cache 1024;
  has_inspector = false;
  listener = none;
  sessions = [];
}

abbrev pub set_payload_inspector : Server → Server
set_payload_inspector s = record s { has_inspector = true }

-- `Server::stop`, on the loop that the listener holds.
unfoldable pub stop : Listener → Listener
unfolding Kqueue.stop
stop l = record l { loop = Kqueue.stop l.loop }

-- `std::string::empty`.
abbrev is_blank : Bytes → Bool
is_blank [] = true
is_blank (b ∷ bs) = false

-- The erasure of null pointers in `onNewConnection`.
unfoldable pub erase_null : List (Option Session) → List (Option Session)
erase_null [] = []
erase_null (none ∷ ss) = erase_null ss
erase_null (some s ∷ ss) = some s ∷ erase_null ss

-- `Server::onNewConnection`. The session points to the cache of the server.
unfoldable pub on_new_connection : Server → Server
unfolding erase_null
on_new_connection s = record s {
  sessions =
      erase_null s.sessions
      ++ some (Session.start s.has_cert_gen (some s.cert_cache) s.has_inspector) ∷ [];
}

unfoldable pub on_connections : List ℕ → Server → Server
unfolding on_new_connection
on_connections [] s = s
on_connections (fd ∷ fds) s = on_connections fds (on_new_connection s)

-- The cache that a session leaves behind a pointer to the given one.
abbrev left_in : CertCache → Option CertCache → CertCache
left_in c none = c
left_in c (some d) = d

-- A callback of one session. All sessions point to the one cache of the server: what a session holds
-- is set to it before the callback, and read back behind it.
unfoldable pub update_session :
    ℕ → (Session → Session) → CertCache → List (Option Session) → List (Option Session) × CertCache
update_session i f c [] = ([], c)
update_session zero f c (none ∷ ss) = (none ∷ ss, c)
update_session zero f c (some s ∷ ss) =
    let t = f (record s { cert_cache = some c }) in (some t ∷ ss, left_in c t.cert_cache)
update_session (suc i) f c (s ∷ ss) = let r = update_session i f c ss in (s ∷ r.0, r.1)

-- `session->close()` for each session; none is a null pointer.
unfoldable pub close_all : List (Option Session) → Option (List Session)
unfolding Session.close
close_all [] = some []
close_all (none ∷ ss) = none
close_all (some s ∷ ss) = close_all ss >>= λ (cs : List Session). some (Session.close s ∷ cs)

-- Whether there is a certificate generator: it is created from two paths that are not empty.
unfoldable pub load_ca : Expected (Unit {0}) → Server → Expected Bool
load_ca created s =
    if is_blank s.ca_cert_path || is_blank s.ca_key_path
    then ok s.has_cert_gen
    else elim created [ unexpected e ↦ unexpected e | ok _ ↦ ok true ]

-- The end of `Server::run`: the server, and the sessions that it has closed.
unfoldable pub finish : Listener × Server → Option (Server × List Session)
unfolding Listener.stop close_all
finish r = close_all r.1.sessions >>= λ (cs : List Session).
    some (record r.1 { listener = some (Listener.stop r.0); sessions = [] }, cs)

module _ (os : Platform) where
  -- `loop_->run()` as a sequence of events, which a call of `stop` ends.
  unfoldable pub serve : List Event → Listener → Server → Option (Listener × Server)
  unfolding stop on_connections update_session on_readable resume_accepting
  serve [] l s = some (stop l, s)
  serve (arrivals bs ∷ es) l s = on_readable os bs l >>= λ (r : Listener × List ℕ × List Answer).
      serve es r.0 (on_connections r.1 s)
  serve (resumes ∷ es) l s = resume_accepting l >>= λ (m : Listener). serve es m s
  serve (session_event i f ∷ es) l s =
      let r = update_session i f s.cert_cache s.sessions in
      serve es l (record s { sessions = r.0; cert_cache = r.1 })

  -- The part of `Server::run` behind the start of the listener.
  unfoldable pub after_start :
      List Event
      → Server
      → Expected (Unit {0}) × Option Listener
      → Option (Expected (Unit {0}) × Server × List Session)
  unfolding serve finish
  after_start es s started = elim started.0 [
    | unexpected e ↦ some (unexpected e, record s { listener = started.1 }, [])
    | ok _ ↦ started.1 >>= λ (l : Listener). serve es l s >>= λ (r : Listener × Server).
        finish r >>= λ (t : Server × List Session). some (ok tt, t.0, t.1)
  ]

  -- The part behind the certificate generator.
  unfoldable pub after_ca :
      StartCalls
      → List Event
      → Server
      → Expected Bool
      → Option (Expected (Unit {0}) × Server × List Session)
  unfolding Listener.start after_start
  after_ca calls es s loaded = elim loaded [
    | unexpected e ↦ some (unexpected e, s, [])
    | ok generator ↦
        after_start es (record s { has_cert_gen = generator })
          (Listener.start os calls (make_listener make_loop))
  ]

  -- `Server::run`: its result, the server, and the sessions that it has closed.
  unfoldable pub run :
      Expected (Unit {0})
      → StartCalls
      → List Event
      → Server
      → Option (Expected (Unit {0}) × Server × List Session)
  unfolding load_ca after_ca
  run created calls es s = after_ca calls es s (load_ca created s)
