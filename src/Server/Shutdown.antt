-- ===== src/Server/Shutdown.antt =====
-- A whole run of the server (DeepSeerLib/src/Server/Server.cpp), over its listener and its sessions.
use deep_seer.Base.{
  ℕ, zero, suc, ◌+◌, ◌≡◌, true, List, [], ◌∷◌, Option, none, some, All, length, ◌>>=◌,
}
use deep_seer.Core.Types.{Expected, ok}
use deep_seer.Net.Socket.{Platform}
use deep_seer.Net.Listener.{Listener, StartCalls, on_readable, watch_socket, make_listener}
use deep_seer.Net.Listener
use deep_seer.Net.Listener.Accepting.{has_end, arrived}
use deep_seer.Proxy.Session.{Session}
use deep_seer.Proxy.Session
use deep_seer.Tls.CertCache.{CertCache}
use deep_seer.Server.{Server, Event, arrivals, resumes, session_event}

-- No session pointer is null.
abbrev IsThere : Option Session → Type 0
IsThere none = zero ≡ suc zero
IsThere (some s) = Unit

-- A server that has this many sessions, none of them null.
abbrev Holds : ℕ → Server → Type 0
Holds n s = (length s.sessions ≡ n) × All IsThere s.sessions

module _ (os : Platform) where
  -- An accept loop that is called is given answers with an end.
  abbrev pub Returns : Event → Type 0
  Returns (arrivals bs) = has_end os bs ≡ true
  Returns resumes = Unit
  Returns (session_event i f) = Unit

  -- The connections that arrive during some events.
  abbrev pub connections : List Event → ℕ
  connections [] = 0
  connections (arrivals bs ∷ es) = length (arrived os bs) + connections es
  connections (resumes ∷ es) = connections es
  connections (session_event i f ∷ es) = connections es

  abbrev ended :
      Option (Server × List Session) → Option (Expected (Unit {0}) × Server × List Session)
  ended o = o >>= λ (t : Server × List Session). some (ok tt, t.0, t.1)
