-- ===== src/Tests/Servers.antt =====
-- The theorems on the listener and the server at concrete inputs.
use deep_seer.Base.{
  same, to_u64, read_number, read_sign, skip_spaces, stoull, to_decimal, true, false, arith, ℕ, ◌≡◌,
  refl, Bool, true, List, [], ◌∷◌, ◌++◌, none, some, if◌then◌else◌, ◌==◌, codes,
}
use deep_seer.Core.Buffer.{Bytes}
use deep_seer.Core.Types.{ok}
use deep_seer.Event.Kqueue.{
  Loop, Filter, evfilt_read, io_call, timer_call, on_io, on_timer, make_loop, watch,
}
use deep_seer.Net.Socket.{Platform, SysResult, returned, failed}
use deep_seer.Net.Address.{Resolver, Family, ipv4, ipv6}
use deep_seer.Net.Address
use deep_seer.Net.Address.Text.{from_string-to_string}
use deep_seer.Net.Listener.{
  Callback, readable, resume, Listener, make_listener, Answer, on_readable, resume_accepting,
}
use deep_seer.Net.Listener
use deep_seer.Net.Listener.Accepting.{arrived, Keeps, clients, refused, returns_lem, drain_lem}
use deep_seer.Net.Listener.Pausing.{pause_lem}
use deep_seer.Net.Listener.Lifecycle.{opening, opened, is_ok, succeeds, start_lem}
use deep_seer.Proxy.Session.{Session}
use deep_seer.Proxy.Session
use deep_seer.Server.{Server, Event, arrivals, resumes, session_event}
use deep_seer.Server
use deep_seer.Main.{Options, default_options, parse}
use deep_seer.Main.Arguments.{arguments, parse-arguments}

-- Error codes of a platform.
abbrev platform : Platform
platform = record {
  is_would_block = λ e. e == 35;
  is_in_progress = λ e. e == 36;
  is_fd_exhausted = λ e. e == 24;
  error_str = λ e. codes "error";
}

abbrev accepts : ℕ → SysResult → Answer
accepts fd flags = record { accepted = returned fd; get_flags = flags; set_flags = returned 0 }

abbrev fails : ℕ → Answer
fails e = record { accepted = failed e; get_flags = returned 0; set_flags = returned 0 }

abbrev arrivals_of_two : List Answer
arrivals_of_two = accepts 7 (returned 2) ∷ fails 53 ∷ accepts 8 (failed 9) ∷ []

abbrev listener : Listener
listener = opened 3 make_loop

returns_lem_example :
    (k : Listener) × (rest : List Answer) × (on_readable platform
        (arrivals_of_two ++ fails 35 ∷ [])
        listener
      ≡ some (k, arrived platform (arrivals_of_two ++ fails 35 ∷ []), rest))
    × Keeps platform listener k
returns_lem_example = returns_lem platform (arrivals_of_two ++ fails 35 ∷ []) listener refl refl

drain_lem_example :
    on_readable platform (arrivals_of_two ++ fails 35 ∷ []) listener
    ≡ some (
      record listener { closed = listener.closed ++ refused arrivals_of_two },
      clients arrivals_of_two,
      [],
    )
drain_lem_example =
    drain_lem platform arrivals_of_two (fails 35) [] listener 35 refl (tt, ((refl, refl), (tt, tt)))
      refl refl

pause_lem_example :
    (k : Listener) × (id : ℕ) × (m : Loop Callback) × (n : Listener) × (on_readable platform
        (arrivals_of_two ++ fails 24 ∷ [])
        listener
      ≡ some (k, clients arrivals_of_two, []))
    × ((f : Filter) (eof : Bool) → on_io 3 f eof k.loop ≡ [])
    × (k.resume_timer ≡ some id)
    × (on_timer id k.loop ≡ (m, timer_call id resume ∷ []))
    × (resume_accepting (record k { loop = m }) ≡ some n)
    × ((eof : Bool) → on_io 3 evfilt_read eof n.loop ≡ io_call 3 readable 1 ∷ [])
    × (n.resume_timer ≡ none)
pause_lem_example =
    pause_lem platform arrivals_of_two (fails 24) [] listener 3 24 refl refl refl
      (tt, ((refl, refl), (tt, tt))) refl refl refl

start_lem_example :
    (k : Listener) × ((Listener.start platform
        (opening 3 (returned 0) (returned 2) (returned 0) (failed 48) (returned 0))
        (make_listener make_loop)).1
      ≡ some k)
    × (is_ok
          (Listener.start platform
            (opening 3 (returned 0) (returned 2) (returned 0) (failed 48) (returned 0))
            (make_listener make_loop)).0
        ≡ succeeds (opening 3 (returned 0) (returned 2) (returned 0) (failed 48) (returned 0)))
    × (k.loop ≡ (
        if succeeds (opening 3 (returned 0) (returned 2) (returned 0) (failed 48) (returned 0))
        then (watch 3 1 readable make_loop).0
        else make_loop))
    × ((eof : Bool)
        → on_io 3 evfilt_read eof k.loop ≡ (
            if succeeds (opening 3 (returned 0) (returned 2) (returned 0) (failed 48) (returned 0))
            then io_call 3 readable 1 ∷ []
            else on_io 3 evfilt_read eof make_loop))
    × ((Listener.stop k).closed ≡ 3 ∷ [])
    × ((f : Filter) (eof : Bool) → on_io 3 f eof (Listener.stop k).loop ≡ [])
start_lem_example =
    start_lem platform 3 make_loop (returned 0) (returned 2) (returned 0) (failed 48) (returned 0)

abbrev server : Server
server = Server.set_payload_inspector (Server.make_server (codes "ca.pem") (codes "ca.key"))

abbrev loop_events : List Event
loop_events =
    arrivals (arrivals_of_two ++ fails 35 ∷ [])
    ∷ session_event 0 Session.close
    ∷ arrivals (fails 24 ∷ [])
    ∷ resumes
    ∷ arrivals (accepts 9 (returned 2) ∷ fails 35 ∷ [])
    ∷ []

-- One host of each family.
abbrev local_host : Family → Bytes
local_host ipv6 = codes "::1"
local_host f = codes "127.0.0.1"

abbrev resolver : Resolver
resolver = record {
  Sockaddr = Family × ℕ;
  family = λ a. a.0;
  port_field = λ a. a.1;
  get_addr_info = λ host port. elim (same host (codes "::1")) [
    | true ↦ ok (ipv6, elim (stoull port) [ none ↦ 0 | some n ↦ n ])
    | false ↦ ok (ipv4, elim (stoull port) [ none ↦ 0 | some n ↦ n ])
  ];
  get_name_info = λ a. some (local_host a.0, to_decimal a.1);
}

from_string-to_string_example :
    Address.from_string resolver (Address.to_string resolver (ipv6, 8080)) ≡ some (ok (ipv6, 8080))
unfolding same stoull to_decimal to_u64 read_number read_sign skip_spaces
from_string-to_string_example =
    from_string-to_string resolver (ipv6, 8080) (codes "::1") 8080 refl refl (omega arith)
      (ground arith) refl

abbrev some_options : Options
some_options = record {
  port = 9090;
  ca_cert = codes "--port";
  ca_key = codes "ca.key";
  model_path = codes "model.bin";
}

parse-arguments_example :
    parse (arguments some_options ++ codes "--port" ∷ codes "90" ∷ []) default_options
    ≡ parse (codes "--port" ∷ codes "90" ∷ []) some_options
parse-arguments_example =
    parse-arguments some_options default_options (codes "--port" ∷ codes "90" ∷ []) (omega arith)
