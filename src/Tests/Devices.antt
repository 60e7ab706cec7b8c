-- ===== src/Tests/Devices.antt =====
-- The theorems on sockets, the event loop, log files and the engine at concrete inputs.
use deep_seer.Base.{
  ℕ, ◌-◌, ◌≤◌, ◌≡◌, refl, Bool, true, false, ◌&&◌, List, [], ◌∷◌, ◌++◌, none, some, arith,
  if◌then◌else◌, ltb, leb, length, codes, ◌==◌,
}
use deep_seer.Core.Types.{Expected, ok}
use deep_seer.Core.Buffer.{Bytes, linearize}
use deep_seer.Core.Buffer.Laws.{empty-IsWellFormed}
use deep_seer.Event.Kqueue.{Filter, evfilt_read, Loop, make_loop, add_timer}
use deep_seer.Event.Kqueue.Interest.{Kernel, Call, same_filter, wanted, kernel_agrees}
use deep_seer.Event.Kqueue.Interest
use deep_seer.Event.Kqueue.Timers.{Op, fires, timer_once}
use deep_seer.Event.Kqueue.Timers
use deep_seer.Net.Connection.{make_connection}
use deep_seer.Net.Connection.Writes.{IsStream, IsSocket}
use deep_seer.Net.Connection.Stream.{Act, writes, closes, connection-IsStream}
use deep_seer.Net.Connection.Stream
use deep_seer.Net.Tls.{TlsConnection, make_tls, want_read, Write, wrote, write_wants}
use deep_seer.Net.Tls
use deep_seer.Net.Tls.Stream.{IsSsl, Progress, tls_write_lem}
use deep_seer.Log.FileSink.{FileSink, write, rotate, content}
use deep_seer.Log.FileSink.Rotation.{IsOpen, log_write_lem, rotate_files}
use deep_seer.Log.Logger.{Logger, info, debug, shutdown}
use deep_seer.Log.Logger.Delivery.{logs, kept, lines_of, extended, delivery_lem}
use deep_seer.Log.Logger.Delivery
use deep_seer.Seer.Engine.{
  WorkItem, absent, idle, Engine, Action, submits, wakes, finishes, stops, joins, run,
}
use deep_seer.Seer.Engine.Order.{
  submitted, deliveries, accounted, drain_actions, run-deliveries, run_joined, shutdown_lem,
}

-- A socket that takes one byte at a time, and an OpenSSL that takes one and then wants to read.
abbrev one_byte : ℕ → Bytes → Expected ℕ
one_byte i [] = ok 0
one_byte i (c ∷ d) = ok 1

one_byte-IsSocket : IsSocket one_byte
one_byte-IsSocket i [] n h = ground arith
one_byte-IsSocket i (c ∷ d) n h = ground arith

abbrev acts : List Act
acts = writes one_byte (codes "abc") ∷ closes ∷ []

connection-IsStream_example :
    let (c, sent, accepted) = Stream.run acts (make_connection 5) [] [] in IsStream c sent accepted
connection-IsStream_example = connection-IsStream 5 acts (one_byte-IsSocket, (tt, tt))

abbrev one_record : ℕ → Bytes → Write
one_record i [] = wrote 0
one_record i (c ∷ d) = if i == 0 then wrote 1 else write_wants want_read

one_record-IsSsl : IsSsl one_record
one_record-IsSsl i [] n h = ground arith
one_record-IsSsl i (c ∷ d) n h = ground arith

abbrev tls : TlsConnection
tls = record (make_tls 5 true) { handshake_done = true }

tls_write_lem_example :
    ((Tls.write one_record (codes "abc") tls).sent
        ++ linearize (Tls.write one_record (codes "abc") tls).conn.write_buf
      ≡ linearize tls.write_buf ++ codes "abc")
    × Progress one_record (Tls.write one_record (codes "abc") tls).conn
tls_write_lem_example =
    tls_write_lem one_record (codes "abc") tls one_record-IsSsl empty-IsWellFormed tt refl

abbrev kernel : Kernel
kernel = record {
  State = ℕ → Filter → Bool;
  registered = λ k. k;
  kevent = λ c k fd f. if c.fd == fd && same_filter c.filter f then c.add else k fd f;
  kevent_lem = λ c k fd f. refl;
}

abbrev loop_calls : List (Call ℕ)
loop_calls = Interest.watches 4 3 9 ∷ Interest.removes 4 ∷ []

kernel_agrees_example :
    let (l, k') = Interest.run kernel loop_calls make_loop (λ fd f. false) in
    kernel.registered k' 4 evfilt_read ≡ wanted l 4 evfilt_read
kernel_agrees_example = kernel_agrees kernel loop_calls (λ fd f. false) 4 evfilt_read (λ fd f. refl)

abbrev timed_loop : Loop ℕ
timed_loop = (add_timer 9 make_loop).0

abbrev timer_ops : List (Op ℕ)
timer_ops = Timers.timer_event 1 ∷ Timers.timer_event 1 ∷ []

timer_once_example :
    (fires 1 timer_ops timed_loop ≤ 1) × (fires 1 (Timers.cancels 1 ∷ timer_ops) timed_loop ≡ 0)
timer_once_example = timer_once 1 timer_ops timed_loop (unfold add_timer in omega arith)

abbrev sink : FileSink
sink = record {
  config = record { max_file_size = 4; max_files = 2 };
  files = λ i. if i == 0 then some (codes "ab") else none;
  is_open = true;
  current_size = 2;
}

log_write_lem_example :
    IsOpen (write true (codes "cd") sink)
    × ((j : ℕ)
        → (write true (codes "cd") sink).files j ≡ (
            let full = content (sink.files 0) ++ codes "cd" in
            if ltb (length full) sink.config.max_file_size
            then (if j == 0 then some full else sink.files j)
            else if j == 0
            then some []
            else if j == 1
            then some full
            else if leb j 2
            then sink.files (j - 1)
            else sink.files j))
log_write_lem_example =
    log_write_lem sink (codes "cd") 1
      (record { open_flag = refl; size = refl; below = omega arith }) refl

rotate_files_example :
    (rotate true sink).files 1
    ≡ (if 1 == 0 then some [] else if leb 1 2 then sink.files (1 - 1) else sink.files 1)
rotate_files_example = rotate_files sink 1 1 refl

abbrev logger : Logger
logger = record { min_level = info; sinks = record { lines = []; flushed = false } ∷ [] }

abbrev log_calls : List Delivery.Call
log_calls =
    logs (codes "t") (codes "1") info (codes "a")
    ∷ logs (codes "t") (codes "1") debug (codes "b")
    ∷ []

delivery_lem_example :
    (lines_of (shutdown (Delivery.run log_calls logger)).1
      ≡ extended (kept info log_calls) logger.sinks)
    × ((shutdown (Delivery.run log_calls logger)).0.sinks ≡ [])
delivery_lem_example = delivery_lem log_calls logger

abbrev item : WorkItem
item = record { payload = codes "ab"; url = codes "u"; on_result = some 3 }

abbrev engine_actions : List Action
engine_actions = submits item ∷ wakes ∷ finishes ∷ stops ∷ wakes ∷ joins ∷ []

abbrev joined_engine : Engine ℕ
joined_engine = record { running = false; worker = absent; queue = []; results = (3, 2) ∷ [] }

run-deliveries_example :
    accounted length joined_engine ≡ deliveries length (submitted engine_actions)
unfolding run
run-deliveries_example = run-deliveries length engine_actions joined_engine refl

run_joined_example : joined_engine.results ≡ deliveries length (submitted engine_actions)
unfolding run
run_joined_example = run_joined length engine_actions joined_engine refl refl

abbrev waiting_engine : Engine ℕ
waiting_engine = record { running = true; worker = idle; queue = item ∷ []; results = [] }

shutdown_lem_example :
    run length (stops ∷ drain_actions length waiting_engine.queue) waiting_engine
    ≡ some (record {
      running = false;
      worker = absent;
      queue = [];
      results = [] ++ deliveries length waiting_engine.queue;
    })
shutdown_lem_example = shutdown_lem length waiting_engine refl
