-- ===== src/Net/Listener.antt =====
-- DeepSeerLib/src/Net/Listener.cpp: the listening socket on the event loop of Event/Kqueue. Answers
-- of the system calls are arguments; the descriptors that the listener closes are recorded.
pub mod Accepting
pub mod Pausing
pub mod Lifecycle
use deep_seer.Base.{
  ℕ, Bool, true, false, List, [], ◌∷◌, ◌++◌, Option, none, some, if◌then◌else◌, ◌>>=◌,
}
use deep_seer.Core.Types.{would_block, fd_exhausted, Expected, ok, unexpected}
use deep_seer.Event.Kqueue.{Loop, remove, watch, add_timer, cancel_timer}
use deep_seer.Net.Socket.{
  Platform, SysResult, Socket, create_socket, set_reuse_addr, set_nonblocking, bind_and_listen,
  accept, move_assign,
}

-- The closures that the listener gives to the loop, and those of others.
pub data Callback : Type 0 where
  readable resume : Callback
  other : ℕ → Callback

pub record Listener : Type 0 where
  pub loop : Loop Callback
  pub socket : Socket
  pub has_callback : Bool
  pub resume_timer : Option ℕ
  pub closed : List ℕ

-- `Listener::Listener`.
abbrev pub make_listener : Loop Callback → Listener
make_listener loop = record {
  loop = loop;
  socket = none;
  has_callback = false;
  resume_timer = none;
  closed = [];
}

-- The descriptor of a socket that is overwritten or destroyed is closed.
abbrev pub released : Option ℕ → List ℕ
released none = []
released (some fd) = fd ∷ []

-- `resumeTimer_` loses its handle, whose destructor cancels the timer.
unfoldable pub drop_timer : Option ℕ → Loop Callback → Loop Callback
unfolding cancel_timer
drop_timer none loop = loop
drop_timer (some id) loop = cancel_timer id loop

-- The results of the system calls of `start`.
pub record StartCalls : Type 0 where
  pub socket_call : SysResult
  pub reuse_call : SysResult
  pub get_flags : SysResult
  pub set_flags : SysResult
  pub bind_call : SysResult
  pub listen_call : SysResult

-- The results of the system calls of one turn of the loop of `onReadable`.
pub record Answer : Type 0 where
  pub accepted : SysResult
  pub get_flags : SysResult
  pub set_flags : SysResult

-- `loop_.watch(socket_.fd(), IoEvent::Readable, ...)`; none is the invalid descriptor.
unfoldable pub watch_socket : Listener → Option Listener
unfolding watch
watch_socket l = elim l.socket [
  | none ↦ none
  | some fd ↦ some (record l { loop = (watch fd 1 readable l.loop).0 })
]

-- `loop_.remove(socket_.fd())`; the invalid descriptor is not registered.
unfoldable pub unwatch_socket : Listener → Listener
unfolding remove
unwatch_socket l = elim l.socket [ none ↦ l | some fd ↦ record l { loop = (remove fd l.loop).0 } ]

-- `Listener::stop`.
unfoldable pub stop : Listener → Listener
unfolding unwatch_socket
stop l = record (unwatch_socket l) { socket = none; closed = l.closed ++ released l.socket }

-- `Listener::pauseAccepting`.
unfoldable pub pause_accepting : Listener → Listener
unfolding unwatch_socket add_timer drop_timer
pause_accepting l =
    let r = add_timer resume (unwatch_socket l).loop in
    record l { loop = drop_timer l.resume_timer r.0; resume_timer = some r.1 }

-- `Listener::resumeAccepting`.
unfoldable pub resume_accepting : Listener → Option Listener
unfolding watch_socket drop_timer
resume_accepting l =
    watch_socket (record l { loop = drop_timer l.resume_timer l.loop; resume_timer = none })

-- How a turn of that loop ends, with the sockets given to `onAccept_`.
pub data Turn : Type 0 where
  breaks : Listener → Turn
  continues : Listener → List ℕ → Turn

module _ (os : Platform) where
  -- `Listener::start`.
  unfoldable pub start : StartCalls → Listener → Expected (Unit {0}) × Option Listener
  unfolding create_socket set_reuse_addr set_nonblocking bind_and_listen watch_socket move_assign
  start calls l =
      let ready = record l { has_callback = true } in
      elim (create_socket os calls.socket_call) [
        | unexpected e ↦ (unexpected e, some ready)
        | ok s ↦
            let moved = move_assign l.socket s in
            let opened = record ready { socket = moved.0; closed = l.closed ++ released moved.2 } in
            elim (set_reuse_addr os calls.reuse_call) [
              | unexpected e ↦ (unexpected e, some opened)
              | ok _ ↦ elim (set_nonblocking os calls.get_flags calls.set_flags) [
                | unexpected e ↦ (unexpected e, some opened)
                | ok _ ↦ elim (bind_and_listen os calls.bind_call calls.listen_call) [
                  | unexpected e ↦ (unexpected e, some opened)
                  | ok _ ↦ (ok tt, watch_socket opened)
                ]
              ]
            ]
      ]

  -- One turn of the loop of `Listener::onReadable`, behind `accept`; a client is given to `onAccept_`.
  unfoldable pub after_accept : Answer → Listener → Expected Socket → Turn
  unfolding set_nonblocking pause_accepting
  after_accept a l result = elim result [
    | unexpected e ↦ elim e.code [
      | would_block ↦ breaks l
      | fd_exhausted ↦ breaks (pause_accepting l)
      | _ ↦ continues l []
    ]
    | ok client ↦ elim (set_nonblocking os a.get_flags a.set_flags) [
      | unexpected e ↦ continues (record l { closed = l.closed ++ released client }) []
      | ok _ ↦
          if l.has_callback
          then continues l (released client)
          else continues (record l { closed = l.closed ++ released client }) []
    ]
  ]

  unfoldable pub turn : Answer → Listener → Turn
  unfolding accept after_accept
  turn a l = after_accept a l (accept os a.accepted)

  -- `Listener::onReadable` on the answers of the kernel: the listener, the descriptors of the sockets
  -- given to `onAccept_`, and the answers not used. none is a loop that asks for a further answer.
  unfoldable pub on_readable : List Answer → Listener → Option (Listener × List ℕ × List Answer)
  unfolding turn
  on_readable [] l = none
  on_readable (a ∷ bs) l = elim (turn a l) [
    | breaks l' ↦ some (l', [], bs)
    | continues l' clients ↦ on_readable bs l' >>= λ (r : Listener × List ℕ × List Answer).
        some (r.0, clients ++ r.1, r.2)
  ]
