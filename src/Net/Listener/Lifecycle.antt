-- ===== src/Net/Listener/Lifecycle.antt =====
-- `Listener::start` and `Listener::stop` (DeepSeerLib/src/Net/Listener.cpp).
use deep_seer.Base.{
  ℕ, ◌≡◌, refl, sym, ap, ◌∙◌, Bool, true, false, ◌&&◌, [], ◌∷◌, ◌++◌, Option, none, some,
  if◌then◌else◌,
}
use deep_seer.Core.Types.{Error, internal_error, Expected, ok, unexpected}
use deep_seer.Event.Kqueue.{Loop, Filter, evfilt_read, io_call, on_io, remove, watch}
use deep_seer.Net.Socket.{
  Platform, SysResult, returned, failed, create_socket, set_reuse_addr, set_nonblocking,
  bind_and_listen, move_assign,
}
use deep_seer.Net.Listener.{
  Callback, readable, Listener, make_listener, StartCalls, start, stop, watch_socket,
  unwatch_socket, released,
}
use deep_seer.Net.Listener.Pausing.{silent_lem, unwatched_lem, watch_lem}

abbrev pub has_returned : SysResult → Bool
has_returned (returned n) = true
has_returned (failed e) = false

-- Whether the calls behind `socket` all succeed.
abbrev pub succeeds : StartCalls → Bool
succeeds c =
    has_returned c.reuse_call
    && has_returned c.get_flags
    && has_returned c.set_flags
    && has_returned c.bind_call
    && has_returned c.listen_call

abbrev pub is_ok : {A : Type 0} → Expected A → Bool
is_ok (ok a) = true
is_ok (unexpected e) = false

-- A listener that owns a descriptor, after `stop`.
pub stop_lem :
    (l : Listener) (fd : ℕ)
    → l.socket ≡ some fd
    → ((stop l).closed ≡ l.closed ++ fd ∷ [])
      × ((f : Filter) (eof : Bool) → on_io fd f eof (stop l).loop ≡ [])
unfolding stop unwatch_socket
stop_lem l fd e =
    let u : (stop l).loop ≡ (remove fd l.loop).0 = rw (stop, unwatch_socket, e) refl in
    (
      ap (λ s. l.closed ++ released s) e,
      λ f eof. ap (on_io fd f eof) u ∙ silent_lem fd f eof _ (unwatched_lem fd l.loop),
    )

-- The calls where `socket` opens a descriptor.
abbrev pub opening : ℕ → SysResult → SysResult → SysResult → SysResult → SysResult → StartCalls
opening fd r g s b l = record {
  socket_call = returned fd;
  reuse_call = r;
  get_flags = g;
  set_flags = s;
  bind_call = b;
  listen_call = l;
}

abbrev pub opened : ℕ → Loop Callback → Listener
opened fd loop = record {
  loop = loop;
  socket = some fd;
  has_callback = true;
  resume_timer = none;
  closed = [];
}

module _ (os : Platform) where
  -- What is said of a start.
  abbrev Starts : ℕ → Loop Callback → Bool → Expected (Unit {0}) × Option Listener → Type 0
  Starts fd loop done r =
      (k : Listener) × (r.1 ≡ some k)
      × (is_ok r.0 ≡ done)
      × (k.loop ≡ (if done then (watch fd 1 readable loop).0 else loop))
      × ((eof : Bool)
          → on_io fd evfilt_read eof k.loop
            ≡ (if done then io_call fd readable 1 ∷ [] else on_io fd evfilt_read eof loop))
      × ((stop k).closed ≡ fd ∷ [])
      × ((f : Filter) (eof : Bool) → on_io fd f eof (stop k).loop ≡ [])

  -- The message makes no difference.
  no_error : Error
  no_error = record { code = internal_error; message = [] }

  fails :
      (fd : ℕ) (loop : Loop Callback)
      → Starts fd loop false (unexpected no_error, some (opened fd loop))
  fails fd loop = (
    opened fd loop,
    refl,
    refl,
    refl,
    λ eof. refl,
    (stop_lem (opened fd loop) fd refl).0,
    (stop_lem (opened fd loop) fd refl).1,
  )

  watching_lem :
      (fd : ℕ) (loop : Loop Callback) (k : Listener)
      → watch_socket (opened fd loop) ≡ some k
      → k.loop ≡ (watch fd 1 readable loop).0
  unfolding watch_socket
  watching_lem fd loop k e =
      ap (λ (o : Option Listener). elim o as (λ _. Loop Callback) [ none ↦ loop | some m ↦ m.loop ])
        (sym e)

  listens :
      (fd : ℕ) (loop : Loop Callback) → Starts fd loop true (ok tt, watch_socket (opened fd loop))
  listens fd loop =
      let (k, w, called, timer, owner, none_closed, _) = watch_lem (opened fd loop) fd refl in
      let (closes, silent) = stop_lem k fd owner in
      (
        k,
        w,
        refl,
        watching_lem fd loop k w,
        called,
        closes ∙ ap (λ fds. fds ++ fd ∷ []) none_closed,
        silent,
      )

  -- `start` of a new listener, where `socket` opens a descriptor, reports success exactly if every
  -- further system call succeeds; then the loop is that with a watch on the descriptor, whose read
  -- events call the accept loop, and otherwise the loop is as it was, in every part. Whether it
  -- succeeded or not, `stop` closes that descriptor and leaves none of its events registered.
  pub start_lem :
      (fd : ℕ) (loop : Loop Callback) (r g s b l : SysResult)
      → (k : Listener) × ((start os (opening fd r g s b l) (make_listener loop)).1 ≡ some k)
        × (is_ok (start os (opening fd r g s b l) (make_listener loop)).0
            ≡ succeeds (opening fd r g s b l))
        × (k.loop
            ≡ (if succeeds (opening fd r g s b l) then (watch fd 1 readable loop).0 else loop))
        × ((eof : Bool)
            → on_io fd evfilt_read eof k.loop ≡ (
                if succeeds (opening fd r g s b l)
                then io_call fd readable 1 ∷ []
                else on_io fd evfilt_read eof loop))
        × ((stop k).closed ≡ fd ∷ [])
        × ((f : Filter) (eof : Bool) → on_io fd f eof (stop k).loop ≡ [])
  unfolding start create_socket set_reuse_addr set_nonblocking bind_and_listen move_assign
  start_lem fd loop (failed e) g s b l = fails fd loop
  start_lem fd loop (returned r) (failed e) s b l = fails fd loop
  start_lem fd loop (returned r) (returned g) (failed e) b l = fails fd loop
  start_lem fd loop (returned r) (returned g) (returned s) (failed e) l = fails fd loop
  start_lem fd loop (returned r) (returned g) (returned s) (returned b) (failed e) = fails fd loop
  start_lem fd loop (returned r) (returned g) (returned s) (returned b) (returned l) =
      listens fd loop

  pub success_lem :
      (fd : ℕ) (loop : Loop Callback) (r g s b l : ℕ)
      → start os
          (opening fd (returned r) (returned g) (returned s) (returned b) (returned l))
          (make_listener loop)
        ≡ (ok tt, watch_socket (opened fd loop))
  unfolding start create_socket set_reuse_addr set_nonblocking bind_and_listen move_assign
  success_lem fd loop r g s b l = refl
