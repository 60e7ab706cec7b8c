-- ===== src/Net/Listener/Pausing.antt =====
-- The pause of a listener when descriptors run out, and the end of the pause
-- (DeepSeerLib/src/Net/Listener.cpp over DeepSeerLib/src/Event/KqueueLoop.cpp).
use deep_seer.Base.{
  ℕ, ◌≡◌, refl, ap, ◌∙◌, Bool, true, false, List, [], ◌∷◌, ◌++◌, none, some, All, Option-cases, inl,
  inr,
}
use deep_seer.Event.Kqueue.{
  Loop, FdEntry, TimerEntry, Filter, evfilt_read, io_call, timer_call, lookup, erase, remove, watch,
  on_io, on_timer, add_timer,
}
use deep_seer.Event.Kqueue.Maps.{lookup-erase_same, lookup_first}
use deep_seer.Net.Socket.{Platform, failed}
use deep_seer.Net.Listener.{
  Callback, readable, resume, Listener, Answer, on_readable, unwatch_socket, watch_socket,
  pause_accepting, resume_accepting, drop_timer,
}
use deep_seer.Net.Listener.Accepting.{Continues, clients, refused, closing, exhaustion_lem}

pub unwatched_lem : (fd : ℕ) (l : Loop Callback) → lookup fd (remove fd l).0.fd_entries ≡ none
unfolding remove
unwatched_lem fd l = elim (Option-cases (lookup fd l.fd_entries)) [
  | inl e ↦ rw (remove, e) e
  | inr (x, e) ↦ rw (remove, e) (lookup-erase_same fd l.fd_entries)
]

pub silent_lem :
    (fd : ℕ) (f : Filter) (eof : Bool) (l : Loop Callback)
    → lookup fd l.fd_entries ≡ none
    → on_io fd f eof l ≡ []
unfolding on_io
silent_lem fd f eof l e = rw (on_io, e) refl

-- A watched listener is called.
pub watch_lem :
    (l : Listener) (fd : ℕ)
    → l.socket ≡ some fd
    → (n : Listener) × (watch_socket l ≡ some n)
      × ((eof : Bool) → on_io fd evfilt_read eof n.loop ≡ io_call fd readable 1 ∷ [])
      × (n.resume_timer ≡ l.resume_timer)
      × (n.socket ≡ l.socket)
      × (n.closed ≡ l.closed)
      × (n.has_callback ≡ l.has_callback)
unfolding watch_socket watch on_io
watch_lem l fd e =
    let m = (watch fd 1 readable l.loop).0 in
    let entry =
      lookup_first fd (let x : FdEntry Callback = record { events = 1; callback = readable } in x)
        (remove fd l.loop).0.fd_entries in
    (record l { loop = m }, rw e refl, λ eof. rw (on_io, entry) refl, refl, refl, refl, refl)

-- The state of a listener that has paused.
unfoldable pub paused : ℕ → Listener → Listener
unfolding remove add_timer
paused fd l =
    let r = add_timer resume (remove fd l.loop).0 in
    record l { loop = r.0; resume_timer = some r.1 }

pause_accepting_lem :
    (l : Listener) (fd : ℕ)
    → l.socket ≡ some fd
    → l.resume_timer ≡ none
    → pause_accepting l ≡ paused fd l
unfolding pause_accepting paused unwatch_socket drop_timer
pause_accepting_lem l fd e f =
    let u : (unwatch_socket l).loop ≡ (remove fd l.loop).0 = rw (unwatch_socket, e) refl in
    ap
      (λ x.
        let r = add_timer resume (unwatch_socket l).loop in
        record l { loop = drop_timer x r.0; resume_timer = some r.1 })
      f
    ∙ ap (λ x. let r = add_timer resume x in record l { loop = r.0; resume_timer = some r.1 }) u

module _ (os : Platform) where
  -- When `accept` fails for lack of descriptors, the listener pauses and recovers: the loop returns
  -- with the clients found so far; until the resume timer fires, an event of the listening descriptor
  -- calls nothing, so the loop does not spin; the timer is registered, and when it fires it calls the
  -- resume callback; and behind that callback an event of the listening descriptor calls the accept
  -- loop again, with no timer left.
  pub pause_lem :
      (bs : List Answer) (last : Answer) (rest : List Answer) (l : Listener) (fd e : ℕ)
      → l.has_callback ≡ true
      → l.socket ≡ some fd
      → l.resume_timer ≡ none
      → All (λ a. Continues os a.accepted) bs
      → last.accepted ≡ failed e
      → os.is_would_block e ≡ false
      → os.is_fd_exhausted e ≡ true
      → (k : Listener) × (id : ℕ) × (m : Loop Callback) × (n : Listener) × (on_readable os
            (bs ++ last ∷ rest)
            l
          ≡ some (k, clients bs, rest))
        × ((f : Filter) (eof : Bool) → on_io fd f eof k.loop ≡ [])
        × (k.resume_timer ≡ some id)
        × (on_timer id k.loop ≡ (m, timer_call id resume ∷ []))
        × (resume_accepting (record k { loop = m }) ≡ some n)
        × ((eof : Bool) → on_io fd evfilt_read eof n.loop ≡ io_call fd readable 1 ∷ [])
        × (n.resume_timer ≡ none)
  unfolding paused add_timer resume_accepting on_timer
  pause_lem bs last rest l fd e h s t c x b d =
      let gone = closing os (refused bs) l in
      let k = paused fd gone in
      let id = (remove fd l.loop).0.next_timer_id in
      let m : Loop Callback = record k.loop { timers = erase id k.loop.timers } in
      let entry =
        lookup_first id
          (let v : TimerEntry Callback = record { callback = resume; cancelled = false } in v)
          (remove fd l.loop).0.timers in
      let (n, w, called, timer, _, _, _) =
        watch_lem (record k { loop = drop_timer (some id) m; resume_timer = none }) fd s in
      (
        k,
        id,
        m,
        n,
        exhaustion_lem os bs last rest l e h c x b d
            ∙ ap (λ y. some (y, clients bs, rest)) (pause_accepting_lem gone fd s t),
        λ f eof. silent_lem fd f eof k.loop (unwatched_lem fd l.loop),
        refl,
        rw (on_timer, entry) refl,
        w,
        called,
        timer,
      )
