-- ===== src/Event/Kqueue/Timers.antt =====
-- Timers fire once at most, and not after they were cancelled.
use deep_seer.Base.{
  ℕ, ◌+◌, ◌≤◌, ◌<◌, ◌≡◌, refl, ap, inl, inr, Bool, List, [], ◌∷◌, Option, none, some, arith,
  if◌then◌else◌, ◌==◌, ==_iff, Option-cases,
}
use deep_seer.Event.Kqueue.Maps.{lookup-erase}
use deep_seer.Event.Kqueue.{
  Filter, lookup, TimerEntry, Loop, Invocation, io_call, timer_call, posted_call, remove, watch,
  add_timer, mark_cancelled, cancel_timer, on_timer, on_io, on_wake, posted_calls, post, stop,
  start_run,
}

-- What the owner and the kernel do to a loop.
pub data Op (C : Type 0) : Type 0 where
  watches : ℕ → ℕ → C → Op C
  removes : ℕ → Op C
  adds_timer : C → Op C
  cancels : ℕ → Op C
  posts : C → Op C
  stops starts wakes : Op C
  timer_event : ℕ → Op C
  io_event : ℕ → Filter → Bool → Op C

module _ {C : Type 0} where
  unfoldable pub step : Op C → Loop C → Loop C × List (Invocation C)
  step (watches fd events cb) l = ((watch fd events cb l).0, [])
  step (removes fd) l = ((remove fd l).0, [])
  step (adds_timer cb) l = ((add_timer cb l).0, [])
  step (cancels id) l = (cancel_timer id l, [])
  step (posts cb) l = (post cb l, [])
  step stops l = (stop l, [])
  step starts l = (start_run l, [])
  step wakes l = on_wake l
  step (timer_event id) l = on_timer id l
  step (io_event fd f eof) l = (l, on_io fd f eof l)

  -- How often a timer's callback is among the invocations.
  abbrev pub count : ℕ → List (Invocation C) → ℕ
  count id [] = 0
  count id (timer_call j c ∷ is) = (if j == id then 1 else 0) + count id is
  count id (io_call fd c m ∷ is) = count id is
  count id (posted_call c ∷ is) = count id is

  -- How often it is invoked in a run.
  unfoldable pub fires : ℕ → List (Op C) → Loop C → ℕ
  unfolding step
  fires id [] l = 0
  fires id (o ∷ os) l = count id (step o l).1 + fires id os (step o l).0

  abbrev live_entry : Option (TimerEntry C) → ℕ
  live_entry none = 0
  live_entry (some t) = if t.cancelled then 0 else 1

  live-le-one : (t : Option (TimerEntry C)) → live_entry t ≤ 1
  live-le-one none = omega arith
  live-le-one (some t) = ground arith

  -- 1 for a timer that is registered and not cancelled.
  abbrev pub live : ℕ → Loop C → ℕ
  live id l = live_entry (lookup id l.timers)

  live-mark_cancelled :
      (k j : ℕ) (m : List (ℕ × TimerEntry C))
      → live_entry (lookup j (mark_cancelled k m)) ≡ (if k == j then 0 else live_entry (lookup j m))
  unfolding mark_cancelled
  live-mark_cancelled k j [] = ground arith
  live-mark_cancelled k j ((i, v) ∷ m) = ground (arith, live-mark_cancelled k j m)

  count-posted : (id : ℕ) (cs : List C) → count id (posted_calls cs) ≡ 0
  count-posted id [] = refl
  count-posted id (c ∷ cs) = count-posted id cs

  timers-remove :
      (fd : ℕ) (l : Loop C)
      → ((remove fd l).0.timers ≡ l.timers) × ((remove fd l).0.next_timer_id ≡ l.next_timer_id)
  unfolding remove
  timers-remove fd l = ground arith

  on_timer-live :
      (id j : ℕ) (l : Loop C)
      → (count id (on_timer j l).1 + live id (on_timer j l).0 ≤ live id l)
        × ((on_timer j l).0.next_timer_id ≡ l.next_timer_id)
  unfolding on_timer
  on_timer-live id j l = elim (Option-cases (lookup j l.timers)) [
    | inl e ↦ rw (e, on_timer) (omega arith, refl)
    | inr (t, e) ↦
        rw (e, on_timer, lookup-erase j id l.timers)
          (ground (arith, e, ==_iff j id, ap live_entry e), refl)
  ]

  -- One step: what it invokes of a timer is paid by the timer's life.
  step-live :
      (id : ℕ) (o : Op C) (l : Loop C)
      → id < l.next_timer_id
      → (count id (step o l).1 + live id (step o l).0 ≤ live id l)
        × (l.next_timer_id ≤ (step o l).0.next_timer_id)
  unfolding step
  step-live id (watches fd events cb) l h =
      unfold watch in rw ((timers-remove fd l).0, (timers-remove fd l).1) (omega arith)
  step-live id (removes fd) l h = rw ((timers-remove fd l).0, (timers-remove fd l).1) (omega arith)
  step-live id (adds_timer cb) l h = unfold add_timer in ground (arith, ==_iff l.next_timer_id id)
  step-live id (cancels j) l h =
      unfold cancel_timer in rw (live-mark_cancelled j id l.timers) (ground arith)
  step-live id (posts cb) l h = unfold post in omega arith
  step-live id stops l h = unfold stop in omega arith
  step-live id starts l h = unfold start_run in omega arith
  step-live id wakes l h = unfold on_wake in rw (count-posted id l.posted_callbacks) (omega arith)
  step-live id (timer_event j) l h = let p = on_timer-live id j l in (p.0, omega (arith, p.1))
  step-live id (io_event fd f eof) l h = unfold on_io in ground arith

  fires-le-live :
      (id : ℕ) (os : List (Op C)) (l : Loop C) → id < l.next_timer_id → fires id os l ≤ live id l
  unfolding fires
  fires-le-live id [] l h = omega arith
  fires-le-live id (o ∷ os) l h =
      let p = step-live id o l h in
      omega (arith, p.0, fires-le-live id os (step o l).0 (omega (arith, p.1, h)))

  -- In any run of calls and events from a loop that has already given a timer its identifier, the
  -- timer's callback is invoked once at most, and not at all if the run begins with its
  -- cancellation.
  pub timer_once :
      (id : ℕ) (os : List (Op C)) (l : Loop C)
      → id < l.next_timer_id
      → (fires id os l ≤ 1) × (fires id (cancels id ∷ os) l ≡ 0)
  timer_once id os l h = (
    omega (arith, fires-le-live id os l h, live-le-one (lookup id l.timers)),
    unfold fires step in
        omega (arith, fires-le-live id os (cancel_timer id l) (unfold cancel_timer in h), gone),
  )
    where
      gone : live id (cancel_timer id l) ≡ 0
      gone = unfold cancel_timer in rw (live-mark_cancelled id id l.timers) (ground arith)
