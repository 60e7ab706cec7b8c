-- ===== src/Event/Kqueue.antt =====
-- DeepSeerLib/src/Event/KqueueLoop.cpp and DeepSeerLib/src/Event/KqueueLoop.hpp. Callbacks are an
-- abstract type: a handled event gives the callbacks that it invokes, in order, and what they do to
-- the loop are steps that follow. The changes that the loop hands to `kevent` are part of the result.
pub mod Maps
pub mod Interest
pub mod Timers
use deep_seer.Base.{
  ℕ, suc, ◌+◌, ◌*◌, ◌/◌, ◌%◌, ◌≡◌, Bool, true, false, ◌&&◌, ◌||◌, not, List, [], ◌∷◌, ◌++◌, Option,
  none, some, if◌then◌else◌, ◌==◌, leb,
}

-- `EVFILT_READ` and `EVFILT_WRITE`.
pub data Filter : Type 0 where
  evfilt_read evfilt_write : Filter

-- A registration handed to `kevent`: `EV_ADD | EV_ENABLE` or `EV_DELETE`.
pub record Change : Type 0 where
  pub add : Bool
  pub fd : ℕ
  pub filter : Filter

-- `events & IoEvent::Readable` and `events & IoEvent::Writable`.
abbrev pub has_readable : ℕ → Bool
has_readable events = events % 2 == 1

abbrev pub has_writable : ℕ → Bool
has_writable events = (events / 2) % 2 == 1

module _ {C : Type 0} where
  -- `std::unordered_map` as an association list with one entry for a key.
  abbrev pub lookup : ℕ → List (ℕ × C) → Option C
  lookup k [] = none
  lookup k ((j, v) ∷ m) = if j == k then some v else lookup k m

  abbrev pub erase : ℕ → List (ℕ × C) → List (ℕ × C)
  erase k [] = []
  erase k ((j, v) ∷ m) = if j == k then erase k m else (j, v) ∷ erase k m

pub record FdEntry (C : Type 0) : Type 0 where
  pub events : ℕ
  pub callback : C

pub record TimerEntry (C : Type 0) : Type 0 where
  pub callback : C
  pub cancelled : Bool

pub record Loop (C : Type 0) : Type 0 where
  pub running : Bool
  pub fd_entries : List (ℕ × FdEntry C)
  pub timers : List (ℕ × TimerEntry C)
  pub next_timer_id : ℕ
  pub posted_callbacks : List C
  -- Bytes in the wake pipe.
  pub woken : Bool

-- A call of a callback: of a descriptor with the fired mask, of a timer, or a posted one.
pub data Invocation (C : Type 0) : Type 0 where
  io_call : ℕ → C → ℕ → Invocation C
  timer_call : ℕ → C → Invocation C
  posted_call : C → Invocation C

abbrev pub change_if : Bool → Change → List Change
change_if b c = if b then c ∷ [] else []

-- The registrations of one descriptor under a mask.
abbrev pub changes : Bool → ℕ → ℕ → List Change
changes add fd events =
    change_if (has_readable events) (record { add = add; fd = fd; filter = evfilt_read })
    ++ change_if (has_writable events) (record { add = add; fd = fd; filter = evfilt_write })

-- The mask of the descriptor branch of `run`, from the filter that fired and the `EV_EOF` flag.
abbrev pub fired_mask : Filter → Bool → ℕ
fired_mask evfilt_read eof = 1
fired_mask evfilt_write eof = if eof then 3 else 2

module _ {C : Type 0} where
  -- `KqueueLoop::KqueueLoop`.
  abbrev pub make_loop : Loop C
  make_loop = record {
    running = false;
    fd_entries = [];
    timers = [];
    next_timer_id = 1;
    posted_callbacks = [];
    woken = false;
  }

  -- `KqueueLoop::remove`.
  unfoldable pub remove : ℕ → Loop C → Loop C × List Change
  remove fd l = elim (lookup fd l.fd_entries) [
    | none ↦ (l, [])
    | some e ↦ (record l { fd_entries = erase fd l.fd_entries }, changes false fd e.events)
  ]

  -- `KqueueLoop::watch`.
  unfoldable pub watch : ℕ → ℕ → C → Loop C → Loop C × List Change
  unfolding remove
  watch fd events cb l =
      let (l', gone) = remove fd l in
      (
        record l' { fd_entries = (fd, record { events = events; callback = cb }) ∷ l'.fd_entries },
        gone ++ changes true fd events,
      )

  -- `KqueueLoop::addTimer`: the loop and the timer's identifier.
  unfoldable pub add_timer : C → Loop C → Loop C × ℕ
  add_timer cb l = (
    record l {
      timers = (l.next_timer_id, record { callback = cb; cancelled = false }) ∷ l.timers;
      next_timer_id = l.next_timer_id + 1;
    },
    l.next_timer_id,
  )

  mark_cancelled : ℕ → List (ℕ × TimerEntry C) → List (ℕ × TimerEntry C)
  mark_cancelled id [] = []
  mark_cancelled id ((j, t) ∷ ts) =
      if j == id
      then (j, record t { cancelled = true }) ∷ mark_cancelled id ts
      else (j, t) ∷ mark_cancelled id ts

  -- `KqueueTimerHandle::cancel`, and its destructor: the entry is shared with the loop.
  unfoldable pub cancel_timer : ℕ → Loop C → Loop C
  unfolding mark_cancelled
  cancel_timer id l = record l { timers = mark_cancelled id l.timers }

  -- The timer branch of `run`.
  unfoldable pub on_timer : ℕ → Loop C → Loop C × List (Invocation C)
  on_timer id l = elim (lookup id l.timers) [
    | none ↦ (l, [])
    | some t ↦ (
      record l { timers = erase id l.timers },
      if t.cancelled then [] else timer_call id t.callback ∷ [],
    )
  ]

  -- The descriptor branch of `run`.
  unfoldable pub on_io : ℕ → Filter → Bool → Loop C → List (Invocation C)
  on_io fd f eof l = elim (lookup fd l.fd_entries) [
    | none ↦ []
    | some e ↦ io_call fd e.callback (fired_mask f eof) ∷ []
  ]

  abbrev pub posted_calls : List C → List (Invocation C)
  posted_calls [] = []
  posted_calls (c ∷ cs) = posted_call c ∷ posted_calls cs

  -- The wake branch of `run`: the pipe is emptied and `processPosted` swaps the callbacks out.
  unfoldable pub on_wake : Loop C → Loop C × List (Invocation C)
  on_wake l = (record l { posted_callbacks = []; woken = false }, posted_calls l.posted_callbacks)

  -- `KqueueLoop::post`.
  unfoldable pub post : C → Loop C → Loop C
  post cb l = record l { posted_callbacks = l.posted_callbacks ++ cb ∷ []; woken = true }

  -- `KqueueLoop::stop`.
  unfoldable pub stop : Loop C → Loop C
  stop l = record l { running = false; woken = true }

  -- The store at the start of `KqueueLoop::run`.
  unfoldable pub start_run : Loop C → Loop C
  start_run l = record l { running = true }
