-- ===== src/Seer/Engine.antt =====
-- SeerLib/src/Engine.cpp and SeerLib/include/Seer/Engine.hpp. Each action is one critical section of
-- `mutex_`, or the work between two of them; `classify`, which the subclasses define, is a
-- parameter. `none` is an action that does not happen in that state.
pub mod Order
use deep_seer.Base.{
  ℕ, ◌≡◌, Bool, true, false, List, [], ◌∷◌, ◌++◌, Option, none, some, if◌then◌else◌, ◌>>=◌,
}
use deep_seer.Core.Buffer.{Bytes}

-- `WorkItem`: `on_result` names the callback, where one is set.
pub record WorkItem : Type 0 where
  pub payload : Bytes
  pub url : Bytes
  pub on_result : Option ℕ

-- The thread `worker_`: not started or joined, at the lock or waiting in `cv_.wait`, at work on an
-- item outside the lock, or returned from `workerLoop` and not joined yet.
pub data Worker : Type 0 where
  absent idle returned : Worker
  busy : WorkItem → Worker

-- `results` holds the calls of the callbacks.
pub record Engine (R : Type 0) : Type 0 where
  pub running : Bool
  pub worker : Worker
  pub queue : List WorkItem
  pub results : List (ℕ × R)

abbrev pub make_engine : {R : Type 0} → Engine R
make_engine = record { running = false; worker = absent; queue = []; results = [] }

-- `startWorker` under `ensureWorker`: the assignment to `worker_` joins the thread it holds, which
-- cannot return while the caller has the lock.
unfoldable pub start_worker : {R : Type 0} → Worker → Engine R → Option (Engine R)
start_worker absent e = some (record e { running = true; worker = idle })
start_worker returned e = some (record e { running = true; worker = idle })
start_worker idle e = none
start_worker (busy w) e = none

unfoldable pub ensure_worker : {R : Type 0} → Engine R → Option (Engine R)
unfolding start_worker
ensure_worker e = if e.running then some e else start_worker e.worker e

-- `submit`.
unfoldable pub submit : {R : Type 0} → WorkItem → Engine R → Option (Engine R)
unfolding ensure_worker
submit w e = do d ← ensure_worker e; some (record d { queue = d.queue ++ w ∷ [] })

-- The locked part of `workerLoop`: it goes on to an item, returns, or waits.
unfoldable pub wake : {R : Type 0} → Worker → List WorkItem → Engine R → Option (Engine R)
wake idle [] e = if e.running then none else some (record e { worker = returned })
wake idle (w ∷ ws) e = some (record e { worker = busy w; queue = ws })
wake absent ws e = none
wake returned ws e = none
wake (busy w) ws e = none

-- The call of `onResult`, where it is set.
unfoldable pub delivery : {R : Type 0} → (Bytes → R) → WorkItem → List (ℕ × R)
delivery classify w = elim w.on_result [ none ↦ [] | some k ↦ (k, classify w.payload) ∷ [] ]

module _ {R : Type 0} (classify : Bytes → R) where
  -- The unlocked part of `workerLoop`.
  unfoldable pub finish : Worker → Engine R → Option (Engine R)
  unfolding delivery
  finish (busy w) e = some (record e { worker = idle; results = e.results ++ delivery classify w })
  finish idle e = none
  finish absent e = none
  finish returned e = none

-- The locked part of `shutdown`, and the `join` that follows it.
unfoldable pub stop : {R : Type 0} → Engine R → Option (Engine R)
stop e = some (record e { running = false })

unfoldable pub join : {R : Type 0} → Worker → Engine R → Option (Engine R)
join returned e = some (record e { worker = absent })
join absent e = some e
join idle e = none
join (busy w) e = none

pub data Action : Type 0 where
  submits : WorkItem → Action
  wakes finishes stops joins : Action

module _ {R : Type 0} (classify : Bytes → R) where
  unfoldable pub step : Action → Engine R → Option (Engine R)
  unfolding submit wake finish stop join
  step (submits w) e = submit w e
  step wakes e = wake e.worker e.queue e
  step finishes e = finish classify e.worker e
  step stops e = stop e
  step joins e = join e.worker e

  -- Some interleaving of the callers and the worker.
  unfoldable pub run : List Action → Engine R → Option (Engine R)
  unfolding step
  run [] e = some e
  run (a ∷ rest) e = do d ← step a e; run rest d
