-- ===== src/Seer/Engine/Order.antt =====
-- Every submitted item is classified once and in order (SeerLib/src/Engine.cpp).
use deep_seer.Base.{
  ℕ, ◌≡◌, refl, sym, ap, subst, ◌∙◌, Bool, true, false, List, [], ◌∷◌, ◌++◌, Option, none, some,
  append_assoc, append-nil, ◌>>=◌,
}
use deep_seer.Core.Buffer.{Bytes}
use deep_seer.Seer.Engine.{
  WorkItem, Worker, absent, idle, returned, busy, Engine, make_engine, start_worker, ensure_worker,
  submit, wake, delivery, finish, stop, join, Action, submits, wakes, finishes, stops, joins, step,
  run,
}

-- The item that the worker has taken and not finished.
unfoldable pub held : Worker → List WorkItem
held absent = []
held idle = []
held returned = []
held (busy w) = w ∷ []

-- The items of the `submit` actions.
unfoldable pub submitted : List Action → List WorkItem
submitted [] = []
submitted (submits w ∷ rest) = w ∷ submitted rest
submitted (wakes ∷ rest) = submitted rest
submitted (finishes ∷ rest) = submitted rest
submitted (stops ∷ rest) = submitted rest
submitted (joins ∷ rest) = submitted rest

-- A worker that is not there has left nothing behind.
abbrev IsSettled : Worker → Bool → List WorkItem → Type 0
IsSettled absent r q = (r ≡ false) × (q ≡ [])
IsSettled returned r q = (r ≡ false) × (q ≡ [])
IsSettled idle r q = Unit {0}
IsSettled (busy w) r q = Unit {0}

abbrev OnSome : {A : Type 0} → (A → Type 0) → Option A → Type 0
OnSome P none = Unit {0}
OnSome P (some a) = P a

module _ {R : Type 0} (classify : Bytes → R) where
  -- The callbacks that a list of items makes.
  unfoldable pub deliveries : List WorkItem → List (ℕ × R)
  deliveries [] = []
  deliveries (w ∷ ws) = delivery classify w ++ deliveries ws

  deliveries-append :
      (xs ys : List WorkItem) → deliveries (xs ++ ys) ≡ deliveries xs ++ deliveries ys
  unfolding deliveries
  deliveries-append [] ys = refl
  deliveries-append (x ∷ xs) ys =
      ap (delivery classify x ++◌) (deliveries-append xs ys)
      ∙ sym (append_assoc (delivery classify x) (deliveries xs) (deliveries ys))

  -- What was delivered and what is still to come make up `log`.
  record Accounts (log : List (ℕ × R)) (e : Engine R) : Type 0 where
    total : e.results ++ deliveries (held e.worker ++ e.queue) ≡ log
    settled : IsSettled e.worker e.running e.queue

  queued_lem :
      (rs log : List (ℕ × R)) (h q : List WorkItem) (w : WorkItem)
      → rs ++ deliveries (h ++ q) ≡ log
      → rs ++ deliveries (h ++ (q ++ w ∷ [])) ≡ log ++ deliveries (w ∷ [])
  queued_lem rs log h q w t =
      ap (λ x. rs ++ deliveries x) (sym (append_assoc h q (w ∷ [])))
      ∙ ap (rs ++◌) (deliveries-append (h ++ q) (w ∷ []))
      ∙ sym (append_assoc rs (deliveries (h ++ q)) (deliveries (w ∷ [])))
      ∙ ap (λ x. x ++ deliveries (w ∷ [])) t

  submit_lem :
      (w : WorkItem) (r : Bool) (k : Worker) (q : List WorkItem) (rs log : List (ℕ × R))
      → Accounts log (record { running = r; worker = k; queue = q; results = rs })
      → OnSome
          (Accounts (log ++ deliveries (w ∷ [])))
          (submit w (record { running = r; worker = k; queue = q; results = rs }))
  unfolding submit ensure_worker start_worker held
  submit_lem w true absent q rs log p = let h : true ≡ false = p.settled.0 in cc
  submit_lem w true returned q rs log p = let h : true ≡ false = p.settled.0 in cc
  submit_lem w true idle q rs log p = record {
    total = queued_lem rs log [] q w p.total;
    settled = tt;
  }
  submit_lem w true (busy v) q rs log p = record {
    total = queued_lem rs log (v ∷ []) q w p.total;
    settled = tt;
  }
  submit_lem w false absent q rs log p = record {
    total = queued_lem rs log [] q w p.total;
    settled = tt;
  }
  submit_lem w false returned q rs log p = record {
    total = queued_lem rs log [] q w p.total;
    settled = tt;
  }
  submit_lem w false idle q rs log p = tt
  submit_lem w false (busy v) q rs log p = tt

  wake_lem :
      (r : Bool) (k : Worker) (q : List WorkItem) (rs log : List (ℕ × R))
      → Accounts log (record { running = r; worker = k; queue = q; results = rs })
      → OnSome
          (Accounts log)
          (wake k q (record { running = r; worker = k; queue = q; results = rs }))
  unfolding wake held
  wake_lem true idle [] rs log p = tt
  wake_lem false idle [] rs log p = record { total = p.total; settled = (refl, refl) }
  wake_lem r idle (w ∷ q) rs log p = record { total = p.total; settled = tt }
  wake_lem r absent q rs log p = tt
  wake_lem r returned q rs log p = tt
  wake_lem r (busy w) q rs log p = tt

  finish_lem :
      (r : Bool) (k : Worker) (q : List WorkItem) (rs log : List (ℕ × R))
      → Accounts log (record { running = r; worker = k; queue = q; results = rs })
      → OnSome
          (Accounts log)
          (finish classify k (record { running = r; worker = k; queue = q; results = rs }))
  unfolding finish held deliveries
  finish_lem r (busy w) q rs log p = record {
    total = append_assoc rs (delivery classify w) (deliveries q) ∙ p.total;
    settled = tt;
  }
  finish_lem r idle q rs log p = tt
  finish_lem r absent q rs log p = tt
  finish_lem r returned q rs log p = tt

  stop_lem :
      (r : Bool) (k : Worker) (q : List WorkItem) (rs log : List (ℕ × R))
      → Accounts log (record { running = r; worker = k; queue = q; results = rs })
      → Accounts log (record { running = false; worker = k; queue = q; results = rs })
  stop_lem r absent q rs log p = record { total = p.total; settled = (refl, p.settled.1) }
  stop_lem r returned q rs log p = record { total = p.total; settled = (refl, p.settled.1) }
  stop_lem r idle q rs log p = record { total = p.total; settled = tt }
  stop_lem r (busy w) q rs log p = record { total = p.total; settled = tt }

  join_lem :
      (r : Bool) (k : Worker) (q : List WorkItem) (rs log : List (ℕ × R))
      → Accounts log (record { running = r; worker = k; queue = q; results = rs })
      → OnSome (Accounts log) (join k (record { running = r; worker = k; queue = q; results = rs }))
  unfolding join held
  join_lem r absent q rs log p = p
  join_lem r returned q rs log p = record { total = p.total; settled = p.settled }
  join_lem r idle q rs log p = tt
  join_lem r (busy w) q rs log p = tt

  step_lem :
      (a : Action) (e : Engine R) (log : List (ℕ × R))
      → Accounts log e
      → OnSome (Accounts (log ++ deliveries (submitted (a ∷ [])))) (step classify a e)
  unfolding step submitted stop deliveries
  step_lem (submits w) e log p = submit_lem w e.running e.worker e.queue e.results log p
  step_lem wakes e log p = rw (append-nil log) (wake_lem e.running e.worker e.queue e.results log p)
  step_lem finishes e log p =
      rw (append-nil log) (finish_lem e.running e.worker e.queue e.results log p)
  step_lem stops e log p = rw (append-nil log) (stop_lem e.running e.worker e.queue e.results log p)
  step_lem joins e log p = rw (append-nil log) (join_lem e.running e.worker e.queue e.results log p)

  submitted-cons :
      (a : Action) (rest : List Action)
      → deliveries (submitted (a ∷ [])) ++ deliveries (submitted rest)
        ≡ deliveries (submitted (a ∷ rest))
  unfolding submitted deliveries
  submitted-cons (submits w) rest =
      ap (λ x. x ++ deliveries (submitted rest)) (append-nil (delivery classify w))
  submitted-cons wakes rest = refl
  submitted-cons finishes rest = refl
  submitted-cons stops rest = refl
  submitted-cons joins rest = refl

  run_lem :
      (acts : List Action) (e d : Engine R) (log : List (ℕ × R))
      → Accounts log e
      → run classify acts e ≡ some d
      → Accounts (log ++ deliveries (submitted acts)) d
  unfolding run deliveries submitted
  run_lem [] e d log p h = subst (OnSome (Accounts (log ++ []))) h (rw (append-nil log) p)
  run_lem (a ∷ rest) e d log p h =
      go (step classify a e) (step_lem a e log p) h
        (λ c. run_lem rest c d (log ++ deliveries (submitted (a ∷ []))))
    where
      go :
          (o : Option (Engine R))
          → OnSome (Accounts (log ++ deliveries (submitted (a ∷ [])))) o
          → (o >>= run classify rest) ≡ some d
          → ((c : Engine R)
              → Accounts (log ++ deliveries (submitted (a ∷ []))) c
              → run classify rest c ≡ some d
              → Accounts
                  ((log ++ deliveries (submitted (a ∷ []))) ++ deliveries (submitted rest))
                  d)
          → Accounts (log ++ deliveries (submitted (a ∷ rest))) d
      go none q h k = cc
      go (some c) q h k =
          subst (λ x. Accounts x d)
            (append_assoc log (deliveries (submitted (a ∷ []))) (deliveries (submitted rest))
              ∙ ap (log ++◌) (submitted-cons a rest))
            (k c q h)

  -- What has been delivered, then what the worker holds, then what is queued.
  abbrev pub accounted : Engine R → List (ℕ × R)
  accounted e = e.results ++ deliveries (held e.worker ++ e.queue)

  run-Accounts :
      (acts : List Action) (d : Engine R)
      → run classify acts make_engine ≡ some d
      → Accounts (deliveries (submitted acts)) d
  unfolding deliveries held
  run-Accounts acts d h =
      run_lem acts make_engine d [] (record { total = refl; settled = (refl, refl) }) h

  -- After any interleaving of submissions, worker steps, shutdowns and joins that starts from a new
  -- engine: the callbacks made, followed by those of the item in work and of the queue, are those of
  -- all submitted items in their order.
  pub run-deliveries :
      (acts : List Action) (d : Engine R)
      → run classify acts make_engine ≡ some d
      → accounted d ≡ deliveries (submitted acts)
  run-deliveries acts d h = (run-Accounts acts d h).total

  settled_lem :
      (k : Worker) (r : Bool) (q : List WorkItem) (rs log : List (ℕ × R))
      → k ≡ absent
      → IsSettled k r q
      → rs ++ deliveries (held k ++ q) ≡ log
      → rs ≡ log
  unfolding held deliveries
  settled_lem absent r q rs log e s t =
      sym (append-nil rs) ∙ ap (λ x. rs ++ deliveries x) (sym s.1) ∙ t
  settled_lem returned r q rs log e s t = cc
  settled_lem idle r q rs log e s t = cc
  settled_lem (busy w) r q rs log e s t = cc

  -- If an interleaving of submissions, worker steps, shutdowns and joins starts from a new engine
  -- and ends with no worker, the callbacks made are those of all submitted items in their order: a
  -- shutdown loses none.
  pub run_joined :
      (acts : List Action) (d : Engine R)
      → run classify acts make_engine ≡ some d
      → d.worker ≡ absent
      → d.results ≡ deliveries (submitted acts)
  run_joined acts d h e =
      let a = run-Accounts acts d h in
      settled_lem d.worker d.running d.queue d.results (deliveries (submitted acts)) e a.settled
        a.total

  -- The worker's steps after a shutdown.
  unfoldable pub drain_actions : List WorkItem → List Action
  drain_actions [] = wakes ∷ joins ∷ []
  drain_actions (w ∷ ws) = wakes ∷ finishes ∷ drain_actions ws

  drain_lem :
      (q : List WorkItem) (rs : List (ℕ × R))
      → run classify
          (drain_actions q)
          (record { running = false; worker = idle; queue = q; results = rs })
        ≡ some
            (record { running = false; worker = absent; queue = []; results = rs ++ deliveries q })
  unfolding run step wake finish join drain_actions deliveries
  drain_lem [] rs = rw (append-nil rs)
  drain_lem (w ∷ q) rs =
      drain_lem q (rs ++ delivery classify w)
      ∙ ap (λ x. some (record { running = false; worker = absent; queue = []; results = x }))
          (append_assoc rs (delivery classify w) (deliveries q))

  -- From an engine whose worker waits, whatever its queue holds: `shutdown` and then two steps of
  -- the worker for each queued item, one more and the join, are all possible and end with an empty
  -- queue, no worker, and the callbacks of the queue made in order.
  pub shutdown_lem :
      (e : Engine R)
      → e.worker ≡ idle
      → run classify (stops ∷ drain_actions e.queue) e
        ≡ some (record {
          running = false;
          worker = absent;
          queue = [];
          results = e.results ++ deliveries e.queue;
        })
  unfolding run step stop
  shutdown_lem e h =
      ap
        (λ k.
          run classify (drain_actions e.queue)
            (record { running = false; worker = k; queue = e.queue; results = e.results }))
        h
      ∙ drain_lem e.queue e.results
