-- ===== src/Event/Kqueue/Interest.antt =====
-- What the kernel watches, from the changes that the loop hands to `kevent`.
use deep_seer.Base.{
  ℕ, ◌≡◌, refl, sym, ap, ◌∙◌, inl, inr, Bool, true, false, ◌&&◌, List, [], ◌∷◌, ◌++◌, Option, none,
  some, arith, if◌then◌else◌, ◌==◌, ==_iff, Bool-cases, Option-cases,
}
use deep_seer.Event.Kqueue.Maps.{lookup-erase}
use deep_seer.Event.Kqueue.{
  Filter, evfilt_read, evfilt_write, Change, change_if, has_readable, has_writable, lookup, FdEntry,
  Loop, make_loop, changes, remove, watch,
}

abbrev pub same_filter : Filter → Filter → Bool
same_filter evfilt_read evfilt_read = true
same_filter evfilt_write evfilt_write = true
same_filter _ _ = false

-- A kernel queue: what is registered, under `EV_ADD` and `EV_DELETE` of one filter.
pub record Kernel : Type 1 where
  pub State : Type 0
  pub registered : State → ℕ → Filter → Bool
  pub kevent : Change → State → State
  pub kevent_lem :
      (c : Change) (k : State) (fd : ℕ) (f : Filter)
      → registered (kevent c k) fd f
        ≡ (if c.fd == fd && same_filter c.filter f then c.add else registered k fd f)

-- The bit of a mask that a filter stands for, and the interest in a descriptor.
abbrev pub mask_bit : Filter → ℕ → Bool
mask_bit evfilt_read events = has_readable events
mask_bit evfilt_write events = has_writable events

module _ (kernel : Kernel) where
  open kernel use {State, registered, kevent, kevent_lem}

  -- The changes of one call, in order.
  pub apply : List Change → State → State
  apply [] k = k
  apply (c ∷ cs) k = apply cs (kevent c k)

  apply-append : (cs ds : List Change) (k : State) → apply (cs ++ ds) k ≡ apply ds (apply cs k)
  unfolding apply
  apply-append [] ds k = refl
  apply-append (c ∷ cs) ds k = apply-append cs ds (kevent c k)

  abbrev choose : Filter → Bool → Bool → Bool
  choose evfilt_read r w = r
  choose evfilt_write r w = w

  abbrev add_read : Bool → ℕ → Change
  add_read add fd = record { add = add; fd = fd; filter = evfilt_read }

  abbrev add_write : Bool → ℕ → Change
  add_write add fd = record { add = add; fd = fd; filter = evfilt_write }

  apply-change_if :
      (add : Bool) (fd : ℕ) (r w : Bool) (k : State) (j : ℕ) (f : Filter)
      → registered (apply (change_if r (add_read add fd) ++ change_if w (add_write add fd)) k) j f
        ≡ (if fd == j && choose f r w then add else registered k j f)
  unfolding apply
  apply-change_if add fd true true k j f =
      kevent_lem (add_write add fd) (kevent (add_read add fd) k) j f
      ∙ rw (kevent_lem (add_read add fd) k j f) (both f)
    where
      both :
          (g : Filter)
          → (if fd == j && same_filter evfilt_write g
              then add
              else if fd == j && same_filter evfilt_read g
              then add
              else registered k j f)
            ≡ (if fd == j && choose g true true then add else registered k j f)
      both evfilt_read = ground arith
      both evfilt_write = ground arith
  apply-change_if add fd true false k j evfilt_read = kevent_lem (add_read add fd) k j evfilt_read
  apply-change_if add fd true false k j evfilt_write = kevent_lem (add_read add fd) k j evfilt_write
  apply-change_if add fd false true k j evfilt_read = kevent_lem (add_write add fd) k j evfilt_read
  apply-change_if add fd false true k j evfilt_write =
      kevent_lem (add_write add fd) k j evfilt_write
  apply-change_if add fd false false k j evfilt_read = ground arith
  apply-change_if add fd false false k j evfilt_write = ground arith

  -- A descriptor's changes set the filters of the mask and no other.
  apply-changes :
      (add : Bool) (fd events : ℕ) (k : State) (j : ℕ) (f : Filter)
      → registered (apply (changes add fd events) k) j f
        ≡ (if fd == j && mask_bit f events then add else registered k j f)
  apply-changes add fd events k j evfilt_read = apply-change_if add fd _ _ k j evfilt_read
  apply-changes add fd events k j evfilt_write = apply-change_if add fd _ _ k j evfilt_write

wanted_false : (b w : Bool) → w ≡ false → (if b then true else w) ≡ b
wanted_false b w h = ground arith

-- The calls that change what a loop watches.
pub data Call (C : Type 0) : Type 0 where
  watches : ℕ → ℕ → C → Call C
  removes : ℕ → Call C

module _ {C : Type 0} where
  abbrev pub entry_bit : Option (FdEntry C) → Filter → Bool
  entry_bit none f = false
  entry_bit (some e) f = mask_bit f e.events

  -- The interest that the loop records for a descriptor.
  abbrev pub wanted : Loop C → ℕ → Filter → Bool
  wanted l fd f = entry_bit (lookup fd l.fd_entries) f

  module _ (kernel : Kernel) where
    open kernel use {State, registered, kevent, kevent_lem}

    -- A sequence of calls, with their changes applied.
    unfoldable pub run : List (Call C) → Loop C → State → Loop C × State
    run [] l k = (l, k)
    run (watches fd events cb ∷ ops) l k =
        run ops (watch fd events cb l).0 (apply kernel (watch fd events cb l).1 k)
    run (removes fd ∷ ops) l k = run ops (remove fd l).0 (apply kernel (remove fd l).1 k)

    -- The kernel watches what the loop records.
    abbrev pub Agrees : Loop C → State → Type 0
    Agrees l k = (fd : ℕ) (f : Filter) → registered k fd f ≡ wanted l fd f

    remove-Agrees :
        (fd : ℕ) (l : Loop C) (k : State)
        → Agrees l k
        → Agrees (remove fd l).0 (apply kernel (remove fd l).1 k)
          × ((f : Filter) → wanted (remove fd l).0 fd f ≡ false)
    unfolding remove
    remove-Agrees fd l k h = elim (Option-cases (lookup fd l.fd_entries)) [
      | inl e ↦ rw (e, remove) (unfold apply in h, λ f. rw e)
      | inr (v, e) ↦
          rw (e, remove)
            (
              λ j f.
                  apply-changes kernel false fd v.events k j f
                  ∙ rw (lookup-erase fd j l.fd_entries)
                      (ground (arith, h j f, ==_iff fd j, ap (λ x. entry_bit x f) e)),
              λ f. rw (lookup-erase fd fd l.fd_entries) (ground arith),
            )
    ]

    watch-Agrees :
        (fd events : ℕ) (cb : C) (l : Loop C) (k : State)
        → Agrees l k
        → Agrees (watch fd events cb l).0 (apply kernel (watch fd events cb l).1 k)
    unfolding watch
    watch-Agrees fd events cb l k h j f =
        let r = remove-Agrees fd l k h in
        rw (apply-append kernel (remove fd l).1 (changes true fd events) k) (
          apply-changes kernel true fd events (apply kernel (remove fd l).1 k) j f
          ∙ rw (r.0 j f) (elim (Bool-cases (fd == j)) [
            | inl e ↦ rw e (
                wanted_false (mask_bit f events) _
                  (ap (λ i. wanted (remove fd l).0 i f) (sym ((==_iff fd j).0 e)) ∙ r.1 f))
            | inr e ↦ rw e
          ]))

    pub run-Agrees :
        (ops : List (Call C)) (l : Loop C) (k : State)
        → Agrees l k
        → let (l', k') = run ops l k in Agrees l' k'
    unfolding run
    run-Agrees [] l k h = h
    run-Agrees (watches fd events cb ∷ ops) l k h =
        run-Agrees ops (watch fd events cb l).0 (apply kernel (watch fd events cb l).1 k)
          (watch-Agrees fd events cb l k h)
    run-Agrees (removes fd ∷ ops) l k h =
        run-Agrees ops (remove fd l).0 (apply kernel (remove fd l).1 k) (remove-Agrees fd l k h).0

    -- After any sequence of `watch` and `remove` on a new loop, by the changes that the loop hands
    -- to a kernel queue that watched nothing: the kernel watches a descriptor under a filter exactly
    -- if the loop has an entry for it whose mask has that filter's bit.
    pub kernel_agrees :
        (ops : List (Call C)) (k : State) (fd : ℕ) (f : Filter)
        → ((j : ℕ) (g : Filter) → registered k j g ≡ false)
        → let (l, k') = run ops make_loop k in registered k' fd f ≡ wanted l fd f
    kernel_agrees ops k fd f h = run-Agrees ops make_loop k h fd f
