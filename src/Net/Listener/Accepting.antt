-- ===== src/Net/Listener/Accepting.antt =====
-- The loop of `Listener::onReadable` (DeepSeerLib/src/Net/Listener.cpp).
use deep_seer.Base.{
  ℕ, ◌≡◌, refl, sym, ap, if_true, if_false, ◌∙◌, append_assoc, append-nil, Bool, true, false, ◌||◌,
  List, [], ◌∷◌, ◌++◌, Option, some, arith, Bool-cases, inl, inr, All, if◌then◌else◌, ◌>>=◌,
}
use deep_seer.Net.Socket.{Platform, SysResult, returned, failed, set_nonblocking, accept}
use deep_seer.Net.Listener.{
  Listener, Answer, Turn, breaks, continues, after_accept, turn, on_readable, pause_accepting,
}

-- Whether both calls of `fcntl` succeed.
abbrev pub nonblocking : SysResult → SysResult → Bool
nonblocking (failed e) s = false
nonblocking (returned n) (failed e) = false
nonblocking (returned n) (returned m) = true

-- The connections that `accept` returns: those that become non-blocking, and the others.
abbrev pub clients_of : SysResult → Bool → List ℕ
clients_of (failed e) b = []
clients_of (returned fd) b = if b then fd ∷ [] else []

abbrev pub refused_of : SysResult → Bool → List ℕ
refused_of (failed e) b = []
refused_of (returned fd) b = if b then [] else fd ∷ []

abbrev pub clients : List Answer → List ℕ
clients [] = []
clients (a ∷ bs) = clients_of a.accepted (nonblocking a.get_flags a.set_flags) ++ clients bs

abbrev pub refused : List Answer → List ℕ
refused [] = []
refused (a ∷ bs) = refused_of a.accepted (nonblocking a.get_flags a.set_flags) ++ refused bs

module _ (os : Platform) where
  -- `accept` returns a connection, or an error that is neither an empty queue nor a lack of
  -- descriptors.
  abbrev pub Continues : SysResult → Type 0
  Continues (returned fd) = Unit
  Continues (failed e) = (os.is_would_block e ≡ false) × (os.is_fd_exhausted e ≡ false)

  -- A listener after some connections have been closed.
  abbrev pub closing : List ℕ → Listener → Listener
  closing fds l = record l { closed = l.closed ++ fds }

  closing_none : (l : Listener) → l ≡ closing [] l
  closing_none l = ap (λ fds. record l { closed = fds }) (sym (append-nil l.closed))

  turn_cases :
      (x g s : SysResult) (l : Listener)
      → l.has_callback ≡ true
      → Continues x
      → turn os (record { accepted = x; get_flags = g; set_flags = s }) l
        ≡ continues (closing (refused_of x (nonblocking g s)) l) (clients_of x (nonblocking g s))
  unfolding turn after_accept accept set_nonblocking
  turn_cases (returned fd) (returned n) (returned m) l h c =
      if_true l.has_callback _ _ h ∙ ap (λ k. continues k (fd ∷ [])) (closing_none l)
  turn_cases (returned fd) (returned n) (failed e) l h c = refl
  turn_cases (returned fd) (failed e) s l h c = refl
  turn_cases (failed e) g s l h c =
      ap (after_accept os (record { accepted = failed e; get_flags = g; set_flags = s }) l)
        (if_false (os.is_would_block e) _ _ c.0 ∙ if_false (os.is_fd_exhausted e) _ _ c.1)
      ∙ ap (λ k. continues k []) (closing_none l)

  turn_lem :
      (a : Answer) (l : Listener)
      → l.has_callback ≡ true
      → Continues a.accepted
      → turn os a l
        ≡ continues
            (closing (refused_of a.accepted (nonblocking a.get_flags a.set_flags)) l)
            (clients_of a.accepted (nonblocking a.get_flags a.set_flags))
  turn_lem a l h c = turn_cases a.accepted a.get_flags a.set_flags l h c

  -- What the loop does behind a turn.
  after_turn : List Answer → Turn → Option (Listener × List ℕ × List Answer)
  unfolding on_readable
  after_turn bs t = elim t [
    | breaks l' ↦ some (l', [], bs)
    | continues l' cs ↦
        on_readable os bs l' >>= λ (r : Listener × List ℕ × List Answer). some (r.0, cs ++ r.1, r.2)
  ]

  -- The turns before the last, and what the last does.
  loop_lem :
      (bs : List Answer) (last : Answer) (rest : List Answer) (l : Listener)
      (f : Listener → Listener)
      → l.has_callback ≡ true
      → All (λ a. Continues a.accepted) bs
      → ((k : Listener) → turn os last k ≡ breaks (f k))
      → on_readable os (bs ++ last ∷ rest) l ≡ some (f (closing (refused bs) l), clients bs, rest)
  unfolding on_readable after_turn
  loop_lem [] last rest l f h c e =
      ap (after_turn rest) (e l) ∙ ap (λ k. some (f k, [], rest)) (closing_none l)
  loop_lem (a ∷ bs) last rest l f h c e =
      let gone = refused_of a.accepted (nonblocking a.get_flags a.set_flags) in
      let found = clients_of a.accepted (nonblocking a.get_flags a.set_flags) in
      ap (after_turn (bs ++ last ∷ rest)) (turn_lem a l h c.0)
      ∙ ap
          (λ (o : Option (Listener × List ℕ × List Answer)).
            o >>= λ r. some (r.0, found ++ r.1, r.2))
          (loop_lem bs last rest (closing gone l) f h c.1 e)
      ∙ ap (λ fds. some (f (record l { closed = fds }), found ++ clients bs, rest))
          (append_assoc l.closed gone (refused bs))

  -- Whether an answer ends the loop, and whether some answer does.
  abbrev pub ends_loop : SysResult → Bool
  ends_loop (returned fd) = false
  ends_loop (failed e) = os.is_would_block e || os.is_fd_exhausted e

  abbrev pub has_end : List Answer → Bool
  has_end [] = false
  has_end (a ∷ bs) = ends_loop a.accepted || has_end bs

  -- The connections before that answer that become clients.
  abbrev pub arrived : List Answer → List ℕ
  arrived [] = []
  arrived (a ∷ bs) =
      if ends_loop a.accepted
      then []
      else clients_of a.accepted (nonblocking a.get_flags a.set_flags) ++ arrived bs

  -- What the loop leaves of a listener that it does not stop.
  abbrev pub Keeps : Listener → Listener → Type 0
  Keeps l k = (k.has_callback ≡ l.has_callback) × (k.socket ≡ l.socket)

  ends_lem :
      (x g s : SysResult) (l : Listener)
      → ends_loop x ≡ true
      → (k : Listener) × (turn os (record { accepted = x; get_flags = g; set_flags = s }) l
          ≡ breaks k)
        × Keeps l k
  unfolding turn after_accept accept pause_accepting
  ends_lem (returned fd) g s l e = cc
  ends_lem (failed e) g s l h = elim (Bool-cases (os.is_would_block e)) [
    | inl b ↦ (
      l,
      ap (after_accept os (record { accepted = failed e; get_flags = g; set_flags = s }) l)
          (if_true (os.is_would_block e) _ _ b),
      (refl, refl),
    )
    | inr b ↦
        let d : os.is_fd_exhausted e ≡ true = ground (arith, h, b) in
        (
          pause_accepting l,
          ap (after_accept os (record { accepted = failed e; get_flags = g; set_flags = s }) l)
              (if_false (os.is_would_block e) _ _ b ∙ if_true (os.is_fd_exhausted e) _ _ d),
          (refl, refl),
        )
  ]

  continues_lem : (x : SysResult) → ends_loop x ≡ false → Continues x
  continues_lem (returned fd) e = tt
  continues_lem (failed e) h = (ground (arith, h), ground (arith, h))

  -- On every sequence of answers that has an end, the accept loop returns.
  pub returns_lem :
      (bs : List Answer) (l : Listener)
      → l.has_callback ≡ true
      → has_end bs ≡ true
      → (k : Listener) × (rest : List Answer) × (on_readable os bs l ≡ some (k, arrived bs, rest))
        × Keeps l k
  unfolding on_readable after_turn
  returns_lem [] l h e = cc
  returns_lem (a ∷ bs) l h e = elim (Bool-cases (ends_loop a.accepted)) [
    | inl b ↦
        let (k, t, keeps) = ends_lem a.accepted a.get_flags a.set_flags l b in
        (
          k,
          bs,
          ap (after_turn bs) t
              ∙ ap (λ cs. some (k, cs, bs)) (sym (if_true (ends_loop a.accepted) _ _ b)),
          keeps,
        )
    | inr b ↦
        let gone = refused_of a.accepted (nonblocking a.get_flags a.set_flags) in
        let found = clients_of a.accepted (nonblocking a.get_flags a.set_flags) in
        let (k, rest, r, keeps) = returns_lem bs (closing gone l) h (ground (arith, e, b)) in
        (
          k,
          rest,
          ap (after_turn bs) (turn_lem a l h (continues_lem a.accepted b))
              ∙ ap
                  (λ (o : Option (Listener × List ℕ × List Answer)).
                    o >>= λ r. some (r.0, found ++ r.1, r.2))
                  r
              ∙ ap (λ cs. some (k, cs, rest)) (sym (if_false (ends_loop a.accepted) _ _ b)),
          keeps,
        )
  ]

  -- A run of the accept loop on connections and errors that are only logged, and then an empty queue:
  -- it returns, gives the connections that could be made non-blocking to the callback, in order,
  -- closes the others, and leaves the rest of the listener and the loop as they were.
  pub drain_lem :
      (bs : List Answer) (last : Answer) (rest : List Answer) (l : Listener) (e : ℕ)
      → l.has_callback ≡ true
      → All (λ a. Continues a.accepted) bs
      → last.accepted ≡ failed e
      → os.is_would_block e ≡ true
      → on_readable os (bs ++ last ∷ rest) l
        ≡ some (record l { closed = l.closed ++ refused bs }, clients bs, rest)
  unfolding turn after_accept accept
  drain_lem bs last rest l e h c x b =
      loop_lem bs last rest l (λ k. k) h c
        (λ k. ap (after_accept os last k) (ap (accept os) x ∙ if_true (os.is_would_block e) _ _ b))

  -- The same run, but ended by a lack of descriptors: the listener pauses.
  pub exhaustion_lem :
      (bs : List Answer) (last : Answer) (rest : List Answer) (l : Listener) (e : ℕ)
      → l.has_callback ≡ true
      → All (λ a. Continues a.accepted) bs
      → last.accepted ≡ failed e
      → os.is_would_block e ≡ false
      → os.is_fd_exhausted e ≡ true
      → on_readable os (bs ++ last ∷ rest) l
        ≡ some (pause_accepting (closing (refused bs) l), clients bs, rest)
  unfolding turn after_accept accept
  exhaustion_lem bs last rest l e h c x b d = loop_lem bs last rest l pause_accepting h c (λ k.
      ap (after_accept os last k) (
        ap (accept os) x
        ∙ if_false (os.is_would_block e) _ _ b
        ∙ if_true (os.is_fd_exhausted e) _ _ d))
