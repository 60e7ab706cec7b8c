-- ===== src/Net/Tls/Tidy.antt =====
-- One step of a TLS connection, and two (DeepSeerLib/src/Tls/TlsConnection.cpp).
use deep_seer.Base.{
  ℕ, ◌+◌, ◌≤◌, ◌≡◌, refl, sym, ap, subst, ◌∙◌, Bool, true, false, not, List, [], ◌∷◌, ◌++◌,
  append-nil, Option, none, some, inl, inr, length, arith, if◌then◌else◌, if_true, if_false,
  Bool-cases,
}
use deep_seer.Net.Connection.{data_note, close_note, error_note}
use deep_seer.Net.Tls.{
  TlsConnection, Event, handshake_complete, handshake_error, note, Outcome, quiet, close,
}

-- An event that tells the owner of the end of the connection.
abbrev pub is_terminal : Event → Bool
is_terminal handshake_complete = false
is_terminal (handshake_error e) = true
is_terminal (note (data_note b)) = false
is_terminal (note close_note) = true
is_terminal (note (error_note e)) = true

abbrev pub bit : Bool → ℕ
bit b = if b then 1 else 0

-- How many events are terminal, and how many follow the first terminal one.
abbrev pub terminals : List Event → ℕ
terminals [] = 0
terminals (e ∷ es) = bit (is_terminal e) + terminals es

abbrev pub followers : List Event → ℕ
followers [] = 0
followers (e ∷ es) = if is_terminal e then length es else followers es

abbrev pub owns_fd : TlsConnection → Bool
owns_fd c = elim c.fd [ none ↦ false | some n ↦ true ]

abbrev pub watches : TlsConnection → Bool
watches c = elim c.watched [ none ↦ false | some n ↦ true ]

-- The descriptor is owned until the close, and nothing is watched behind it.
pub record IsSane (c : TlsConnection) : Type 0 where
  pub owned : owns_fd c ≡ not c.closed
  pub unwatched : c.closed ≡ true → watches c ≡ false

abbrev pub openness : TlsConnection → ℕ
openness c = if c.closed then 0 else 1

-- One step of the connection.
pub record IsTidy (c : TlsConnection) (es : List Event) (d : TlsConnection) : Type 0 where
  pub sane : IsSane d
  pub silent : c.closed ≡ true → es ≡ []
  pub single : terminals es + openness d ≤ openness c
  pub last : followers es ≡ 0

-- A step that says nothing and does not open the connection.
pub quiet-IsTidy : (c d : TlsConnection) → IsSane d → openness d ≤ openness c → IsTidy c [] d
quiet-IsTidy c d s h = record {
  sane = s;
  silent = λ e. refl;
  single = omega (arith, h);
  last = refl;
}

pub openness-closed : (c : TlsConnection) → c.closed ≡ true → openness c ≡ 0
openness-closed c e = ap (λ b. if b then 0 else 1) e

pub openness-open : (c : TlsConnection) → c.closed ≡ false → openness c ≡ 1
openness-open c e = ap (λ b. if b then 0 else 1) e

pub closed_of : (c : TlsConnection) → openness c ≤ 0 → c.closed ≡ true
closed_of c h = elim (Bool-cases c.closed) [
  | inl e ↦ e
  | inr e ↦ absurd (omega (arith, openness-open c e, h))
]

-- The close of an open connection, told by one event.
pub ended-IsTidy :
    (c : TlsConnection) (e : Event)
    → c.closed ≡ false
    → is_terminal e ≡ true
    → IsTidy c (e ∷ []) (close c)
unfolding close
ended-IsTidy c e o t =
    let shut : TlsConnection = record c { closed = true; watched = none; fd = none } in
    subst (IsTidy c (e ∷ [])) (sym (if_false c.closed c shut o)) (record {
      sane = record { owned = refl; unwatched = λ h. refl };
      silent = λ h. absurd (omega (arith, openness-closed c h, openness-open c o));
      single = omega (arith, ap bit t, openness-open c o);
      last = if_true (is_terminal e) _ _ t;
    })

-- A step that says only what is not terminal, and leaves the connection open.
pub told-IsTidy :
    (c d : TlsConnection) (e : Event)
    → IsSane d
    → c.closed ≡ false
    → is_terminal e ≡ false
    → IsTidy c (e ∷ []) d
told-IsTidy c d e s o t = record {
  sane = s;
  silent = λ h. absurd (omega (arith, openness-closed c h, openness-open c o));
  single = ground (arith, ap bit t, openness-open c o);
  last = if_false (is_terminal e) _ _ t;
}

pub terminals-append : (es fs : List Event) → terminals (es ++ fs) ≡ terminals es + terminals fs
terminals-append [] fs = omega arith
terminals-append (e ∷ es) fs = omega (arith, terminals-append es fs)

pub followers-append : (es fs : List Event) → terminals es ≡ 0 → followers (es ++ fs) ≡ followers fs
followers-append [] fs h = refl
followers-append (e ∷ es) fs h = elim (Bool-cases (is_terminal e)) [
  | inl t ↦ absurd (omega (arith, h, ap bit t))
  | inr t ↦ if_false (is_terminal e) _ _ t ∙ followers-append es fs (omega (arith, h))
]

-- Two steps.
pub both-IsTidy :
    (c d f : TlsConnection) (es fs : List Event)
    → IsTidy c es d
    → IsTidy d fs f
    → IsTidy c (es ++ fs) f
both-IsTidy c d f es fs s t = elim (Bool-cases d.closed) [
  | inl o ↦
      let none_left : fs ≡ [] = t.silent o in
      let same : es ++ fs ≡ es = ap (λ gs. es ++ gs) none_left ∙ append-nil es in
      record {
        sane = t.sane;
        silent = λ h. same ∙ s.silent h;
        single = omega (arith, ap terminals same, s.single, t.single, openness-closed d o);
        last = ap followers same ∙ s.last;
      }
  | inr o ↦
      let none_yet : terminals es ≡ 0 =
        let most : openness c ≤ 1 = ground arith in
        omega (arith, s.single, openness-open d o, most) in
      record {
        sane = t.sane;
        silent = λ h. absurd (omega (arith, s.single, openness-closed c h, openness-open d o));
        single =
            omega (arith, terminals-append es fs, none_yet, s.single, t.single, openness-open d o);
        last = followers-append es fs none_yet ∙ t.last;
      }
]

-- A change that keeps the descriptor, the watch and the state.
pub same-IsSane :
    (c d : TlsConnection)
    → IsSane c
    → d.fd ≡ c.fd
    → d.watched ≡ c.watched
    → d.closed ≡ c.closed
    → IsSane d
same-IsSane c d s f w o = record {
  owned =
      ap (λ x. elim x as (λ _. Bool) [ none ↦ false | some n ↦ true ]) f ∙ s.owned ∙ ap not (sym o);
  unwatched = λ h.
      ap (λ x. elim x as (λ _. Bool) [ none ↦ false | some n ↦ true ]) w ∙ s.unwatched (sym o ∙ h);
}

-- A watch on an open connection.
pub watching-IsSane :
    (c : TlsConnection) (w : Option ℕ)
    → IsSane c
    → c.closed ≡ false
    → IsSane (record c { watched = w })
watching-IsSane c w s o = record {
  owned = s.owned;
  unwatched = λ h. absurd (omega (arith, openness-closed c h, openness-open c o));
}

-- The steps are nothing on a closed connection.
pub guard-IsTidy :
    (c : TlsConnection) (r : Outcome)
    → IsSane c
    → (c.closed ≡ false → IsTidy c r.events r.conn)
    → IsTidy c (if c.closed then quiet c else r).events (if c.closed then quiet c else r).conn
guard-IsTidy c r s f = elim (Bool-cases c.closed) [
  | inl o ↦
      subst (λ (x : Outcome). IsTidy c x.events x.conn) (sym (if_true c.closed (quiet c) r o))
        (quiet-IsTidy c c s (omega arith))
  | inr o ↦
      subst (λ (x : Outcome). IsTidy c x.events x.conn) (sym (if_false c.closed (quiet c) r o))
        (f o)
]
