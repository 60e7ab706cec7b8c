-- ===== src/Core/Buffer/Laws.antt =====
-- The operations of `Buffer` on the bytes that it stands for.
use deep_seer.Base.{
  ℕ, ◌+◌, ◌-◌, ◌*◌, ◌≤◌, ◌<◌, ◌≡◌, refl, sym, ap, ◌∙◌, ◌⊎◌, inl, inr, List, [], ◌++◌, length, take,
  drop, arith, All, All-drop, All-take, length-append, length-take, length-drop, drop-append_right,
  All-append, ◌==◌, ltb, leb, Bool-cases, if◌then◌else◌, drop_all,
}
use deep_seer.Core.Buffer.{
  Bytes, Buffer, empty_buffer, back_available, add, reserve, commit, drain_loop, settle, drain,
  active, linearize, bytes_of, move, ensure_back, compact_slices, map_back, fill, commit_slice,
}
use deep_seer.Core.Buffer.Slices.{IsValid}
use deep_seer.Core.Buffer.Loops.{
  bytes_of-append, map_back-store, length-map_back, ensure_back-Ensured, add_loop_lem,
  drop-add_loop, le-length-add_loop, drop-map_back, back_available-drop, drop-ensure_back,
}
use deep_seer.Core.Buffer.Drains.{drain_loop-Drained}

-- Every slice is valid, `frontSlice_` is a slice or 0, and `totalLength_` counts the readable bytes.
pub record IsWellFormed (b : Buffer) : Type 0 where
  pub slices_valid : All IsValid b.slices
  pub front_in : (b.front_slice ≡ 0) ⊎ (b.front_slice < length b.slices)
  pub total : b.total_length ≡ length (linearize b)

pub empty-IsWellFormed : IsWellFormed empty_buffer
unfolding linearize
empty-IsWellFormed = record { slices_valid = tt; front_in = inl refl; total = refl }

pub linearize-add :
    (bs : Bytes) (b : Buffer) → IsWellFormed b → linearize (add bs b) ≡ linearize b ++ bs
unfolding add linearize
linearize-add bs b w =
    ap bytes_of (drop-add_loop b.front_slice b.slices bs w.slices_valid w.front_in)
    ∙ (add_loop_lem (length bs) (active b) bs
        (All-drop IsValid b.front_slice b.slices w.slices_valid) (omega arith)).0

pub add-IsWellFormed : (bs : Bytes) (b : Buffer) → IsWellFormed b → IsWellFormed (add bs b)
unfolding add
add-IsWellFormed bs b w = record {
  slices_valid = (add_loop_lem (length bs) b.slices bs w.slices_valid (omega arith)).1;
  front_in =
      grind (
        arith,
        w.front_in,
        le-length-add_loop (length bs) b.slices bs w.slices_valid (omega arith),
      );
  total = omega (arith, w.total, ap length (linearize-add bs b w), length-append (linearize b) bs);
}

-- `settle` forgets drained slices only.
settle_lem :
    (b : Buffer)
    → All IsValid b.slices
    → b.front_slice ≤ length b.slices
    → b.total_length ≡ length (linearize b)
    → (linearize (settle b) ≡ linearize b) × IsWellFormed (settle b)
unfolding settle linearize bytes_of
settle_lem b v h t = elim (Bool-cases (b.front_slice == length b.slices)) [
  | inl e ↦
      let gone : drop b.front_slice b.slices ≡ [] =
        drop_all b.front_slice b.slices (ground arith) in
      rw e (
        ap bytes_of (sym gone),
        record {
          slices_valid = tt;
          front_in = inl refl;
          total = t ∙ ap (λ ss. length (bytes_of ss)) gone;
        },
      )
  | inr e ↦ rw e (elim (Bool-cases (leb (length b.slices) (b.front_slice * 2))) [
    | inl c ↦ rw c (
      refl,
      record {
        slices_valid = All-drop IsValid b.front_slice b.slices v;
        front_in = inl refl;
        total = t;
      },
    )
    | inr c ↦ rw c (refl, record { slices_valid = v; front_in = inr (ground arith); total = t })
  ])
]

pub drop-take-append :
    {A : Type 0} (front moved : ℕ) (xs ys : List A)
    → front ≤ length xs
    → drop (front + moved) (take front xs ++ ys) ≡ drop moved ys
drop-take-append front moved xs ys h =
    drop-append_right (front + moved) (take front xs) ys (omega (arith, length-take front xs))
    ∙ ap (λ k. drop k ys) (omega (arith, length-take front xs))

drain_lem :
    (n : ℕ) (b : Buffer)
    → IsWellFormed b
    → (linearize (drain n b) ≡ drop n (linearize b)) × IsWellFormed (drain n b)
unfolding drain linearize
drain_lem n b w =
    let d =
      drain_loop-Drained (active b) n (All-drop IsValid b.front_slice b.slices w.slices_valid) in
    let r = drain_loop (active b) n in
    let inside : b.front_slice ≤ length b.slices = omega (arith, w.front_in) in
    let cut = drop-take-append b.front_slice r.1 b.slices r.0 inside in
    let s =
      settle_lem
        (record {
          slices = take b.front_slice b.slices ++ r.0;
          total_length = b.total_length - (n - r.2);
          front_slice = b.front_slice + r.1;
        })
        (All-append IsValid (take b.front_slice b.slices) r.0
          (All-take IsValid b.front_slice b.slices w.slices_valid) d.valid)
        (omega (
          arith,
          length-append (take b.front_slice b.slices) r.0,
          length-take b.front_slice b.slices,
          d.in_range,
        ))
        (omega (
          arith,
          w.total,
          ap (λ ss. length (bytes_of ss)) cut,
          ap length d.dropped,
          length-drop n (bytes_of (active b)),
          d.taken,
        )) in
    (s.0 ∙ ap bytes_of cut ∙ d.dropped, s.1)

pub linearize-drain :
    (n : ℕ) (b : Buffer) → IsWellFormed b → linearize (drain n b) ≡ drop n (linearize b)
linearize-drain n b w = (drain_lem n b w).0

pub drain-IsWellFormed : (n : ℕ) (b : Buffer) → IsWellFormed b → IsWellFormed (drain n b)
drain-IsWellFormed n b w = (drain_lem n b w).1

compact_lem :
    (b : Buffer)
    → IsWellFormed b
    → let c = if ltb 0 b.front_slice then compact_slices b else b in
      (bytes_of c.slices ≡ linearize b)
      × All IsValid c.slices
      × (c.front_slice ≡ 0)
      × (c.total_length ≡ b.total_length)
unfolding linearize
compact_lem b w = elim (Bool-cases (ltb 0 b.front_slice)) [
  | inl e ↦ rw e (refl, All-drop IsValid b.front_slice b.slices w.slices_valid, refl, refl)
  | inr e ↦
      let z : b.front_slice ≡ 0 = ground arith in
      rw e (ap (λ k. bytes_of (drop k b.slices)) (sym z), w.slices_valid, z, refl)
]

pub linearize-move :
    (b other : Buffer)
    → IsWellFormed b
    → linearize (move b other).0 ≡ linearize b ++ linearize other
unfolding move linearize
linearize-move b other w =
    let c = if ltb 0 b.front_slice then compact_slices b else b in
    let k = compact_lem b w in
    ap (λ f. bytes_of (drop f (c.slices ++ active other))) k.2
    ∙ bytes_of-append c.slices (active other)
    ∙ ap (λ d. d ++ bytes_of (active other)) k.0

pub move-IsWellFormed :
    (b other : Buffer) → IsWellFormed b → IsWellFormed other → IsWellFormed (move b other).0
unfolding move
move-IsWellFormed b other w w' =
    let c = if ltb 0 b.front_slice then compact_slices b else b in
    let k = compact_lem b w in
    record {
      slices_valid =
          All-append IsValid c.slices (active other) k.1
            (All-drop IsValid other.front_slice other.slices w'.slices_valid);
      front_in = inl k.2;
      total = omega (
        arith,
        w.total,
        w'.total,
        k.3,
        ap length (linearize-move b other w),
        length-append (linearize b) (linearize other),
      );
    }

-- A reservation and a commit of what was stored in it.
abbrev pub receive : ℕ → Bytes → Buffer → Buffer
receive hint bs b = commit bs (reserve hint b).0

receive_lem :
    (hint : ℕ) (bs : Bytes) (b : Buffer)
    → IsWellFormed b
    → length bs ≤ (reserve hint b).1
    → (linearize (receive hint bs b) ≡ linearize b ++ bs) × IsWellFormed (receive hint bs b)
unfolding reserve commit linearize
receive_lem hint bs b w h =
    let grown = ensure_back hint b.slices in
    let en = ensure_back-Ensured hint b.slices w.slices_valid in
    let tail = ensure_back hint (active b) in
    let en' =
      ensure_back-Ensured hint (active b)
        (All-drop IsValid b.front_slice b.slices w.slices_valid) in
    let front : (b.front_slice ≡ 0) ⊎ (b.front_slice < length grown) =
      grind (arith, w.front_in, en.longer) in
    let cut : drop b.front_slice grown ≡ tail =
      drop-ensure_back b.front_slice hint b.slices w.front_in in
    let st =
      map_back-store tail (length bs) bs en'.valid en'.present refl
        (omega (arith, h, ap back_available cut, back_available-drop b.front_slice grown front)) in
    let lin =
      ap bytes_of (
        drop-map_back b.front_slice _ grown front
        ∙ ap (map_back (λ s. commit_slice (length bs) (fill bs s))) cut)
      ∙ st.0
      ∙ ap (λ d. d ++ bs) en'.same_bytes in
    (
      lin,
      record {
        slices_valid = (map_back-store grown (length bs) bs en.valid en.present refl h).1;
        front_in =
            grind (arith, front, length-map_back (λ s. commit_slice (length bs) (fill bs s)) grown);
        total = omega (arith, w.total, ap length lin, length-append (bytes_of (active b)) bs);
      },
    )

pub linearize-receive :
    (hint : ℕ) (bs : Bytes) (b : Buffer)
    → IsWellFormed b
    → length bs ≤ (reserve hint b).1
    → linearize (receive hint bs b) ≡ linearize b ++ bs
linearize-receive hint bs b w h = (receive_lem hint bs b w h).0

pub receive-IsWellFormed :
    (hint : ℕ) (bs : Bytes) (b : Buffer)
    → IsWellFormed b
    → length bs ≤ (reserve hint b).1
    → IsWellFormed (receive hint bs b)
receive-IsWellFormed hint bs b w h = (receive_lem hint bs b w h).1
