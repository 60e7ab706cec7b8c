-- ===== src/Core/Buffer/Filled.antt =====
-- No readable slice of a buffer is empty, so the front slice always offers data to write.
use deep_seer.Base.{
  ℕ, zero, suc, ◌+◌, ◌*◌, ◌<◌, ◌≡◌, sym, ◌-◌, subst, inl, inr, List, [], ◌∷◌, ◌++◌, length, take,
  drop, min, arith, All, All-drop, All-append, length-take, ◌==◌, ltb, leb, ◌||◌, Bool-cases,
}
use deep_seer.Core.Buffer.{
  Bytes, Slice, Buffer, back_available, add_loop, add, drain_loop, settle, drain, active, is_empty,
  move, ensure_back, map_back,
}
use deep_seer.Core.Buffer.Slices.{IsValid}
use deep_seer.Core.Buffer.Loops.{store, map_back-store, Ensured, ensure_back-Ensured, drop-add_loop}
use deep_seer.Core.Buffer.Drains.{IsFilled, drain_loop-Drained}
use deep_seer.Core.Buffer.Laws.{IsWellFormed, drop-take-append}

-- The last slice may be empty.
abbrev AreFilledButBack : List Slice → Type 0
AreFilledButBack [] = Unit
AreFilledButBack (s ∷ []) = Unit
AreFilledButBack (s ∷ t ∷ ss) = IsFilled s × AreFilledButBack (t ∷ ss)

but_back : (ss : List Slice) → All IsFilled ss → AreFilledButBack ss
but_back [] f = tt
but_back (s ∷ []) f = tt
but_back (s ∷ t ∷ ss) f = (f.0, but_back (t ∷ ss) f.1)

but_back-append : (ss : List Slice) (u : Slice) → All IsFilled ss → AreFilledButBack (ss ++ u ∷ [])
but_back-append [] u f = tt
but_back-append (s ∷ []) u f = (f.0, tt)
but_back-append (s ∷ t ∷ ss) u f = (f.0, but_back-append (t ∷ ss) u f.1)

map_back-IsFilled :
    (ss : List Slice) (n : ℕ) (bs : Bytes)
    → AreFilledButBack ss
    → All IsValid ss
    → 0 < n
    → All IsFilled (map_back (store n bs) ss)
unfolding map_back
map_back-IsFilled [] n bs f v p = tt
map_back-IsFilled (s ∷ []) n bs f v p = (omega arith, tt)
map_back-IsFilled (s ∷ t ∷ ss) n bs f v p = (f.0, map_back-IsFilled (t ∷ ss) n bs f.1 v.1 p)

ensure_back-filled :
    (n : ℕ) (ss : List Slice) → All IsFilled ss → AreFilledButBack (ensure_back n ss)
unfolding ensure_back
ensure_back-filled n ss f = elim (Bool-cases (is_empty ss || back_available ss == 0)) [
  | inl e ↦ rw e (but_back-append ss _ f)
  | inr e ↦ rw e (but_back ss f)
]

add_loop-IsFilled :
    (rounds : ℕ) (ss : List Slice) (bs : Bytes)
    → All IsValid ss
    → All IsFilled ss
    → All IsFilled (add_loop rounds ss bs)
unfolding add_loop
add_loop-IsFilled zero ss bs v f = f
add_loop-IsFilled (suc rounds) ss [] v f = f
add_loop-IsFilled (suc rounds) ss (x ∷ xs) v f =
    let bs : Bytes = x ∷ xs in
    let grown : List Slice = ensure_back (length bs) ss in
    let en : Ensured (length bs) ss grown = ensure_back-Ensured (length bs) ss v in
    let n : ℕ = min (back_available grown) (length bs) in
    let st =
      map_back-store grown n (take n bs) en.valid en.present (omega (arith, length-take n bs))
        (omega arith) in
    add_loop-IsFilled rounds (map_back (store n (take n bs)) grown) (drop n bs) st.1 (
      map_back-IsFilled grown n (take n bs) (ensure_back-filled (length bs) ss f) en.valid
        (omega (arith, en.room)))

-- All readable slices hold data.
abbrev pub HasNoGap : Buffer → Type 0
HasNoGap b = All IsFilled (active b)

pub add-HasNoGap : (bs : Bytes) (b : Buffer) → IsWellFormed b → HasNoGap b → HasNoGap (add bs b)
unfolding add
add-HasNoGap bs b w f = rw (drop-add_loop b.front_slice b.slices bs w.slices_valid w.front_in) (
    add_loop-IsFilled (length bs) (active b) bs
      (All-drop IsValid b.front_slice b.slices w.slices_valid) f)

settle-HasNoGap : (b : Buffer) → HasNoGap b → HasNoGap (settle b)
unfolding settle
settle-HasNoGap b f = elim (Bool-cases (b.front_slice == length b.slices)) [
  | inl e ↦ rw e tt
  | inr e ↦ rw e (elim (Bool-cases (leb (length b.slices) (b.front_slice * 2))) [
    | inl c ↦ rw c f
    | inr c ↦ rw c f
  ])
]

pub drain-HasNoGap : (n : ℕ) (b : Buffer) → IsWellFormed b → HasNoGap b → HasNoGap (drain n b)
unfolding drain
drain-HasNoGap n b w f =
    let d =
      drain_loop-Drained (active b) n (All-drop IsValid b.front_slice b.slices w.slices_valid) in
    let r = drain_loop (active b) n in
    settle-HasNoGap
      (record {
        slices = take b.front_slice b.slices ++ r.0;
        total_length = b.total_length - (n - r.2);
        front_slice = b.front_slice + r.1;
      })
      (rw (drop-take-append b.front_slice r.1 b.slices r.0 (omega (arith, w.front_in)))
        (d.filled f))

pub move-HasNoGap : (b other : Buffer) → HasNoGap b → HasNoGap other → HasNoGap (move b other).0
unfolding move
move-HasNoGap b other f g = elim (Bool-cases (ltb 0 b.front_slice)) [
  | inl e ↦ rw e (All-append IsFilled (active b) (active other) f g)
  | inr e ↦
      let z : b.front_slice ≡ 0 = ground arith in
      rw e (
        subst (λ k. All IsFilled (drop k (b.slices ++ active other))) (sym z)
          (All-append IsFilled b.slices (active other)
            (subst (λ k. All IsFilled (drop k b.slices)) z f) g))
]
