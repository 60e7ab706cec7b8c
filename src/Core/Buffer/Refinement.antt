-- ===== src/Core/Buffer/Refinement.antt =====
-- `Buffer` against a plain byte string.
use deep_seer.Base.{ℕ, ◌≤◌, ◌≡◌, refl, ap, ◌∙◌, List, [], ◌∷◌, ◌++◌, length, drop}
use deep_seer.Core.Buffer.{Bytes, Buffer, add, reserve, drain, linearize, move}
use deep_seer.Core.Buffer.Laws.{
  IsWellFormed, receive, linearize-add, add-IsWellFormed, linearize-drain, drain-IsWellFormed,
  linearize-move, move-IsWellFormed, linearize-receive, receive-IsWellFormed, empty-IsWellFormed,
}

-- The calls that change a buffer; `receives` is a `reserve`, a write into the span and a `commit`.
pub data Op : Type 0 where
  adds : Bytes → Op
  drains : ℕ → Op
  receives : ℕ → Bytes → Op
  moves_in : Buffer → Op
  moves_out : Buffer → Op

unfoldable pub step : Buffer → Op → Buffer
step b (adds bs) = add bs b
step b (drains n) = drain n b
step b (receives hint bs) = receive hint bs b
step b (moves_in other) = (move b other).0
step b (moves_out target) = (move target b).1

unfoldable pub run : Buffer → List Op → Buffer
unfolding step
run b [] = b
run b (o ∷ os) = run (step b o) os

-- The same calls on a byte string.
abbrev pub spec_step : Bytes → Op → Bytes
spec_step d (adds bs) = d ++ bs
spec_step d (drains n) = drop n d
spec_step d (receives hint bs) = d ++ bs
spec_step d (moves_in other) = d ++ linearize other
spec_step d (moves_out target) = []

abbrev pub spec_run : Bytes → List Op → Bytes
spec_run d [] = d
spec_run d (o ∷ os) = spec_run (spec_step d o) os

-- No more is committed than was reserved, and a buffer that is moved in is well formed.
abbrev pub IsAllowed : Buffer → Op → Type 0
IsAllowed b (adds bs) = Unit
IsAllowed b (drains n) = Unit
IsAllowed b (receives hint bs) = length bs ≤ (reserve hint b).1
IsAllowed b (moves_in other) = IsWellFormed other
IsAllowed b (moves_out target) = Unit

abbrev pub AreAllowed : Buffer → List Op → Type 0
AreAllowed b [] = Unit
AreAllowed b (o ∷ os) = IsAllowed b o × AreAllowed (step b o) os

step-refines :
    (b : Buffer) (o : Op)
    → IsWellFormed b
    → IsAllowed b o
    → (linearize (step b o) ≡ spec_step (linearize b) o) × IsWellFormed (step b o)
unfolding step
step-refines b (adds bs) w a = (linearize-add bs b w, add-IsWellFormed bs b w)
step-refines b (drains n) w a = (linearize-drain n b w, drain-IsWellFormed n b w)
step-refines b (receives hint bs) w a =
    (linearize-receive hint bs b w a, receive-IsWellFormed hint bs b w a)
step-refines b (moves_in other) w a = (linearize-move b other w, move-IsWellFormed b other w a)
step-refines b (moves_out target) w a = unfold move linearize in (refl, empty-IsWellFormed)

-- After any allowed sequence of `add`, `drain`, `reserve` with `commit` and `move` (as receiver or
-- as source), a buffer that was well formed is well formed, `linearize` returns the bytes that the
-- same calls give on a plain byte string, and `length` counts them.
pub buffer_refines :
    (b : Buffer) (os : List Op)
    → IsWellFormed b
    → AreAllowed b os
    → (linearize (run b os) ≡ spec_run (linearize b) os)
      × ((run b os).total_length ≡ length (spec_run (linearize b) os))
      × IsWellFormed (run b os)
unfolding run
buffer_refines b [] w a = (refl, w.total, w)
buffer_refines b (o ∷ os) w a =
    let s = step-refines b o w a.0 in
    let (lin, total, valid) = buffer_refines (step b o) os s.1 a.1 in
    (lin ∙ ap (λ d. spec_run d os) s.0, total ∙ ap (λ d. length (spec_run d os)) s.0, valid)
