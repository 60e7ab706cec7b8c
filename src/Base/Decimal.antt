-- ===== src/Base/Decimal.antt =====
-- What `std::stoi` reads back from a printed number, and positions of the first occurrence.
use Prim.Native.Nat.{ℕ, zero, suc, ◌+◌, ◌/◌, ◌%◌, ◌^◌, ◌<◌}
use mathlib.Core.Path.{◌≡◌, ◌∙◌, refl, sym, ap}
use mathlib.Core.Bool.{true, false}
use mathlib.Core.List.{List, [], ◌∷◌, ◌++◌}
use mathlib.Core.Logic.{◌≢◌, inl, inr}
use mathlib.Core.Option.{none, some}
use native.Mathlib.Nat.{pow-suc}
use native.Mathlib.Omega.{arith}
use deep_seer.Base.Tests.{ltb, ◌==◌, Bool-cases}
use deep_seer.Base.Lists.{All, length, take, drop}
use deep_seer.Base.Text.{
  find, rfind, is_digit, is_space, digits, to_decimal, read_digits, read_number, read_sign,
  skip_spaces, stoi_u16, to_u16, stoull, to_u64,
}

read-digits :
    (rounds n : ℕ) (acc : List ℕ)
    → n < 10 ^ rounds
    → read_digits 0 (digits rounds n acc) ≡ read_digits n acc
unfolding digits read_digits
read-digits zero n acc h = ap (λ k. read_digits k acc) (omega arith)
read-digits (suc rounds) n acc h = elim (Bool-cases (ltb n 10)) [
  | inl e ↦ rw e (ground arith)
  | inr e ↦ rw e (
      read-digits rounds (n / 10) (((n % 10) + 48) ∷ acc) (omega (arith, pow-suc 10 rounds))
      ∙ ground arith)
]

digits-cons :
    (rounds n : ℕ) (acc : List ℕ)
    → (c : ℕ) × (cs : List ℕ) × (digits (suc rounds) n acc ≡ c ∷ cs) × (is_digit c ≡ true)
unfolding digits
digits-cons zero n acc = elim (Bool-cases (ltb n 10)) [
  | inl e ↦ (n + 48, acc, rw e, ground arith)
  | inr e ↦ ((n % 10) + 48, acc, rw e, ground arith)
]
digits-cons (suc rounds) n acc = elim (Bool-cases (ltb n 10)) [
  | inl e ↦ (n + 48, acc, rw e, ground arith)
  | inr e ↦
      let (c, cs, p, q) = digits-cons rounds (n / 10) (((n % 10) + 48) ∷ acc) in (c, cs, rw e p, q)
]

skip_digit : (c : ℕ) (cs : List ℕ) → is_digit c ≡ true → skip_spaces (c ∷ cs) ≡ c ∷ cs
unfolding skip_spaces
skip_digit c cs h = rw (let e : is_space c ≡ false = ground arith in e)

sign_digit : (c : ℕ) (cs : List ℕ) → is_digit c ≡ true → read_sign (c ∷ cs) ≡ (false, c ∷ cs)
unfolding read_sign
sign_digit c cs h = rw (
  let e : (c == b'-') ≡ false = ground arith in e,
  let e : (c == b'+') ≡ false = ground arith in e,
)

number_digit :
    (c : ℕ) (cs : List ℕ) → is_digit c ≡ true → read_number (c ∷ cs) ≡ some (read_digits 0 (c ∷ cs))
unfolding read_number
number_digit c cs h = rw h

stoi_u16_lem :
    (s : List ℕ) (t : List ℕ) (m : ℕ)
    → read_sign (skip_spaces s) ≡ (false, t)
    → read_number t ≡ some m
    → m < 65536
    → stoi_u16 s ≡ some m
unfolding stoi_u16 to_u16
stoi_u16_lem s t m e r h = rw (e, stoi_u16, r) (ground arith)

-- A printed port is read back.
pub stoi_u16-to_decimal : (p : ℕ) → p < 65536 → stoi_u16 (to_decimal p) ≡ some p
stoi_u16-to_decimal p h =
    let (c, cs, e, d) = digits-cons 19 p [] in
    let r : read_digits 0 (digits 20 p []) ≡ p =
      read-digits 20 p [] (omega arith) ∙ unfold read_digits in refl in
    unfold to_decimal in
    rw e (
      stoi_u16_lem (c ∷ cs) (c ∷ cs) p (rw (skip_digit c cs d) (sign_digit c cs d))
        (number_digit c cs d ∙ ap some (ap (read_digits 0) (sym e) ∙ r)) h)

pub stoull-to_decimal : (p : ℕ) → p < 65536 → stoull (to_decimal p) ≡ some p
stoull-to_decimal p h =
    let (c, cs, e, d) = digits-cons 19 p [] in
    let r : read_digits 0 (digits 20 p []) ≡ p =
      read-digits 20 p [] (omega arith) ∙ unfold read_digits in refl in
    let signed : read_sign (skip_spaces (c ∷ cs)) ≡ (false, c ∷ cs) =
      rw (skip_digit c cs d) (sign_digit c cs d) in
    let number : read_number (c ∷ cs) ≡ some p =
      number_digit c cs d ∙ ap some (ap (read_digits 0) (sym e) ∙ r) in
    unfold to_decimal in rw e (unfold stoull to_u64 in rw (signed, stoull, number) (ground arith))

-- Printed numbers consist of digits.
digits-All :
    (rounds n : ℕ) (acc : List ℕ)
    → All (λ c. is_digit c ≡ true) acc
    → All (λ c. is_digit c ≡ true) (digits rounds n acc)
unfolding digits
digits-All zero n acc h = h
digits-All (suc rounds) n acc h = elim (Bool-cases (ltb n 10)) [
  | inl e ↦ rw e (ground arith, h)
  | inr e ↦ rw e (digits-All rounds (n / 10) _ (ground arith, h))
]

pub to_decimal-All : (n : ℕ) → All (λ c. is_digit c ≡ true) (to_decimal n)
unfolding to_decimal
to_decimal-All n = digits-All 20 n [] tt

-- The first occurrence behind a text without the byte.
pub find-append :
    (c : ℕ) (s r : List ℕ) → All (λ x. x ≢ c) s → find c (s ++ c ∷ r) ≡ some (length s)
unfolding find
find-append c [] r h = ground arith
find-append c (x ∷ s) r h = rw (find-append c s r h.1) (ground arith)

-- The last occurrence before a text without the byte.
pub rfind-none : (c : ℕ) (s : List ℕ) → All (λ x. x ≢ c) s → rfind c s ≡ none
unfolding rfind
rfind-none c [] h = refl
rfind-none c (x ∷ s) h = rw (rfind-none c s h.1) (ground arith)

pub rfind-append :
    (c : ℕ) (s r : List ℕ) → All (λ x. x ≢ c) r → rfind c (s ++ c ∷ r) ≡ some (length s)
unfolding rfind
rfind-append c [] r h = rw (rfind-none c r h) (ground arith)
rfind-append c (x ∷ s) r h = rw (rfind-append c s r h) refl

pub find-none : (c : ℕ) (s : List ℕ) → All (λ x. x ≢ c) s → find c s ≡ none
unfolding find
find-none c [] h = refl
find-none c (x ∷ s) h = rw (find-none c s h.1) (ground arith)

pub take-length-append : (s r : List ℕ) → take (length s) (s ++ r) ≡ s
take-length-append [] r = refl
take-length-append (x ∷ s) r = ap (◌∷◌ x) (take-length-append s r)

pub drop-length-append : (s r : List ℕ) → drop (length s) (s ++ r) ≡ r
drop-length-append [] r = refl
drop-length-append (x ∷ s) r = drop-length-append s r

pub drop-suc-length-append : (s r : List ℕ) (c : ℕ) → drop (suc (length s)) (s ++ c ∷ r) ≡ r
drop-suc-length-append [] r c = refl
drop-suc-length-append (x ∷ s) r c = drop-suc-length-append s r c
