-- ===== src/Base/Text.antt =====
-- Byte strings as `std::string` handles them: literals, `find`, `rfind`, `substr`, equality,
-- decimal numbers in `std::format` and `std::stoi`.
use Prim.Native.Nat.{ℕ, zero, suc, ◌+◌, ◌-◌, ◌*◌, ◌/◌, ◌%◌, ◌^◌}
use Prim.Native.Char.{code}
use Prim.Native.String.{String}
use mathlib.Core.Path.{◌≡◌}
use mathlib.Core.Bool.{Bool, true, false, ◌&&◌, ◌||◌}
use mathlib.Core.List.{List, [], ◌∷◌}
use mathlib.Core.Logic.{◌↔◌}
use mathlib.Core.Option.{Option, none, some}
use mathlib.Core.Option
use native.Mathlib.Omega.{arith}
use deep_seer.Base.Tests.{leb, ltb, ◌==◌, if◌then◌else◌}
use deep_seer.Base.Lists.{take, drop}

-- The bytes of an ASCII literal.
abbrev pub codes : String → List ℕ
codes String.[] = []
codes (String.◌∷◌ c s) = code c ∷ codes s

unfoldable pub same : List ℕ → List ℕ → Bool
same [] [] = true
same [] (y ∷ ys) = false
same (x ∷ xs) [] = false
same (x ∷ xs) (y ∷ ys) = x == y && same xs ys

-- `find(c)` from the start; none is `npos`.
unfoldable pub find : ℕ → List ℕ → Option ℕ
find c [] = none
find c (x ∷ xs) = if x == c then some 0 else Option.map (λ i. suc i) (find c xs)

-- `rfind(c)`.
unfoldable pub rfind : ℕ → List ℕ → Option ℕ
rfind c [] = none
rfind c (x ∷ xs) = elim (rfind c xs) [
  | some i ↦ some (suc i)
  | none ↦ if x == c then some 0 else none
]

unfoldable pub starts_with : List ℕ → List ℕ → Bool
starts_with [] xs = true
starts_with (p ∷ ps) [] = false
starts_with (p ∷ ps) (x ∷ xs) = p == x && starts_with ps xs

-- `find("...")` of a text.
unfoldable pub find_text : List ℕ → List ℕ → Option ℕ
unfolding starts_with
find_text p [] = if starts_with p [] then some 0 else none
find_text p (x ∷ xs) =
    if starts_with p (x ∷ xs) then some 0 else Option.map (λ i. suc i) (find_text p xs)

-- `find(c, pos)`.
unfoldable pub find_from : ℕ → ℕ → List ℕ → Option ℕ
unfolding find
find_from c pos s = Option.map (λ i. pos + i) (find c (drop pos s))

-- `substr(pos, n)`.
abbrev pub substr : ℕ → ℕ → List ℕ → List ℕ
substr pos n s = take n (drop pos s)

-- `std::tolower` in the C locale.
abbrev pub to_lower : ℕ → ℕ
to_lower c = if leb b'A' c && leb c b'Z' then c + 32 else c

-- The decimal digits of a number, as `std::format("{}", n)` prints them.
unfoldable pub digits : ℕ → ℕ → List ℕ → List ℕ
digits zero n acc = acc
digits (suc rounds) n acc =
    let rest = digits rounds (n / 10) (((n % 10) + 48) ∷ acc) in
    if ltb n 10 then (n + 48) ∷ acc else rest

-- A number below 2 ^ 64 has at most twenty digits.
unfoldable pub to_decimal : ℕ → List ℕ
unfolding digits
to_decimal n = digits 20 n []

abbrev pub is_digit : ℕ → Bool
is_digit c = leb b'0' c && leb c b'9'

abbrev pub is_space : ℕ → Bool
is_space c = c == 32 || (leb 9 c && leb c 13)

-- The value of the digits at the front, on top of `acc`.
unfoldable pub read_digits : ℕ → List ℕ → ℕ
read_digits acc [] = acc
read_digits acc (c ∷ cs) = if is_digit c then read_digits (acc * 10 + (c - 48)) cs else acc

unfoldable pub skip_spaces : List ℕ → List ℕ
skip_spaces [] = []
skip_spaces (c ∷ cs) = if is_space c then skip_spaces cs else c ∷ cs

-- The magnitude behind an optional sign; none without a digit (`std::invalid_argument`).
unfoldable pub read_number : List ℕ → Option ℕ
unfolding read_digits
read_number [] = none
read_number (c ∷ cs) = if is_digit c then some (read_digits 0 (c ∷ cs)) else none

-- Whether a minus sign stands in front, and what stands behind the sign.
unfoldable pub read_sign : List ℕ → Bool × List ℕ
read_sign [] = (false, [])
read_sign (c ∷ cs) =
    if c == b'-' then (true, cs) else if c == b'+' then (false, cs) else (false, c ∷ cs)

-- The conversion of an `int` behind its sign to `uint16_t`; none where it is no `int`.
unfoldable pub to_u16 : Bool → Option ℕ → Option ℕ
to_u16 negative none = none
to_u16 true (some m) = if leb m (2 ^ 31) then some ((65536 - m % 65536) % 65536) else none
to_u16 false (some m) = if ltb m (2 ^ 31) then some (m % 65536) else none

unfoldable pub to_u64 : Bool → Option ℕ → Option ℕ
to_u64 negative none = none
to_u64 true (some m) = if ltb m (2 ^ 64) then some ((2 ^ 64 - m) % 2 ^ 64) else none
to_u64 false (some m) = if ltb m (2 ^ 64) then some m else none

-- `static_cast<uint16_t>(std::stoi(s))`; none where `std::stoi` throws.
unfoldable pub stoi_u16 : List ℕ → Option ℕ
stoi_u16 s = let signed = read_sign (skip_spaces s) in to_u16 signed.0 (read_number signed.1)

-- `std::stoull(s)`; none where it throws.
unfoldable pub stoull : List ℕ → Option ℕ
stoull s = let signed = read_sign (skip_spaces s) in to_u64 signed.0 (read_number signed.1)

infixl 5 ◌>>=◌
abbrev pub ◌>>=◌ {ℓ κ} : {A : Type ℓ} {B : Type κ} → Option A → (A → Option B) → Option B
none >>= f = none
some a >>= f = f a

pub same_iff : (xs ys : List ℕ) → (same xs ys ≡ true) ↔ (xs ≡ ys)
unfolding same
same_iff [] [] = ground arith
same_iff [] (y ∷ ys) = ground arith
same_iff (x ∷ xs) [] = ground arith
same_iff (x ∷ xs) (y ∷ ys) = ground (arith, same_iff xs ys)
