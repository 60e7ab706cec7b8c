-- ===== src/Seer/Magika/File/Reads.antt =====
-- The reads of `loadFromFile` on a stream that holds what they ask for
-- (SeerLib/src/Magika/MagikaModel.cpp).
use deep_seer.Base.{
  ℕ, ◌+◌, ◌-◌, ◌*◌, ◌/◌, ◌%◌, ◌<◌, ◌≡◌, refl, sym, ap, ◌∙◌, true, false, List, [], ◌∷◌, ◌++◌,
  Option, none, some, if◌then◌else◌, if_false, arith, length, length-append, take, drop, All, leb,
  take-append_left, drop-append_right, take_all,
}
use native.Mathlib.Nat.{add-mul-mod_self_left, mod-add-div}
use deep_seer.Core.Buffer.{Bytes}
use deep_seer.Seer.Magika.File.{
  Stream, loaded, thrown, read, little_endian, read_val, read_string, words, read_floats, read_dims,
  count_from,
}

-- A stream in a good state.
abbrev pub ready : Bytes → Stream
ready bs = record { rest = bs; good = true }

pub read_lem : (xs ys : Bytes) (n : ℕ) → length xs ≡ n → read n (ready (xs ++ ys)) ≡ (xs, ready ys)
unfolding read
read_lem xs ys n e =
    let size = length-append xs ys in
    let head : take n (xs ++ ys) ≡ xs =
      take-append_left n xs ys (omega (arith, e)) ∙ take_all n xs (omega (arith, e)) in
    let tail : drop n (xs ++ ys) ≡ ys =
      drop-append_right n xs ys (omega (arith, e))
      ∙ ap (λ k. drop k ys) (let z : n - length xs ≡ 0 = omega (arith, e) in z) in
    let all : leb n (length (xs ++ ys)) ≡ true = ground (arith, size, e) in rw (head, tail, all)

-- The four bytes of a number.
abbrev pub to_bytes : ℕ → Bytes
to_bytes n = n % 256 ∷ n / 256 % 256 ∷ n / 65536 % 256 ∷ n / 16777216 % 256 ∷ []

little-to_bytes : (n : ℕ) → n < 4294967296 → little_endian (to_bytes n) ≡ n
unfolding little_endian
little-to_bytes n h = omega arith

pub read_val_lem :
    (n : ℕ) (ys : Bytes) → n < 4294967296 → read_val (ready (to_bytes n ++ ys)) ≡ (n, ready ys)
unfolding read_val
read_val_lem n ys h =
    ap (λ r. (little_endian r.0, r.1)) (read_lem (to_bytes n) ys 4 refl)
    ∙ ap (λ k. (k, ready ys)) (little-to_bytes n h)

-- What `readString` does with its reads.
after_text : Bytes × Stream → Option (Bytes × Stream)
after_text r = if r.1.good then some r else none

after_length : ℕ × Stream → Option (Bytes × Stream)
unfolding after_text read
after_length v = if v.1.good then after_text (read v.0 v.1) else none

pub read_string_lem :
    (xs ys : Bytes)
    → length xs < 4294967296
    → read_string (ready (to_bytes (length xs) ++ (xs ++ ys))) ≡ some (xs, ready ys)
unfolding read_string after_length after_text
read_string_lem xs ys h =
    ap after_length (read_val_lem (length xs) (xs ++ ys) h)
    ∙ ap after_text (read_lem xs ys (length xs) refl)

-- Numbers one after another.
abbrev pub word_bytes : List ℕ → Bytes
word_bytes [] = []
word_bytes (w ∷ ws) = to_bytes w ++ word_bytes ws

length-word_bytes : (ws : List ℕ) → length (word_bytes ws) ≡ length ws * 4
length-word_bytes [] = refl
length-word_bytes (w ∷ ws) = omega (arith, length-word_bytes ws)

abbrev pub IsWord : ℕ → Type 0
IsWord w = w < 4294967296

words_lem : (ws : List ℕ) → All IsWord ws → words (length ws) (word_bytes ws) ≡ ws
unfolding words
words_lem [] h = refl
words_lem (w ∷ ws) h = rw (little-to_bytes w h.0, words_lem ws h.1)

pub read_floats_lem :
    (ws : List ℕ) (ys : Bytes) (count : ℕ)
    → count ≡ length ws
    → length ws < 2305843009213693952
    → All IsWord ws
    → read_floats count (ready (word_bytes ws ++ ys)) ≡ loaded (some (ws, ready ys))
unfolding read_floats
read_floats_lem ws ys count e h a =
    let fits : leb 2305843009213693952 count ≡ false = ground (arith, e, h) in
    let block = read_lem (word_bytes ws) ys (count * 4) (omega (arith, length-word_bytes ws, e)) in
    if_false _ thrown _ fits
    ∙ ap (λ r. if r.1.good then loaded (some (words count r.0, r.1)) else loaded none) block
    ∙ ap (λ k. loaded (some (words k (word_bytes ws), ready ys))) e
    ∙ ap (λ vs. loaded (some (vs, ready ys))) (words_lem ws a)

pub read_dims_lem :
    (ds : List ℕ) (ys : Bytes)
    → All IsWord ds
    → read_dims (length ds) (ready (word_bytes ds ++ ys)) ≡ (ds, ready ys)
unfolding read_dims
read_dims_lem [] ys h = refl
read_dims_lem (d ∷ ds) ys h =
    ap (λ v. let r = read_dims (length ds) v.1 in (v.0 ∷ r.0, r.1))
      (read_val_lem d (word_bytes ds ++ ys) h.0)
    ∙ ap (λ r. (d ∷ r.0, r.1)) (read_dims_lem ds ys h.1)

-- The number of elements of a shape.
abbrev pub product : List ℕ → ℕ
product [] = 1
product (d ∷ ds) = d * product ds

mod_mul : (a b n : ℕ) → 0 < n → a % n * b % n ≡ a * b % n
mod_mul a b n h =
    let split : a * b ≡ a % n * b + n * (a / n * b) = grind (arith, mod-add-div a n) in
    sym (add-mul-mod_self_left (a % n * b) n (a / n * b)) ∙ ap (λ k. k % n) (sym split)

count_lem :
    (ds : List ℕ) (count : ℕ)
    → count_from (count % 18446744073709551616) ds ≡ count * product ds % 18446744073709551616
unfolding count_from
count_lem [] count = ap (λ k. k % 18446744073709551616) (omega arith)
count_lem (d ∷ ds) count =
    ap (λ k. count_from k ds) (mod_mul count d 18446744073709551616 (omega arith))
    ∙ count_lem ds (count * d)
    ∙ ap (λ k. k % 18446744073709551616) (grind arith)

pub count_product : (ds : List ℕ) → product ds < 18446744073709551616 → count_from 1 ds ≡ product ds
count_product ds h = count_lem ds 1 ∙ omega (arith, h)
