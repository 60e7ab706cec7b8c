-- ===== src/Seer/Magika/Tokens/Layout.antt =====
-- The layout of the input tokens, against a description of the two regions as lists
-- (`MagikaModel::extractInputTokens`).
use deep_seer.Base.{
  ℕ, zero, suc, ◌+◌, ◌-◌, ◌≤◌, ◌<◌, ◌≡◌, refl, sym, ap, subst, ◌∙◌, List, [], ◌∷◌, ◌++◌, some,
  arith, length, length-append, length-take, length-drop, take, drop, take-append-drop, take_all,
  drop_all, min, All, All-append, All-drop, append_assoc, append-nil, ◌>>=◌,
}
use deep_seer.Core.Buffer.{Bytes}
use deep_seer.Seer.Magika.Tokens.{
  beg_size, end_size, padding, copy, beg_start, end_pos, fill_regions, extract,
  extract_input_tokens,
}
use deep_seer.Seer.Magika.Tokens.Copy.{padding_add, length-padding, copy_at}
use deep_seer.Seer.Magika.Tokens.Strip.{
  strip_left, strip_right, strip_left_lem, beg_start-le, end_pos_lem, strip_right-take,
}

abbrev pub last : ℕ → Bytes → Bytes
last n xs = drop (length xs - n) xs

-- The first `beg` bytes of the text, padded on the right, and the last `end` ones, on the left.
abbrev pub layout : ℕ → ℕ → Bytes → List ℕ
layout beg end payload =
    let front = take beg (strip_left payload) in
    let back = last end (strip_right payload) in
    (front ++ padding (beg - length front)) ++ (padding (end - length back) ++ back)

module _ (beg end : ℕ) (p : Bytes) where
  abbrev front : Bytes
  front = take beg (strip_left p)

  abbrev back : Bytes
  back = last end (strip_right p)

  abbrev front_half : List ℕ
  front_half = front ++ padding (beg - length front)

  length-front : length front ≡ min beg (length p - beg_start p)
  length-front =
      length-take {0} beg (strip_left p)
      ∙ ap (λ s. min beg (length s)) (strip_left_lem p)
      ∙ ap (min beg) (length-drop {0} (beg_start p) p)

  length-back : length back ≡ min end (length (strip_right p))
  length-back = omega (arith, length-drop {0} (length (strip_right p) - end) (strip_right p))

  length-front_half : length front_half ≡ beg
  length-front_half = omega (
    arith,
    length-append {0} front (padding (beg - length front)),
    length-padding (beg - length front),
    length-front,
  )

  copy-front :
      copy (min beg (length p - beg_start p)) (beg_start p) 0 p (padding (beg + end))
      ≡ some (front ++ padding (beg + end - length front))
  copy-front =
      copy_at (min beg (length p - beg_start p)) (beg_start p) 0 p (padding (beg + end)) [] front
        (padding (beg + end - length front))
        (record {
          ps = take (beg_start p) p;
          qs = drop beg (strip_left p);
          mid = padding (length front);
          source_is = sym (
              ap (take (beg_start p) p ++◌) (take-append-drop beg (strip_left p) ∙ strip_left_lem p)
              ∙ take-append-drop (beg_start p) p);
          tokens_is =
              ap padding (omega (arith, length-front))
              ∙ padding_add (length front) (beg + end - length front);
          count_is = sym length-front;
          from_is = omega (arith, length-take {0} (beg_start p) p, beg_start-le p);
          to_is = refl;
          same_length = length-padding (length front);
        })

  back_gap :
      front ++ padding (beg + end - length front)
      ≡ (front_half ++ padding (end - length back)) ++ (padding (length back) ++ [])
  back_gap =
      let f = length front in
      let b = length back in
      ap (front ++◌) (
        ap padding (omega (arith, length-front, length-back))
        ∙ padding_add (beg - f) ((end - b) + b)
        ∙ ap (padding (beg - f) ++◌) (padding_add (end - b) b))
      ∙ sym (append_assoc front (padding (beg - f)) (padding (end - b) ++ padding b))
      ∙ sym (append_assoc front_half (padding (end - b)) (padding b))
      ∙ ap ((front_half ++ padding (end - b)) ++◌) (sym (append-nil (padding b)))

  copy-back :
      copy
        (min end (length (strip_right p)))
        (length (strip_right p) - min end (length (strip_right p)))
        (beg + (end - min end (length (strip_right p))))
        p
        (front ++ padding (beg + end - length front))
      ≡ some ((front_half ++ padding (end - length back)) ++ (back ++ []))
  copy-back =
      let n = length (strip_right p) in
      copy_at (min end n) (n - min end n) (beg + (end - min end n)) p
        (front ++ padding (beg + end - length front)) (front_half ++ padding (end - length back))
        back []
        (record {
          ps = take (n - end) (strip_right p);
          qs = drop n p;
          mid = padding (length back);
          source_is = sym (
              sym (append_assoc (take (n - end) (strip_right p)) back (drop n p))
              ∙ ap (λ s. s ++ drop n p)
                  (take-append-drop (n - end) (strip_right p) ∙ strip_right-take p)
              ∙ take-append-drop n p);
          tokens_is = back_gap;
          count_is = sym length-back;
          from_is = omega (arith, length-take {0} (n - end) (strip_right p));
          to_is = omega (
            arith,
            length-append {0} front_half (padding (end - length back)),
            length-front_half,
            length-padding (end - length back),
            length-back,
          );
          same_length = length-padding (length back);
        })

  fill_regions_lem : fill_regions beg end p (padding (beg + end)) ≡ some (layout beg end p)
  unfolding fill_regions
  fill_regions_lem =
      let n = length (strip_right p) in
      let last_copy =
        λ (ts : List ℕ) (k : ℕ). copy (min end k) (k - min end k) (beg + (end - min end k)) p ts in
      ap (λ o. o >>= λ ts. end_pos p (length p) >>= last_copy ts) copy-front
      ∙ ap (λ o. o >>= last_copy (front ++ padding (beg + end - length front)))
          (end_pos_lem p (length p) (omega arith)
            ∙ ap (λ s. some (length (strip_right s))) (take_all (length p) p (omega arith)))
      ∙ copy-back
      ∙ ap some (
          ap ((front_half ++ padding (end - length back)) ++◌) (append-nil back)
          ∙ append_assoc front_half (padding (end - length back)) back)

layout_nil : (beg end : ℕ) → layout beg end [] ≡ padding (beg + end)
unfolding strip_left strip_right
layout_nil beg end =
    rw
      (
        take_all {0} {A = ℕ} beg [] (omega arith),
        drop_all {0} {A = ℕ} (0 - end) [] (omega arith),
        append-nil (padding (end - 0)),
      )
      (sym (padding_add (beg - 0) (end - 0)) ∙ ap padding (omega arith))

extract_lem : (beg end : ℕ) (p : Bytes) → extract beg end p ≡ some (layout beg end p)
unfolding extract
extract_lem beg end [] = ap some (sym (layout_nil beg end))
extract_lem beg end (b ∷ bs) = fill_regions_lem beg end (b ∷ bs)

All-take : (P : ℕ → Type 0) (n : ℕ) (xs : List ℕ) → All P xs → All P (take n xs)
All-take P zero xs h = tt
All-take P (suc n) [] h = tt
All-take P (suc n) (x ∷ xs) h = (h.0, All-take P n xs h.1)

All-padding : (n : ℕ) → All (λ t. t ≤ 256) (padding n)
unfolding padding
All-padding zero = tt
All-padding (suc n) = (omega arith, All-padding n)

All-le : (xs : List ℕ) → All (λ b. b < 256) xs → All (λ t. t ≤ 256) xs
All-le [] h = tt
All-le (x ∷ xs) h = (omega (arith, h.0), All-le xs h.1)

layout-All :
    (beg end : ℕ) (p : Bytes) → All (λ b. b < 256) p → All (λ t. t ≤ 256) (layout beg end p)
layout-All beg end p h =
    let P : ℕ → Type 0 = λ t. t ≤ 256 in
    let k = All-le p h in
    let fs =
      All-take P beg (strip_left p)
        (subst (All P) (sym (strip_left_lem p)) (All-drop P (beg_start p) p k)) in
    let bs =
      All-drop P (length (strip_right p) - end) (strip_right p)
        (subst (All P) (sym (strip_right-take p)) (All-take P (length (strip_right p)) p k)) in
    All-append P (front_half beg end p) (padding (end - length (back beg end p)) ++ back beg end p)
      (All-append P (front beg end p) (padding (beg - length (front beg end p))) fs
        (All-padding (beg - length (front beg end p))))
      (All-append P (padding (end - length (back beg end p))) (back beg end p)
        (All-padding (end - length (back beg end p))) bs)

length-layout : (beg end : ℕ) (p : Bytes) → length (layout beg end p) ≡ beg + end
length-layout beg end p =
    let b = back beg end p in
    omega (
      arith,
      length-append {0} (front_half beg end p) (padding (end - length b) ++ b),
      length-append {0} (padding (end - length b)) b,
      length-front_half beg end p,
      length-padding (end - length b),
      length-back beg end p,
    )

-- For every payload of bytes, no access of the preprocessing is out of range, and its result is the
-- first 1024 bytes of the text without leading whitespace, padded on the right, and then the last
-- 1024 bytes of the text without trailing whitespace, padded on the left; these are 2048 tokens, each
-- at most 256.
pub tokens_lem :
    (p : Bytes)
    → All (λ b. b < 256) p
    → (extract_input_tokens p ≡ some (layout beg_size end_size p))
      × (length (layout beg_size end_size p) ≡ 2048)
      × All (λ t. t ≤ 256) (layout beg_size end_size p)
unfolding extract_input_tokens
tokens_lem p h = (extract_lem 1024 1024 p, length-layout 1024 1024 p, layout-All 1024 1024 p h)
