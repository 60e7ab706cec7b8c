-- ===== src/Seer/Magika/Tokens.antt =====
-- `MagikaModel::extractInputTokens` (SeerLib/src/Magika/MagikaModel.cpp).
pub mod Copy
pub mod Strip
pub mod Layout
use deep_seer.Base.{
  ℕ, zero, suc, ◌+◌, ◌-◌, ◌≡◌, Bool, true, false, ◌||◌, List, [], ◌∷◌, Option, none, some,
  if◌then◌else◌, ltb, ◌==◌, length, get_elem?, min, ◌>>=◌,
}
use deep_seer.Core.Buffer.{Bytes, is_empty}

-- `kBegSize`, `kEndSize` and `kPaddingToken`.
abbrev pub beg_size : ℕ
beg_size = 1024

abbrev pub end_size : ℕ
end_size = 1024

abbrev pub padding_token : ℕ
padding_token = 256

-- `isWhitespace`.
unfoldable pub is_whitespace : ℕ → Bool
is_whitespace v = v == 9 || v == 10 || v == 11 || v == 12 || v == 13 || v == 32

-- `tokens(n, kPaddingToken)`.
unfoldable pub padding : ℕ → List ℕ
padding zero = []
padding (suc n) = padding_token ∷ padding n

-- `tokens[i] = v`.
unfoldable pub store : ℕ → ℕ → List ℕ → Option (List ℕ)
store i v [] = none
store zero v (t ∷ ts) = some (v ∷ ts)
store (suc i) v (t ∷ ts) = store i v ts >>= λ us. some (t ∷ us)

-- `for (i < count) tokens[to + i] = payload[from + i]`.
unfoldable pub copy : ℕ → ℕ → ℕ → Bytes → List ℕ → Option (List ℕ)
copy zero from to payload tokens = some tokens
copy (suc n) from to payload tokens = do
  v ← get_elem? payload from
  ts ← store to v tokens
  copy n (suc from) (suc to) payload ts

-- `begStart`: the loop over leading whitespace.
unfoldable pub beg_start : Bytes → ℕ
beg_start [] = 0
beg_start (b ∷ bs) = if is_whitespace b then suc (beg_start bs) else 0

-- `endPos`: the loop over trailing whitespace, from a position down.
unfoldable pub end_pos : Bytes → ℕ → Option ℕ
end_pos payload zero = some zero
end_pos payload (suc k) = do
  b ← get_elem? payload k
  let rest = end_pos payload k
  if is_whitespace b then rest else some (suc k)

-- The two regions, at sizes `beg` and `end`.
unfoldable pub fill_regions : ℕ → ℕ → Bytes → List ℕ → Option (List ℕ)
fill_regions beg end payload tokens = do
  let start = beg_start payload
  ts ← copy (min beg (length payload - start)) start 0 payload tokens
  pos ← end_pos payload (length payload)
  let count = min end pos
  copy count (pos - count) (beg + (end - count)) payload ts

-- The function at those sizes.
unfoldable pub extract : ℕ → ℕ → Bytes → Option (List ℕ)
extract beg end payload =
    let tokens = padding (beg + end) in
    if is_empty payload then some tokens else fill_regions beg end payload tokens

-- `MagikaModel::extractInputTokens`.
unfoldable pub extract_input_tokens : Bytes → Option (List ℕ)
extract_input_tokens payload = extract beg_size end_size payload
