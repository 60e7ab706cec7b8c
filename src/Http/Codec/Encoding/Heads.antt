-- ===== src/Http/Codec/Encoding/Heads.antt =====
-- A reader of message heads, and the lines that it reads back.
use deep_seer.Base.{
  ◌≡◌, ◌≢◌, refl, ap, ◌∙◌, Bool, true, false, List, [], ◌∷◌, ◌++◌, map, append_assoc, append-nil,
  Option, none, some, arith, if◌then◌else◌, All, All-append, ◌==◌, codes, ==_iff, Bool-cases, inl,
  inr,
}
use mathlib.Core.Option
use deep_seer.Core.Buffer.{Bytes, is_empty}
use deep_seer.Http.Headers.{HeaderMap, Entry}
use deep_seer.Http.Codec.{crlf}
use deep_seer.Http.Codec.Encoding.Added.{header_bytes}

-- A reader of message heads, independent of the encoder: the lines up to the first empty one, each
-- ended by CR LF, and what stands behind them. The arguments in front are whether a CR was just
-- read, and the line so far.
unfoldable pub read_head : Bool → Bytes → Bytes → Option (List Bytes × Bytes)
read_head cr line [] = none
read_head true line (c ∷ cs) =
    let rest = read_head false [] cs in
    if c == 10
    then (if is_empty line then some ([], cs) else Option.map (λ r. (line ∷ r.0, r.1)) rest)
    else none
read_head false line (c ∷ cs) =
    let ended = read_head true line cs in
    let longer = read_head false (line ++ c ∷ []) cs in if c == 13 then ended else longer

-- No carriage return.
abbrev pub IsPlain : Bytes → Type 0
IsPlain s = All (λ c. c ≢ 13) s

read_head-line :
    (s line rest : Bytes)
    → IsPlain s
    → read_head false line (s ++ rest) ≡ read_head false (line ++ s) rest
unfolding read_head
read_head-line [] line rest p = rw append-nil
read_head-line (c ∷ s) line rest p = elim (Bool-cases (c == 13)) [
  | inl e ↦ absurd (p.0 ((==_iff c 13).0 e))
  | inr e ↦ rw e (read_head-line s (line ++ c ∷ []) rest p.1 ∙ rw append_assoc)
]

read_head-full :
    (s rest : Bytes)
    → IsPlain s
    → s ≢ []
    → read_head false [] (s ++ (crlf ++ rest))
      ≡ Option.map (λ r. (s ∷ r.0, r.1)) (read_head false [] rest)
read_head-full [] rest p e = absurd (e refl)
read_head-full (c ∷ s) rest p e =
    read_head-line (c ∷ s) [] (crlf ++ rest) p ∙ unfold read_head in refl

abbrev pub header_text : Entry → Bytes
header_text e = e.0 ++ codes ": " ++ e.1

abbrev pub ArePlain : HeaderMap → Type 0
ArePlain = All (λ (e : Entry). IsPlain e.0 × IsPlain e.1)

header_text-IsPlain : (k v : Bytes) → IsPlain k → IsPlain v → IsPlain (header_text (k, v))
header_text-IsPlain k v p q =
    All-append (λ c. c ≢ 13) (k ++ codes ": ") v
      (All-append (λ c. c ≢ 13) k (codes ": ") p (omega arith)) q

header_text_ne : (k v : Bytes) → header_text (k, v) ≢ []
header_text_ne [] v = λ h. cc
header_text_ne (x ∷ k) v = λ h. cc

header_bytes-cons :
    (k v rest : Bytes) (m : HeaderMap)
    → header_bytes ((k, v) ∷ m) ++ rest ≡ header_text (k, v) ++ (crlf ++ (header_bytes m ++ rest))
header_bytes-cons k v rest m = simp append_assoc

read_head-headers :
    (m : HeaderMap) (rest : Bytes)
    → ArePlain m
    → read_head false [] (header_bytes m ++ (crlf ++ rest)) ≡ some (map header_text m, rest)
read_head-headers [] rest p = unfold read_head in refl
read_head-headers ((k, v) ∷ m) rest p =
    ap (read_head false []) (header_bytes-cons k v (crlf ++ rest) m)
    ∙ read_head-full (header_text (k, v)) (header_bytes m ++ (crlf ++ rest))
        (header_text-IsPlain k v p.0.0 p.0.1) (header_text_ne k v)
    ∙ ap (Option.map (λ r. (header_text (k, v) ∷ r.0, r.1))) (read_head-headers m rest p.1)

pub read_head-message :
    (line rest d : Bytes) (m : HeaderMap)
    → IsPlain line
    → line ≢ []
    → ArePlain m
    → d ≡ (line ++ crlf) ++ (header_bytes m ++ crlf)
    → read_head false [] (d ++ rest) ≡ some (line ∷ map header_text m, rest)
read_head-message line rest d m p e a q =
    ap (read_head false []) (ap (λ x. x ++ rest) q ∙ simp append_assoc)
    ∙ read_head-full line (header_bytes m ++ (crlf ++ rest)) p e
    ∙ ap (Option.map (λ r. (line ∷ r.0, r.1))) (read_head-headers m rest a)
