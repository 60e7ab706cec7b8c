-- ===== src/Seer/Magika/Tokens/Copy.antt =====
-- The copy loops of `MagikaModel::extractInputTokens`, over lists cut in three.
use deep_seer.Base.{
  ℕ, zero, suc, ◌+◌, ◌≡◌, refl, sym, ap, ◌∙◌, List, [], ◌∷◌, ◌++◌, some, arith, length,
  length-append, get_elem?, append_assoc, ◌>>=◌,
}
use deep_seer.Core.Buffer.{Bytes}
use deep_seer.Seer.Magika.Tokens.{padding_token, padding, store, copy}

pub padding_add : (m n : ℕ) → padding (m + n) ≡ padding m ++ padding n
unfolding padding
padding_add zero n = ap padding (omega arith)
padding_add (suc m) n =
    let e : suc m + n ≡ suc (m + n) = omega arith in rw e (ap (padding_token ∷◌) (padding_add m n))

pub length-padding : (n : ℕ) → length (padding n) ≡ n
unfolding padding
length-padding zero = refl
length-padding (suc n) = ap suc (length-padding n)

get_elem?-append : (ps xs : Bytes) (x : ℕ) → get_elem? (ps ++ x ∷ xs) (length ps) ≡ some x
get_elem?-append [] xs x = refl
get_elem?-append (p ∷ ps) xs x = get_elem?-append ps xs x

store-append :
    (pre post : List ℕ) (v old : ℕ)
    → store (length pre) v (pre ++ old ∷ post) ≡ some (pre ++ v ∷ post)
unfolding store
store-append [] post v old = refl
store-append (p ∷ pre) post v old = rw (store-append pre post v old)

snoc_lem : (xs ys : List ℕ) (x : ℕ) → xs ++ x ∷ ys ≡ (xs ++ x ∷ []) ++ ys
snoc_lem xs ys x = sym (append_assoc xs (x ∷ []) ys)

length-snoc : (xs : List ℕ) (x : ℕ) → suc (length xs) ≡ length (xs ++ x ∷ [])
length-snoc xs x = omega (arith, length-append {0} xs (x ∷ []))

-- A copy of `xs` over `mid`, whatever stands around them.
pub copy_lem :
    (xs mid ps qs pre post : List ℕ)
    → length mid ≡ length xs
    → copy (length xs) (length ps) (length pre) (ps ++ (xs ++ qs)) (pre ++ (mid ++ post))
      ≡ some (pre ++ (xs ++ post))
unfolding copy
copy_lem [] [] ps qs pre post h = refl
copy_lem [] (m ∷ mid) ps qs pre post h = absurd (omega arith)
copy_lem (x ∷ xs) [] ps qs pre post h = absurd (omega arith)
copy_lem (x ∷ xs) (m ∷ mid) ps qs pre post h =
    let source = ps ++ x ∷ (xs ++ qs) in
    let tokens = pre ++ m ∷ (mid ++ post) in
    let written = pre ++ x ∷ (mid ++ post) in
    let from = λ (n : ℕ) (s ts : List ℕ). copy (length xs) n (suc (length pre)) s ts in
    let to = λ (n : ℕ). copy (length xs) (length (ps ++ x ∷ [])) n ((ps ++ x ∷ []) ++ (xs ++ qs)) in
    ap (λ o. o >>= λ v. store (length pre) v tokens >>= from (suc (length ps)) source)
      (get_elem?-append ps (xs ++ qs) x)
    ∙ ap (λ o. o >>= from (suc (length ps)) source) (store-append pre (mid ++ post) x m)
    ∙ ap (λ s. from (suc (length ps)) s written) (snoc_lem ps (xs ++ qs) x)
    ∙ ap (λ n. from n ((ps ++ x ∷ []) ++ (xs ++ qs)) written) (length-snoc ps x)
    ∙ ap (to (suc (length pre))) (snoc_lem pre (mid ++ post) x)
    ∙ ap (λ n. to n ((pre ++ x ∷ []) ++ (mid ++ post))) (length-snoc pre x)
    ∙ copy_lem xs mid (ps ++ x ∷ []) qs (pre ++ x ∷ []) post (omega (arith, h))
    ∙ ap some (sym (snoc_lem pre (xs ++ post) x))

-- The same, at numbers and lists that equal those.
pub record IsCopy (n from to : ℕ) (source tokens : List ℕ) (pre xs post : List ℕ) : Type 0 where
  pub ps : List ℕ
  pub qs : List ℕ
  pub mid : List ℕ
  pub source_is : source ≡ ps ++ (xs ++ qs)
  pub tokens_is : tokens ≡ pre ++ (mid ++ post)
  pub count_is : n ≡ length xs
  pub from_is : from ≡ length ps
  pub to_is : to ≡ length pre
  pub same_length : length mid ≡ length xs

pub copy_at :
    (n from to : ℕ) (source tokens pre xs post : List ℕ)
    → IsCopy n from to source tokens pre xs post
    → copy n from to source tokens ≡ some (pre ++ (xs ++ post))
copy_at n from to source tokens pre xs post c =
    ap (λ k. copy k from to source tokens) c.count_is
    ∙ ap (λ k. copy (length xs) k to source tokens) c.from_is
    ∙ ap (λ k. copy (length xs) (length c.ps) k source tokens) c.to_is
    ∙ ap (λ s. copy (length xs) (length c.ps) (length pre) s tokens) c.source_is
    ∙ ap (copy (length xs) (length c.ps) (length pre) (c.ps ++ (xs ++ c.qs))) c.tokens_is
    ∙ copy_lem xs c.mid c.ps c.qs pre post c.same_length
