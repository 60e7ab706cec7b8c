-- ===== src/Tls/CertCache/Lru.antt =====
-- `CertCache` against a list in the order of use (DeepSeerLib/src/Tls/CertCache.cpp).
use deep_seer.Base.{
  ℕ, zero, suc, ◌+◌, ◌-◌, ◌≤◌, ◌<◌, ◌≡◌, refl, sym, ap, ◌∙◌, inl, inr, List, [], ◌∷◌, ◌++◌, Option,
  some, arith, Option-cases, length, take, take_all, ◌>>=◌,
}
use mathlib.Core.Option
use deep_seer.Core.Buffer.{Bytes}
use deep_seer.Tls.CertCache.{
  Entry, up_ref, free, CertCache, make_cache, find, without, get, insert, put,
}
use deep_seer.Tls.CertCache.Keys.{length-without, without_absent}
use deep_seer.Tls.CertCache.Evictions.{evict_lem, inserted-IsConsistent, put_miss, replaced_balance}
use deep_seer.Tls.CertCache.Hits.{
  ups, frees, holds, IsConsistent, entry, spec_put, spec_get, make-IsConsistent, moved-IsConsistent,
  get_lem, put_hit,
}

take-cons : (n : ℕ) (e : Entry) (es : List Entry) → 0 < n → take n (e ∷ es) ≡ e ∷ take (n - 1) es
take-cons zero e es h = absurd (omega arith)
take-cons (suc n) e es h = ap (λ k. e ∷ take k es) (omega arith)

-- What a `put` into a cache with a capacity leaves.
put_lem :
    (h : Bytes) (ctx : ℕ) (c : CertCache)
    → 0 < c.max_entries
    → IsConsistent c
    → (d : CertCache) × (put h ctx c ≡ some d)
      × (d.order ≡ spec_put c.max_entries h ctx c.order)
      × (d.max_entries ≡ c.max_entries)
      × IsConsistent d
put_lem h ctx c n i = elim (Option-cases (find h c.order)) [
  | inl f ↦
      let (d, r) = evict_lem h c n i f in
      (
        insert h ctx d,
        put_miss h ctx c d i f r,
        unfold insert in
            ap (entry h ctx ∷◌)
              (r.order_is ∙ ap (take (c.max_entries - 1)) (sym (without_absent h c.order f)))
            ∙ sym (take-cons c.max_entries (entry h ctx) (without h c.order) n),
        unfold insert in r.same_bound,
        inserted-IsConsistent h ctx c d r,
      )
  | inr (e, f) ↦ (
    record c {
      calls = c.calls ++ free e.ctx ∷ up_ref ctx ∷ [];
      order = entry h ctx ∷ without h c.order;
    },
    put_hit h ctx c e i f,
    sym (
        take_all c.max_entries (entry h ctx ∷ without h c.order)
          (omega (arith, i.bounded, length-without h c.order e f))),
    refl,
    moved-IsConsistent h c e ctx (c.calls ++ free e.ctx ∷ up_ref ctx ∷ []) i f
        (λ x. replaced_balance x e.ctx ctx (holds x c.order) c.calls (i.balanced x)),
  )
]

pub data Op : Type 0 where
  gets : Bytes → Op
  puts : Bytes → ℕ → Op

-- A sequence of calls, and the answers of the `get`s.
unfoldable pub run : List Op → CertCache → Option (CertCache × List (Option ℕ))
run [] c = some (c, [])
run (gets h ∷ os) c = let r = get h c in run os r.0 >>= λ s. some (s.0, r.1 ∷ s.1)
run (puts h ctx ∷ os) c = put h ctx c >>= run os

-- The same calls on the list of entries in the order of use.
abbrev pub spec_run : ℕ → List Op → List Entry → List Entry × List (Option ℕ)
spec_run n [] es = (es, [])
spec_run n (gets h ∷ os) es =
    let r = spec_run n os (spec_get h es) in (r.0, Option.map (λ e. e.ctx) (find h es) ∷ r.1)
spec_run n (puts h ctx ∷ os) es = spec_run n os (spec_put n h ctx es)

run_lem :
    (os : List Op) (c : CertCache)
    → 0 < c.max_entries
    → IsConsistent c
    → (d : CertCache) × (run os c ≡ some (d, (spec_run c.max_entries os c.order).1))
      × (d.order ≡ (spec_run c.max_entries os c.order).0)
      × (d.max_entries ≡ c.max_entries)
      × IsConsistent d
unfolding run
run_lem [] c n i = (c, refl, refl, refl, i)
run_lem (gets h ∷ os) c n i =
    let (j, o, a, m) = get_lem h c i in
    let (f, g, p, b, k) = run_lem os (get h c).0 (omega (arith, n, m)) j in
    let same_run : spec_run (get h c).0.max_entries os (get h c).0.order
        ≡ spec_run c.max_entries os (spec_get h c.order) =
      ap (λ x. spec_run x os (get h c).0.order) m ∙ ap (spec_run c.max_entries os) o in
    (
      f,
      ap (λ r. r >>= λ s. some (s.0, (get h c).1 ∷ s.1)) g
          ∙ ap (λ s. some (f, (get h c).1 ∷ s.1)) same_run
          ∙ ap (λ x. some (f, x ∷ (spec_run c.max_entries os (spec_get h c.order)).1)) a,
      p ∙ ap (λ s. s.0) same_run,
      b ∙ m,
      k,
    )
run_lem (puts h ctx ∷ os) c n i =
    let (d, e, o, m, j) = put_lem h ctx c n i in
    let (f, g, p, b, k) = run_lem os d (omega (arith, n, m)) j in
    let same_run : spec_run d.max_entries os d.order
        ≡ spec_run c.max_entries os (spec_put c.max_entries h ctx c.order) =
      ap (λ x. spec_run x os d.order) m ∙ ap (spec_run c.max_entries os) o in
    (
      f,
      ap (λ r. r >>= run os) e ∙ g ∙ ap (λ s. some (f, s.1)) same_run,
      p ∙ ap (λ s. s.0) same_run,
      b ∙ m,
      k,
    )

-- Any sequence of `get` and `put` on a new cache with a capacity succeeds: the answers and the list
-- of entries are those of a list in the order of use, cut at the capacity; there are never more
-- entries than the capacity; and every context has been retained once more than released for each
-- entry that holds it.
pub lru_refines :
    (n : ℕ) (os : List Op)
    → 0 < n
    → (d : CertCache) × (run os (make_cache n) ≡ some (d, (spec_run n os []).1))
      × (d.order ≡ (spec_run n os []).0)
      × (length d.order ≤ n)
      × ((x : ℕ) → ups x d.calls ≡ frees x d.calls + holds x d.order)
lru_refines n os h =
    let (d, e, o, m, i) = run_lem os (make_cache n) h (make-IsConsistent n) in
    (d, e, o, omega (arith, i.bounded, m), i.balanced)
