-- ===== src/Tls/CertCache/Hits.antt =====
-- The hostnames that `CertCache` holds (DeepSeerLib/src/Tls/CertCache.cpp).
use deep_seer.Base.{
  ℕ, ◌+◌, ◌≤◌, ◌≡◌, refl, sym, ap, ◌∙◌, inl, inr, List, [], ◌∷◌, ◌++◌, Option, none, some, arith,
  if◌then◌else◌, if_true, if_false, Option-cases, length, same_iff, take, ◌==◌,
}
use mathlib.Core.Option
use deep_seer.Core.Buffer.{Bytes}
use deep_seer.Tls.CertCache.{
  Entry, RefCall, up_ref, free, CertCache, make_cache, contains, find, without, get, put,
}
use deep_seer.Tls.CertCache.Keys.{
  has, AreDistinct, HaveDistinct, find-without, without-HaveDistinct, find-hostname, length-without,
}

-- Calls of one kind on a context, and the entries that hold it.
unfoldable pub ups : ℕ → List RefCall → ℕ
ups x [] = 0
ups x (up_ref c ∷ cs) = (if c == x then 1 else 0) + ups x cs
ups x (free c ∷ cs) = ups x cs

unfoldable pub frees : ℕ → List RefCall → ℕ
frees x [] = 0
frees x (up_ref c ∷ cs) = frees x cs
frees x (free c ∷ cs) = (if c == x then 1 else 0) + frees x cs

unfoldable pub holds : ℕ → List Entry → ℕ
holds x [] = 0
holds x (e ∷ es) = (if e.ctx == x then 1 else 0) + holds x es

-- The two containers have the same keys, none twice; no more entries than allowed; and every context
-- has been retained once more than released for each entry that holds it.
pub record IsConsistent (c : CertCache) : Type 0 where
  pub keys_agree : (j : Bytes) → contains j c.map ≡ has (find j c.order)
  pub keys_distinct : AreDistinct c.map
  pub hosts_distinct : HaveDistinct c.order
  pub bounded : length c.order ≤ c.max_entries
  pub balanced : (x : ℕ) → ups x c.calls ≡ frees x c.calls + holds x c.order

-- The reference: the entry goes to the front, and what exceeds the capacity falls off.
abbrev pub entry : Bytes → ℕ → Entry
entry h ctx = record { hostname = h; ctx = ctx }

abbrev pub spec_put : ℕ → Bytes → ℕ → List Entry → List Entry
spec_put n h ctx es = take n (entry h ctx ∷ without h es)

abbrev pub touched : Bytes → List Entry → Option Entry → List Entry
touched h es none = es
touched h es (some e) = e ∷ without h es

abbrev pub spec_get : Bytes → List Entry → List Entry
spec_get h es = touched h es (find h es)

pub ups-append : (x : ℕ) (cs ds : List RefCall) → ups x (cs ++ ds) ≡ ups x cs + ups x ds
unfolding ups
ups-append x [] ds = omega arith
ups-append x (up_ref c ∷ cs) ds = omega (arith, ups-append x cs ds)
ups-append x (free c ∷ cs) ds = ups-append x cs ds

pub frees-append : (x : ℕ) (cs ds : List RefCall) → frees x (cs ++ ds) ≡ frees x cs + frees x ds
unfolding frees
frees-append x [] ds = omega arith
frees-append x (up_ref c ∷ cs) ds = frees-append x cs ds
frees-append x (free c ∷ cs) ds = omega (arith, frees-append x cs ds)

pub holds-without :
    (x : ℕ) (h : Bytes) (es : List Entry) (e : Entry)
    → find h es ≡ some e
    → holds x es ≡ (if e.ctx == x then 1 else 0) + holds x (without h es)
unfolding holds find without
holds-without x h [] e f = cc
holds-without x h (y ∷ es) e f = ground (arith, holds-without x h es e)

pub holds-front :
    (x : ℕ) (fs : List Entry) (b : Entry)
    → holds x (fs ++ b ∷ []) ≡ (if b.ctx == x then 1 else 0) + holds x fs
unfolding holds
holds-front x [] b = omega arith
holds-front x (e ∷ fs) b = omega (arith, holds-front x fs b)

pub make-IsConsistent : (n : ℕ) → IsConsistent (make_cache n)
unfolding contains find ups frees holds
make-IsConsistent n = record {
  keys_agree = λ j. refl;
  keys_distinct = tt;
  hosts_distinct = tt;
  bounded = omega arith;
  balanced = λ x. omega arith;
}

-- The new front entry of `put` where the hostname is there, and of `get`.
pub moved-IsConsistent :
    (h : Bytes) (c : CertCache) (e : Entry) (ctx : ℕ) (calls : List RefCall)
    → IsConsistent c
    → find h c.order ≡ some e
    → ((x : ℕ)
        → ups x calls + (if e.ctx == x then 1 else 0)
          ≡ frees x calls + holds x c.order + (if ctx == x then 1 else 0))
    → IsConsistent (record c { calls = calls; order = entry h ctx ∷ without h c.order })
unfolding contains find holds
moved-IsConsistent h c e ctx calls i f balance = record {
  keys_agree = λ j. ground (
    arith,
    i.keys_agree j,
    find-without h j c.order i.hosts_distinct,
    i.keys_agree h,
    f,
    same_iff h j,
  );
  keys_distinct = i.keys_distinct;
  hosts_distinct = (
    ground (arith, find-without h h c.order i.hosts_distinct, same_iff h h),
    without-HaveDistinct h c.order i.hosts_distinct,
  );
  bounded = omega (arith, i.bounded, length-without h c.order e f);
  balanced = λ x. omega (arith, balance x, holds-without x h c.order e f);
}

pub entry_lem :
    (h : Bytes) (c : CertCache) (e : Entry) → find h c.order ≡ some e → e ≡ entry h e.ctx
entry_lem h c e f =
    ap (λ k. entry k e.ctx) ((same_iff e.hostname h).0 (find-hostname h c.order e f))

pub contains_lem :
    (h : Bytes) (c : CertCache) (o : Option Entry)
    → IsConsistent c
    → find h c.order ≡ o
    → contains h c.map ≡ has o
contains_lem h c o i f = i.keys_agree h ∙ ap has f

pub get_hit :
    (h : Bytes) (c : CertCache) (e : Entry)
    → IsConsistent c
    → find h c.order ≡ some e
    → get h c ≡ (record c { order = entry h e.ctx ∷ without h c.order }, some e.ctx)
unfolding get
get_hit h c e i f =
    if_true (contains h c.map) _ _ (contains_lem h c (some e) i f)
    ∙ rw f (ap (λ k. (record c { order = k ∷ without h c.order }, some e.ctx)) (entry_lem h c e f))

pub get_miss :
    (h : Bytes) (c : CertCache) → IsConsistent c → find h c.order ≡ none → get h c ≡ (c, none)
unfolding get
get_miss h c i f = if_false (contains h c.map) _ _ (contains_lem h c none i f)

-- What `get` answers and leaves.
pub get_lem :
    (h : Bytes) (c : CertCache)
    → IsConsistent c
    → IsConsistent (get h c).0
      × ((get h c).0.order ≡ spec_get h c.order)
      × ((get h c).1 ≡ Option.map (λ e. e.ctx) (find h c.order))
      × ((get h c).0.max_entries ≡ c.max_entries)
get_lem h c i = elim (Option-cases (find h c.order)) [
  | inl f ↦
      rw (get_miss h c i f)
        (i, ap (touched h c.order) (sym f), ap (Option.map (λ e. e.ctx)) (sym f), refl)
  | inr (e, f) ↦ rw (get_hit h c e i f) (
    moved-IsConsistent h c e e.ctx c.calls i f (λ x. omega (arith, i.balanced x)),
    ap (λ k. k ∷ without h c.order) (sym (entry_lem h c e f)) ∙ ap (touched h c.order) (sym f),
    ap (Option.map (λ k. k.ctx)) (sym f),
    refl,
  )
]

pub put_hit :
    (h : Bytes) (ctx : ℕ) (c : CertCache) (e : Entry)
    → IsConsistent c
    → find h c.order ≡ some e
    → put h ctx c
      ≡ some (record c {
        calls = c.calls ++ free e.ctx ∷ up_ref ctx ∷ [];
        order = entry h ctx ∷ without h c.order;
      })
unfolding put
put_hit h ctx c e i f = if_true (contains h c.map) _ _ (contains_lem h c (some e) i f) ∙ rw f
