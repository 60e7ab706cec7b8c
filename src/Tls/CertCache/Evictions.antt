-- ===== src/Tls/CertCache/Evictions.antt =====
-- The insertion of a new hostname into `CertCache`, and what it evicts (DeepSeerLib/src/Tls/CertCache.cpp).
use deep_seer.Base.{
  ℕ, ◌+◌, ◌-◌, ◌<◌, ◌≡◌, refl, sym, ap, subst, ◌∙◌, inl, inr, List, [], ◌∷◌, ◌++◌, none, some,
  arith, if◌then◌else◌, if_true, if_false, Bool-cases, length, take, take_all, ltb, ltb→lt, ◌==◌,
}
use deep_seer.Core.Buffer.{Bytes}
use deep_seer.Tls.CertCache.{
  Entry, RefCall, up_ref, free, CertCache, contains, erase, find, split_back, evict, insert, put,
}
use deep_seer.Tls.CertCache.Keys.{
  HaveDistinct, contains-erase, erase-AreDistinct, split_back_lem, find-front, front-HaveDistinct,
  length-front, take-front,
}
use deep_seer.Tls.CertCache.Hits.{
  ups, frees, holds, IsConsistent, ups-append, frees-append, holds-front, contains_lem,
}

-- The cache that `put` inserts into where the hostname is new.
pub record IsRoom (h : Bytes) (c d : CertCache) : Type 0 where
  pub done : evict c ≡ some d
  pub same_bound : d.max_entries ≡ c.max_entries
  pub order_is : d.order ≡ take (c.max_entries - 1) c.order
  pub absent : find h d.order ≡ none
  pub room : length d.order < d.max_entries
  pub consistent : IsConsistent d

pub split_lem :
    (es : List Entry)
    → 0 < length es
    → (fs : List Entry) × (b : Entry) × (split_back es ≡ some (fs, b)) × (es ≡ fs ++ b ∷ [])
split_lem [] h = absurd (omega arith)
split_lem (e ∷ es) h = split_back_lem e es

pub evicted-IsConsistent :
    (c : CertCache) (fs : List Entry) (b : Entry)
    → IsConsistent c
    → c.order ≡ fs ++ b ∷ []
    → IsConsistent
        (record c { map = erase b.hostname c.map; calls = c.calls ++ free b.ctx ∷ []; order = fs })
unfolding ups frees
evicted-IsConsistent c fs b i q =
    let d = subst HaveDistinct q i.hosts_distinct in
    record {
      keys_agree = λ j. ground (
        arith,
        contains-erase b.hostname j c.map i.keys_distinct,
        find-front j fs b d,
        i.keys_agree j,
        ap (find j) q,
      );
      keys_distinct = erase-AreDistinct b.hostname c.map i.keys_distinct;
      hosts_distinct = front-HaveDistinct fs b d;
      bounded = omega (arith, i.bounded, ap length q, length-front fs b);
      balanced = λ x. omega (
        arith,
        i.balanced x,
        ups-append x c.calls (free b.ctx ∷ []),
        frees-append x c.calls (free b.ctx ∷ []),
        ap (holds x) q,
        holds-front x fs b,
      );
    }

pub evict_lem :
    (h : Bytes) (c : CertCache)
    → 0 < c.max_entries
    → IsConsistent c
    → find h c.order ≡ none
    → (d : CertCache) × IsRoom h c d
unfolding evict
evict_lem h c n i f = elim (Bool-cases (ltb (length c.order) c.max_entries)) [
  | inl free_place ↦ (
    c,
    record {
      done = if_true (ltb (length c.order) c.max_entries) _ _ free_place;
      same_bound = refl;
      order_is = sym (take_all (c.max_entries - 1) c.order (omega (arith, ltb→lt _ _ free_place)));
      absent = f;
      room = ltb→lt _ _ free_place;
      consistent = i;
    },
  )
  | inr full ↦
      let size : length c.order ≡ c.max_entries = ground (arith, i.bounded) in
      let (fs, b, s, q) = split_lem c.order (omega (arith, size)) in
      let len = length-front fs b in
      (
        record c { map = erase b.hostname c.map; calls = c.calls ++ free b.ctx ∷ []; order = fs },
        record {
          done = if_false (ltb (length c.order) c.max_entries) _ _ full ∙ rw s;
          same_bound = refl;
          order_is = sym (
              ap (λ k. take k c.order) (omega (arith, size, ap length q, len))
              ∙ ap (take (length fs)) q
              ∙ take-front fs b);
          absent =
              ground (
                arith,
                find-front h fs b (subst HaveDistinct q i.hosts_distinct),
                ap (find h) q,
                f,
              );
          room = omega (arith, size, ap length q, len);
          consistent = evicted-IsConsistent c fs b i q;
        },
      )
]

pub inserted-IsConsistent :
    (h : Bytes) (ctx : ℕ) (c d : CertCache) → IsRoom h c d → IsConsistent (insert h ctx d)
unfolding insert contains find ups frees holds
inserted-IsConsistent h ctx c d r =
    let i = r.consistent in
    record {
      keys_agree = λ j. ground (arith, i.keys_agree j);
      keys_distinct = (contains_lem h d none i r.absent, i.keys_distinct);
      hosts_distinct = (r.absent, i.hosts_distinct);
      bounded = omega (arith, r.room);
      balanced = λ x. omega (
        arith,
        i.balanced x,
        ups-append x d.calls (up_ref ctx ∷ []),
        frees-append x d.calls (up_ref ctx ∷ []),
      );
    }

pub put_miss :
    (h : Bytes) (ctx : ℕ) (c d : CertCache)
    → IsConsistent c
    → find h c.order ≡ none
    → IsRoom h c d
    → put h ctx c ≡ some (insert h ctx d)
unfolding put
put_miss h ctx c d i f r = if_false (contains h c.map) _ _ (contains_lem h c none i f) ∙ rw r.done

pub replaced_balance :
    (x old ctx held : ℕ) (cs : List RefCall)
    → ups x cs ≡ frees x cs + held
    → ups x (cs ++ free old ∷ up_ref ctx ∷ []) + (if old == x then 1 else 0)
      ≡ frees x (cs ++ free old ∷ up_ref ctx ∷ []) + held + (if ctx == x then 1 else 0)
unfolding ups frees
replaced_balance x old ctx held cs h = omega (
  arith,
  h,
  ups-append x cs (free old ∷ up_ref ctx ∷ []),
  frees-append x cs (free old ∷ up_ref ctx ∷ []),
)
