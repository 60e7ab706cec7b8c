-- ===== src/Tls/CertCache/Keys.antt =====
-- The keys of the two containers of `CertCache` (DeepSeerLib/src/Tls/CertCache.cpp).
use deep_seer.Base.{
  suc, ◌≡◌, ◌≢◌, refl, ap, ◌∙◌, inl, inr, Bool, true, false, List, [], ◌∷◌, ◌++◌, Option, none,
  some, arith, if◌then◌else◌, Bool-cases, length, same, same_iff, take, length-append,
}
use deep_seer.Core.Buffer.{Bytes}
use deep_seer.Tls.CertCache.{Entry, contains, erase, find, without, split_back}

abbrev pub has {ℓ} : {A : Type ℓ} → Option A → Bool
has none = false
has (some a) = true

-- No key twice.
abbrev pub AreDistinct : List Bytes → Type 0
AreDistinct [] = Unit {0}
AreDistinct (k ∷ ks) = (contains k ks ≡ false) × AreDistinct ks

abbrev pub HaveDistinct : List Entry → Type 0
HaveDistinct [] = Unit {0}
HaveDistinct (e ∷ es) = (find e.hostname es ≡ none) × HaveDistinct es

pub contains-erase :
    (h j : Bytes) (ks : List Bytes)
    → AreDistinct ks
    → contains j (erase h ks) ≡ (if same h j then false else contains j ks)
unfolding contains erase
contains-erase h j [] d = ground arith
contains-erase h j (k ∷ ks) d =
    ground (arith, contains-erase h j ks d.1, same_iff k h, same_iff k j, same_iff h j)

pub erase-AreDistinct : (h : Bytes) (ks : List Bytes) → AreDistinct ks → AreDistinct (erase h ks)
unfolding contains erase
erase-AreDistinct h [] d = tt
erase-AreDistinct h (k ∷ ks) d = elim (Bool-cases (same k h)) [
  | inl e ↦ rw e d.1
  | inr e ↦ rw e (contains-erase h k ks d.1 ∙ ground (arith, d.0), erase-AreDistinct h ks d.1)
]

pub find-without :
    (h j : Bytes) (es : List Entry)
    → HaveDistinct es
    → find j (without h es) ≡ (if same h j then none else find j es)
unfolding find without
find-without h j [] d = ground arith
find-without h j (e ∷ es) d =
    ground
      (arith, find-without h j es d.1, same_iff e.hostname h, same_iff e.hostname j, same_iff h j)

pub without-HaveDistinct :
    (h : Bytes) (es : List Entry) → HaveDistinct es → HaveDistinct (without h es)
unfolding find without
without-HaveDistinct h [] d = tt
without-HaveDistinct h (e ∷ es) d = elim (Bool-cases (same e.hostname h)) [
  | inl x ↦ rw x d.1
  | inr x ↦
      rw x (find-without h e.hostname es d.1 ∙ ground (arith, d.0), without-HaveDistinct h es d.1)
]

pub find-hostname :
    (h : Bytes) (es : List Entry) (e : Entry) → find h es ≡ some e → same e.hostname h ≡ true
unfolding find
find-hostname h [] e f = cc
find-hostname h (x ∷ es) e f = ground (arith, find-hostname h es e)

pub length-without :
    (h : Bytes) (es : List Entry) (e : Entry)
    → find h es ≡ some e
    → length es ≡ suc (length (without h es))
unfolding find without
length-without h [] e f = cc
length-without h (x ∷ es) e f = ground (arith, length-without h es e)

pub without_absent : (h : Bytes) (es : List Entry) → find h es ≡ none → without h es ≡ es
unfolding find without
without_absent h [] f = refl
without_absent h (x ∷ es) f = ground (arith, without_absent h es)

-- The back of a list and what is in front of it.
pub split_back_lem :
    (e : Entry) (es : List Entry)
    → (fs : List Entry) × (b : Entry) × (split_back (e ∷ es) ≡ some (fs, b))
      × (e ∷ es ≡ fs ++ b ∷ [])
unfolding split_back
split_back_lem e [] = ([], e, refl, refl)
split_back_lem e (x ∷ es) =
    let (fs, b, s, q) = split_back_lem x es in (e ∷ fs, b, rw s, ap (e ∷◌) q)

find_back :
    (j : Bytes) (fs : List Entry) (b : Entry)
    → same b.hostname j ≡ true
    → find j (fs ++ b ∷ []) ≢ none
unfolding find
find_back j [] b s = ground arith
find_back j (e ∷ fs) b s = ground (arith, find_back j fs b s)

pub find-front :
    (j : Bytes) (fs : List Entry) (b : Entry)
    → HaveDistinct (fs ++ b ∷ [])
    → find j fs ≡ (if same b.hostname j then none else find j (fs ++ b ∷ []))
unfolding find
find-front j [] b d = ground arith
find-front j (e ∷ fs) b d = ground (
  arith,
  find-front j fs b d.1,
  find_back e.hostname fs b,
  d.0,
  same_iff e.hostname j,
  same_iff b.hostname j,
  same_iff b.hostname e.hostname,
)

pub front-HaveDistinct :
    (fs : List Entry) (b : Entry) → HaveDistinct (fs ++ b ∷ []) → HaveDistinct fs
front-HaveDistinct [] b d = tt
front-HaveDistinct (e ∷ fs) b d =
    let rest = front-HaveDistinct fs b d.1 in
    (ground (arith, find-front e.hostname fs b d.1, d.0), rest)

pub length-front : (fs : List Entry) (b : Entry) → length (fs ++ b ∷ []) ≡ suc (length fs)
length-front fs b = omega (arith, length-append {0} fs (b ∷ []))

pub take-front : (fs : List Entry) (b : Entry) → take (length fs) (fs ++ b ∷ []) ≡ fs
take-front [] b = refl
take-front (e ∷ fs) b = ap (e ∷◌) (take-front fs b)
