-- ===== src/Tls/CertCache.antt =====
-- DeepSeerLib/src/Tls/CertCache.cpp and DeepSeerLib/include/DeepSeer/Tls/CertCache.hpp. A context
-- is a number; the calls of `SSL_CTX_up_ref` and `SSL_CTX_free` are recorded. `map_` is the list of
-- its keys, and its iterator for a key is the entry of `order_` with that hostname. `none` is the
-- undefined `order_.back()` on an empty list.
pub mod Keys
pub mod Hits
pub mod Evictions
pub mod Lru
use deep_seer.Base.{
  ℕ, Bool, true, false, List, [], ◌∷◌, ◌++◌, Option, none, some, if◌then◌else◌, ltb, length, same,
}
use deep_seer.Core.Buffer.{Bytes}

pub record Entry : Type 0 where
  pub hostname : Bytes
  pub ctx : ℕ

pub data RefCall : Type 0 where
  up_ref free : ℕ → RefCall

pub record CertCache : Type 0 where
  pub max_entries : ℕ
  pub order : List Entry
  pub map : List Bytes
  pub calls : List RefCall

-- `CertCache::CertCache`.
abbrev pub make_cache : ℕ → CertCache
make_cache n = record { max_entries = n; order = []; map = []; calls = [] }

-- `map_.find(hostname) != map_.end()`, and `map_.erase`.
unfoldable pub contains : Bytes → List Bytes → Bool
contains h [] = false
contains h (k ∷ ks) = if same k h then true else contains h ks

unfoldable pub erase : Bytes → List Bytes → List Bytes
erase h [] = []
erase h (k ∷ ks) = if same k h then ks else k ∷ erase h ks

-- The entry of a hostname, and the others.
unfoldable pub find : Bytes → List Entry → Option Entry
find h [] = none
find h (e ∷ es) = if same e.hostname h then some e else find h es

unfoldable pub without : Bytes → List Entry → List Entry
without h [] = []
without h (e ∷ es) = if same e.hostname h then es else e ∷ without h es

-- `CertCache::get`: `splice` moves the entry to the front.
unfoldable pub get : Bytes → CertCache → CertCache × Option ℕ
get h c =
    if contains h c.map
    then elim (find h c.order) [
      | none ↦ (c, none)
      | some e ↦ (record c { order = e ∷ without h c.order }, some e.ctx)
    ]
    else (c, none)

-- The last entry and those before it.
unfoldable pub split_back : List Entry → Option (List Entry × Entry)
split_back [] = none
split_back (e ∷ es) = elim (split_back es) [ none ↦ some ([], e) | some (fs, b) ↦ some (e ∷ fs, b) ]

-- The eviction of `put`.
unfoldable pub evict : CertCache → Option CertCache
evict c = if ltb (length c.order) c.max_entries then some c else elim (split_back c.order) [
  | none ↦ none
  | some (es, b) ↦
      some
        (record c { map = erase b.hostname c.map; calls = c.calls ++ free b.ctx ∷ []; order = es })
]

-- The insertion at the end of `put`.
unfoldable pub insert : Bytes → ℕ → CertCache → CertCache
insert h ctx c = record c {
  calls = c.calls ++ up_ref ctx ∷ [];
  order = (record { hostname = h; ctx = ctx }) ∷ c.order;
  map = h ∷ c.map;
}

-- `CertCache::put`.
unfoldable pub put : Bytes → ℕ → CertCache → Option CertCache
put h ctx c =
    let inserted : Option CertCache = elim (evict c) [
      | none ↦ none
      | some d ↦ some (insert h ctx d)
    ] in
    if contains h c.map
    then elim (find h c.order) [
      | none ↦ none
      | some e ↦ some (record c {
        calls = c.calls ++ free e.ctx ∷ up_ref ctx ∷ [];
        order = (record { hostname = h; ctx = ctx }) ∷ without h c.order;
      })
    ]
    else inserted

-- `CertCache::size`.
abbrev pub size : CertCache → ℕ
size c = length c.order
