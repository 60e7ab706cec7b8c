-- ===== src/Event/Kqueue/Maps.antt =====
-- The maps of DeepSeerLib/src/Event/KqueueLoop.cpp, from descriptors and from timers.
use deep_seer.Base.{ℕ, ◌≡◌, List, [], ◌∷◌, none, some, if◌then◌else◌, ◌==◌, ◌∙◌, arith}
use deep_seer.Event.Kqueue.{lookup, erase}

pub lookup-erase :
    {A : Type 0} (k j : ℕ) (m : List (ℕ × A))
    → lookup j (erase k m) ≡ (if k == j then none else lookup j m)
lookup-erase k j [] = ground arith
lookup-erase k j ((i, v) ∷ m) = ground (arith, lookup-erase k j m)

pub lookup-erase_same : {A : Type 0} (k : ℕ) (m : List (ℕ × A)) → lookup k (erase k m) ≡ none
lookup-erase_same k m = lookup-erase k k m ∙ ground arith

pub lookup_first : {A : Type 0} (k : ℕ) (v : A) (m : List (ℕ × A)) → lookup k ((k, v) ∷ m) ≡ some v
lookup_first k v m = ground arith
