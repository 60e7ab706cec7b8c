-- ===== src/Log/FileSink/Rotation.antt =====
-- What a rotation leaves in each file.
use deep_seer.Base.{
  ℕ, zero, suc, ◌+◌, ◌-◌, ◌<◌, ◌≡◌, ◌≢◌, refl, sym, ap, ◌∙◌, ◌⊎◌, inl, inr, ◌&&◌, true, false, [],
  ◌++◌, none, some, if◌then◌else◌, if_true, if_false, ◌==◌, ==_iff, ltb, leb, length, arith,
  Option-cases, Bool-cases, ltb→lt, length-append,
}
use deep_seer.Core.Buffer.{Bytes}
use deep_seer.Log.FileSink.{
  Files, update, remove_file, remove_oldest, rename, FileSink, content, open_file, shift, rotate,
  write,
}

-- A rename into a vacant place moves whatever is at the source, also nothing.
rename_lem :
    (src dst : ℕ) (fs : Files) (j : ℕ)
    → src ≢ dst
    → fs dst ≡ none
    → rename src dst fs j ≡ (if dst == j then fs src else if src == j then none else fs j)
unfolding rename
rename_lem src dst fs j n e = elim (Option-cases (fs src)) [
  | inl a ↦ rw (a, rename) (vacant j (Bool-cases (dst == j)) a)
  | inr (c, a) ↦ rw (a, rename)
]
  where
    vacant :
        (i : ℕ)
        → (dst == i ≡ true) ⊎ (dst == i ≡ false)
        → fs src ≡ none
        → fs i ≡ (if dst == i then none else if src == i then none else fs i)
    vacant i b a = ground (arith, ==_iff dst i, ==_iff src i)

-- The loop moves files 1 to n - 1 up by one, if file n is vacant.
shift_lem :
    (n : ℕ) (fs : Files) (j : ℕ)
    → fs (suc n) ≡ none
    → shift (suc n) fs j
      ≡ (if j == 1 then none else if ltb 0 j && leb j (suc n) then fs (j - 1) else fs j)
unfolding shift
shift_lem zero fs j e = ground (arith, ==_iff j 1)
shift_lem (suc n) fs j e =
    let next = rename (suc n) (suc (suc n)) fs in
    let here = λ (k : ℕ). rename_lem (suc n) (suc (suc n)) fs k (omega arith) e in
    shift_lem n next j (here (suc n) ∙ ground arith)
    ∙ ground (
      arith,
      here j,
      here (j - 1),
      ==_iff j 1,
      ==_iff (suc (suc n)) j,
      ==_iff (suc n) j,
      ==_iff (suc (suc n)) (j - 1),
      ==_iff (suc n) (j - 1),
    )

-- Where `n + 1` rotated files are kept and the active file can be opened again: each takes the place
-- of the next older one, the oldest goes, the active file becomes number 1 and a new active file is
-- empty. Files beyond are left alone.
pub rotate_files :
    (s : FileSink) (n j : ℕ)
    → s.config.max_files ≡ suc n
    → (rotate true s).files j
      ≡ (if j == 0 then some [] else if leb j (suc n) then s.files (j - 1) else s.files j)
unfolding rotate open_file remove_oldest
rotate_files s n j e =
    let gone = remove_file (suc n) s.files in
    let moved = shift (suc n) gone in
    let at = λ (k : ℕ). shift_lem n gone k (ground arith) in
    let last = λ (k : ℕ). rename_lem 0 1 moved k (omega arith) (at 1) in
    rw e (
      ground (
        arith,
        at 0,
        at j,
        last 0,
        last j,
        ==_iff j 1,
        ==_iff 1 j,
        ==_iff 0 j,
        ==_iff j 0,
        ==_iff (suc n) j,
        ==_iff (suc n) (j - 1),
        ==_iff (suc n) 0,
      ))

-- An open sink knows the size of its active file, which is below the limit.
pub record IsOpen (s : FileSink) : Type 0 where
  pub open_flag : s.is_open ≡ true
  pub size : s.current_size ≡ length (content (s.files 0))
  pub below : s.current_size < s.config.max_file_size

reopened :
    (s : FileSink) (n : ℕ)
    → s.config.max_files ≡ suc n
    → 0 < s.config.max_file_size
    → IsOpen (rotate true s)
reopened s n e p = record {
  open_flag = unfold rotate open_file in refl;
  size = empty_size ∙ ap (λ c. length (content c)) (sym (rotate_files s n 0 e));
  below = rw empty_size (unfold rotate open_file in p);
}
  where
    vacant :
        rename 0 1 (shift s.config.max_files (remove_oldest s.config.max_files s.files)) 0 ≡ none
    vacant =
        unfold remove_oldest in
        let gone = remove_file (suc n) s.files in
        rw e
          (rename_lem 0 1 (shift (suc n) gone) 0 (omega arith) (shift_lem n gone 1 (ground arith)))

    empty_size : (rotate true s).current_size ≡ 0
    empty_size = unfold rotate open_file in rw vacant

-- What an open sink that keeps a rotated file at least does with a line, where files can be opened:
-- if the active file with the line stays below the maximal size, the line is appended and the other
-- files stay; if it reaches or exceeds that size, it becomes number 1 with the line, every other one
-- moves up, and the active file is empty. The sink is open again with its size below the maximum.
pub log_write_lem :
    (s : FileSink) (line : Bytes) (n : ℕ)
    → IsOpen s
    → s.config.max_files ≡ suc n
    → IsOpen (write true line s)
      × ((j : ℕ)
          → (write true line s).files j ≡ (
              let full = content (s.files 0) ++ line in
              if ltb (length full) s.config.max_file_size
              then (if j == 0 then some full else s.files j)
              else if j == 0
              then some []
              else if j == 1
              then some full
              else if leb j (suc n)
              then s.files (j - 1)
              else s.files j))
unfolding write
log_write_lem s line n o e =
    let full = content (s.files 0) ++ line in
    let whole : s.current_size + length line ≡ length full =
      omega (arith, o.size, length-append (content (s.files 0)) line) in
    rw (if_true s.is_open _ s o.open_flag, whole)
      (elim (Bool-cases (ltb (length full) s.config.max_file_size)) [
        | inl small ↦ rw (if_true (ltb (length full) s.config.max_file_size) _ _ small) (
          record { open_flag = o.open_flag; size = refl; below = ltb→lt _ _ small },
          λ j. rw small (ground (arith, ==_iff 0 j, ==_iff j 0)),
        )
        | inr big ↦ rw (if_false (ltb (length full) s.config.max_file_size) _ _ big) (
          reopened (appended full) n e (omega (arith, o.below)),
          λ j. rw big (
              rotate_files (appended full) n j e
              ∙ ground (arith, ==_iff 0 (j - 1), ==_iff j 1, ==_iff j 0)),
        )
      ])
  where
    appended : Bytes → FileSink
    appended full = record s { files = update 0 (some full) s.files; current_size = length full }
