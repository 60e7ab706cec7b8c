-- ===== src/Log/FileSink.antt =====
-- DeepSeerLib/src/Log/FileSink.cpp. The files of one sink are numbered: 0 is the active file, `i`
-- the path of `rotatedPath(i)`. The file system's `remove` and `rename` do nothing on a missing
-- source; that a file can be opened is an argument of each write.
pub mod Rotation
use deep_seer.Base.{
  ℕ, zero, suc, ◌+◌, ◌≡◌, Bool, true, false, List, [], ◌∷◌, ◌++◌, Option, none, some, if◌then◌else◌,
  ◌==◌, ltb, length,
}
use deep_seer.Core.Buffer.{Bytes}

abbrev pub Files : Type 0
Files = ℕ → Option Bytes

abbrev pub update : ℕ → Option Bytes → Files → Files
update i c fs j = if i == j then c else fs j

-- `fs::remove(path, ec)`.
abbrev pub remove_file : ℕ → Files → Files
remove_file i fs = update i none fs

-- `fs::rename(src, dst, ec)`.
unfoldable pub rename : ℕ → ℕ → Files → Files
rename src dst fs = elim (fs src) [ none ↦ fs | some c ↦ update dst (some c) (update src none fs) ]

-- `FileSinkConfig`, without the path.
pub record FileSinkConfig : Type 0 where
  pub max_file_size : ℕ
  pub max_files : ℕ

pub record FileSink : Type 0 where
  pub config : FileSinkConfig
  pub files : Files
  -- Is `file_` set?
  pub is_open : Bool
  pub current_size : ℕ

abbrev pub content : Option Bytes → Bytes
content none = []
content (some c) = c

-- `FileSink::openFile`: append mode creates a missing file.
unfoldable pub open_file : Bool → FileSink → FileSink
open_file opens s =
    if opens
    then record s {
      files = update 0 (some (content (s.files 0))) s.files;
      is_open = true;
      current_size = length (content (s.files 0));
    }
    else record s { is_open = false; current_size = 0 }

-- The loop of `rotate`: `.{i-1}` to `.{i}` for `i` from the given number down to 2.
unfoldable pub shift : ℕ → Files → Files
unfolding rename
shift zero fs = fs
shift (suc zero) fs = fs
shift (suc (suc i)) fs = shift (suc i) (rename (suc i) (suc (suc i)) fs)

-- The removal of `rotatedPath(maxFiles)`; `rotatedPath(0)` is none of the numbered files.
unfoldable pub remove_oldest : ℕ → Files → Files
remove_oldest zero fs = fs
remove_oldest (suc n) fs = remove_file (suc n) fs

-- `FileSink::rotate`.
unfoldable pub rotate : Bool → FileSink → FileSink
unfolding shift open_file remove_oldest
rotate opens s = open_file opens (record s {
  files = rename 0 1 (shift s.config.max_files (remove_oldest s.config.max_files s.files));
  is_open = false;
})

-- `FileSink::write` and `rotateIfNeeded`.
unfoldable pub write : Bool → Bytes → FileSink → FileSink
unfolding rotate
write opens line s =
    let s' = record s {
      files = update 0 (some (content (s.files 0) ++ line)) s.files;
      current_size = s.current_size + length line;
    } in
    if s.is_open
    then (if ltb s'.current_size s.config.max_file_size then s' else rotate opens s')
    else s
