-- ===== src/Spool/Dir.antt =====
-- The spool directory, as internal/spool uses it: `os.MkdirAll`, `os.WriteFile`, `os.Rename`,
-- `os.Remove`, `filepath.Glob` of `*.jsonl` and `filepath.WalkDir`. A file's path is written from the
-- directory; one below a subdirectory has a slash in it. Sizes do not reach 2^63 bytes.
pub mod Laws
pub mod Names
use log_service.Prelude.{
  ℕ, ◌+◌, Bool, false, not, Option, none, some, List, [], ◌∷◌, ◌&&◌, ◌||◌, ◌==◌, if◌then◌else◌,
}
use log_service.Prelude.Text.{Text, codes, text_eq, byte_len, has_suffix}

pub record File : Type 0 where
  pub path : Text
  pub content : Text

-- `none` is a directory that does not exist; files are in the order in which `Glob` and `WalkDir` list them.
abbrev pub Dir : Type 0
Dir = Option (List File)

abbrev pub files : Dir → List File
files none = []
files (some fs) = fs

-- `os.MkdirAll`
abbrev pub mkdir : Dir → Dir
mkdir d = some (files d)

unfoldable pub read : Text → List File → Option Text
read path [] = none
read path (f ∷ fs) = if text_eq f.path path then some f.content else read path fs

-- Create the file, or replace its content.
unfoldable pub put : Text → Text → List File → List File
put path content [] = record { path = path; content = content } ∷ []
put path content (f ∷ fs) =
    if text_eq f.path path
    then record { path = path; content = content } ∷ fs
    else f ∷ put path content fs

unfoldable pub remove : Text → List File → List File
remove path [] = []
remove path (f ∷ fs) = let rest = remove path fs in if text_eq f.path path then rest else f ∷ rest

-- `os.Rename`: the target is replaced if it exists.
unfoldable pub rename : Text → Text → List File → List File
unfolding read put remove
rename old new fs = elim (read old fs) [
  | none ↦ fs
  | some content ↦ put new content (remove old fs)
]

unfoldable pub has_slash : Text → Bool
has_slash [] = false
has_slash (c ∷ s) = c == b'/' || has_slash s

-- `filepath.Glob(filepath.Join(dir, "*.jsonl"))`
unfoldable pub is_batch : Text → Bool
unfolding has_slash
is_batch path = not (has_slash path) && has_suffix path (codes ".jsonl")

unfoldable pub glob : List File → List Text
unfolding is_batch
glob [] = []
glob (f ∷ fs) = let rest = glob fs in if is_batch f.path then f.path ∷ rest else rest

-- The walk of `dirUsage`: sizes and count of all files that do not end in ".tmp".
unfoldable pub is_tmp : Text → Bool
is_tmp path = has_suffix path (codes ".tmp")

unfoldable pub used_bytes : List File → ℕ
unfolding is_tmp
used_bytes [] = 0
used_bytes (f ∷ fs) = (if is_tmp f.path then 0 else byte_len f.content) + used_bytes fs

unfoldable pub file_count : List File → ℕ
unfolding is_tmp
file_count [] = 0
file_count (f ∷ fs) = (if is_tmp f.path then 0 else 1) + file_count fs
