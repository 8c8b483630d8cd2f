-- ===== src/Files.antt =====
-- What the command-line tool uses of std::path and std::fs. A path is the list of its components from
-- the root; links and `..` are not resolved. A file carries its permission bits; a directory's are
-- not modelled, nor are faults of the device. An operation leaves its error beside the file system.
pub mod Paths
pub mod Names
pub mod Runs
pub mod Effects
use iot_athome.Prelude.{
  ℕ, List, [], ◌∷◌, ◌++◌, map, Bool, true, false, not, ◌&&◌, Option, some, none, Text, codes,
  text_eq, split, starts_with, is_empty, filter, any, ◌==◌, if◌then◌else◌, Result, ok, err,
}

abbrev pub FsPath : Type 0
FsPath = List Text

pub data Node : Type 0 where
  -- its mode and its bytes
  file : ℕ → Text → Node
  dir : Node

abbrev pub Fs : Type 0
Fs = FsPath → Option Node

pub data IoError : Type 0 where
  not_found not_a_directory is_a_directory already_exists invalid_utf8 : IoError

unfoldable pub path_eq : FsPath → FsPath → Bool
path_eq [] [] = true
path_eq [] (d ∷ q) = false
path_eq (c ∷ p) [] = false
path_eq (c ∷ p) (d ∷ q) = text_eq c d && path_eq p q

-- q.starts_with(p)
unfoldable pub is_under : FsPath → FsPath → Bool
is_under [] q = true
is_under (c ∷ p) [] = false
is_under (c ∷ p) (d ∷ q) = text_eq c d && is_under p q

-- Path::components of a relative path.
unfoldable pub components : Text → FsPath
components s = filter (λ c. not (is_empty c) && not (text_eq c (codes "."))) (split b'/' s)

-- Path::join: an absolute path replaces.
unfoldable pub join_path : FsPath → Text → FsPath
join_path base s = if starts_with (codes "/") s then components s else base ++ components s

-- The two sides of the last dot.
unfoldable pub last_dot : Text → Option (Text × Text)
last_dot [] = none
last_dot (c ∷ s) = elim (last_dot s) [
  | some (before, after) ↦ some (c ∷ before, after)
  | none ↦ if c == b'.' then some ([], s) else none
]

abbrev pub stem_and_extension : Text → Option (Text × Text) → Text × Option Text
stem_and_extension name none = (name, none)
stem_and_extension name (some ([], after)) = (name, none)
stem_and_extension name (some (c ∷ before, after)) = (c ∷ before, some after)

-- The file stem and the extension of a last component.
unfoldable pub split_name : Text → Text × Option Text
split_name name =
    if text_eq name (codes "..") then (name, none) else stem_and_extension name (last_dot name)

-- Path::extension
unfoldable pub extension : FsPath → Option Text
extension [] = none
extension (c ∷ []) = (split_name c).1
extension (c ∷ d ∷ p) = extension (d ∷ p)

abbrev pub renamed : Text → Text → Text
renamed name ext =
    if text_eq name (codes "..")
    then name
    else if is_empty ext
    then (split_name name).0
    else (split_name name).0 ++ b'.' ∷ ext

-- Path::with_extension
unfoldable pub with_extension : FsPath → Text → FsPath
with_extension [] ext = []
with_extension (c ∷ []) ext = renamed c ext ∷ []
with_extension (c ∷ d ∷ p) ext = c ∷ with_extension (d ∷ p) ext

-- Path::file_name().unwrap_or_default()
unfoldable pub file_name : FsPath → Text
file_name [] = []
file_name (c ∷ []) = if text_eq c (codes "..") then [] else c
file_name (c ∷ d ∷ p) = file_name (d ∷ p)

-- Path::parent of a path that is not empty.
unfoldable pub parent : FsPath → FsPath
parent [] = []
parent (c ∷ []) = []
parent (c ∷ d ∷ p) = c ∷ parent (d ∷ p)

abbrev pub file_at : Option Node → Bool
file_at none = false
file_at (some dir) = false
file_at (some (file mode bytes)) = true

abbrev pub present : Option Node → Bool
present none = false
present (some n) = true

-- Path::is_file, Path::exists
abbrev pub is_file : FsPath → Fs → Bool
is_file p fs = file_at (fs p)

abbrev pub exists : FsPath → Fs → Bool
exists p fs = present (fs p)

abbrev pub bytes_of : Option Node → Result IoError Text
bytes_of none = err not_found
bytes_of (some dir) = err is_a_directory
bytes_of (some (file mode bytes)) = ok bytes

-- fs::read
unfoldable pub read : FsPath → Fs → Result IoError Text
read p fs = bytes_of (fs p)

-- The file system with another node at `p`.
abbrev pub put : FsPath → Node → Fs → Fs
put p n fs q = if path_eq p q then some n else fs q

-- Whether a file can be made at `p`.
abbrev pub in_directory : Option Node → Result IoError (Unit {0})
in_directory none = err not_found
in_directory (some dir) = ok tt
in_directory (some (file mode bytes)) = err not_a_directory

-- The mode of a file that is written over, or that a new one gets.
abbrev pub mode_for : ℕ → Option Node → Result IoError ℕ
mode_for mode none = ok mode
mode_for mode (some dir) = err is_a_directory
mode_for mode (some (file old bytes)) = ok old

-- Every directory on the way, `p` itself included.
unfoldable pub prefixes : FsPath → List FsPath
prefixes [] = []
prefixes (c ∷ p) = (c ∷ []) ∷ map (◌∷◌ c) (prefixes p)

abbrev fail : Fs → IoError → Fs × Result IoError (Unit {0})
fail fs e = (fs, err e)

-- fs::write; `mode` is what the process gives a new file.
unfoldable pub write : ℕ → FsPath → Text → Fs → Fs × Result IoError (Unit {0})
write mode p bytes fs = elim (in_directory (fs (parent p))) [
  | err e ↦ fail fs e
  | ok _ ↦ elim (mode_for mode (fs p)) [
    | err e ↦ fail fs e
    | ok m ↦ (put p (file m bytes) fs, ok tt)
  ]
]

abbrev pub chmod : ℕ → FsPath → Option Node → Fs → Fs × Result IoError (Unit {0})
chmod mode p none fs = fail fs not_found
chmod mode p (some dir) fs = (fs, ok tt)
chmod mode p (some (file m bytes)) fs = (put p (file mode bytes) fs, ok tt)

-- fs::set_permissions
unfoldable pub set_permissions : ℕ → FsPath → Fs → Fs × Result IoError (Unit {0})
set_permissions mode p fs = chmod mode p (fs p) fs

abbrev pub copied : FsPath → FsPath → Option Node → Fs → Fs × Result IoError (Unit {0})
copied src dst none fs = fail fs not_found
copied src dst (some dir) fs = fail fs is_a_directory
copied src dst (some (file m bytes)) fs = elim (in_directory (fs (parent dst))) [
  | err e ↦ fail fs e
  | ok _ ↦ elim (mode_for m (fs dst)) [
    | err e ↦ fail fs e
    | ok _ ↦ (put dst (file m (if path_eq src dst then [] else bytes)) fs, ok tt)
  ]
]

-- fs::copy: the bytes and the mode; a file copied onto itself is cut to nothing.
unfoldable pub copy : FsPath → FsPath → Fs → Fs × Result IoError (Unit {0})
copy src dst fs = copied src dst (fs src) fs

abbrev removed : FsPath → Option Node → Fs → Fs × Result IoError (Unit {0})
removed p none fs = fail fs not_found
removed p (some (file m bytes)) fs = fail fs not_a_directory
removed p (some dir) fs = (λ q. if is_under p q then none else fs q, ok tt)

-- fs::remove_dir_all
unfoldable pub remove_dir_all : FsPath → Fs → Fs × Result IoError (Unit {0})
remove_dir_all p fs = removed p (fs p) fs

abbrev pub or_dir : Bool → Option Node → Option Node
or_dir made (some n) = some n
or_dir made none = if made then some dir else none

-- fs::create_dir_all
unfoldable pub create_dir_all : FsPath → Fs → Fs × Result IoError (Unit {0})
create_dir_all p fs =
    if file_at (fs p)
    then fail fs already_exists
    else if any (λ q. file_at (fs q)) (prefixes p)
    then fail fs not_a_directory
    else (λ q. or_dir (is_under q p) (fs q), ok tt)
