-- ===== src/Files/Names.antt =====
-- Names of directory entries.
use iot_athome.Prelude.{
  ◌≡◌, refl, ap, [], ◌∷◌, ◌++◌, Bool, true, false, not, Text, codes, text_eq, text_eq_refl,
  is_empty, starts_with, split-token, lacks, filter, all, ◌&&◌, arith,
}
use iot_athome.Files.{
  FsPath, is_under, path_eq, join_path, components, split_name, extension, with_extension, renamed,
  file_name,
}
use iot_athome.Files.Paths.{is_under-append}

-- A name for one directory entry.
pub record IsName (s : Text) : Type 0 where
  pub no_slash : lacks b'/' s ≡ true
  pub some_text : is_empty s ≡ false
  pub no_dot : text_eq s (codes ".") ≡ false
  pub no_parent : text_eq s (codes "..") ≡ false

-- The same as a test.
abbrev pub name_test : Text → Bool
name_test s =
    lacks b'/' s
    && (not (is_empty s) && (not (text_eq s (codes ".")) && not (text_eq s (codes ".."))))

pub IsName_of_test : (s : Text) → name_test s ≡ true → IsName s
IsName_of_test s h = record {
  no_slash = ground (arith, h);
  some_text = ground (arith, h);
  no_dot = ground (arith, h);
  no_parent = ground (arith, h);
}

pub components-IsName : (s : Text) → IsName s → components s ≡ s ∷ []
unfolding components filter
components-IsName s h = rw (split-token b'/' s h.no_slash) (rw (h.some_text, h.no_dot) refl)

pub starts_with-IsName : (s : Text) → IsName s → starts_with (codes "/") s ≡ false
unfolding starts_with
starts_with-IsName [] h = refl
starts_with-IsName (c ∷ s) h = let e = h.no_slash in unfold lacks all in ground (arith, e)

pub join_path-IsName : (d : FsPath) (s : Text) → IsName s → join_path d s ≡ d ++ s ∷ []
unfolding join_path
join_path-IsName d s h = rw (starts_with-IsName s h, components-IsName s h) refl

pub extension-last : (d : FsPath) (name : Text) → extension (d ++ name ∷ []) ≡ (split_name name).1
unfolding extension
extension-last [] name = refl
extension-last (c ∷ []) name = refl
extension-last (c ∷ e ∷ d) name = extension-last (e ∷ d) name

pub with_extension-last :
    (d : FsPath) (name ext : Text)
    → with_extension (d ++ name ∷ []) ext ≡ d ++ renamed name ext ∷ []
unfolding with_extension
with_extension-last [] name ext = refl
with_extension-last (c ∷ []) name ext = refl
with_extension-last (c ∷ e ∷ d) name ext = ap (◌∷◌ c) (with_extension-last (e ∷ d) name ext)

pub file_name-last :
    (d : FsPath) (name : Text)
    → text_eq name (codes "..") ≡ false
    → file_name (d ++ name ∷ []) ≡ name
unfolding file_name
file_name-last [] name h = rw h refl
file_name-last (c ∷ []) name h = rw h refl
file_name-last (c ∷ e ∷ d) name h = file_name-last (e ∷ d) name h

path_eq-last : (d : FsPath) (a b : Text) → path_eq (d ++ a ∷ []) (d ++ b ∷ []) ≡ text_eq a b
unfolding path_eq
path_eq-last [] a b = ground arith
path_eq-last (c ∷ d) a b = rw (text_eq_refl c) (path_eq-last d a b)

-- Two names in one directory.
pub path_eq-join_path :
    (d : FsPath) (a b : Text)
    → IsName a
    → IsName b
    → path_eq (join_path d a) (join_path d b) ≡ text_eq a b
path_eq-join_path d a b x y =
    rw (join_path-IsName d a x, join_path-IsName d b y) (path_eq-last d a b)

pub is_under-join_path :
    (d : FsPath) (s : Text) → starts_with (codes "/") s ≡ false → is_under d (join_path d s) ≡ true
unfolding join_path
is_under-join_path d s h = rw h (is_under-append d (components s))
