-- ===== src/Install/Names.antt =====
-- The names of the files beside an entry point.
use mathlib.Core.List.{append_assoc}
use iot_athome.Prelude.{
  ℕ, ◌≡◌, refl, sym, ap, ◌∙◌, inl, inr, [], ◌∷◌, ◌++◌, false, Option-cases, none, Text, codes,
  text_eq, is_empty, strip_suffix, strip_suffix-append, starts_with, arith,
}
use iot_athome.Files.{FsPath, join_path, last_dot, split_name, renamed, file_name}
use iot_athome.Files.Paths.{last_dot-shape}
use iot_athome.Files.Names.{
  IsName, join_path-IsName, starts_with-IsName, file_name-last, extension-last, with_extension-last,
}
use iot_athome.Install.{extension_with_suffix, suffix_with, beside}

split_suffix :
    (name suffix : Text)
    → strip_suffix b'.' name ≡ none
    → is_empty suffix ≡ false
    → text_eq name (codes "..") ≡ false
    → renamed name (suffix_with (split_name name).1 suffix) ≡ name ++ b'.' ∷ suffix
unfolding split_name
split_suffix name suffix final more up = elim (Option-cases (last_dot name)) [
  | inl e ↦ rw (up, e) (rw more refl)
  | inr (([], after), e) ↦ rw (up, e) (rw more refl)
  | inr ((c ∷ before, []), e) ↦
      cc (last_dot-shape name (c ∷ before) [] e, strip_suffix-append b'.' (c ∷ before))
  | inr ((c ∷ before, a ∷ after), e) ↦
      rw (up, e)
        (sym (append_assoc (c ∷ before) (b'.' ∷ a ∷ after) (b'.' ∷ suffix))
          ∙ ap (λ (n : Text). n ++ b'.' ∷ suffix)
              (sym (last_dot-shape name (c ∷ before) (a ∷ after) e)))
]

-- The signature of an entry point is looked for at the entry point's name with `.sig` after it, as the
-- command's help says, for every name of a directory entry that does not end in a dot.
pub beside-last :
    (d : FsPath) (name suffix : Text)
    → text_eq name (codes "..") ≡ false
    → strip_suffix b'.' name ≡ none
    → is_empty suffix ≡ false
    → beside (d ++ name ∷ []) suffix ≡ d ++ (name ++ b'.' ∷ suffix) ∷ []
unfolding beside extension_with_suffix
beside-last d name suffix up final more =
    with_extension-last d name _
    ∙ ap (λ (n : Text). d ++ n ∷ [])
        (rw (extension-last d name) (split_suffix name suffix final more up))

pub not_up :
    (s : Text) (c : ℕ) (t : Text)
    → is_empty s ≡ false
    → text_eq (s ++ b'.' ∷ c ∷ t) (codes "..") ≡ false
unfolding text_eq
not_up [] c t h = cc
not_up (a ∷ []) c t h = ground arith
not_up (a ∷ b ∷ []) c t h = ground arith
not_up (a ∷ b ∷ d ∷ s) c t h = ground arith

relative :
    (s t : Text)
    → starts_with (codes "/") s ≡ false
    → starts_with (codes "/") (s ++ b'.' ∷ t) ≡ false
unfolding starts_with
relative [] t h = refl
relative (c ∷ s) t h = ground (arith, h)

module _ (src : FsPath) (entrypoint : Text) (named : IsName entrypoint)
    (final : strip_suffix b'.' entrypoint ≡ none) where
  pub beside-IsName :
      (c : ℕ) (suffix : Text)
      → beside (join_path src entrypoint) (c ∷ suffix)
        ≡ src ++ (entrypoint ++ b'.' ∷ c ∷ suffix) ∷ []
  beside-IsName c suffix =
      ap (λ (p : FsPath). beside p (c ∷ suffix)) (join_path-IsName src entrypoint named)
      ∙ beside-last src entrypoint (c ∷ suffix) named.no_parent final refl

  pub file_name-beside :
      (c : ℕ) (suffix : Text)
      → file_name (beside (join_path src entrypoint) (c ∷ suffix)) ≡ entrypoint ++ b'.' ∷ c ∷ suffix
  file_name-beside c suffix =
      ap file_name (beside-IsName c suffix)
      ∙ file_name-last src (entrypoint ++ b'.' ∷ c ∷ suffix)
          (not_up entrypoint c suffix named.some_text)

  pub starts_with-beside : (t : Text) → starts_with (codes "/") (entrypoint ++ b'.' ∷ t) ≡ false
  starts_with-beside t = relative entrypoint t (starts_with-IsName entrypoint named)
