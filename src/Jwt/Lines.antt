-- ===== src/Jwt/Lines.antt =====
-- The credentials file, line by line.
use iot_athome.Prelude.{
  ◌≡◌, refl, List, [], ◌∷◌, ◌++◌, All, true, Text, split, split-append, lacks, get_elem?, some, all,
}
use iot_athome.Jwt.{creds_lines, write_lines, format_creds_file}

split-write_lines :
    (lines : List Text)
    → All (λ line. lacks b'\n' line ≡ true) lines
    → split b'\n' (write_lines lines) ≡ lines ++ [] ∷ []
unfolding write_lines split
split-write_lines [] h = refl
split-write_lines (line ∷ lines) h =
    rw (split-append b'\n' line (write_lines lines) h.0, split-write_lines lines h.1) refl

-- The credentials file of a token and a seed that have no line break consists of the token on the
-- line after the first marker, the seed on the line after the second, and fixed text around them.
pub split-format_creds_file :
    (jwt seed : Text)
    → lacks b'\n' jwt ≡ true
    → lacks b'\n' seed ≡ true
    → (split b'\n' (format_creds_file jwt seed) ≡ creds_lines jwt seed ++ [] ∷ [])
      × (get_elem? (split b'\n' (format_creds_file jwt seed)) 1 ≡ some jwt)
      × (get_elem? (split b'\n' (format_creds_file jwt seed)) 9 ≡ some seed)
unfolding format_creds_file
split-format_creds_file jwt seed j s =
    let e : split b'\n' (format_creds_file jwt seed) ≡ creds_lines jwt seed ++ [] ∷ [] =
      split-write_lines (creds_lines jwt seed) (
        unfold lacks all in
        (
          refl,
          (
            j,
            (refl, (refl, (refl, (refl, (refl, (refl, (refl, (s, (refl, (refl, (refl, tt))))))))))),
          ),
        )) in
    (e, rw e refl, rw e refl)
