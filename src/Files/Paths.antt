-- ===== src/Files/Paths.antt =====
-- Paths and names.
use iot_athome.Prelude.{
  ◌≡◌, refl, inl, inr, [], ◌∷◌, ◌++◌, true, false, Bool-cases, Option-cases, some, Text, text_eq→eq,
  text_eq_refl, arith,
}
use iot_athome.Files.{FsPath, path_eq, is_under, last_dot}

pub path_eq→eq : (p q : FsPath) → path_eq p q ≡ true → p ≡ q
unfolding path_eq
path_eq→eq [] [] h = refl
path_eq→eq [] (d ∷ q) h = cc
path_eq→eq (c ∷ p) [] h = cc
path_eq→eq (c ∷ p) (d ∷ q) h = ground (arith, text_eq→eq c d, path_eq→eq p q)

pub path_eq_refl : (p : FsPath) → path_eq p p ≡ true
unfolding path_eq
path_eq_refl [] = refl
path_eq_refl (c ∷ p) = ground (arith, text_eq_refl c, path_eq_refl p)

-- What lies at or under `d` is another path than one that does not.
pub path_eq-is_under :
    (d p q : FsPath) → is_under d p ≡ true → is_under d q ≡ false → path_eq p q ≡ false
path_eq-is_under d p q h k = elim (Bool-cases (path_eq p q)) [
  | inr e ↦ e
  | inl e ↦ cc (path_eq→eq p q e)
]

pub is_under-append : (d r : FsPath) → is_under d (d ++ r) ≡ true
unfolding is_under
is_under-append [] r = refl
is_under-append (c ∷ d) r = ground (arith, text_eq_refl c, is_under-append d r)

pub last_dot-shape :
    (s before after : Text) → last_dot s ≡ some (before, after) → s ≡ before ++ b'.' ∷ after
unfolding last_dot
last_dot-shape [] before after h = cc
last_dot-shape (c ∷ s) before after h = elim (Option-cases (last_dot s)) [
  | inl e ↦ ground (arith, h, e)
  | inr ((b, a), e) ↦ ground (arith, h, e, last_dot-shape s b a e)
]
