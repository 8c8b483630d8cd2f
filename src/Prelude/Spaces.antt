-- ===== src/Prelude/Spaces.antt =====
-- str::trim_start, str::trim_end and str::trim, of texts whose white space is ASCII.
use Prim.Native.Nat.{ℕ}
use mathlib.Core.Path.{◌≡◌, refl}
use mathlib.Core.Bool.{Bool, true, not, ◌&&◌, ◌||◌}
use mathlib.Core.List.{[], ◌∷◌}
use native.Mathlib.Omega.{arith}
use iot_athome.Prelude.Tests.{leb, ◌==◌, if◌then◌else◌}
use iot_athome.Prelude.Lists.{all, is_empty}
use iot_athome.Prelude.Strings.{Text}

abbrev pub is_space : ℕ → Bool
is_space c = c == b' ' || leb 9 c && leb c 13

unfoldable pub trim_end : Text → Text
trim_end [] = []
trim_end (c ∷ s) = let rest = trim_end s in if is_space c && is_empty rest then [] else c ∷ rest

unfoldable pub trim_start : Text → Text
trim_start [] = []
trim_start (c ∷ s) = let rest = trim_start s in if is_space c then rest else c ∷ s

unfoldable pub trim : Text → Text
trim s = trim_start (trim_end s)

-- A text without white space.
abbrev pub spaceless : Text → Bool
spaceless = all (λ c. not (is_space c))

pub trim_end-spaceless : (s : Text) → spaceless s ≡ true → trim_end s ≡ s
unfolding trim_end all
trim_end-spaceless [] h = refl
trim_end-spaceless (c ∷ s) h = ground (arith, trim_end-spaceless s)

pub trim-spaceless : (s : Text) → spaceless s ≡ true → trim s ≡ s
unfolding trim trim_start all
trim-spaceless [] h = unfold trim_end in refl
trim-spaceless (c ∷ s) h = ground (arith, trim_end-spaceless (c ∷ s) h)
