-- ===== src/Prelude/Hex.antt =====
-- Lowercase hexadecimal: the table `b"0123456789abcdef"` and the digits of a byte.
use Prim.Native.Nat.{ℕ, ◌+◌, ◌-◌, ◌/◌, ◌%◌, ◌<◌}
use mathlib.Core.Path.{◌≡◌, refl}
use mathlib.Core.Bool.{true, false, ◌&&◌}
use mathlib.Core.List.{List, [], ◌∷◌}
use native.Mathlib.Omega.{arith}
use iot_athome.Prelude.Tests.{ltb, leb, if◌then◌else◌}
use iot_athome.Prelude.Lists.{All, all}
use iot_athome.Prelude.Strings.{Text, lacks}

-- CHARS[n], for n below 16.
unfoldable pub hex_digit : ℕ → ℕ
hex_digit n = if ltb n 10 then b'0' + n else b'a' + (n - 10)

-- CHARS[(b >> 4) as usize], CHARS[(b & 0xF) as usize] for each byte.
unfoldable pub hex_encode : List ℕ → Text
hex_encode [] = []
hex_encode (b ∷ bytes) = hex_digit (b / 16 % 16) ∷ hex_digit (b % 16) ∷ hex_encode bytes

-- Nothing outside the table occurs.
pub hex_encode-lacks :
    (sep : ℕ) (bytes : List ℕ)
    → (leb b'0' sep && leb sep b'f') ≡ false
    → lacks sep (hex_encode bytes) ≡ true
unfolding hex_encode hex_digit lacks all
hex_encode-lacks sep [] h = refl
hex_encode-lacks sep (b ∷ bytes) h = ground (arith, hex_encode-lacks sep bytes h)

pub hex_encode-injective :
    (xs ys : List ℕ)
    → All (λ b. b < 256) xs
    → All (λ b. b < 256) ys
    → hex_encode xs ≡ hex_encode ys
    → xs ≡ ys
unfolding hex_encode hex_digit
hex_encode-injective [] [] hx hy e = refl
hex_encode-injective [] (y ∷ ys) hx hy e = cc
hex_encode-injective (x ∷ xs) [] hx hy e = cc
hex_encode-injective (x ∷ xs) (y ∷ ys) hx hy e =
    ground (arith, hx.0, hy.0, hex_encode-injective xs ys hx.1 hy.1)
