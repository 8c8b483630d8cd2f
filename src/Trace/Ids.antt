-- ===== src/Trace/Ids.antt =====
-- Ids of fixed size, in bytes and in hexadecimal.
use iot_athome.Prelude.{
  ℕ, suc, ◌+◌, ◌*◌, ◌/◌, ◌%◌, ◌≡◌, ◌<◌, refl, sym, inl, inr, List, [], ◌∷◌, All, all, true, false,
  some, Option-cases, Bool-cases, Text, text_eq, spaceless, length, ok, hex_encode, hex_digit,
  arith,
}
use iot_athome.Trace.{
  TraceparentError, zeros, fresh_id, decode_nib, first_byte, decode_pairs, hex_decode_fixed,
  parse_id,
}

-- `n` bytes, not all zero.
pub record IsId (n : ℕ) (id : List ℕ) : Type 0 where
  pub size : length id ≡ n
  pub bytes : All (λ b. b < 256) id
  pub nonzero : text_eq id (zeros n) ≡ false

decode_nib-hex_digit : (n : ℕ) → n < 16 → decode_nib (hex_digit n) ≡ some n
unfolding decode_nib hex_digit
decode_nib-hex_digit n h = ground arith

hex_digit-decode_nib : (c n : ℕ) → decode_nib c ≡ some n → (hex_digit n ≡ c) × (n < 16)
unfolding decode_nib hex_digit
hex_digit-decode_nib c n h = ground arith

pub decode_pairs-hex_encode :
    (bytes : List ℕ) → All (λ b. b < 256) bytes → decode_pairs (hex_encode bytes) ≡ some bytes
unfolding decode_pairs hex_encode
decode_pairs-hex_encode [] h = refl
decode_pairs-hex_encode (b ∷ bytes) h =
    rw
      (
        decode_nib-hex_digit (b / 16 % 16) (omega arith),
        decode_nib-hex_digit (b % 16) (omega arith),
      )
      (rw (decode_pairs-hex_encode bytes h.1) (ground (arith, h.0)))

pub hex_encode-decode_pairs :
    (s : Text) (bytes : List ℕ)
    → decode_pairs s ≡ some bytes
    → (hex_encode bytes ≡ s) × All (λ b. b < 256) bytes × (length s ≡ length bytes * 2)
unfolding decode_pairs hex_encode
hex_encode-decode_pairs [] bytes h = ground (arith, h)
hex_encode-decode_pairs (c ∷ []) bytes h = cc
hex_encode-decode_pairs (c ∷ d ∷ s) bytes h = elim (Option-cases (decode_nib c)) [
  | inl bad ↦ ground (arith, h, bad)
  | inr (hi, high) ↦ elim (Option-cases (decode_nib d)) [
    | inl bad ↦ ground (arith, h, high, bad)
    | inr (lo, low) ↦ elim (Option-cases (decode_pairs s)) [
      | inl bad ↦ ground (arith, h, high, low, bad)
      | inr (rest, tail) ↦
          let (cs, hi_small) = hex_digit-decode_nib c hi high in
          let (ds, lo_small) = hex_digit-decode_nib d lo low in
          let (text, small, size) = hex_encode-decode_pairs s rest tail in
          let e : (hi * 16 % 256 + lo) ∷ rest ≡ bytes = ground (arith, h, high, low, tail) in
          let hi_back : (hi * 16 % 256 + lo) / 16 % 16 ≡ hi = omega arith in
          let lo_back : (hi * 16 % 256 + lo) % 16 ≡ lo = omega arith in
          rw (sym e) (rw (hi_back, lo_back, cs, ds, text) (refl, (omega arith, small), omega arith))
    ]
  ]
]

pub length-hex_encode : (bytes : List ℕ) → length (hex_encode bytes) ≡ length bytes * 2
unfolding hex_encode
length-hex_encode [] = refl
length-hex_encode (b ∷ bytes) = omega (arith, length-hex_encode bytes)

pub hex_encode-spaceless : (bytes : List ℕ) → spaceless (hex_encode bytes) ≡ true
unfolding hex_encode hex_digit all
hex_encode-spaceless [] = refl
hex_encode-spaceless (b ∷ bytes) = ground (arith, hex_encode-spaceless bytes)

pub hex_decode_fixed-hex_encode :
    (n : ℕ) (bytes : List ℕ)
    → length bytes ≡ n
    → All (λ b. b < 256) bytes
    → hex_decode_fixed n (hex_encode bytes) ≡ some bytes
unfolding hex_decode_fixed
hex_decode_fixed-hex_encode n bytes size small =
    ground (arith, length-hex_encode bytes, decode_pairs-hex_encode bytes small, size)

hex_encode-hex_decode_fixed :
    (n : ℕ) (s : Text) (bytes : List ℕ)
    → hex_decode_fixed n s ≡ some bytes
    → (hex_encode bytes ≡ s) × (length bytes ≡ n) × All (λ b. b < 256) bytes
unfolding hex_decode_fixed
hex_encode-hex_decode_fixed n s bytes h =
    let decoded : decode_pairs s ≡ some bytes = ground (arith, h) in
    let (text, small, size) = hex_encode-decode_pairs s bytes decoded in
    (text, ground (arith, h, size), small)

pub parse_id-hex_encode :
    (n : ℕ) (bad : TraceparentError) (id : List ℕ)
    → IsId n id
    → parse_id n bad (hex_encode id) ≡ ok id
unfolding parse_id
parse_id-hex_encode n bad id v =
    rw (hex_decode_fixed-hex_encode n id v.size v.bytes) (rw v.nonzero refl)

pub hex_encode-parse_id :
    (n : ℕ) (bad : TraceparentError) (s : Text) (id : List ℕ)
    → parse_id n bad s ≡ ok id
    → (hex_encode id ≡ s) × IsId n id
unfolding parse_id
hex_encode-parse_id n bad s id h = elim (Option-cases (hex_decode_fixed n s)) [
  | inl none_ ↦ ground (arith, h, none_)
  | inr (bytes, good) ↦
      let (text, size, small) = hex_encode-hex_decode_fixed n s bytes good in
      let e : bytes ≡ id = ground (arith, h, good) in
      rw (sym e) (text, record { size = size; bytes = small; nonzero = ground (arith, h, good) })
]

pub one_byte :
    (f : Text) (bytes : List ℕ)
    → hex_decode_fixed 1 f ≡ some bytes
    → (hex_encode (first_byte bytes ∷ []) ≡ f) × (first_byte bytes < 256)
one_byte f [] h =
    let (text, size, small) = hex_encode-hex_decode_fixed 1 f [] h in ground (arith, size)
one_byte f (b ∷ []) h =
    let (text, size, small) = hex_encode-hex_decode_fixed 1 f (b ∷ []) h in (text, small.0)
one_byte f (b ∷ d ∷ bytes) h =
    let (text, size, small) = hex_encode-hex_decode_fixed 1 f (b ∷ d ∷ bytes) h in
    ground (arith, size)

pub fresh_id-IsId :
    (n : ℕ) (random : List ℕ)
    → length random ≡ suc n
    → All (λ b. b < 256) random
    → IsId (suc n) (fresh_id (suc n) random)
fresh_id-IsId n [] h small = ground (arith, h)
fresh_id-IsId n (b ∷ random) h small = elim (Bool-cases (text_eq (b ∷ random) (zeros (suc n)))) [
  | inl all_zero ↦
      rw all_zero
        (record { size = h; bytes = (omega arith, small.1); nonzero = unfold text_eq in refl })
  | inr some_one ↦ rw some_one (record { size = h; bytes = small; nonzero = some_one })
]
