-- ===== src/Instances.antt =====
-- Concrete functions for nkeys, base64 and serde_json, with the laws that the theorems about them ask
-- for: two keys, a shift for base64, and lengths before texts for JSON.
pub mod Claims
pub mod Documents
pub mod Loudness
use iot_athome.Prelude.{
  ℕ, suc, zero, ◌+◌, ◌-◌, ◌≡◌, refl, sym, ap, List, [], ◌∷◌, ◌++◌, map, length, Bool, true, false,
  not, Text, codes, text_eq, text_eq_refl, lacks, all, spaceless, Result, ok, err, ◌>>=◌,
  if◌then◌else◌, arith, ◌==◌,
}
use iot_athome.Jwt.{Nkeys, NkeysLaws}

-- true is the account's (and the operator's) key, false the user's.
abbrev pub name_of : Bool → Text
name_of true = codes "A"
name_of false = codes "U"

abbrev pub key_of : Text → Result Text Bool
key_of s =
    if text_eq s (codes "SA")
    then ok true
    else if text_eq s (codes "SU")
    then ok false
    else err (codes "no key")

abbrev pub keys : Nkeys Bool
keys = record {
  public_key = name_of;
  seed = λ k. ok (b'S' ∷ name_of k);
  from_seed = key_of;
  sign = λ k input. ok (name_of k ++ input);
  verify = λ k input sig. text_eq sig (name_of k ++ input);
}

abbrev pub ok_text : Text → Result Text Text
ok_text s = ok s

pub same_ok : {a b : Text} → ok_text a ≡ ok b → a ≡ b
same_ok h = cc

seed_plain : (k : Bool) → spaceless (b'S' ∷ name_of k) ≡ true
unfolding all
seed_plain true = refl
seed_plain false = refl

from_seed_back : (k : Bool) (s : Text) → keys.seed k ≡ ok s → keys.from_seed s ≡ ok k
unfolding text_eq
from_seed_back true s h = rw (sym (same_ok h)) refl
from_seed_back false s h = rw (sym (same_ok h)) refl

pub keys_laws : NkeysLaws keys
unfolding text_eq all
keys_laws = record {
  verify-sign = λ k input sig h. rw (sym (same_ok h)) (text_eq_refl (name_of k ++ input));
  from_seed-seed = λ k s h. from_seed_back k s h;
  seed-spaceless = λ k s h. rw (sym (same_ok h)) (seed_plain k);
}

-- base64
abbrev pub shift : Text → Text
shift bytes = map (λ c. c + 47) bytes

abbrev pub unshift : Text → Text
unshift bytes = map (λ c. c - 47) bytes

pub unshift-shift : (s : Text) → unshift (shift s) ≡ s
unshift-shift [] = refl
unshift-shift (c ∷ s) = ground (arith, unshift-shift s)

pub shift-lacks : (s : Text) → lacks b'.' (shift s) ≡ true
unfolding lacks all
shift-lacks [] = refl
shift-lacks (c ∷ s) = ground (arith, shift-lacks s)

-- A text with its length before it, and a list of texts with its.
abbrev pub put_text : Text → Text → Text
put_text s rest = length s ∷ s ++ rest

abbrev pub take_text : ℕ → Text → Result Text (Text × Text)
take_text zero rest = ok ([], rest)
take_text (suc n) [] = err (codes "eof")
take_text (suc n) (c ∷ rest) = elim (take_text n rest) [
  | ok (s, more) ↦ ok (c ∷ s, more)
  | err e ↦ err e
]

abbrev pub get_text : Text → Result Text (Text × Text)
get_text [] = err (codes "eof")
get_text (n ∷ rest) = take_text n rest

abbrev pub put_texts : List Text → Text → Text
put_texts [] rest = rest
put_texts (s ∷ ss) rest = put_text s (put_texts ss rest)

abbrev pub take_texts : ℕ → Text → Result Text (List Text × Text)
take_texts zero rest = ok ([], rest)
take_texts (suc n) rest = do
  (s, more) ← get_text rest
  (ss, last) ← take_texts n more
  ok (s ∷ ss, last)

abbrev pub put_list : List Text → Text → Text
put_list ss rest = length ss ∷ put_texts ss rest

abbrev pub get_list : Text → Result Text (List Text × Text)
get_list [] = err (codes "eof")
get_list (n ∷ rest) = take_texts n rest

take_text-append : (s rest : Text) → take_text (length s) (s ++ rest) ≡ ok (s, rest)
take_text-append [] rest = refl
take_text-append (c ∷ s) rest = rw (take_text-append s rest) refl

pub get_text-put_text : (s rest : Text) → get_text (put_text s rest) ≡ ok (s, rest)
get_text-put_text s rest = take_text-append s rest

take_texts-put_texts :
    (ss : List Text) (rest : Text) → take_texts (length ss) (put_texts ss rest) ≡ ok (ss, rest)
take_texts-put_texts [] rest = refl
take_texts-put_texts (s ∷ ss) rest =
    rw (take_text-append s (put_texts ss rest), take_texts-put_texts ss rest) refl

pub get_list-put_list : (ss : List Text) (rest : Text) → get_list (put_list ss rest) ≡ ok (ss, rest)
get_list-put_list ss rest = take_texts-put_texts ss rest
