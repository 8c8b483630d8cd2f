-- ===== src/Sdr433/Tokens.antt =====
-- The device ids and keys of the adapter as tokens of the bus's subjects.
use mathlib.Core.Path.{subst}
use iot_athome.Prelude.{
  ℕ, ◌≡◌, refl, ◌∙◌, inl, inr, List, [], ◌∷◌, ◌++◌, All, true, false, Bool-cases, Option, some,
  none, Text, codes, text_eq, all, all-append, is_empty, if◌then◌else◌, arith, ok, err,
}
use iot_athome.Json.{Json, null, bool, number, string, array, object, get_field}
use iot_athome.Subjects
use iot_athome.Subjects.{SubjectError, bad_char, token_char, validate_token}
use iot_athome.Subjects.Shape.{IsToken}
use iot_athome.Sdr433.{
  entity_spec, find_spec, is_known, lower, safe, is_continuation, sanitize, as_str, formatted,
  with_channel, base_id, device_id_of, device_id_from_envelope, state_subject,
}

safe-token : (d : ℕ) → safe d ≡ true → token_char d ≡ true
unfolding token_char
safe-token d h = ground (arith, h)

safe_or_underscore : (d : ℕ) → token_char (if safe d then d else b'_') ≡ true
safe_or_underscore d = elim (Bool-cases (safe d)) [
  | inl yes_ ↦ rw yes_ (safe-token d yes_)
  | inr no_ ↦ rw no_ (unfold token_char in refl)
]

pub sanitize_tokens : (s : Text) → all token_char (sanitize s) ≡ true
unfolding sanitize all
sanitize_tokens [] = refl
sanitize_tokens (c ∷ s) = elim (Bool-cases (is_continuation c)) [
  | inl more ↦ rw more (sanitize_tokens s)
  | inr first ↦ rw first (rw (safe_or_underscore (lower c)) (sanitize_tokens s))
]

pub all→IsToken : (t : Text) → is_empty t ≡ false → all token_char t ≡ true → IsToken t
unfolding validate_token
all→IsToken [] e h = ground (arith, e)
all→IsToken (c ∷ t) e h = rw h refl

join_tokens :
    (a b : Text)
    → all token_char a ≡ true
    → all token_char b ≡ true
    → all token_char (a ++ b'-' ∷ b) ≡ true
unfolding all
join_tokens a b ha hb =
    all-append token_char a (b'-' ∷ b) ∙ rw ha (rw hb (unfold token_char in refl))

module _ {N : Type 0} (print : N → Text) where
  with_channel_tokens :
      (out channel : Text)
      → all token_char out ≡ true
      → all token_char (with_channel print out channel) ≡ true
  with_channel_tokens out [] h = h
  with_channel_tokens out (c ∷ channel) h =
      join_tokens out (sanitize (c ∷ channel)) h (sanitize_tokens (c ∷ channel))

  base_id_tokens : (model id_part : Text) → all token_char (base_id print model id_part) ≡ true
  base_id_tokens model [] = sanitize_tokens model
  base_id_tokens model (c ∷ id_part) =
      join_tokens (sanitize model) (sanitize (c ∷ id_part)) (sanitize_tokens model)
        (sanitize_tokens (c ∷ id_part))

  device_id_of_tokens :
      (model : Option Text) (id_part channel id : Text)
      → device_id_of print model id_part channel ≡ some id
      → all token_char id ≡ true
  device_id_of_tokens none id_part channel id h = cc
  device_id_of_tokens (some model) id_part channel id h =
      subst (λ t. all token_char t ≡ true) (ground (arith, h))
        (with_channel_tokens (base_id print model id_part) channel (base_id_tokens model id_part))

  -- A device id that is taken from an envelope is a token of the bus's subjects, whatever text the
  -- radio's decoder has put into the model, the id and the channel, unless the id is empty.
  pub device_id_from_envelope-IsToken :
      (envelope : Json N) (id : Text)
      → device_id_from_envelope print envelope ≡ some id
      → is_empty id ≡ false
      → IsToken id
  unfolding device_id_from_envelope
  device_id_from_envelope-IsToken (object obj) id h full = all→IsToken id full (
      device_id_of_tokens (as_str print (get_field (codes "model") obj))
        (formatted print (get_field (codes "id") obj))
        (formatted print (get_field (codes "channel") obj)) id h)
  device_id_from_envelope-IsToken null id h full = cc
  device_id_from_envelope-IsToken (bool b) id h full = cc
  device_id_from_envelope-IsToken (number n) id h full = cc
  device_id_from_envelope-IsToken (string s) id h full = cc
  device_id_from_envelope-IsToken (array vs) id h full = cc

sdr433-IsToken : IsToken (codes "sdr433")
unfolding validate_token all token_char
sdr433-IsToken = refl

key_test :
    (k : ℕ) (key : Text)
    → validate_token (k ∷ key)
      ≡ (if all token_char (k ∷ key) then ok tt else err (bad_char (k ∷ key)))
unfolding validate_token
key_test k key = elim (Bool-cases (all token_char (k ∷ key))) [
  | inl yes_ ↦ rw yes_ refl
  | inr no_ ↦ rw no_ refl
]

-- The subject that the adapter writes is the one that the builder makes for its device and key, where
-- the builder makes one: it refuses every key with an upper-case letter or another byte that is no
-- token byte.
pub state_subject_exact :
    (id key : Text)
    → IsToken id
    → is_empty key ≡ false
    → Subjects.device_state (codes "sdr433") id key
      ≡ (if all token_char key then ok (state_subject id key) else err (bad_char key))
unfolding Subjects.device_state state_subject
state_subject_exact id [] t full = ground (arith, full)
state_subject_exact id (k ∷ key) t full =
    rw (sdr433-IsToken, t, key_test k key)
      (elim (Bool-cases (all token_char (k ∷ key))) [
        | inl lower_case ↦ rw lower_case refl
        | inr other ↦ rw other refl
      ])

-- The keys of the catalog that are no tokens.
abbrev pub upper_keys : List Text
upper_keys =
    codes "temperature_C"
    ∷ codes "temperature_F"
    ∷ codes "pressure_PSI"
    ∷ codes "pressure_kPa"
    ∷ codes "power_W"
    ∷ codes "energy_kWh"
    ∷ []

-- The adapter publishes six of its keys, the temperatures, pressures, power and energy, on subjects
-- that the subject builder refuses for every device.
pub upper_keys_refused :
    (id : Text)
    → IsToken id
    → All
        (λ key.
          (is_known (entity_spec key) ≡ true)
          × (Subjects.device_state (codes "sdr433") id key ≡ err (bad_char key)))
        upper_keys
unfolding entity_spec find_spec text_eq all token_char
upper_keys_refused id t =
    let refused = λ (k : ℕ) (key : Text). state_subject_exact id (k ∷ key) t refl in
    (
      (refl, refused _ _),
      (
        (refl, refused _ _),
        (
          (refl, refused _ _),
          ((refl, refused _ _), ((refl, refused _ _), ((refl, refused _ _), tt))),
        ),
      ),
    )
