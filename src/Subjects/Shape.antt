-- ===== src/Subjects/Shape.antt =====
-- What the subject builders accept and what their subjects look like.
use mathlib.Core.Logic.{◌↔◌}
use iot_athome.Prelude.{
  Option, some, none, ◌∙◌, text_eq, if◌then◌else◌, All, ℕ, List, [], ◌∷◌, ◌≡◌, refl, ap, true,
  false, Text, codes, all, lacks, split, Result, ok, ◌==◌, arith, Bool-cases, ==_iff, join,
  split-join, inl, inr,
}
use iot_athome.Subjects
use iot_athome.Subjects.{SubjectError, token_char, validate_token}

abbrev pub IsToken : Text → Type 0
IsToken t = validate_token t ≡ ok tt

-- A byte that no token has.
abbrev pub Separator : ℕ → Type 0
Separator c = token_char c ≡ false

all-lacks : (sep : ℕ) (t : Text) → Separator sep → all token_char t ≡ true → lacks sep t ≡ true
unfolding lacks all
all-lacks sep [] h k = refl
all-lacks sep (c ∷ t) h k = elim (Bool-cases (c == sep)) [
  | inl e ↦ cc (ap token_char ((==_iff c sep).0 e))
  | inr e ↦ ground (arith, all-lacks sep t h)
]

pub IsToken-lacks : (sep : ℕ) (t : Text) → Separator sep → IsToken t → lacks sep t ≡ true
unfolding validate_token
IsToken-lacks sep [] h k = cc
IsToken-lacks sep (c ∷ t) h k = all-lacks sep (c ∷ t) h (ground arith)

pub dot_Separator : Separator b'.'
unfolding token_char
dot_Separator = refl

abbrev pub dot_lacks : (t : Text) → IsToken t → lacks b'.' t ≡ true
dot_lacks t = IsToken-lacks b'.' t dot_Separator

-- A subject that a builder is asked for, and the builder's answer.
pub data Subject : Type 0 where
  device_state : Text → Text → Text → Subject
  device_event : Text → Text → Text → Subject
  device_avail : Text → Text → Subject
  command : Text → Text → Text → Subject
  automation_fired : Text → Subject
  ml_prediction : Text → Subject
  audit : Text → Subject

abbrev pub build : Subject → Result SubjectError Text
build (device_state p d e) = Subjects.device_state p d e
build (device_event p d e) = Subjects.device_event p d e
build (device_avail p d) = Subjects.device_avail p d
build (command p d e) = Subjects.command p d e
build (automation_fired r) = Subjects.automation_fired r
build (ml_prediction m) = Subjects.ml_prediction m
build (audit k) = Subjects.audit k

-- The dot-separated tokens that ADR-0004 asks for.
abbrev pub head_token : Subject → Text
head_token (command p d e) = codes "cmd"
head_token (automation_fired r) = codes "automation"
head_token (ml_prediction m) = codes "ml"
head_token (audit k) = codes "audit"
head_token _ = codes "device"

abbrev pub tail_tokens : Subject → List Text
tail_tokens (device_state p d e) = p ∷ d ∷ e ∷ codes "state" ∷ []
tail_tokens (device_event p d e) = p ∷ d ∷ e ∷ codes "event" ∷ []
tail_tokens (device_avail p d) = p ∷ d ∷ codes "avail" ∷ []
tail_tokens (command p d e) = p ∷ d ∷ e ∷ []
tail_tokens (automation_fired r) = r ∷ codes "fired" ∷ []
tail_tokens (ml_prediction m) = m ∷ codes "prediction" ∷ []
tail_tokens (audit k) = k ∷ []

-- The arguments of a builder.
abbrev pub arguments : Subject → List Text
arguments (device_state p d e) = p ∷ d ∷ e ∷ []
arguments (device_event p d e) = p ∷ d ∷ e ∷ []
arguments (device_avail p d) = p ∷ d ∷ []
arguments (command p d e) = p ∷ d ∷ e ∷ []
arguments (automation_fired r) = r ∷ []
arguments (ml_prediction m) = m ∷ []
arguments (audit k) = k ∷ []

-- A built subject has valid arguments and is its tokens, joined by dots.
built :
    (a : Subject) (s : Text)
    → build a ≡ ok s
    → All IsToken (arguments a) × (join b'.' (head_token a ∷ tail_tokens a) ≡ s)
unfolding Subjects.device_state Subjects.device_event Subjects.device_avail Subjects.command
    Subjects.automation_fired Subjects.ml_prediction Subjects.audit join
built (device_state p d e) s h = ground arith
built (device_event p d e) s h = ground arith
built (device_avail p d) s h = ground arith
built (command p d e) s h = ground arith
built (automation_fired r) s h = ground arith
built (ml_prediction m) s h = ground arith
built (audit k) s h = ground arith

tokens-lack_dot :
    (a : Subject)
    → All IsToken (arguments a)
    → All (λ x. lacks b'.' x ≡ true) (head_token a ∷ tail_tokens a)
unfolding lacks all
tokens-lack_dot (device_state p d e) (hp, (hd, (he, _))) =
    (refl, (dot_lacks p hp, (dot_lacks d hd, (dot_lacks e he, (refl, tt)))))
tokens-lack_dot (device_event p d e) (hp, (hd, (he, _))) =
    (refl, (dot_lacks p hp, (dot_lacks d hd, (dot_lacks e he, (refl, tt)))))
tokens-lack_dot (device_avail p d) (hp, (hd, _)) =
    (refl, (dot_lacks p hp, (dot_lacks d hd, (refl, tt))))
tokens-lack_dot (command p d e) (hp, (hd, (he, _))) =
    (refl, (dot_lacks p hp, (dot_lacks d hd, (dot_lacks e he, tt))))
tokens-lack_dot (automation_fired r) (hr, _) = (refl, (dot_lacks r hr, (refl, tt)))
tokens-lack_dot (ml_prediction m) (hm, _) = (refl, (dot_lacks m hm, (refl, tt)))
tokens-lack_dot (audit k) (hk, _) = (refl, (dot_lacks k hk, tt))

build-ok :
    (a : Subject)
    → All IsToken (arguments a)
    → build a ≡ ok (join b'.' (head_token a ∷ tail_tokens a))
unfolding Subjects.device_state Subjects.device_event Subjects.device_avail Subjects.command
    Subjects.automation_fired Subjects.ml_prediction Subjects.audit join
build-ok (device_state p d e) h = ground arith
build-ok (device_event p d e) h = ground arith
build-ok (device_avail p d) h = ground arith
build-ok (command p d e) h = ground arith
build-ok (automation_fired r) h = ground arith
build-ok (ml_prediction m) h = ground arith
build-ok (audit k) h = ground arith

-- Every subject that a builder returns splits at its dots into the tokens of ADR-0004, with the
-- builder's arguments in their places.
pub build-split :
    (a : Subject) (s : Text) → build a ≡ ok s → split b'.' s ≡ head_token a ∷ tail_tokens a
build-split a s h =
    let (ts, e) = built a s h in
    rw (← e) (split-join b'.' (head_token a) (tail_tokens a) (tokens-lack_dot a ts))

-- A builder succeeds exactly when each of its arguments is a token, and then it returns the tokens
-- of ADR-0004 joined by dots.
pub build_iff :
    (a : Subject) (s : Text)
    → (build a ≡ ok s)
      ↔ (All IsToken (arguments a) × (join b'.' (head_token a ∷ tail_tokens a) ≡ s))
build_iff a s = (built a s, λ h. build-ok a h.0 ∙ ap ok h.1)

-- Reads the tokens back.
read_tokens : List Text → Option Subject
read_tokens (_ ∷ k ∷ []) = some (audit k)
read_tokens (h ∷ a ∷ b ∷ []) =
    if text_eq h (codes "automation") then some (automation_fired a) else some (ml_prediction a)
read_tokens (h ∷ a ∷ b ∷ c ∷ []) =
    if text_eq h (codes "cmd") then some (command a b c) else some (device_avail a b)
read_tokens (h ∷ a ∷ b ∷ c ∷ d ∷ []) =
    if text_eq d (codes "state") then some (device_state a b c) else some (device_event a b c)
read_tokens _ = none

read_tokens-tokens : (a : Subject) → read_tokens (head_token a ∷ tail_tokens a) ≡ some a
unfolding read_tokens text_eq
read_tokens-tokens (device_state p d e) = refl
read_tokens-tokens _ = refl

-- A subject determines the builder that made it and all of its arguments: no two requests, of one
-- builder or of two, collide.
pub build-injective : (a b : Subject) (s : Text) → build a ≡ ok s → build b ≡ ok s → a ≡ b
build-injective a b s h k =
    cc (read_tokens-tokens a, read_tokens-tokens b, build-split a s h, build-split b s k)
