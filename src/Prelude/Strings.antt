-- ===== src/Prelude/Strings.antt =====
-- A `&str` as the list of its UTF-8 bytes. Delimiters are ASCII, so that splitting, prefix tests
-- and equality are the same on bytes and on characters.
use Prim.Native.Nat.{ℕ}
use Prim.Native.Char.{code}
use Prim.Native.String.{String}
use mathlib.Core.Path.{◌≡◌, refl, ap}
use mathlib.Core.Logic.{◌↔◌, inl, inr}
use mathlib.Core.Bool.{Bool, true, false, not, ◌&&◌}
use mathlib.Core.Option.{Option, none, some}
use mathlib.Core.List.{List, [], ◌∷◌, ◌++◌}
use native.Mathlib.Omega.{arith}
use iot_athome.Prelude.Tests.{Bool-cases, ◌==◌, if◌then◌else◌}
use iot_athome.Prelude.Lists.{All, all}

abbrev pub Text : Type 0
Text = List ℕ

-- A literal of the source, as text.
abbrev pub codes : String → Text
codes String.[] = []
codes (String.◌∷◌ c s) = code c ∷ codes s

unfoldable pub text_eq : Text → Text → Bool
text_eq [] [] = true
text_eq [] (d ∷ t) = false
text_eq (c ∷ s) [] = false
text_eq (c ∷ s) (d ∷ t) = c == d && text_eq s t

pub text_eq→eq : (s t : Text) → text_eq s t ≡ true → s ≡ t
unfolding text_eq
text_eq→eq [] [] h = refl
text_eq→eq [] (d ∷ t) h = cc
text_eq→eq (c ∷ s) [] h = cc
text_eq→eq (c ∷ s) (d ∷ t) h = ground (arith, text_eq→eq s t)

pub text_eq_refl : (s : Text) → text_eq s s ≡ true
unfolding text_eq
text_eq_refl [] = refl
text_eq_refl (c ∷ s) = ground (arith, text_eq_refl s)

pub text_eq_iff : (s t : Text) → (text_eq s t ≡ true) ↔ (s ≡ t)
text_eq_iff s t = (text_eq→eq s t, λ e. rw e (text_eq_refl t))

-- str::starts_with
unfoldable pub starts_with : Text → Text → Bool
starts_with [] s = true
starts_with (c ∷ p) [] = false
starts_with (c ∷ p) (d ∷ s) = c == d && starts_with p s

pub starts_with-append : (p s : Text) → starts_with p (p ++ s) ≡ true
unfolding starts_with
starts_with-append [] s = refl
starts_with-append (c ∷ p) s = ground (arith, starts_with-append p s)

pub starts_with→append : (p s : Text) → starts_with p s ≡ true → (r : Text) × (s ≡ p ++ r)
unfolding starts_with
starts_with→append [] s h = (s, refl)
starts_with→append (c ∷ p) [] h = cc
starts_with→append (c ∷ p) (d ∷ s) h =
    let (r, e) = starts_with→append p s (ground arith) in (r, ground arith)

-- str::strip_prefix
unfoldable pub strip_prefix : Text → Text → Option Text
strip_prefix [] s = some s
strip_prefix (c ∷ p) [] = none
strip_prefix (c ∷ p) (d ∷ s) = let rest = strip_prefix p s in if c == d then rest else none

pub strip_prefix→append : (p s r : Text) → strip_prefix p s ≡ some r → s ≡ p ++ r
unfolding strip_prefix
strip_prefix→append [] s r h = ground (arith, h)
strip_prefix→append (c ∷ p) [] r h = cc
strip_prefix→append (c ∷ p) (d ∷ s) r h = ground (arith, h, strip_prefix→append p s r)

-- str::strip_suffix(c) for a one-byte suffix
unfoldable pub strip_suffix : ℕ → Text → Option Text
strip_suffix c [] = none
strip_suffix c (x ∷ []) = if x == c then some [] else none
strip_suffix c (x ∷ y ∷ s) = elim (strip_suffix c (y ∷ s)) [ none ↦ none | some r ↦ some (x ∷ r) ]

pub strip_suffix-append : (c : ℕ) (s : Text) → strip_suffix c (s ++ c ∷ []) ≡ some s
unfolding strip_suffix
strip_suffix-append c [] = ground arith
strip_suffix-append c (x ∷ []) = ground arith
strip_suffix-append c (x ∷ y ∷ s) = rw (strip_suffix-append c (y ∷ s))

pub strip_suffix→append : (c : ℕ) (s r : Text) → strip_suffix c s ≡ some r → s ≡ r ++ c ∷ []
unfolding strip_suffix
strip_suffix→append c [] r h = cc
strip_suffix→append c (x ∷ []) r h = ground arith
strip_suffix→append c (x ∷ y ∷ s) [] h = ground (arith, strip_suffix→append c (y ∷ s))
strip_suffix→append c (x ∷ y ∷ s) (z ∷ r) h = ground (arith, strip_suffix→append c (y ∷ s) r)

-- str::split on a one-byte separator: never empty.
abbrev cons_head : ℕ → List Text → List Text
cons_head c [] = (c ∷ []) ∷ []
cons_head c (w ∷ ws) = (c ∷ w) ∷ ws

unfoldable pub split : ℕ → Text → List Text
split sep [] = [] ∷ []
split sep (c ∷ s) = let rest = split sep s in if c == sep then [] ∷ rest else cons_head c rest

-- The text has no byte `sep`.
unfoldable pub lacks : ℕ → Text → Bool
lacks sep = all (λ c. not (c == sep))

module _ (sep : ℕ) where
  pub split-token : (w : Text) → lacks sep w ≡ true → split sep w ≡ w ∷ []
  unfolding split lacks all
  split-token [] h = refl
  split-token (c ∷ w) h = ground (arith, split-token w)

  pub split-append : (w s : Text) → lacks sep w ≡ true → split sep (w ++ sep ∷ s) ≡ w ∷ split sep s
  unfolding split lacks all
  split-append [] s h = ground arith
  split-append (c ∷ w) s h = ground (arith, split-append w s)

-- The pieces with the separator between them.
unfoldable pub join : ℕ → List Text → Text
join sep [] = []
join sep (w ∷ []) = w
join sep (w ∷ v ∷ ws) = w ++ sep ∷ join sep (v ∷ ws)

pub split-join :
    (sep : ℕ) (w : Text) (ws : List Text)
    → All (λ x. lacks sep x ≡ true) (w ∷ ws)
    → split sep (join sep (w ∷ ws)) ≡ w ∷ ws
unfolding join
split-join sep w [] h = split-token sep w h.0
split-join sep w (v ∷ ws) h =
    rw (split-append sep w (join sep (v ∷ ws)) h.0) (ap (◌∷◌ w) (split-join sep v ws h.1))

split_cons : (sep : ℕ) (s : Text) → (w : Text) × (ws : List Text) × (split sep s ≡ w ∷ ws)
unfolding split
split_cons sep [] = ([], [], refl)
split_cons sep (c ∷ s) =
    let (w, ws, e) = split_cons sep s in
    elim (Bool-cases (c == sep)) [
      | inl here ↦ ([], split sep s, rw here refl)
      | inr on ↦ (c ∷ w, ws, rw (on, e) refl)
    ]

join-cons_head : (sep c : ℕ) (ws : List Text) → join sep (cons_head c ws) ≡ c ∷ join sep ws
unfolding join
join-cons_head sep c [] = refl
join-cons_head sep c (w ∷ []) = refl
join-cons_head sep c (w ∷ v ∷ ws) = refl

pub join-split : (sep : ℕ) (s : Text) → join sep (split sep s) ≡ s
unfolding split join
join-split sep [] = refl
join-split sep (c ∷ s) =
    let (w, ws, e) = split_cons sep s in
    elim (Bool-cases (c == sep)) [
      | inl here ↦ ground (arith, join-split sep s, e)
      | inr on ↦ rw on (rw (join-cons_head sep c (split sep s)) (ap (◌∷◌ c) (join-split sep s)))
    ]
