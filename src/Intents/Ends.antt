-- ===== src/Intents/Ends.antt =====
-- Texts taken apart at a prefix and a suffix.
use mathlib.Core.List.{append-nil}
use iot_athome.Prelude.{
  ◌≡◌, refl, sym, ap, ◌∙◌, inl, inr, [], ◌∷◌, ◌++◌, Bool-cases, Option, Option-cases, some, none,
  Text, text_eq, text_eq→eq, text_eq_refl, strip_prefix, strip_prefix→append, trim, arith,
}
use iot_athome.Intents.{strip_end, inner_of, within, strip_prefix_suffix}

strip_prefix-append : (p s : Text) → strip_prefix p (p ++ s) ≡ some s
unfolding strip_prefix
strip_prefix-append [] s = refl
strip_prefix-append (c ∷ p) s = ground (arith, strip_prefix-append p s)

some_text : {a b : Text} → ◌≡◌ {A = Option Text} (some a) (some b) → a ≡ b
some_text h = cc h

strip_end→append : (q s r : Text) → strip_end q s ≡ some r → s ≡ r ++ q
unfolding strip_end
strip_end→append [] [] r h = ap (λ x. x ++ []) (some_text h)
strip_end→append (d ∷ q) [] r h = cc
strip_end→append q (c ∷ s) r h = elim (Bool-cases (text_eq (c ∷ s) q)) [
  | inl here ↦
      let e : ◌≡◌ {A = Option Text} (some []) (some r) = sym (rw here refl) ∙ h in
      text_eq→eq (c ∷ s) q here ∙ ap (λ x. x ++ q) (some_text e)
  | inr on ↦ elim (Option-cases (strip_end q s)) [
    | inl nothing ↦
        let e : ◌≡◌ {A = Option Text} none (some r) = sym (rw (on, nothing) refl) ∙ h in
        absurd (cc e)
    | inr (t, e) ↦
        let f : ◌≡◌ {A = Option Text} (some (c ∷ t)) (some r) = sym (rw (on, e) refl) ∙ h in
        ap (◌∷◌ c) (strip_end→append q s t e) ∙ ap (λ x. x ++ q) (some_text f)
  ]
]

strip_end-append : (q s : Text) → (r : Text) × (strip_end q (s ++ q) ≡ some r)
unfolding strip_end
strip_end-append [] [] = ([], refl)
strip_end-append (d ∷ q) [] = ([], rw (text_eq_refl (d ∷ q)) refl)
strip_end-append q (c ∷ s) = elim (Bool-cases (text_eq (c ∷ s ++ q) q)) [
  | inl here ↦ ([], rw here refl)
  | inr on ↦ let (r, e) = strip_end-append q s in (c ∷ r, rw (on, e) refl)
]

inner_of→append :
    (q body t : Text)
    → inner_of q body ≡ some t
    → (inner : Text) × (body ≡ inner ++ q) × (t ≡ trim inner)
inner_of→append [] body t h = (body, sym (append-nil body), sym (some_text h))
inner_of→append (d ∷ q) body t h = elim (Option-cases (strip_end (d ∷ q) body)) [
  | inl nothing ↦
      let e : ◌≡◌ {A = Option Text} none (some t) = sym (rw nothing refl) ∙ h in absurd (cc e)
  | inr (r, e) ↦
      let f : ◌≡◌ {A = Option Text} (some (trim r)) (some t) = sym (rw e refl) ∙ h in
      (r, strip_end→append (d ∷ q) body r e, sym (some_text f))
]

inner_of-append : (inner q : Text) → (t : Text) × (inner_of q (inner ++ q) ≡ some t)
inner_of-append inner [] = (_, refl)
inner_of-append inner (d ∷ q) = let (r, e) = strip_end-append (d ∷ q) inner in (trim r, rw e refl)

within→append :
    (p s q t : Text) (o : Option Text)
    → strip_prefix p s ≡ o
    → within q o ≡ some t
    → (inner : Text) × (s ≡ p ++ (inner ++ q)) × (t ≡ trim inner)
within→append p s q t none e h = cc
within→append p s q t (some body) e h =
    let (inner, parts, same) = inner_of→append q body t h in
    (inner, strip_prefix→append p s body e ∙ ap (λ x. p ++ x) parts, same)

pub strip_prefix_suffix→append :
    (s p q t : Text)
    → strip_prefix_suffix s p q ≡ some t
    → (inner : Text) × (s ≡ p ++ (inner ++ q)) × (t ≡ trim inner)
unfolding strip_prefix_suffix
strip_prefix_suffix→append s p q t h = within→append p s q t (strip_prefix p s) refl h

pub strip_prefix_suffix-append :
    (p inner q : Text) → (t : Text) × (strip_prefix_suffix (p ++ (inner ++ q)) p q ≡ some t)
unfolding strip_prefix_suffix
strip_prefix_suffix-append p inner q =
    let (t, e) = inner_of-append inner q in
    (t, ap (within q) (strip_prefix-append p (inner ++ q)) ∙ e)
