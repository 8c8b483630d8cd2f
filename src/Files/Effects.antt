-- ===== src/Files/Effects.antt =====
-- What an action that succeeds leaves behind.
use iot_athome.Prelude.{
  ℕ, ◌≡◌, refl, sym, ap, ◌∙◌, inl, inr, Bool, false, Option, some, none, Text, Result, Result-cases,
  ok, err, arith,
}
use iot_athome.Files.{
  FsPath, Node, file, dir, Fs, parent, path_eq, put, read, write, set_permissions, copy,
  in_directory, mode_for, bytes_of,
}
use iot_athome.Files.Paths.{path_eq_refl}
use iot_athome.Files.Runs.{Run, Within, context, retyped, reading}

-- A file with these bytes is at `p`.
unfoldable pub Holds : FsPath → Text → Fs → Type 0
Holds p bytes fs = (mode : ℕ) × (fs p ≡ some (file mode bytes))

pub put_same : (p : FsPath) (n : Node) (fs : Fs) → put p n fs p ≡ some n
put_same p n fs = rw (path_eq_refl p) refl

pub write_ok :
    (mode : ℕ) (p : FsPath) (bytes : Text) (fs last : Fs)
    → write mode p bytes fs ≡ (last, ok tt)
    → Holds p bytes last
unfolding write Holds
write_ok mode p bytes fs last h = elim (Result-cases (in_directory (fs (parent p)))) [
  | inr (e, bad) ↦ ground (arith, h, bad)
  | inl (_, good) ↦ elim (Result-cases (mode_for mode (fs p))) [
    | inr (e, bad) ↦ ground (arith, h, good, bad)
    | inl (m, fine) ↦
        let e : put p (file m bytes) fs ≡ last = ground (arith, h, good, fine) in
        (m, rw (sym e) (put_same p (file m bytes) fs))
  ]
]

pub set_permissions_ok :
    (mode : ℕ) (p : FsPath) (bytes : Text) (fs last : Fs)
    → Holds p bytes fs
    → set_permissions mode p fs ≡ (last, ok tt)
    → last p ≡ some (file mode bytes)
unfolding set_permissions Holds
set_permissions_ok mode p bytes fs last (m, at) h =
    let e : put p (file mode bytes) fs ≡ last = ground (arith, h, at) in
    rw (sym e) (put_same p (file mode bytes) fs)

pub copy_ok :
    (src dst : FsPath) (bytes : Text) (fs last : Fs)
    → Holds src bytes fs
    → path_eq src dst ≡ false
    → copy src dst fs ≡ (last, ok tt)
    → Holds dst bytes last
unfolding copy Holds
copy_ok src dst bytes fs last (m, at) apart h =
    elim (Result-cases (in_directory (fs (parent dst)))) [
      | inr (e, bad) ↦ ground (arith, h, at, bad)
      | inl (_, good) ↦ elim (Result-cases (mode_for m (fs dst))) [
        | inr (e, bad) ↦ ground (arith, h, at, good, bad)
        | inl (old, fine) ↦
            let e : put dst (file m bytes) fs ≡ last = ground (arith, h, at, good, fine, apart) in
            (m, rw (sym e) (put_same dst (file m bytes) fs))
      ]
    ]

pub read_ok : (p : FsPath) (bytes : Text) (fs : Fs) → read p fs ≡ ok bytes → Holds p bytes fs
unfolding read Holds
read_ok p bytes fs = go (fs p) refl
  where
    go :
        (o : Option Node)
        → fs p ≡ o
        → bytes_of o ≡ ok bytes
        → (mode : ℕ) × (fs p ≡ some (file mode bytes))
    go none e h = cc
    go (some dir) e h = cc
    go (some (file m b)) e h = (m, ground (arith, e, h))

pub read-Holds : (p : FsPath) (bytes : Text) (fs : Fs) → Holds p bytes fs → read p fs ≡ ok bytes
unfolding read Holds
read-Holds p bytes fs (m, at) = rw at refl

module _ {ℓ} {A : Type ℓ} {E F : Type 0} (f : E → F) where
  retyped_ok :
      (r : Fs × Result E A) (last : Fs) (a : A) → retyped f r ≡ (last, ok a) → r ≡ (last, ok a)
  retyped_ok (fs, ok b) last a h = ground (arith, h)
  retyped_ok (fs, err e) last a h = cc

  pub context_ok :
      (m : Run E A) {fs last : Fs} {a : A} → context f m fs ≡ (last, ok a) → m fs ≡ (last, ok a)
  unfolding context
  context_ok m {fs = fs} {last = last} {a = a} h = retyped_ok (m fs) last a h

pub reading_ok {ℓ} :
    {E : Type 0} {A : Type ℓ} (f : Fs → Result E A) {fs last : Fs} {a : A}
    → reading f fs ≡ (last, ok a)
    → (fs ≡ last) × (f fs ≡ ok a)
unfolding reading
reading_ok f h = (ap (λ r. r.0) h, ap (λ r. r.1) h)

-- A file outside what an action can change.
pub kept {ℓ} :
    {E : Type 0} {A : Type ℓ} (P : FsPath → Bool) (m : Run E A) (q : FsPath) (bytes : Text)
    (fs last : Fs) (r : Result E A)
    → Within P m
    → P q ≡ false
    → m fs ≡ (last, r)
    → Holds q bytes fs
    → Holds q bytes last
unfolding Within Holds
kept P m q bytes fs last r w out e (mode, at) = (mode, sym (ap (λ s. s.0 q) e) ∙ w fs q out ∙ at)

pub Holds-unique : (p : FsPath) (a b : Text) (fs : Fs) → Holds p a fs → Holds p b fs → a ≡ b
unfolding Holds
Holds-unique p a b fs (m, x) (n, y) = cc (sym x ∙ y)

pub same_at {ℓ} :
    {E : Type 0} {A : Type ℓ} (P : FsPath → Bool) (m : Run E A) (q : FsPath) (fs last : Fs)
    (r : Result E A)
    → Within P m
    → P q ≡ false
    → m fs ≡ (last, r)
    → last q ≡ fs q
unfolding Within
same_at P m q fs last r w out e = sym (ap (λ s. s.0 q) e) ∙ w fs q out
