-- ===== src/Files/Runs.antt =====
-- Actions on the file system: chained, each with its error beside the file system, and the paths
-- that an action can change.
use iot_athome.Prelude.{
  ℕ, ◌≡◌, refl, ap, ◌∙◌, inl, inr, Bool, true, false, Bool-cases, Text, Result, ok, err, arith,
}
use iot_athome.Files.{
  FsPath, Fs, path_eq, is_under, write, set_permissions, copy, remove_dir_all, create_dir_all,
}
use iot_athome.Files.Paths.{path_eq→eq}

abbrev pub Run {ℓ} : Type 0 → Type ℓ → Type ℓ
Run E A = Fs → Fs × Result E A

abbrev pub continue {ℓ κ} :
    {E : Type 0} {A : Type ℓ} {B : Type κ} → (A → Run E B) → Fs × Result E A → Fs × Result E B
continue f (fs, ok a) = f a fs
continue f (fs, err e) = (fs, err e)

infixl 5 ◌>>=◌ ◌>>◌
unfoldable pub ◌>>=◌ {ℓ κ} :
    {E : Type 0} {A : Type ℓ} {B : Type κ} → Run E A → (A → Run E B) → Run E B
(m >>= f) fs = continue f (m fs)

abbrev pub ◌>>◌ {κ} : {E : Type 0} {B : Type κ} → Run E (Unit {0}) → Run E B → Run E B
m >> k = m >>= λ _. k

-- An action that only reads.
unfoldable pub reading {ℓ} : {E : Type 0} {A : Type ℓ} → (Fs → Result E A) → Run E A
reading f fs = (fs, f fs)

abbrev pub retyped {ℓ} : {A : Type ℓ} {E F : Type 0} → (E → F) → Fs × Result E A → Fs × Result F A
retyped f (fs, ok a) = (fs, ok a)
retyped f (fs, err e) = (fs, err (f e))

-- An action with its error as the caller reports it.
unfoldable pub context {ℓ} : {A : Type ℓ} {E F : Type 0} → (E → F) → Run E A → Run F A
context f m fs = retyped f (m fs)

unfoldable pub when : {E : Type 0} → Bool → Run E (Unit {0}) → Run E (Unit {0})
when true m = m
when false m = λ fs. (fs, ok tt)

-- The action changes only what is at paths that satisfy `P`, whether it fails or not.
unfoldable pub Within {ℓ} : {E : Type 0} {A : Type ℓ} → (FsPath → Bool) → Run E A → Type 0
Within P m = (fs : Fs) (q : FsPath) → P q ≡ false → (m fs).0 q ≡ fs q

module _ {E : Type 0} (P : FsPath → Bool) where
  pub bind-Within {ℓ κ} :
      {A : Type ℓ} {B : Type κ} (m : Run E A) (f : A → Run E B)
      → Within P m
      → ((a : A) → Within P (f a))
      → Within P (m >>= f)
  unfolding Within ◌>>=◌
  bind-Within m f hm hf fs q out = go (m fs) (hm fs q out)
    where
      go : (r : Fs × Result E _) → r.0 q ≡ fs q → (continue f r).0 q ≡ fs q
      go (fs1, ok a) h = hf a fs1 q out ∙ h
      go (fs1, err e) h = h

  pub reading-Within {ℓ} : {A : Type ℓ} (f : Fs → Result E A) → Within P (reading f)
  unfolding Within reading
  reading-Within f fs q out = refl

  pub when-Within : (b : Bool) (m : Run E (Unit {0})) → Within P m → Within P (when b m)
  unfolding Within when
  when-Within true m h fs q out = h fs q out
  when-Within false m h fs q out = refl

module _ {ℓ} {A : Type ℓ} {E F : Type 0} (P : FsPath → Bool) (f : E → F) where
  retyped_files : (r : Fs × Result E A) → (retyped f r).0 ≡ r.0
  retyped_files (fs1, ok a) = refl
  retyped_files (fs1, err x) = refl

  pub context-Within : (m : Run E A) → Within P m → Within P (context f m)
  unfolding Within context
  context-Within m h fs q out = ap (λ (g : Fs). g q) (retyped_files (m fs)) ∙ h fs q out

module _ (P : FsPath → Bool) where
  pub other_path : (p q : FsPath) → P p ≡ true → P q ≡ false → path_eq p q ≡ false
  other_path p q hp hq = elim (Bool-cases (path_eq p q)) [
    | inr e ↦ e
    | inl e ↦ cc (path_eq→eq p q e)
  ]

  pub write-Within :
      (mode : ℕ) (p : FsPath) (bytes : Text) → P p ≡ true → Within P (write mode p bytes)
  unfolding Within write
  write-Within mode p bytes h fs q out = ground (arith, other_path p q h out)

  pub set_permissions-Within :
      (mode : ℕ) (p : FsPath) → P p ≡ true → Within P (set_permissions mode p)
  unfolding Within set_permissions
  set_permissions-Within mode p h fs q out = ground (arith, other_path p q h out)

  pub copy-Within : (src dst : FsPath) → P dst ≡ true → Within P (copy src dst)
  unfolding Within copy
  copy-Within src dst h fs q out = ground (arith, other_path dst q h out)

  pub remove_dir_all-Within :
      (p : FsPath)
      → ((q : FsPath) → P q ≡ false → is_under p q ≡ false)
      → Within P (remove_dir_all p)
  unfolding Within remove_dir_all
  remove_dir_all-Within p h fs q out = ground (arith, h q out)

  pub create_dir_all-Within :
      (p : FsPath)
      → ((q : FsPath) → P q ≡ false → is_under q p ≡ false)
      → Within P (create_dir_all p)
  unfolding Within create_dir_all
  create_dir_all-Within p h fs q out = ground (arith, h q out)

-- A chain that succeeds is a chain of successes.
module _ {ℓ κ} {E : Type 0} {A : Type ℓ} {B : Type κ} where
  continue_ok :
      (m : Run E A) (f : A → Run E B) (fs last : Fs) (b : B) (r : Fs × Result E A)
      → m fs ≡ r
      → continue f r ≡ (last, ok b)
      → (a : A) × (mid : Fs) × (m fs ≡ (mid, ok a)) × (f a mid ≡ (last, ok b))
  continue_ok m f fs last b (mid, ok a) e h = (a, mid, e, h)
  continue_ok m f fs last b (mid, err x) e h = cc

  pub bind_ok :
      (m : Run E A) (f : A → Run E B) {fs last : Fs} {b : B}
      → (m >>= f) fs ≡ (last, ok b)
      → (a : A) × (mid : Fs) × (m fs ≡ (mid, ok a)) × (f a mid ≡ (last, ok b))
  unfolding ◌>>=◌
  bind_ok m f {fs = fs} {last = last} {b = b} h = continue_ok m f fs last b (m fs) refl h
