-- ===== src/Nats/Bootstrap.antt =====
-- The trust root.
use iot_athome.Prelude.{
  ◌≡◌, refl, sym, ap, ◌∙◌, inl, inr, List, [], ◌∷◌, Any, Any-map, Option-cases, Bool, true, false,
  Bool-cases, some, Text, codes, text_eq, lacks, all, Result, Result-cases, ok, err, arith, is_ok,
}
use iot_athome.Jwt.{
  Nkeys, Codec, NkeysLaws, CodecLaws, account_claims, default_limits, issue_account_jwt,
  verify_account_jwt,
}
use iot_athome.Jwt.Tokens.{verify-issue_account_jwt}
use iot_athome.Files.{FsPath, Node, Fs, file, path_eq, join_path, exists, present, create_dir_all}
use iot_athome.Files.Paths.{path_eq_refl}
use iot_athome.Files.Names.{name_test, IsName_of_test, path_eq-join_path}
use iot_athome.Files.Runs.{Within, reading, context, ◌>>=◌, bind_ok}
use iot_athome.Files.Effects.{Holds, reading_ok}
use iot_athome.Nats.{
  Host, NatsError, exists_already, owner_only, store, first_existing, resolver_snippet,
  cmd_bootstrap,
}
use iot_athome.Nats.Tokens.{mapped_ok, store_ok, store-Within}

module _ {N : Type 0} (host : Host N) where
  -- A file that another path is stored to is kept.
  pub store_keeps :
      (is_secret : Bool) (p q : FsPath) (bytes : Text) (fs last : Fs)
      → path_eq p q ≡ false
      → store host is_secret p bytes fs ≡ (last, ok tt)
      → last q ≡ fs q
  unfolding Within
  store_keeps is_secret p q bytes fs last apart h =
      sym (ap (λ (r : Fs × Result NatsError (Unit {0})). r.0 q) h)
      ∙ store-Within host (path_eq p) is_secret p bytes (path_eq_refl p) fs q apart

abbrev pub operator_nk : Text
operator_nk = codes "operator.nk"

abbrev pub operator_pub : Text
operator_pub = codes "operator.pub"

abbrev pub account_nk : Text
account_nk = codes "iot-account.nk"

abbrev pub account_pub : Text
account_pub = codes "iot-account.pub"

abbrev pub account_jwt : Text
account_jwt = codes "iot-account.jwt"

abbrev pub resolver_conf : Text
resolver_conf = codes "resolver.conf"

apart :
    (d : FsPath) (a b : Text)
    → name_test a ≡ true
    → name_test b ≡ true
    → text_eq a b ≡ false
    → path_eq (join_path d a) (join_path d b) ≡ false
apart d a b x y h = path_eq-join_path d a b (IsName_of_test a x) (IsName_of_test b y) ∙ h

module _ {N Key : Type 0} (host : Host N) (keys : Nkeys Key) (codec : Codec) where
  -- When `bootstrap` succeeds, the two seed files hold the seeds of the fresh keys and only their owner
  -- can read them, the token file holds an account token that verifies under the operator's key, for
  -- the account's public key and the default limits, and the broker's snippet has both keys and the token.
  pub cmd_bootstrap_ok :
      (kl : NkeysLaws keys) (cl : CodecLaws codec) (operator account : Key) (out : FsPath)
      (force : Bool) (name : Text) (fs last : Fs)
      → cmd_bootstrap host keys codec operator account out force name fs ≡ (last, ok tt)
      → (operator_seed : Text) × (account_seed : Text) × (jwt : Text) × (keys.seed operator
          ≡ ok operator_seed)
        × (keys.seed account ≡ ok account_seed)
        × (last (join_path out operator_nk) ≡ some (file owner_only operator_seed))
        × (last (join_path out account_nk) ≡ some (file owner_only account_seed))
        × Holds (join_path out account_jwt) jwt last
        × (verify_account_jwt keys codec operator jwt
            ≡ ok (
                account_claims keys codec operator
                  (keys.public_key account)
                  name
                  default_limits
                  host.now))
        × Holds
            (join_path out resolver_conf)
            (resolver_snippet host keys codec
              (keys.public_key operator)
              (keys.public_key account)
              jwt)
            last
  unfolding cmd_bootstrap Holds lacks all text_eq
  cmd_bootstrap_ok kl cl operator account out force name fs last h0 =
      let (_, fs1, created, h1) = bind_ok _ _ h0 in
      let (_, fs2, checked, h2) = bind_ok _ _ h1 in
      let (seed_o, fs3, r3, h3) = bind_ok _ _ h2 in
      let (_, fs4, s4, h4) = bind_ok _ _ h3 in
      let (_, fs5, s5, h5) = bind_ok _ _ h4 in
      let (seed_a, fs6, r6, h6) = bind_ok _ _ h5 in
      let (_, fs7, s7, h7) = bind_ok _ _ h6 in
      let (_, fs8, s8, h8) = bind_ok _ _ h7 in
      let (jwt, fs9, r9, h9) = bind_ok _ _ h8 in
      let (_, fs10, s10, s11) = bind_ok _ _ h9 in
      let (_, got_o) = reading_ok _ r3 in
      let (e6, got_a) = reading_ok _ r6 in
      let (e9, got_jwt) = reading_ok _ r9 in
      let at = λ (a : Text). join_path out a in
      let late : (a : Text)
          → name_test a ≡ true
          → text_eq account_jwt a ≡ false
          → text_eq resolver_conf a ≡ false
          → last (at a) ≡ fs8 (at a) =
        λ a x y z.
          store_keeps host false (at resolver_conf) (at a) _ fs10 last
            (apart out resolver_conf a refl x z) s11
          ∙ store_keeps host false (at account_jwt) (at a) _ fs9 fs10
              (apart out account_jwt a refl x y) s10
          ∙ sym (ap (λ (g : Fs). g (at a)) e9) in
      let middle : fs8 (at operator_nk) ≡ fs4 (at operator_nk) =
        store_keeps host false (at account_pub) (at operator_nk) _ fs7 fs8
          (apart out account_pub operator_nk refl refl refl) s8
        ∙ store_keeps host true (at account_nk) (at operator_nk) _ fs6 fs7
            (apart out account_nk operator_nk refl refl refl) s7
        ∙ sym (ap (λ (g : Fs). g (at operator_nk)) e6)
        ∙ store_keeps host false (at operator_pub) (at operator_nk) _ fs4 fs5
            (apart out operator_pub operator_nk refl refl refl) s5 in
      let (_, secret_o) = store_ok host true (at operator_nk) seed_o fs3 fs4 s4 in
      let (_, secret_a) = store_ok host true (at account_nk) seed_a fs6 fs7 s7 in
      let ((mode, token), _) = store_ok host false (at account_jwt) jwt fs9 fs10 s10 in
      let (conf, _) = store_ok host false (at resolver_conf) _ fs10 last s11 in
      (
        seed_o,
        seed_a,
        jwt,
        mapped_ok _ (keys.seed operator) seed_o got_o,
        mapped_ok _ (keys.seed account) seed_a got_a,
        late operator_nk refl refl refl ∙ middle ∙ secret_o refl,
        late account_nk refl refl refl
            ∙ store_keeps host false (at account_pub) (at account_nk) _ fs7 fs8
                (apart out account_pub account_nk refl refl refl) s8
            ∙ secret_a refl,
        (
          mode,
          store_keeps host false (at resolver_conf) (at account_jwt) _ fs10 last
                (apart out resolver_conf account_jwt refl refl refl) s11
              ∙ token,
        ),
        verify-issue_account_jwt keys codec kl cl operator (keys.public_key account) name
            default_limits host.now jwt
            (mapped_ok _
              (issue_account_jwt keys codec operator (keys.public_key account) name default_limits
                host.now)
              jwt got_jwt),
        conf,
      )

-- The files that hold the trust root.
abbrev pub roots : FsPath → List FsPath
roots out = join_path out operator_nk ∷ join_path out account_nk ∷ join_path out account_jwt ∷ []

create_dir_all_keeps :
    (p q : FsPath) (n : Node) (fs : Fs) → fs q ≡ some n → (create_dir_all p fs).0 q ≡ some n
unfolding create_dir_all
create_dir_all_keeps p q n fs h = ground (arith, h)

module _ {N Key : Type 0} (host : Host N) (keys : Nkeys Key) (codec : Codec) where
  first_existing_err :
      (ps : List FsPath) (fs : Fs)
      → Any (λ p. exists p fs ≡ true) ps
      → (p : FsPath) × (first_existing host keys codec ps fs ≡ err (exists_already p))
  first_existing_err [] fs h = absurd h
  first_existing_err (p ∷ ps) fs h = elim (Bool-cases (exists p fs)) [
    | inl e ↦ (p, rw e refl)
    | inr e ↦ elim h [
      | inl x ↦ absurd (cc (x, e))
      | inr x ↦ let (q, r) = first_existing_err ps fs x in (q, rw e r)
    ]
  ]

  exists_keeps :
      (ps : List FsPath) (fs next : Fs)
      → ((q : FsPath) (n : Node) → fs q ≡ some n → next q ≡ some n)
      → Any (λ p. exists p fs ≡ true) ps
      → Any (λ p. exists p next ≡ true) ps
  exists_keeps ps fs next keep h =
      Any-map ps
        (λ p e. elim (Option-cases (fs p)) [
          | inl gone ↦ absurd (cc (ap present gone, e))
          | inr (n, at) ↦ rw (keep p n at) refl
        ])
        h

  -- Without `--force`, `bootstrap` fails if the operator's seed, the account's seed or the account's
  -- token is there already, and everything that was there stays as it was.
  pub cmd_bootstrap_refuses :
      (operator account : Key) (out : FsPath) (name : Text) (fs : Fs) (q : FsPath) (n : Node)
      → Any (λ p. exists p fs ≡ true) (roots out)
      → fs q ≡ some n
      → (is_ok (cmd_bootstrap host keys codec operator account out false name fs).1 ≡ false)
        × ((cmd_bootstrap host keys codec operator account out false name fs).0 q ≡ some n)
  unfolding cmd_bootstrap ◌>>=◌ context reading
  cmd_bootstrap_refuses operator account out name fs q n h at =
      let (p, refused) = first_existing_err (roots out) (create_dir_all out fs).0 (
        exists_keeps (roots out) fs (create_dir_all out fs).0
          (λ r m e. create_dir_all_keeps out r m fs e) h) in
      let keep = create_dir_all_keeps out q n fs at in
      elim (Result-cases (create_dir_all out fs).1) [
        | inr (e, bad) ↦ rw bad (refl, keep)
        | inl (_, good) ↦ rw (good, refused) (refl, keep)
      ]
