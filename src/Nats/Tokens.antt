-- ===== src/Nats/Tokens.antt =====
-- What a command that succeeds has written: secrets that only their owner can read, and tokens that
-- the keys verify.
use mathlib.Core.Path.{subst}
use iot_athome.Prelude.{
  ◌≡◌, refl, sym, ap, ◌∙◌, inl, inr, Bool, true, false, Bool-cases, Option-cases, Option, some,
  Text, trim, Result, Result-cases, ok, err, arith,
}
use iot_athome.Json.{Json}
use iot_athome.Jwt.{
  Nkeys, Codec, NkeysLaws, CodecLaws, UserAcl, user_claims, format_creds_file, verify_user_jwt,
}
use iot_athome.Jwt.Tokens.{verify-issue_user_jwt}
use iot_athome.Files.{FsPath, Fs, file, write, set_permissions, read}
use iot_athome.Files.Runs.{
  Within, context, when, bind_ok, bind-Within, when-Within, context-Within, write-Within,
  set_permissions-Within,
}
use iot_athome.Files.Effects.{Holds, write_ok, set_permissions_ok, context_ok, reading_ok, read_ok}
use iot_athome.Nats.{
  Host, NatsError, io, mint, mapped, parse_seed, encode_seed, owner_only, user_jwt_ttl_secs,
  saturating_add, restrict_permissions, read_to_string, store, acl_of, parse_acl, load_key,
  user_token, generate_jti, issue_and_format_creds, cmd_mint_user, or_default, default_out,
}

pub mapped_ok {ℓ} :
    {A : Type ℓ} {E : Type 0} (f : E → NatsError) (r : Result E A) (a : A)
    → mapped f r ≡ ok a
    → r ≡ ok a
mapped_ok f (ok b) a h = ground (arith, h)
mapped_ok f (err e) a h = cc

module _ {N : Type 0} (host : Host N) where
  pub store-Within :
      (P : FsPath → Bool) (is_secret : Bool) (p : FsPath) (bytes : Text)
      → P p ≡ true
      → Within P (store host is_secret p bytes)
  unfolding store restrict_permissions
  store-Within P is_secret p bytes h =
      bind-Within P (context io (write host.new_mode p bytes)) _
        (context-Within P io (write host.new_mode p bytes) (write-Within P host.new_mode p bytes h))
        (λ _. when-Within P is_secret (context io (set_permissions owner_only p)) (
          context-Within P io (set_permissions owner_only p)
            (set_permissions-Within P owner_only p h)))

  -- A stored file has its bytes, and a secret one can be read by its owner alone.
  pub store_ok :
      (is_secret : Bool) (p : FsPath) (bytes : Text) (fs last : Fs)
      → store host is_secret p bytes fs ≡ (last, ok tt)
      → Holds p bytes last × (is_secret ≡ true → last p ≡ some (file owner_only bytes))
  unfolding store restrict_permissions when Holds
  store_ok is_secret p bytes fs last h =
      let (_, mid, wrote, rest) = bind_ok _ _ h in
      let held = write_ok host.new_mode p bytes fs mid (context_ok io _ wrote) in
      by_kind is_secret mid held rest
    where
      by_kind :
          (b : Bool) (mid : Fs)
          → Holds p bytes mid
          → when b (context io (set_permissions owner_only p)) mid ≡ (last, ok tt)
          → Holds p bytes last × (b ≡ true → last p ≡ some (file owner_only bytes))
      by_kind false mid held e = (rw (sym (ap (λ r. r.0) e)) held, λ c. cc)
      by_kind true mid held e =
          let at = set_permissions_ok owner_only p bytes mid last held (context_ok io _ e) in
          ((owner_only, at), λ _. at)

  read_to_string_ok :
      (p : FsPath) (fs last : Fs) (bytes : Text)
      → read_to_string host p fs ≡ (last, ok bytes)
      → (fs ≡ last) × Holds p bytes fs
  unfolding read_to_string
  read_to_string_ok p fs last bytes h =
      let (same, got) = reading_ok _ h in
      (
        same,
        elim (Result-cases (read p fs)) [
          | inr (e, bad) ↦ ground (arith, got, bad)
          | inl (b, good) ↦ elim (Bool-cases (host.valid_utf8 b)) [
            | inr e ↦ ground (arith, got, good, e)
            | inl e ↦ read_ok p bytes fs (good ∙ ap ok (ground (arith, got, good, e)))
          ]
        ],
      )

  pub parse_acl_ok :
      (p : FsPath) (fs last : Fs) (acl : UserAcl)
      → parse_acl host p fs ≡ (last, ok acl)
      → (fs ≡ last)
        × (raw : Text) × (v : Json N) × Holds p raw fs
        × (host.from_str raw ≡ some v)
        × (acl ≡ acl_of v)
  unfolding parse_acl
  parse_acl_ok p fs last acl h =
      let (raw, mid, got, rest) = bind_ok _ _ h in
      let (same, held) = read_to_string_ok p fs mid raw got in
      let (also, found) = reading_ok _ rest in
      elim (Option-cases (host.from_str raw)) [
        | inl e ↦ ground (arith, found, e)
        | inr (v, e) ↦ (same ∙ also, raw, v, held, e, ground (arith, found, e))
      ]

-- At `path`, for its owner alone, lies the credentials file of `user`, with a token that `account`
-- signed and that carries the two allow-lists.
pub record IsMinted {N Key : Type 0} (host : Host N) (keys : Nkeys Key) (codec : Codec)
    (account user : Key) (name : Text) (acl : UserAcl) (path : FsPath) (last : Fs) : Type 0 where
  pub jwt : Text
  pub seed : Text
  pub stored : last path ≡ some (file owner_only (format_creds_file jwt seed))
  pub seed_of : keys.seed user ≡ ok seed
  pub accepted :
      verify_user_jwt keys codec account jwt
      ≡ ok (
          user_claims keys codec account
            (keys.public_key user)
            name
            acl
            host.now
            (saturating_add host.now user_jwt_ttl_secs)
            (generate_jti host keys codec))

module _ {N Key : Type 0} (host : Host N) (keys : Nkeys Key) (codec : Codec) where
  pub load_key_ok :
      (p : FsPath) (fs last : Fs) (k : Key)
      → load_key host keys codec p fs ≡ (last, ok k)
      → (fs ≡ last) × (seed : Text) × Holds p seed fs × (keys.from_seed (trim seed) ≡ ok k)
  unfolding load_key
  load_key_ok p fs last k h =
      let (seed, mid, got, rest) = bind_ok _ _ h in
      let (same, held) = read_to_string_ok host p fs mid seed got in
      let (also, found) = reading_ok _ rest in
      (same ∙ also, seed, held, mapped_ok parse_seed (keys.from_seed (trim seed)) k found)

  pub issue_and_format_creds_ok :
      (account user : Key) (name creds : Text) (acl : UserAcl) (fs last : Fs)
      → issue_and_format_creds host keys codec account user name acl fs ≡ (last, ok creds)
      → (fs ≡ last)
        × (jwt : Text) × (seed : Text) × (user_token host keys codec account user name acl ≡ ok jwt)
        × (keys.seed user ≡ ok seed)
        × (creds ≡ format_creds_file jwt seed)
  unfolding issue_and_format_creds
  issue_and_format_creds_ok account user name creds acl fs last h =
      let token = user_token host keys codec account user name acl in
      let (jwt, mid, made, rest) = bind_ok _ _ h in
      let (same, issued) = reading_ok _ made in
      let (seed, next, got, end) = bind_ok _ _ rest in
      let (also, encoded) = reading_ok _ got in
      let (so, text) = reading_ok _ end in
      (
        same ∙ also ∙ so,
        jwt,
        seed,
        mapped_ok mint token jwt issued,
        mapped_ok encode_seed (keys.seed user) seed encoded,
        ground (arith, text),
      )

  pub creds-IsMinted :
      (kl : NkeysLaws keys) (cl : CodecLaws codec) (account user : Key) (name creds : Text)
      (acl : UserAcl) (path : FsPath) (fs mid last : Fs)
      → issue_and_format_creds host keys codec account user name acl fs ≡ (mid, ok creds)
      → store host true path creds mid ≡ (last, ok tt)
      → IsMinted host keys codec account user name acl path last
  creds-IsMinted kl cl account user name creds acl path fs mid last h k =
      let (_, jwt, seed, issued, encoded, e) =
        issue_and_format_creds_ok account user name creds acl fs mid h in
      let exp = saturating_add host.now user_jwt_ttl_secs in
      let (_, secret) = store_ok host true path creds mid last k in
      record {
        jwt = jwt;
        seed = seed;
        stored = rw (sym e) (secret refl);
        seed_of = encoded;
        accepted =
            verify-issue_user_jwt keys codec kl cl account (keys.public_key user) name acl host.now
              exp (generate_jti host keys codec) jwt issued;
      }

  -- When `mint-user` succeeds, the output path, `nats.creds` beside the user's seed if none is given, has a credentials file that only its owner can read,
  -- with the user's seed and a token that verifies under the account of the account seed file; the
  -- claims are those of the user's public key, the given name, the allow-lists of the ACL file, and an
  -- expiry 90 days after the clock, at most the largest 64-bit number.
  pub cmd_mint_user-IsMinted :
      (kl : NkeysLaws keys) (cl : CodecLaws codec) (account_path user_path acl_path : FsPath)
      (name : Text) (out : Option FsPath) (fs last : Fs)
      → cmd_mint_user host keys codec account_path user_path acl_path name out fs ≡ (last, ok tt)
      → (account : Key) × (user : Key) × (v : Json N) × (fallback : FsPath) × (account_text : Text)
        × (user_text : Text) × (raw : Text) × (Holds account_path account_text fs
            × (keys.from_seed (trim account_text) ≡ ok account))
        × (Holds user_path user_text fs × (keys.from_seed (trim user_text) ≡ ok user))
        × (Holds acl_path raw fs × (host.from_str raw ≡ some v))
        × (default_out host keys codec user_path ≡ ok fallback)
        × IsMinted host keys codec account user name
            (acl_of v)
            (or_default host keys codec out fallback)
            last
  unfolding cmd_mint_user
  cmd_mint_user-IsMinted kl cl account_path user_path acl_path name out fs last h0 =
      let (account, fs1, got_account, h1) = bind_ok _ _ h0 in
      let (user, fs2, got_user, h2) = bind_ok _ _ h1 in
      let (acl, fs3, got_acl, h3) = bind_ok _ _ h2 in
      let (creds, fs4, issued, h4) = bind_ok _ _ h3 in
      let (fallback, fs5, placed, stored) = bind_ok _ _ h4 in
      let (e1, account_text, account_held, account_key) =
        load_key_ok account_path fs fs1 account got_account in
      let (e2, user_text, user_held, user_key) = load_key_ok user_path fs1 fs2 user got_user in
      let (e3, raw, v, acl_held, acl_json, e) = parse_acl_ok host acl_path fs2 fs3 acl got_acl in
      let (e5, default) = reading_ok _ placed in
      let path = or_default host keys codec out fallback in
      (
        account,
        user,
        v,
        fallback,
        account_text,
        user_text,
        raw,
        (account_held, account_key),
        (subst (Holds user_path user_text) (sym e1) user_held, user_key),
        (subst (Holds acl_path raw) (sym (e1 ∙ e2)) acl_held, acl_json),
        default,
        subst (λ a. IsMinted host keys codec account user name a path last) e
            (creds-IsMinted kl cl account user name creds acl path fs3 fs4 last issued
              (subst (λ g. store host true path creds g ≡ (last, ok tt)) (sym e5) stored)),
      )
