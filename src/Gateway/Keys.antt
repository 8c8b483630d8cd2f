-- ===== src/Gateway/Keys.antt =====
-- Where the key of an accepted token comes from.
use mathlib.Core.List.{Memᴰ}
use mathlib.Core.Path.{subst}
use iot_athome.Prelude.{
  ℕ, ◌-◌, ◌*◌, ◌^◌, ◌<◌, ◌≡◌, refl, sym, ap, ◌∙◌, ◌⊎◌, inl, inr, List, [], ◌∷◌, Bool, true, false,
  Bool-cases, Option, some, none, Text, text_eq, text_eq→eq, lookup, lookup-insert, ltb→lt,
  if◌then◌else◌, Result, ok, err, arith, Dict,
}
use iot_athome.Gateway.{
  OidcConfig, AuthError, Jwk, JwksDoc, Claims, Tokens, Moment, Verifier, new_verifier, skipped,
  add_key, fresh_keys, jwks_url, stored_keys, refresh, is_fresh, known, reread, cached, key_for,
  rules, validated, decoded, with_header, verify, verify_all,
}

module _ (tk : Tokens) where
  -- The document's list has the key `k` under the id `kid`, as an RSA key for RS256.
  pub record Advertised (kid : Text) (k : tk.DecodingKey) (keys : List Jwk) : Type 0 where
    pub jwk : Jwk
    pub listed : Memᴰ jwk keys
    pub usable : skipped tk jwk ≡ false
    pub same_kid : jwk.kid ≡ kid
    pub components : tk.from_rsa_components jwk.n jwk.e ≡ ok k

  further :
      (kid : Text) (k : tk.DecodingKey) (jwk : Jwk) (keys : List Jwk)
      → Advertised kid k keys
      → Advertised kid k (jwk ∷ keys)
  further kid k jwk keys a = record {
    jwk = a.jwk;
    listed = Memᴰ.tail a.listed;
    usable = a.usable;
    same_kid = a.same_kid;
    components = a.components;
  }

  lookup-add_key :
      (kid : Text) (k : tk.DecodingKey) (name : Text) (r : Result Text tk.DecodingKey)
      (fresh : Dict tk.DecodingKey)
      → lookup kid (add_key tk name r fresh) ≡ some k
      → ((name ≡ kid) × (r ≡ ok k)) ⊎ (lookup kid fresh ≡ some k)
  lookup-add_key kid k name (err e) fresh h = inr h
  lookup-add_key kid k name (ok x) fresh h = elim (Bool-cases (text_eq name kid)) [
    | inl same ↦
        let e : some x ≡ some k = sym (lookup-insert name kid x fresh ∙ rw same refl) ∙ h in
        inl (text_eq→eq name kid same, cc e)
    | inr other ↦ inr (sym (lookup-insert name kid x fresh ∙ rw other refl) ∙ h)
  ]

  lookup-fresh_keys :
      (kid : Text) (k : tk.DecodingKey) (fresh : Dict tk.DecodingKey) (keys : List Jwk)
      → lookup kid (fresh_keys tk fresh keys) ≡ some k
      → Advertised kid k keys ⊎ (lookup kid fresh ≡ some k)
  unfolding fresh_keys
  lookup-fresh_keys kid k fresh [] h = inr h
  lookup-fresh_keys kid k fresh (jwk ∷ keys) h =
      elim (lookup-fresh_keys kid k
        (if skipped tk jwk
          then fresh
          else add_key tk jwk.kid (tk.from_rsa_components jwk.n jwk.e) fresh)
        keys h) [
          | inl a ↦ inl (further kid k jwk keys a)
          | inr before ↦ elim (Bool-cases (skipped tk jwk)) [
            | inl skip ↦ inr (sym (rw skip refl) ∙ before)
            | inr use_it ↦
                elim (lookup-add_key kid k jwk.kid (tk.from_rsa_components jwk.n jwk.e) fresh
                  (sym (rw use_it refl) ∙ before)) [
                    | inl (named, components) ↦ inl (record {
                      jwk = jwk;
                      listed = Memᴰ.head refl;
                      usable = use_it;
                      same_kid = named;
                      components = components;
                    })
                    | inr old ↦ inr old
                  ]
          ]
        ]

  -- Every key of the cache comes from a document that was stored at the instant the cache names.
  pub Backed : Verifier tk → Type 0
  Backed v =
      (kid : Text) (k : tk.DecodingKey)
      → lookup kid v.keys ≡ some k
      → (t : ℕ) × (doc : JwksDoc) × (v.fetched_at ≡ some t)
        × Memᴰ (t, doc) v.fetched
        × Advertised kid k doc.keys

  -- The key comes from a document that was stored less than the cache's lifetime before the request, or
  -- during it.
  pub record Sourced (cfg : OidcConfig) (m : Moment) (kid : Text) (k : tk.DecodingKey)
      (fetched : List (ℕ × JwksDoc)) : Type 0 where
    pub at : ℕ
    pub doc : JwksDoc
    pub got : Memᴰ (at, doc) fetched
    pub advertised : Advertised kid k doc.keys
    pub recent : (m.now - at < cfg.jwks_cache_secs * 10 ^ 9) ⊎ (at ≡ m.stored)

  pub new_verifier-Backed : (cfg : OidcConfig) → Backed (new_verifier tk cfg)
  unfolding Backed new_verifier lookup
  new_verifier-Backed cfg kid k h = cc

  stored_keys-Backed :
      (v : Verifier tk) (at : ℕ) (r : Result Text JwksDoc)
      → Backed v
      → Backed (stored_keys tk v at r).0
  unfolding Backed lookup
  stored_keys-Backed v at (err e) b kid k h = b kid k h
  stored_keys-Backed v at (ok body) b kid k h = elim (lookup-fresh_keys kid k [] body.keys h) [
    | inl a ↦ (at, body, refl, Memᴰ.head refl, a)
    | inr empty ↦ absurd (cc empty)
  ]

  reread-state :
      (kid : Text) (r : Verifier tk × Result AuthError (Unit {0})) → (reread tk kid r).0 ≡ r.0
  reread-state kid (v, err e) = refl
  reread-state kid (v, ok _) = refl

  refresh-Backed : (v : Verifier tk) (m : Moment) → Backed v → Backed (refresh tk v m).0
  unfolding refresh
  refresh-Backed v m b = stored_keys-Backed v m.stored (m.fetch (jwks_url tk v.cfg)) b

  known-ok :
      (kid : Text) (k : tk.DecodingKey) (o : Option tk.DecodingKey)
      → known tk kid o ≡ ok k
      → o ≡ some k
  known-ok kid k none h = cc
  known-ok kid k (some x) h = cc

  stored_keys-Sourced :
      (v : Verifier tk) (m : Moment) (kid : Text) (k : tk.DecodingKey) (r : Result Text JwksDoc)
      → (reread tk kid (stored_keys tk v m.stored r)).1 ≡ ok k
      → Sourced v.cfg m kid k (reread tk kid (stored_keys tk v m.stored r)).0.fetched
  unfolding lookup
  stored_keys-Sourced v m kid k (err e) h = cc
  stored_keys-Sourced v m kid k (ok body) h =
      elim (lookup-fresh_keys kid k [] body.keys (known-ok kid k _ h)) [
        | inl a ↦ record {
          at = m.stored;
          doc = body;
          got = Memᴰ.head refl;
          advertised = a;
          recent = inr refl;
        }
        | inr empty ↦ absurd (cc empty)
      ]

  fresh_since :
      (cfg : OidcConfig) (now : ℕ) (o : Option ℕ) (t : ℕ)
      → o ≡ some t
      → is_fresh tk cfg now o ≡ true
      → now - t < cfg.jwks_cache_secs * 10 ^ 9
  fresh_since cfg now none t e h = cc
  fresh_since cfg now (some x) t e h = let same : x ≡ t = cc e in omega (arith, ltb→lt _ _ h, same)

  -- The state and the key that a lookup leads to, in its two ways.
  data Answer (v : Verifier tk) (m : Moment) (kid : Text)
      : Verifier tk × Result AuthError tk.DecodingKey → Type 0 where
    hit :
        {k : tk.DecodingKey}
        → lookup kid v.keys ≡ some k
        → is_fresh tk v.cfg m.now v.fetched_at ≡ true
        → Answer v m kid (v, ok k)
    miss : Answer v m kid (reread tk kid (stored_keys tk v m.stored (m.fetch (jwks_url tk v.cfg))))

  cached-Answer :
      (v : Verifier tk) (m : Moment) (kid : Text) (fresh : Bool) (o : Option tk.DecodingKey)
      → lookup kid v.keys ≡ o
      → is_fresh tk v.cfg m.now v.fetched_at ≡ fresh
      → Answer v m kid (
          cached tk v fresh
            (reread tk kid (stored_keys tk v m.stored (m.fetch (jwks_url tk v.cfg))))
            o)
  cached-Answer v m kid true (some k) e f = hit e f
  cached-Answer v m kid false (some k) e f = miss
  cached-Answer v m kid true none e f = miss
  cached-Answer v m kid false none e f = miss

  key_for-Answer : (v : Verifier tk) (m : Moment) (kid : Text) → Answer v m kid (key_for tk v m kid)
  unfolding key_for refresh
  key_for-Answer v m kid = cached-Answer v m kid _ _ refl refl

  Answer-Backed :
      (v : Verifier tk) (m : Moment) (kid : Text)
      (r : Verifier tk × Result AuthError tk.DecodingKey)
      → Answer v m kid r
      → Backed v
      → Backed r.0
  Answer-Backed v m kid r (hit e f) b = b
  Answer-Backed v m kid r miss b =
      rw (reread-state kid (stored_keys tk v m.stored (m.fetch (jwks_url tk v.cfg))))
        (stored_keys-Backed v m.stored (m.fetch (jwks_url tk v.cfg)) b)

  Answer-Sourced :
      (v : Verifier tk) (m : Moment) (kid : Text) (k : tk.DecodingKey)
      (r : Verifier tk × Result AuthError tk.DecodingKey)
      → Answer v m kid r
      → Backed v
      → r.1 ≡ ok k
      → Sourced v.cfg m kid k r.0.fetched
  unfolding Backed
  Answer-Sourced v m kid k r (hit e f) b h =
      let (t, doc, since, got, a) = b kid k (e ∙ cc h) in
      record {
        at = t;
        doc = doc;
        got = got;
        advertised = a;
        recent = inl (fresh_since v.cfg m.now v.fetched_at t since f);
      }
  Answer-Sourced v m kid k r miss b h =
      stored_keys-Sourced v m kid k (m.fetch (jwks_url tk v.cfg)) h

  stored_keys-cfg :
      (v : Verifier tk) (at : ℕ) (r : Result Text JwksDoc) → (stored_keys tk v at r).0.cfg ≡ v.cfg
  stored_keys-cfg v at (err e) = refl
  stored_keys-cfg v at (ok body) = refl

  Answer-cfg :
      (v : Verifier tk) (m : Moment) (kid : Text)
      (r : Verifier tk × Result AuthError tk.DecodingKey)
      → Answer v m kid r
      → r.0.cfg ≡ v.cfg
  Answer-cfg v m kid r (hit e f) = refl
  Answer-cfg v m kid r miss =
      ap (λ w. w.cfg) (reread-state kid (stored_keys tk v m.stored (m.fetch (jwks_url tk v.cfg))))
      ∙ stored_keys-cfg v m.stored (m.fetch (jwks_url tk v.cfg))

  -- What an accepted token went through: a key under the id in its header, which the issuer published in
  -- a recent document, and jsonwebtoken's check with that key, the audience and the issuer.
  pub record Accepted (v : Verifier tk) (m : Moment) (token : Text) (claims : Claims) : Type 0 where
    pub kid : Text
    pub key : tk.DecodingKey
    pub header : tk.decode_header token ≡ ok (some kid)
    pub source : Sourced v.cfg m kid key (verify tk v m token).0.fetched
    pub checked : tk.decode token key (rules tk v.cfg) ≡ ok claims

  decoded_key :
      (token : Text) (r : Verifier tk × Result AuthError tk.DecodingKey) (claims : Claims)
      → (decoded tk token r).1 ≡ ok claims
      → (k : tk.DecodingKey) × (r.1 ≡ ok k) × (tk.decode token k (rules tk r.0.cfg) ≡ ok claims)
  decoded_key token (v, err e) claims h = cc
  decoded_key token (v, ok k) claims h =
      (k, refl, validated-ok (tk.decode token k (rules tk v.cfg)) h)
    where
      validated-ok : (x : Result Text Claims) → validated tk x ≡ ok claims → x ≡ ok claims
      validated-ok (err e) h = cc
      validated-ok (ok c) h = cc

  pub decoded-state :
      (token : Text) (r : Verifier tk × Result AuthError tk.DecodingKey)
      → (decoded tk token r).0 ≡ r.0
  decoded-state token (v, err e) = refl
  decoded-state token (v, ok k) = refl

  with_header-Backed :
      (v : Verifier tk) (m : Moment) (token : Text) (r : Result Text (Option Text))
      → Backed v
      → Backed (with_header tk v m token r).0
  with_header-Backed v m token (err e) b = b
  with_header-Backed v m token (ok none) b = b
  with_header-Backed v m token (ok (some kid)) b =
      rw (decoded-state token (key_for tk v m kid))
        (Answer-Backed v m kid (key_for tk v m kid) (key_for-Answer v m kid) b)

  pub verify_all-Backed :
      (v : Verifier tk) (calls : List (Moment × Text)) → Backed v → Backed (verify_all tk v calls)
  unfolding verify_all verify
  verify_all-Backed v [] b = b
  verify_all-Backed v ((m, token) ∷ rest) b =
      verify_all-Backed (verify tk v m token).0 rest
        (with_header-Backed v m token (tk.decode_header token) b)

  with_header-ok :
      (v : Verifier tk) (m : Moment) (token : Text) (r : Result Text (Option Text))
      (claims : Claims)
      → (with_header tk v m token r).1 ≡ ok claims
      → (kid : Text) × (r ≡ ok (some kid))
        × (with_header tk v m token r ≡ decoded tk token (key_for tk v m kid))
  with_header-ok v m token (err e) claims h = cc
  with_header-ok v m token (ok none) claims h = cc
  with_header-ok v m token (ok (some kid)) claims h = (kid, refl, refl)

  pub verify-Accepted :
      (v : Verifier tk) (m : Moment) (token : Text) (claims : Claims)
      → Backed v
      → (verify tk v m token).1 ≡ ok claims
      → Accepted v m token claims
  unfolding verify
  verify-Accepted v m token claims b h =
      let (name, has, same) = with_header-ok v m token (tk.decode_header token) claims h in
      let r = key_for tk v m name in
      let (k, found, valid) = decoded_key token r claims (sym (ap (λ x. x.1) same) ∙ h) in
      let answer = key_for-Answer v m name in
      record {
        kid = name;
        key = k;
        header = has;
        source =
            subst (Sourced v.cfg m name k)
              (sym (ap (λ x. x.0.fetched) same ∙ ap (λ w. w.fetched) (decoded-state token r)))
              (Answer-Sourced v m name k r answer b found);
        checked =
            subst (λ c. tk.decode token k (rules tk c) ≡ ok claims) (Answer-cfg v m name r answer)
              valid;
      }
