-- ===== src/Gateway/Samples.antt =====
-- An issuer with one usable key; a token is its key id, and a key accepts it if it is the key's name.
use iot_athome.Prelude.{
  ℕ, ◌≡◌, ◌⊎◌, refl, List, [], ◌∷◌, true, some, none, Text, codes, text_eq, lookup, insert,
  strip_prefix, if◌then◌else◌, ok, err,
}
use iot_athome.Gateway.{
  OidcConfig, jwks, Jwk, JwksDoc, Claims, Tokens, Moment, Verifier, new_verifier, skipped,
  fresh_keys, refresh, key_for, verify, verify_all, extract_bearer, bearer_middleware,
}
use iot_athome.Gateway.Bearer.{Admitted, bearer_middleware-Admitted}
use iot_athome.Gateway.Outage.{verify_outage}

abbrev alice : Claims
alice = record {
  sub = codes "alice";
  exp = 9000;
  iat = none;
  preferred_username = none;
  email = none;
}

abbrev jwts : Tokens
jwts = record {
  DecodingKey = Text;
  decode_header = λ token. ok (some token);
  from_rsa_components = λ n e. ok n;
  decode =
      λ token key rules. if text_eq token key then ok alice else err (codes "InvalidSignature");
  to_str = λ v. some v;
}

abbrev oidc : OidcConfig
oidc = record {
  issuer_url = codes "http://idp";
  audience = codes "iot-gateway";
  jwks_cache_secs = 300;
}

abbrev jwk : Text → Text → Jwk
jwk kind id = record { kty = kind; alg = none; kid = id; n = id; e = codes "AQAB" }

abbrev document : JwksDoc
document = record { keys = jwk (codes "EC") (codes "k2") ∷ jwk (codes "RSA") (codes "k1") ∷ [] }

abbrev online : ℕ → Moment
online t = record { now = t; fetch = λ url. ok document; stored = t }

abbrev offline : ℕ → Moment
offline t = record { now = t; fetch = λ url. err (codes "timeout"); stored = t }

-- One request before, which fills the cache.
abbrev before : List (Moment × Text)
before = (online 5, codes "k1") ∷ []

abbrev warm : Verifier jwts
warm = verify_all jwts (new_verifier jwts oidc) before

-- While the issuer is away, the cached key still serves.
let_through :
    (bearer_middleware jwts (some warm) (offline 7) (some (codes "Bearer k1")) true).1 ≡ ok true
unfolding bearer_middleware extract_bearer verify_all verify key_for refresh fresh_keys skipped
    new_verifier lookup insert strip_prefix text_eq
let_through = refl

bearer_middleware-Admitted_example : Admitted jwts warm (offline 7) (some (codes "Bearer k1"))
bearer_middleware-Admitted_example =
    bearer_middleware-Admitted jwts oidc before (offline 7) (some (codes "Bearer k1")) true true
      let_through

verify_outage_example :
    (verify jwts warm (offline 7) (codes "k2") ≡ (warm, err (jwks (codes "timeout"))))
    ⊎ (((verify jwts warm (offline 7) (codes "k2")).0 ≡ warm)
        × (verify jwts warm (online 7) (codes "k2") ≡ verify jwts warm (offline 7) (codes "k2")))
verify_outage_example =
    verify_outage jwts warm (offline 7) (λ url. ok document) (codes "k2") (codes "timeout") refl
