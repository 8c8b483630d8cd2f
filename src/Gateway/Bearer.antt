-- ===== src/Gateway/Bearer.antt =====
-- Which requests pass.
use iot_athome.Prelude.{
  ◌≡◌, refl, ap, List, ◌++◌, Option, some, none, Text, codes, Result, ok, err, strip_prefix→append,
}
use iot_athome.Gateway.{
  OidcConfig, AuthError, Claims, Tokens, Moment, Verifier, new_verifier, verify, verify_all,
  bearer_of, extract_bearer, with_token, after_verify, bearer_middleware,
}
use iot_athome.Gateway.Keys.{Accepted, new_verifier-Backed, verify_all-Backed, verify-Accepted}

module _ (tk : Tokens) where
  -- The header is "Bearer " and a token that is accepted.
  pub record Admitted (v : Verifier tk) (m : Moment) (header : Option Text) : Type 0 where
    pub value : Text
    pub token : Text
    pub claims : Claims
    pub is_header : header ≡ some value
    pub is_bearer : tk.to_str value ≡ some (codes "Bearer " ++ token)
    pub accepted : Accepted tk v m token claims

  bearer_of-prefix :
      (o : Option Text) (token : Text)
      → bearer_of tk o ≡ some token
      → o ≡ some (codes "Bearer " ++ token)
  bearer_of-prefix none token h = cc
  bearer_of-prefix (some s) token h = ap some (strip_prefix→append (codes "Bearer ") s token h)

  extract_bearer-prefix :
      (header : Option Text) (token : Text)
      → extract_bearer tk header ≡ some token
      → (value : Text) × (header ≡ some value) × (tk.to_str value ≡ some (codes "Bearer " ++ token))
  unfolding extract_bearer
  extract_bearer-prefix none token h = cc
  extract_bearer-prefix (some value) token h =
      (value, refl, bearer_of-prefix (tk.to_str value) token h)

module _ (tk : Tokens) {Response : Type 0} where
  after_verify-ok :
      (next answer : Response) (r : Verifier tk × Result AuthError Claims)
      → (after_verify tk next r).1 ≡ ok answer
      → (claims : Claims) × (r.1 ≡ ok claims)
  after_verify-ok next answer (v, err e) h = cc
  after_verify-ok next answer (v, ok claims) h = (claims, refl)

  with_token-some :
      (v : Verifier tk) (m : Moment) (next answer : Response) (o : Option Text)
      → (with_token tk next v m o).1 ≡ ok answer
      → (token : Text) × (claims : Claims) × (o ≡ some token)
        × ((verify tk v m token).1 ≡ ok claims)
  with_token-some v m next answer none h = cc
  with_token-some v m next answer (some token) h =
      let (claims, e) = after_verify-ok next answer (verify tk v m token) h in
      (token, claims, refl, e)

  -- With an issuer configured, whatever requests came before, a request is let through only with the
  -- header "Bearer " and a token whose signature, audience and issuer jsonwebtoken accepts under an RS256
  -- key that the issuer published, in a document fetched during this request or within the cache's
  -- lifetime before it.
  pub bearer_middleware-Admitted :
      (cfg : OidcConfig) (before : List (Moment × Text)) (m : Moment) (header : Option Text)
      (next answer : Response)
      → (bearer_middleware tk (some (verify_all tk (new_verifier tk cfg) before)) m header next).1
        ≡ ok answer
      → Admitted tk (verify_all tk (new_verifier tk cfg) before) m header
  unfolding bearer_middleware
  bearer_middleware-Admitted cfg before m header next answer h =
      let v = verify_all tk (new_verifier tk cfg) before in
      let (text, said, has, fine) = with_token-some v m next answer (extract_bearer tk header) h in
      let (raw, is_raw, bearer) = extract_bearer-prefix tk header text has in
      record {
        value = raw;
        token = text;
        claims = said;
        is_header = is_raw;
        is_bearer = bearer;
        accepted =
            verify-Accepted tk v m text said
              (verify_all-Backed tk (new_verifier tk cfg) before (new_verifier-Backed tk cfg)) fine;
      }
