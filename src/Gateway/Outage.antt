-- ===== src/Gateway/Outage.antt =====
-- Requests while the issuer cannot be reached.
use iot_athome.Prelude.{
  ◌≡◌, refl, ap, ◌∙◌, ◌⊎◌, inl, inr, Bool, true, false, Option, some, none, Text, lookup, Result,
  ok, err,
}
use iot_athome.Gateway.{
  AuthError, jwks, JwksDoc, Tokens, Moment, Verifier, jwks_url, stored_keys, refresh, is_fresh,
  reread, cached, key_for, decoded, with_header, verify,
}
use iot_athome.Gateway.Keys.{decoded-state}

module _ (tk : Tokens) where
  cached_outage :
      (v : Verifier tk) (e : Text) (fresh : Bool) (o : Option tk.DecodingKey)
      (r s : Verifier tk × Result AuthError tk.DecodingKey)
      → r ≡ (v, err (jwks e))
      → (cached tk v fresh r o ≡ (v, err (jwks e)))
        ⊎ (((cached tk v fresh r o).0 ≡ v) × (cached tk v fresh s o ≡ cached tk v fresh r o))
  cached_outage v e true (some k) r s h = inr (refl, refl)
  cached_outage v e false (some k) r s h = inl h
  cached_outage v e true none r s h = inl h
  cached_outage v e false none r s h = inl h

  key_for_outage :
      (v : Verifier tk) (m : Moment) (other : Text → Result Text JwksDoc) (kid e : Text)
      → m.fetch (jwks_url tk v.cfg) ≡ err e
      → (key_for tk v m kid ≡ (v, err (jwks e)))
        ⊎ (((key_for tk v m kid).0 ≡ v)
            × (key_for tk v (record m { fetch = other }) kid ≡ key_for tk v m kid))
  unfolding key_for refresh
  key_for_outage v m other kid e h =
      cached_outage v e (is_fresh tk v.cfg m.now v.fetched_at) (lookup kid v.keys) _ _
        (ap (λ r. reread tk kid (stored_keys tk v m.stored r)) h)

  with_header_outage :
      (v : Verifier tk) (m : Moment) (other : Text → Result Text JwksDoc) (token e : Text)
      (r : Result Text (Option Text))
      → m.fetch (jwks_url tk v.cfg) ≡ err e
      → (with_header tk v m token r ≡ (v, err (jwks e)))
        ⊎ (((with_header tk v m token r).0 ≡ v)
            × (with_header tk v (record m { fetch = other }) token r ≡ with_header tk v m token r))
  with_header_outage v m other token e (err x) h = inr (refl, refl)
  with_header_outage v m other token e (ok none) h = inr (refl, refl)
  with_header_outage v m other token e (ok (some kid)) h = elim (key_for_outage v m other kid e h) [
    | inl failed ↦ inl (ap (decoded tk token) failed)
    | inr (kept, same) ↦
        inr (decoded-state tk token (key_for tk v m kid) ∙ kept, ap (decoded tk token) same)
  ]

  -- While the issuer's keys cannot be fetched, no request changes the verifier, and each is either
  -- answered with the failure of the fetch, or just as if the issuer could be reached, whatever it would
  -- have published.
  pub verify_outage :
      (v : Verifier tk) (m : Moment) (other : Text → Result Text JwksDoc) (token e : Text)
      → m.fetch (jwks_url tk v.cfg) ≡ err e
      → (verify tk v m token ≡ (v, err (jwks e)))
        ⊎ (((verify tk v m token).0 ≡ v)
            × (verify tk v (record m { fetch = other }) token ≡ verify tk v m token))
  unfolding verify
  verify_outage v m other token e h =
      with_header_outage v m other token e (tk.decode_header token) h
