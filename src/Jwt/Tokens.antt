-- ===== src/Jwt/Tokens.antt =====
-- Tokens that are issued against tokens that are accepted.
use mathlib.Core.List.{append_assoc}
use iot_athome.Prelude.{
  ℕ, ◌≡◌, refl, sym, ◌↔◌, inl, inr, List, [], ◌∷◌, ◌++◌, true, Bool-cases, Result-cases, Text,
  split, split-append, split-token, lacks, Result, ok, err, arith,
}
use iot_athome.Jwt.{
  Nkeys, Codec, NkeysLaws, CodecLaws, UserAcl, UserClaims, AccountLimits, json, base64, map_err,
  header, user_claims, account_claims, three_segments, sign_token, verified_payload, issue_user_jwt,
  issue_account_jwt, verify_user_jwt, verify_account_jwt,
}

three_segments-split :
    (h p s : Text)
    → lacks b'.' h ≡ true
    → lacks b'.' p ≡ true
    → lacks b'.' s ≡ true
    → three_segments (split b'.' ((h ++ b'.' ∷ p) ++ b'.' ∷ s)) ≡ ok (h, p, s)
unfolding three_segments
three_segments-split h p s lh lp ls = rw (append_assoc h (b'.' ∷ p) (b'.' ∷ s)) (
    rw (split-append b'.' h (p ++ b'.' ∷ s) lh)
      (rw (split-append b'.' p s lp) (rw (split-token b'.' s ls) refl)))

map_err-ok {ℓ} :
    {A : Type ℓ} {E F : Type 0} (f : E → F) (r : Result E A) (a : A) → map_err f r ≡ ok a → r ≡ ok a
map_err-ok f (ok b) a h = cc
map_err-ok f (err e) a h = cc

three_segments-shape :
    (segs : List Text) (h p s : Text) → three_segments segs ≡ ok (h, p, s) → segs ≡ h ∷ p ∷ s ∷ []
unfolding three_segments
three_segments-shape [] h p s e = cc
three_segments-shape (a ∷ []) h p s e = cc
three_segments-shape (a ∷ b ∷ []) h p s e = cc
three_segments-shape (a ∷ b ∷ c ∷ []) h p s e = cc
three_segments-shape (a ∷ b ∷ c ∷ d ∷ segs) h p s e = cc

-- Three segments of which the last is a signature over the first two.
pub record IsSigned {Key : Type 0} (keys : Nkeys Key) (codec : Codec) (k : Key)
    (token payload : Text) : Type 0 where
  pub header_b64 : Text
  pub payload_b64 : Text
  pub sig_b64 : Text
  pub sig : Text
  pub segments : split b'.' token ≡ header_b64 ∷ payload_b64 ∷ sig_b64 ∷ []
  pub sig_bytes : codec.b64_decode sig_b64 ≡ ok sig
  pub verified : keys.verify k (header_b64 ++ b'.' ∷ payload_b64) sig ≡ true
  pub payload_bytes : codec.b64_decode payload_b64 ≡ ok payload

module _ {Key : Type 0} (keys : Nkeys Key) (codec : Codec) where
  verified_payload-IsSigned :
      (k : Key) (token payload : Text)
      → verified_payload keys codec k token ≡ ok payload
      → IsSigned keys codec k token payload
  unfolding verified_payload three_segments
  verified_payload-IsSigned k token payload h =
      elim (Result-cases (three_segments (split b'.' token))) [
        | inr (e, bad) ↦ ground (arith, h, bad)
        | inl ((head, body, sig_b64), segs) ↦ elim (Result-cases (codec.b64_decode sig_b64)) [
          | inr (e, bad) ↦ ground (arith, h, segs, bad)
          | inl (sig, sig_ok) ↦ elim (Bool-cases (keys.verify k (head ++ b'.' ∷ body) sig)) [
            | inr bad ↦ ground (arith, h, segs, sig_ok, bad)
            | inl good ↦ record {
              header_b64 = head;
              payload_b64 = body;
              sig_b64 = sig_b64;
              sig = sig;
              segments = three_segments-shape (split b'.' token) head body sig_b64 segs;
              sig_bytes = sig_ok;
              verified = good;
              payload_bytes =
                  map_err-ok base64 (codec.b64_decode body) payload
                    (ground (arith, h, segs, sig_ok, good));
            }
          ]
        ]
      ]

  IsSigned-verified_payload :
      (k : Key) (token payload : Text)
      → IsSigned keys codec k token payload
      → verified_payload keys codec k token ≡ ok payload
  unfolding verified_payload three_segments
  IsSigned-verified_payload k token payload s =
      rw (s.segments) (rw (s.sig_bytes, s.verified, s.payload_bytes) refl)

  -- A user token is accepted, with claims `c`, exactly if it has three segments of which the last
  -- decodes to a signature over the first two that verifies under the given key, and the second
  -- decodes to bytes that read as `c`. The header and the expiry have no say.
  pub verify_user_jwt_iff :
      (k : Key) (token : Text) (c : UserClaims)
      → (verify_user_jwt keys codec k token ≡ ok c) ↔ (
          (payload : Text) × IsSigned keys codec k token payload
          × (codec.user_from_slice payload ≡ ok c))
  unfolding verify_user_jwt
  verify_user_jwt_iff k token c = (
    λ h. elim (Result-cases (verified_payload keys codec k token)) [
      | inr (e, bad) ↦ ground (arith, h, bad)
      | inl (payload, good) ↦ (
        payload,
        verified_payload-IsSigned k token payload good,
        map_err-ok json (codec.user_from_slice payload) c (ground (arith, h, good)),
      )
    ],
    λ (payload, s, e). rw (IsSigned-verified_payload k token payload s) (rw e refl),
  )

  module _ (kl : NkeysLaws keys) (cl : CodecLaws codec) where
    verified_payload-sign_token :
        (k : Key) (payload token : Text)
        → sign_token keys codec k payload ≡ ok token
        → verified_payload keys codec k token ≡ ok payload
    unfolding sign_token verified_payload
    verified_payload-sign_token k payload token h =
        let input = codec.b64_encode header ++ b'.' ∷ codec.b64_encode payload in
        elim (Result-cases (keys.sign k input)) [
          | inr (e, bad) ↦ ground (arith, h, bad)
          | inl (sig, signed) ↦
              let e : input ++ b'.' ∷ codec.b64_encode sig ≡ token = ground (arith, h, signed) in
              rw (sym e) (
                rw
                  (three_segments-split (codec.b64_encode header) (codec.b64_encode payload)
                    (codec.b64_encode sig) (cl.encode-lacks header) (cl.encode-lacks payload)
                    (cl.encode-lacks sig))
                  (rw
                    (
                      cl.decode-encode sig,
                      kl.verify-sign k input sig signed,
                      cl.decode-encode payload,
                    )
                    refl))
        ]

    -- A user token that `issue_user_jwt` makes is accepted under the key that signed it, and the
    -- claims that come back are the key's public name, the subject, the times, the id, the name and
    -- the two allow-lists that went in.
    pub verify-issue_user_jwt :
        (k : Key) (subject name : Text) (acl : UserAcl) (iat exp : ℕ) (jti token : Text)
        → issue_user_jwt keys codec k subject name acl iat exp jti ≡ ok token
        → verify_user_jwt keys codec k token
          ≡ ok (user_claims keys codec k subject name acl iat exp jti)
    unfolding issue_user_jwt verify_user_jwt
    verify-issue_user_jwt k subject name acl iat exp jti token h =
        let c = user_claims keys codec k subject name acl iat exp jti in
        elim (Result-cases (codec.user_to_vec c)) [
          | inr (e, bad) ↦ ground (arith, h, bad)
          | inl (payload, made) ↦
              rw (verified_payload-sign_token k payload token (ground (arith, h, made)))
                (rw (cl.from_slice-to_vec_user c payload made) refl)
        ]

    -- The account tokens likewise, with their limits.
    pub verify-issue_account_jwt :
        (k : Key) (subject name : Text) (limits : AccountLimits) (iat : ℕ) (token : Text)
        → issue_account_jwt keys codec k subject name limits iat ≡ ok token
        → verify_account_jwt keys codec k token
          ≡ ok (account_claims keys codec k subject name limits iat)
    unfolding issue_account_jwt verify_account_jwt
    verify-issue_account_jwt k subject name limits iat token h =
        let c = account_claims keys codec k subject name limits iat in
        elim (Result-cases (codec.account_to_vec c)) [
          | inr (e, bad) ↦ ground (arith, h, bad)
          | inl (payload, made) ↦
              rw (verified_payload-sign_token k payload token (ground (arith, h, made)))
                (rw (cl.from_slice-to_vec_account c payload made) refl)
        ]
