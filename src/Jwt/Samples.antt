-- ===== src/Jwt/Samples.antt =====
-- Tokens of concrete keys.
use iot_athome.Prelude.{
  ◌≡◌, refl, ◌↔◌, [], ◌∷◌, ◌++◌, true, false, some, Text, codes, lacks, all, text_eq, split,
  get_elem?, Result, ok, err,
}
use iot_athome.Instances.{keys, keys_laws}
use iot_athome.Instances.Claims.{codec, codec_laws}
use iot_athome.Jwt.{
  UserAcl, JwtError, default_limits, user_claims, account_claims, issue_user_jwt, issue_account_jwt,
  verify_user_jwt, verify_account_jwt, sign_token, bad_signature, malformed, verified_payload,
  three_segments, format_creds_file, creds_lines,
}
use iot_athome.Jwt.Tokens.{
  IsSigned, verify_user_jwt_iff, verify-issue_user_jwt, verify-issue_account_jwt,
}
use iot_athome.Jwt.Lines.{split-format_creds_file}

abbrev acl : UserAcl
acl = record { allow_pub = codes "device.e.>" ∷ []; allow_sub = [] }

abbrev token_of : Result JwtError Text → Text
token_of (ok t) = t
token_of (err e) = []

-- The account signs for the user.
user_token : Text
unfolding issue_user_jwt sign_token
user_token = token_of (issue_user_jwt keys codec true (codes "U") (codes "e") acl 5 9 (codes "j"))

issued : issue_user_jwt keys codec true (codes "U") (codes "e") acl 5 9 (codes "j") ≡ ok user_token
unfolding issue_user_jwt sign_token user_token
issued = refl

account_token : Text
unfolding issue_account_jwt sign_token
account_token =
    token_of (issue_account_jwt keys codec true (codes "A") (codes "IOT") default_limits 5)

account_issued :
    issue_account_jwt keys codec true (codes "A") (codes "IOT") default_limits 5 ≡ ok account_token
unfolding issue_account_jwt sign_token account_token
account_issued = refl

verify-issue_user_jwt_example :
    verify_user_jwt keys codec true user_token
    ≡ ok (user_claims keys codec true (codes "U") (codes "e") acl 5 9 (codes "j"))
verify-issue_user_jwt_example =
    verify-issue_user_jwt keys codec keys_laws codec_laws true (codes "U") (codes "e") acl 5 9
      (codes "j") user_token issued

verify-issue_account_jwt_run :
    verify_account_jwt keys codec true account_token
    ≡ ok (account_claims keys codec true (codes "A") (codes "IOT") default_limits 5)
verify-issue_account_jwt_run =
    verify-issue_account_jwt keys codec keys_laws codec_laws true (codes "A") (codes "IOT")
      default_limits 5 account_token account_issued

-- Another key refuses the token, and so do a missing and an extra segment.
impostor : verify_user_jwt keys codec false user_token ≡ err bad_signature
unfolding verify_user_jwt verified_payload three_segments split user_token issue_user_jwt sign_token
    text_eq
impostor = refl

extra : verify_user_jwt keys codec true (codes "a.b.c.d") ≡ err (malformed (codes "extra segment"))
unfolding verify_user_jwt verified_payload three_segments split
extra = refl

short : verify_user_jwt keys codec true (codes "a.b") ≡ err (malformed (codes "missing signature"))
unfolding verify_user_jwt verified_payload three_segments split
short = refl

verify_user_jwt_iff_example :
    (verify_user_jwt keys codec true user_token
      ≡ ok (user_claims keys codec true (codes "U") (codes "e") acl 5 9 (codes "j")))
    ↔ ((payload : Text) × IsSigned keys codec true user_token payload
        × (codec.user_from_slice payload
            ≡ ok (user_claims keys codec true (codes "U") (codes "e") acl 5 9 (codes "j"))))
verify_user_jwt_iff_example =
    verify_user_jwt_iff keys codec true user_token
      (user_claims keys codec true (codes "U") (codes "e") acl 5 9 (codes "j"))

split-format_creds_file_run :
    (split b'\n' (format_creds_file (codes "a.b.c") (codes "SU"))
      ≡ creds_lines (codes "a.b.c") (codes "SU") ++ [] ∷ [])
    × (get_elem? (split b'\n' (format_creds_file (codes "a.b.c") (codes "SU"))) 1
        ≡ some (codes "a.b.c"))
    × (get_elem? (split b'\n' (format_creds_file (codes "a.b.c") (codes "SU"))) 9
        ≡ some (codes "SU"))
unfolding lacks all
split-format_creds_file_run = split-format_creds_file (codes "a.b.c") (codes "SU") refl refl
