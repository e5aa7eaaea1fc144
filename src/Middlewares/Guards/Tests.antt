-- ===== src/Middlewares/Guards/Tests.antt =====
-- A hash that is its text, and one token.
use code_trace.Prelude.{◌≡◌, refl, Option, some, [], ◌∷◌, Text, text_units_eq, ◌==◌, codes}
use code_trace.Errors.{ok, unauthorized, forbidden}
use code_trace.Auth.Sessions.{AccessTokenPayload}
use code_trace.Middlewares.Guards.{
  RequestUser, Crypto, require_auth, require_operator, require_internal_auth,
  verify_webhook_signature, same_secret,
}
use code_trace.Middlewares.Guards.Exact.{
  Guards, IsUserOf, IsOperator, IsInternal, IsSigned, guards_lem,
}

abbrev crypto : Crypto
crypto = record {
  bytes = codes;
  hmac_sha256_hex = λ secret body. secret;
  timing_safe_equal = λ a b. ok (a == b);
  timing_safe_equal_lem = λ a b same. refl;
}

abbrev verify : Text → Option AccessTokenPayload
verify token = some (record { user_id = "ann"; session_id = "s" })

abbrev ann : RequestUser
ann = record { id = "ann"; session_id = "s" }

accepted : verify_webhook_signature crypto "k" (some "sha256=k") (some (1 ∷ [])) ≡ ok tt
unfolding verify_webhook_signature same_secret
accepted = refl

guards_lem_example :
    Guards
      (IsUserOf verify (some (codes "Bearer t")))
      unauthorized
      (require_auth verify (some (codes "Bearer t")))
    × Guards
        (λ _. IsOperator (some "ann") (some ann))
        forbidden
        (require_operator (some "ann") (some ann))
    × Guards
        (λ _. IsInternal crypto "k" (some "k"))
        unauthorized
        (require_internal_auth crypto "k" (some "k"))
    × Guards
        (λ _. IsSigned crypto "k" (some "k") (some (1 ∷ [])))
        unauthorized
        (verify_webhook_signature crypto "k" (some "k") (some (1 ∷ [])))
guards_lem_example =
    guards_lem crypto verify (some (codes "Bearer t")) (some "ann") (some ann) "k" (some "k")
      (some (1 ∷ []))
