-- ===== src/Middlewares/Guards.antt =====
-- auth.middleware.ts, operator.middleware.ts, internal-auth.middleware.ts and
-- webhook-signature.middleware.ts: a guard calls `next` with a failure, or passes the request on.
-- node:crypto, the UTF-8 bytes of a text and the check of a token are parameters.
pub mod Exact
mod Tests
use code_trace.Prelude.{
  ℕ, String, ◌≡◌, refl, sym, ◌∙◌, ap, ◌↔◌, Bool, true, false, not, ◌||◌, ◌&&◌, Option, none, some,
  List, [], length, nat_eq, nat_eq_iff, Bool-cases, Option-cases, inl, inr, ◌==◌, text_eq,
  text_units_eq, Text, codes, strip_prefix, if◌then◌else◌, arith, ◌+++◌,
}
use code_trace.Errors.{Result, ok, err, ◌>>=◌, unauthorized, forbidden}
use code_trace.Auth.Sessions.{AccessTokenPayload}

-- `req.user`
pub record RequestUser : Type 0 where
  pub id : String
  pub session_id : String

abbrev pub bearer : Text
bearer = codes "Bearer "

abbrev pub user_of : Option AccessTokenPayload → Result RequestUser
user_of none = err (unauthorized "Invalid or expired token")
user_of (some payload) = ok (record { id = payload.user_id; session_id = payload.session_id })

abbrev pub token_of : Option Text → Option Text
token_of none = none
token_of (some header) = strip_prefix bearer header

abbrev pub user_of_token : (Text → Option AccessTokenPayload) → Option Text → Result RequestUser
user_of_token verify none = err (unauthorized "Missing bearer token")
user_of_token verify (some token) = user_of (verify token)

-- The user that a request gets, from its header "authorization".
unfoldable pub require_auth : (Text → Option AccessTokenPayload) → Option Text → Result RequestUser
require_auth verify header = user_of_token verify (token_of header)

abbrev pub operator_or_refused : Bool → Result (Unit {0})
operator_or_refused true = ok tt
operator_or_refused false = err (forbidden "Not authorized to view usage data")

abbrev pub is_operator : Option String → Option RequestUser → Bool
is_operator (some operator_id) (some user) = not (operator_id == "") && user.id == operator_id
is_operator _ _ = false

-- `OPERATOR_USER_ID` and `req.user`
unfoldable pub require_operator : Option String → Option RequestUser → Result (Unit {0})
require_operator operator_id user = operator_or_refused (is_operator operator_id user)

-- `timingSafeEqual`, which throws if its arguments differ in length.
pub record Crypto : Type 0 where
  pub bytes : String → List ℕ
  pub hmac_sha256_hex : String → List ℕ → String
  pub timing_safe_equal : List ℕ → List ℕ → Result Bool
  pub timing_safe_equal_lem :
      (a b : List ℕ) → length a ≡ length b → timing_safe_equal a b ≡ ok (a == b)

module _ (crypto : Crypto) where
  open crypto use {bytes, hmac_sha256_hex, timing_safe_equal}

  abbrev pub pass_if : String → Bool → Result (Unit {0})
  pass_if message true = ok tt
  pass_if message false = err (unauthorized message)

  -- `a.length !== b.length || !timingSafeEqual(a, b)`
  unfoldable pub same_secret : String → List ℕ → List ℕ → Result (Unit {0})
  same_secret message provided expected =
      if nat_eq (length provided) (length expected)
      then (timing_safe_equal provided expected >>= λ same. pass_if message same)
      else err (unauthorized message)

  abbrev pub check_secret : String → String → Result (Unit {0})
  check_secret secret provided =
      if provided == ""
      then err (unauthorized "Missing internal secret")
      else same_secret "Invalid internal secret" (bytes provided) (bytes secret)

  -- `INTERNAL_API_SECRET` and the header "x-internal-secret"
  unfoldable pub require_internal_auth : String → Option String → Result (Unit {0})
  require_internal_auth secret none = err (unauthorized "Missing internal secret")
  require_internal_auth secret (some provided) = check_secret secret provided

  abbrev pub signature_of : String → List ℕ → String
  signature_of secret raw_body = "sha256=" +++ hmac_sha256_hex secret raw_body

  abbrev pub check_signature : String → String → List ℕ → Result (Unit {0})
  check_signature secret signature raw_body =
      if signature == ""
      then err (unauthorized "Missing webhook signature")
      else same_secret "Invalid webhook signature" (bytes signature)
          (bytes (signature_of secret raw_body))

  -- `GITHUB_WEBHOOK_SECRET`, the header "x-hub-signature-256" and the body as it was sent
  unfoldable pub verify_webhook_signature :
      String → Option String → Option (List ℕ) → Result (Unit {0})
  verify_webhook_signature secret (some signature) (some raw_body) =
      check_signature secret signature raw_body
  verify_webhook_signature secret _ _ = err (unauthorized "Missing webhook signature")
