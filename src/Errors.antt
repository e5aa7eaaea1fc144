-- ===== src/Errors.antt =====
-- backend/src/core/errors: what a function throws, as a value, and the answer that the error handler
-- makes of it.
use code_trace.Prelude.{ℕ, String, Bool, false, ◌≡◌, refl, Option, ◌==◌, text_eq}

-- An `AppError`; a `PrismaClientKnownRequestError` with its code; any other `Error`, with the
-- `status` that the Gemini client sets; and a thrown value that is no `Error`, as `String` shows it.
pub data Failure : Type 0 where
  app_error : ℕ → String → String → Failure
  known_request : String → String → Failure
  error : Option ℕ → String → Failure
  thrown : String → Failure

pub data Result (A : Type 0) : Type 0 where
  ok : A → Result A
  err : Failure → Result A

infixl 5 ◌>>=◌
abbrev pub ◌>>=◌ : {A B : Type 0} → Result A → (A → Result B) → Result B
ok a >>= k = k a
err e >>= k = err e

pub >>=-eq-ok :
    {A B : Type 0} (m : Result A) (k : A → Result B) {b : B}
    → (m >>= k) ≡ ok b
    → (a : A) × (m ≡ ok a) × (k a ≡ ok b)
>>=-eq-ok (ok a) k h = (a, refl, h)
>>=-eq-ok (err e) k h = absurd (cc h)

-- The static members of `AppError`.
abbrev pub bad_request : String → String → Failure
bad_request code message = app_error 400 code message

abbrev pub unauthorized : String → Failure
unauthorized message = app_error 401 "UNAUTHORIZED" message

abbrev pub forbidden : String → Failure
forbidden message = app_error 403 "FORBIDDEN" message

abbrev pub not_found : String → Failure
not_found message = app_error 404 "NOT_FOUND" message

abbrev pub conflict : String → String → Failure
conflict code message = app_error 409 code message

-- `err instanceof Error ? err.message : String(err)`
abbrev pub message_of : Failure → String
message_of (app_error _ _ message) = message
message_of (known_request _ message) = message
message_of (error _ message) = message
message_of (thrown shown) = shown

-- `err instanceof Prisma.PrismaClientKnownRequestError && err.code === "P2002"`
abbrev pub is_unique_violation : Failure → Bool
is_unique_violation (known_request code _) = code == "P2002"
is_unique_violation _ = false

pub record ErrorAnswer : Type 0 where
  pub status : ℕ
  pub code : String
  pub message : String

-- `errorHandler`
unfoldable pub error_handler : Failure → ErrorAnswer
error_handler (app_error status code message) = record {
  status = status;
  code = code;
  message = message;
}
error_handler (known_request _ message) = record {
  status = 500;
  code = "INTERNAL_ERROR";
  message = message;
}
error_handler (error _ message) = record {
  status = 500;
  code = "INTERNAL_ERROR";
  message = message;
}
error_handler (thrown _) = record {
  status = 500;
  code = "INTERNAL_ERROR";
  message = "Unknown error";
}

-- What `fetch` resolves to. `message` is that of the body, if the body is JSON and has one.
pub record Response (B : Type 0) : Type 0 where
  pub success : Bool
  pub status : ℕ
  pub status_text : String
  pub body : Result B
  pub message : Option String
