-- ===== src/Middlewares/Guards/Exact.antt =====
-- Whom each guard lets through.
use code_trace.Prelude.{
  ℕ, String, ◌≡◌, ◌≢◌, refl, sym, ◌∙◌, ap, ◌⊎◌, inl, inr, true, Option, none, some, List, [], ◌∷◌,
  ◌++◌, length, nat_eq, nat_eq_iff, Bool-cases, Option-cases, ◌==◌, text_eq, text_units_eq, Text,
  strip_prefix, arith,
}
use code_trace.Errors.{Result, ok, err, Failure, unauthorized, forbidden}
use code_trace.Auth.Sessions.{AccessTokenPayload}
use code_trace.Middlewares.Guards.{
  RequestUser, bearer, require_auth, require_operator, Crypto, same_secret, require_internal_auth,
  signature_of, verify_webhook_signature,
}

-- The guard passes with `a`, which fits, or fails with one of the failures and nothing fits.
abbrev pub Guards : {A : Type 0} → (A → Type 0) → (String → Failure) → Result A → Type 0
Guards {A} Fits refusal r =
    ((a : A) × (r ≡ ok a) × Fits a)
    ⊎ ((message : String) × (r ≡ err (refusal message)) × ((a : A) → ¬ Fits a))

pub strip_prefix-append : (prefix text : Text) → strip_prefix prefix (prefix ++ text) ≡ some text
strip_prefix-append [] text = refl
strip_prefix-append (c ∷ prefix) text = ground (arith, strip_prefix-append prefix text)

-- The user of the token behind "Bearer ".
abbrev pub IsUserOf : (Text → Option AccessTokenPayload) → Option Text → RequestUser → Type 0
IsUserOf verify header user =
    (token : Text) × (payload : AccessTokenPayload) × (header ≡ some (bearer ++ token))
    × (verify token ≡ some payload)
    × (user.id ≡ payload.user_id)
    × (user.session_id ≡ payload.session_id)

strip_prefix-eq-some :
    (prefix text rest : Text) → strip_prefix prefix text ≡ some rest → text ≡ prefix ++ rest
strip_prefix-eq-some [] text rest h = cc
strip_prefix-eq-some (c ∷ prefix) [] rest h = absurd (cc h)
strip_prefix-eq-some (c ∷ prefix) (d ∷ text) rest h =
    ground (arith, nat_eq_iff c d, strip_prefix-eq-some prefix text rest)

require_auth_lem :
    (verify : Text → Option AccessTokenPayload) (header : Option Text)
    → Guards (IsUserOf verify header) unauthorized (require_auth verify header)
unfolding require_auth
require_auth_lem verify none = inr (_, refl, λ user h. absurd (cc h.2))
require_auth_lem verify (some header) = elim (Option-cases (strip_prefix bearer header)) [
  | inl e ↦ inr ("Missing bearer token", rw e refl, λ user h. absurd (cc (e, stripped h.0 h.2)))
  | inr (token, e) ↦ elim (Option-cases (verify token)) [
    | inl f ↦ inr (
      "Invalid or expired token",
      rw (e, f) refl,
      λ user h. absurd (cc (e, f, h.3, stripped h.0 h.2)),
    )
    | inr (payload, f) ↦ inl (
      record { id = payload.user_id; session_id = payload.session_id },
      rw (e, f) refl,
      (token, payload, ap some (strip_prefix-eq-some bearer header token e), f, refl, refl),
    )
  ]
]
  where
    stripped :
        (token : Text)
        → ◌≡◌ {A = Option Text} (some header) (some (bearer ++ token))
        → strip_prefix bearer header ≡ some token
    stripped token e =
        let same : header ≡ bearer ++ token = cc e in rw same (strip_prefix-append bearer token)

abbrev pub IsOperator : Option String → Option RequestUser → Type 0
IsOperator operator_id user =
    (id : String) × (u : RequestUser) × (operator_id ≡ some id)
    × (user ≡ some u)
    × (id ≢ "")
    × (u.id ≡ id)

require_operator_lem :
    (operator_id : Option String) (user : Option RequestUser)
    → Guards (λ _. IsOperator operator_id user) forbidden (require_operator operator_id user)
unfolding require_operator
require_operator_lem none user = inr (_, refl, λ _ h. absurd (cc h.2))
require_operator_lem (some id) none = inr (_, refl, λ _ h. absurd (cc h.3))
require_operator_lem (some id) (some user) = elim (Bool-cases (id == "")) [
  | inl e ↦ inr (
    "Not authorized to view usage data",
    rw e refl,
    λ _ h. let same : id ≡ h.0 = cc h.2 in absurd (h.4 (sym same ∙ (text_eq.beq_iff id "").0 e)),
  )
  | inr e ↦ elim (Bool-cases (user.id == id)) [
    | inl f ↦ inl (
      tt,
      rw (e, f) refl,
      (
        id,
        user,
        refl,
        refl,
        λ blank. cc (e, (text_eq.beq_iff id "").1 blank),
        (text_eq.beq_iff user.id id).0 f,
      ),
    )
    | inr f ↦ inr (
      "Not authorized to view usage data",
      rw (e, f) refl,
      λ _ h.
          let same : id ≡ h.0 = cc h.2 in
          let user_same : user ≡ h.1 = cc h.3 in
          absurd
            (cc (f, (text_eq.beq_iff user.id id).1 (ap (λ u. u.id) user_same ∙ h.5 ∙ sym same))),
    )
  ]
]

module _ (crypto : Crypto) where
  open crypto use {bytes}

  same_secret_lem :
      (message : String) (provided expected : List ℕ)
      → ((same_secret crypto message provided expected ≡ ok tt) × (provided ≡ expected))
        ⊎ ((same_secret crypto message provided expected ≡ err (unauthorized message))
            × (provided ≢ expected))
  unfolding same_secret
  same_secret_lem message provided expected =
      elim (Bool-cases (nat_eq (length provided) (length expected))) [
        | inl e ↦
            let checked = crypto.timing_safe_equal_lem provided expected ((nat_eq_iff _ _).0 e) in
            elim (Bool-cases (provided == expected)) [
              | inl f ↦ inl (rw (e, checked, f) refl, (text_units_eq.beq_iff _ _).0 f)
              | inr f ↦ inr (rw (e, checked, f) refl, λ h. cc (f, (text_units_eq.beq_iff _ _).1 h))
            ]
        | inr e ↦ inr (rw e refl, λ h. cc (e, (nat_eq_iff _ _).1 (ap length h)))
      ]

  abbrev pub IsInternal : String → Option String → Type 0
  IsInternal secret header =
      (provided : String) × (header ≡ some provided)
      × (provided ≢ "")
      × (bytes provided ≡ bytes secret)

  require_internal_auth_lem :
      (secret : String) (header : Option String)
      → Guards
          (λ _. IsInternal secret header)
          unauthorized
          (require_internal_auth crypto secret header)
  unfolding require_internal_auth
  require_internal_auth_lem secret none = inr (_, refl, λ _ h. absurd (cc h.1))
  require_internal_auth_lem secret (some provided) = elim (Bool-cases (provided == "")) [
    | inl e ↦ inr ("Missing internal secret", rw e refl, λ _ h. absurd (blank h.0 h.1 h.2 e))
    | inr e ↦ elim (same_secret_lem "Invalid internal secret" (bytes provided) (bytes secret)) [
      | inl (passed, same) ↦
          inl (
            tt,
            rw e passed,
            (provided, refl, λ b. cc (e, (text_eq.beq_iff provided "").1 b), same),
          )
      | inr (failed, other) ↦ inr (
        "Invalid internal secret",
        rw e failed,
        λ _ h. let named : provided ≡ h.0 = cc h.1 in absurd (other (ap bytes named ∙ h.3)),
      )
    ]
  ]
    where
      blank :
          (p : String)
          → ◌≡◌ {A = Option String} (some provided) (some p)
          → p ≢ ""
          → (provided == "") ≡ true
          → ⊥
      blank p e filled b =
          let same : provided ≡ p = cc e in filled (sym same ∙ (text_eq.beq_iff provided "").0 b)

  abbrev pub IsSigned : String → Option String → Option (List ℕ) → Type 0
  IsSigned secret header body =
      (signature : String) × (raw_body : List ℕ) × (header ≡ some signature)
      × (body ≡ some raw_body)
      × (signature ≢ "")
      × (bytes signature ≡ bytes (signature_of crypto secret raw_body))

  verify_webhook_signature_lem :
      (secret : String) (header : Option String) (body : Option (List ℕ))
      → Guards
          (λ _. IsSigned secret header body)
          unauthorized
          (verify_webhook_signature crypto secret header body)
  unfolding verify_webhook_signature
  verify_webhook_signature_lem secret none body = inr (_, refl, λ _ h. absurd (cc h.2))
  verify_webhook_signature_lem secret (some s) none = inr (_, refl, λ _ h. absurd (cc h.3))
  verify_webhook_signature_lem secret (some s) (some raw) = elim (Bool-cases (s == "")) [
    | inl e ↦ inr (
      "Missing webhook signature",
      rw e refl,
      λ _ h. let same : s ≡ h.0 = cc h.2 in absurd (h.4 (sym same ∙ (text_eq.beq_iff s "").0 e)),
    )
    | inr e ↦
        elim (same_secret_lem "Invalid webhook signature" (bytes s)
          (bytes (signature_of crypto secret raw))) [
            | inl (passed, same) ↦ inl (
              tt,
              rw e passed,
              (s, raw, refl, refl, λ b. cc (e, (text_eq.beq_iff s "").1 b), same),
            )
            | inr (failed, other) ↦ inr (
              "Invalid webhook signature",
              rw e failed,
              λ _ h.
                  let same : s ≡ h.0 = cc h.2 in
                  let raw_same : raw ≡ h.1 = cc h.3 in
                  absurd (
                    other (
                      ap bytes same
                      ∙ h.5
                      ∙ ap (λ b. bytes (signature_of crypto secret b)) (sym raw_same))),
            )
          ]
  ]

  -- Each of the four guards passes exactly the requests that it is for: with a verified token behind "Bearer ",
  -- whose user and session it passes on; of the operator's user, if one is set; with the bytes of the internal
  -- secret; with the signature of the body as it was sent. All others get its failure, 401 or 403.
  pub guards_lem :
      (verify : Text → Option AccessTokenPayload) (authorization : Option Text)
      (operator_id : Option String) (user : Option RequestUser) (secret : String)
      (header : Option String) (body : Option (List ℕ))
      → Guards (IsUserOf verify authorization) unauthorized (require_auth verify authorization)
        × Guards (λ _. IsOperator operator_id user) forbidden (require_operator operator_id user)
        × Guards
            (λ _. IsInternal secret header)
            unauthorized
            (require_internal_auth crypto secret header)
        × Guards
            (λ _. IsSigned secret header body)
            unauthorized
            (verify_webhook_signature crypto secret header body)
  guards_lem verify authorization operator_id user secret header body = (
    require_auth_lem verify authorization,
    require_operator_lem operator_id user,
    require_internal_auth_lem secret header,
    verify_webhook_signature_lem secret header body,
  )
