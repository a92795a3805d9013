-- ===== src/AuthJwt.antt =====
-- internal/adapters/authjwt: the verification of tokens. The JWT library and the fetching of the key
-- set are a parameter.
pub mod Laws
use canterbury.Base.{Bool, true, Option, none, some, List, [], ◌∷◌, Bytes, if◌then◌else◌}
use canterbury.Strings.Trim.{is_empty, trim_space}
use canterbury.Errors.{
  Error, Result, ok, err, message, sentinel, wrapping, unless, is, malformed_token,
  invalid_token_signature, expired_token, wrong_issuer, wrong_audience, principal_resolution_failed,
  jwt_malformed, jwt_signature_invalid, jwt_expired, jwt_invalid_issuer, jwt_invalid_audience,
  jwt_unverifiable, ◌>>=◌,
}
use canterbury.Time.{Time}
use canterbury.Context.{Context}
use canterbury.Auth.Authenticator.{TokenClaims, TokenRequirements}

-- The options that the parser is called with; `none` is an option that is not given.
pub record ParserOptions : Type 0 where
  pub valid_methods : List Bytes
  pub now : Time
  pub expiration_required : Bool
  pub issuer : Option Bytes
  pub audience : Option Bytes

-- The methods of the claims of a parsed token.
pub record JwtClaims : Type 0 where
  pub get_issuer : Result Bytes
  pub get_subject : Result Bytes
  pub get_audience : Result (List Bytes)
  pub get_expiration_time : Result (Option Time)

-- `keyfunc.NewDefaultOverrideCtx` for the address of a key set, and `jwt.Parse`.
pub record Jwt : Type 1 where
  pub KeyFunc : Type 0
  pub new_key_func : Context → Bytes → Result KeyFunc
  pub parse : KeyFunc → ParserOptions → Bytes → Result JwtClaims

-- An option that is given where the requirement is not blank.
unfoldable pub required : Bytes → Option Bytes
required requirement =
    let trimmed = trim_space requirement in if is_empty trimmed then none else some trimmed

unfoldable pub classify_token_error : Error → Error
classify_token_error e =
    if is e jwt_malformed
    then sentinel malformed_token
    else if is e jwt_signature_invalid
    then sentinel invalid_token_signature
    else if is e jwt_expired
    then sentinel expired_token
    else if is e jwt_invalid_issuer
    then sentinel wrong_issuer
    else if is e jwt_invalid_audience
    then sentinel wrong_audience
    else if is e jwt_unverifiable
    then sentinel principal_resolution_failed
    else sentinel malformed_token

-- An error of the library in the program's terms.
unfoldable pub classifying {ℓ} : {A : Type ℓ} → Result A → Result A
classifying (ok a) = ok a
classifying (err e) = err (classify_token_error e)

-- The zero time where the token has no expiry.
unfoldable pub expiry_or_zero : Option Time → Time
expiry_or_zero none = 0
expiry_or_zero (some t) = t

unfoldable pub claims_from : JwtClaims → Result TokenClaims
claims_from parsed = wrapping "extract issuer" parsed.get_issuer >>= λ issuer.
    wrapping "extract subject" parsed.get_subject >>= λ subject.
    wrapping "extract audience" parsed.get_audience >>= λ audiences.
    wrapping "extract expiration" parsed.get_expiration_time >>= λ expiration. ok (record {
      issuer = issuer;
      subject = subject;
      audiences = audiences;
      expires_at = expiry_or_zero expiration;
    })

-- The loop of `NewVerifier` over the methods.
unfoldable pub trim_methods : List Bytes → Result (List Bytes)
trim_methods [] = ok []
trim_methods (method ∷ allowed) =
    let trimmed = trim_space method in
    let rest = trim_methods allowed in
    if is_empty trimmed
    then err (message "method must not be blank")
    else rest >>= λ methods. ok (trimmed ∷ methods)

module _ (jwt : Jwt) where
  -- The clock is read by the parser, and gives `now`.
  pub record Verifier : Type 0 where
    pub now : Time
    pub methods : List Bytes
    pub key_func : jwt.KeyFunc

  unfoldable pub verifier_for : Time → Context → Bytes → List Bytes → Result Verifier
  verifier_for now ctx jwks_url [] = err (message "at least 1 method is required")
  verifier_for now ctx jwks_url (method ∷ methods) =
      wrapping "build JWKS key function" (jwt.new_key_func ctx jwks_url) >>= λ key_func.
      ok (record { now = now; methods = method ∷ methods; key_func = key_func })

  unfoldable pub new_verifier : Time → Context → Bytes → List Bytes → Result Verifier
  new_verifier now ctx jwks_url allowed_methods =
      let trimmed = trim_space jwks_url in
      if is_empty trimmed
      then err (message "jwks url must not be blank")
      else trim_methods allowed_methods >>= λ methods. verifier_for now ctx trimmed methods

  unfoldable pub parser_options : Verifier → TokenRequirements → ParserOptions
  parser_options v requirements = record {
    valid_methods = v.methods;
    now = v.now;
    expiration_required = true;
    issuer = required requirements.issuer;
    audience = required requirements.audience;
  }

  unfoldable pub verify_token : Verifier → Context → Bytes → TokenRequirements → Result TokenClaims
  verify_token v ctx token requirements = unless ctx.cancelled (
      classifying (jwt.parse v.key_func (parser_options v requirements) token) >>= λ parsed.
      claims_from parsed)
