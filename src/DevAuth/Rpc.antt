-- ===== src/DevAuth/Rpc.antt =====
-- internal/interfaces/devrpc: the minting of a token over RPC. What the protocol library makes of
-- an instant is a parameter.
pub mod Laws
use canterbury.Base.{
  ℕ, ◌*◌, ◌/◌, ◌-◌, ◌^◌, Option, none, some, List, [], Bytes, codes, ltb, if◌then◌else◌,
}
use canterbury.Base.Int.{ℤ, pos, negsuc}
use canterbury.Errors.{
  Error, Result, ok, err, message, sentinel, is, code_canceled, code_unknown, code_invalid_argument,
  code_deadline_exceeded, claims_without_subject, missing_audience, negative_ttl, large_ttl,
  canceled, deadline_exceeded, ◌>>=◌,
}
use canterbury.Time.{Time, second}
use canterbury.Context.{Context}
use canterbury.VaultRpc.Handlers.{refusal}
use canterbury.DevAuth.{Claims, MintOptions, Token}

pub record ClaimsMessage : Type 0 where
  pub subject : Bytes
  pub audiences : List Bytes

-- `none` is a nil message, whose getters give zero values.
pub record MintTokenRequest : Type 0 where
  pub claims : Option ClaimsMessage
  pub ttl_seconds : Option ℤ

pub record MintedToken (Timestamp : Type 0) : Type 0 where
  pub jwt : Bytes
  pub token_type : Bytes
  pub expires_at : Timestamp

abbrev pub AuthApplication : Type 0
AuthApplication = Context → Claims → MintOptions → Result Token

-- `none` is a nil application.
unfoldable pub new_dev_auth_service_handler : Option AuthApplication → Result AuthApplication
new_dev_auth_service_handler none = err (message "auth application service is required")
new_dev_auth_service_handler (some auth) = ok auth

abbrev pub max_int64 : ℕ
max_int64 = 2 ^ 63 - 1

-- The seconds whose nanoseconds an `int64` holds.
abbrev pub max_duration_seconds : ℕ
max_duration_seconds = max_int64 / second

abbrev get_ttl_seconds : Option ℤ → ℤ
get_ttl_seconds none = pos 0
get_ttl_seconds (some ttl) = ttl

options_of : ℤ → Result MintOptions
options_of (negsuc n) = err (sentinel negative_ttl)
options_of (pos n) =
    if ltb max_duration_seconds n
    then err (sentinel large_ttl)
    else ok (record { ttl = pos (n * second) })

unfoldable pub mint_options_from_proto : Option ℤ → Result MintOptions
unfolding options_of
mint_options_from_proto ttl_seconds = options_of (get_ttl_seconds ttl_seconds)

unfoldable pub claims_from_proto : Option ClaimsMessage → Claims
claims_from_proto none = record { subject = []; audiences = [] }
claims_from_proto (some claims) = record { subject = claims.subject; audiences = claims.audiences }

unfoldable pub mint_token_request_to_domain : MintTokenRequest → Result (Claims × MintOptions)
mint_token_request_to_domain req = mint_options_from_proto req.ttl_seconds >>= λ options.
    ok (claims_from_proto req.claims, options)

unfoldable pub classify_mint_token_error : Error → Error
classify_mint_token_error e =
    if is e claims_without_subject
    then refusal code_invalid_argument "subject is required"
    else if is e missing_audience
    then refusal code_invalid_argument "at least 1 audience is required"
    else if is e negative_ttl
    then refusal code_invalid_argument "ttl must not be negative"
    else if is e large_ttl
    then refusal code_invalid_argument "ttl is out of range"
    else if is e canceled
    then refusal code_canceled "request canceled"
    else if is e deadline_exceeded
    then refusal code_deadline_exceeded "deadline exceeded"
    else refusal code_unknown "an unknown error occurred"

module _ {Timestamp : Type 0} (new_timestamp : Time → Timestamp) where
  unfoldable pub minted_token_to_proto : Token → MintedToken Timestamp
  minted_token_to_proto token = record {
    jwt = token.jwt;
    token_type = codes "Bearer";
    expires_at = new_timestamp token.expires_at;
  }

  unfoldable pub mint_answer : Result Token → Result (MintedToken Timestamp)
  mint_answer (err e) = err (classify_mint_token_error e)
  mint_answer (ok token) = ok (minted_token_to_proto token)

  unfoldable pub mint_for :
      AuthApplication → Context → Result (Claims × MintOptions) → Result (MintedToken Timestamp)
  mint_for auth ctx (err e) = err (classify_mint_token_error e)
  mint_for auth ctx (ok (claims, options)) = mint_answer (auth ctx claims options)

  unfoldable pub handle_mint_token :
      AuthApplication → Context → MintTokenRequest → Result (MintedToken Timestamp)
  handle_mint_token auth ctx req = mint_for auth ctx (mint_token_request_to_domain req)
