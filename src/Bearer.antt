-- ===== src/Bearer.antt =====
-- The bearer token of a request, in the MCP gateway (internal/interfaces/mcphttp/authorization.go
-- and metadata.go) and in the vault service (internal/interfaces/vaultrpc/auth_context.go), and
-- the trace identifier (internal/interfaces/vaultrpc/correlation.go). A header gives the values
-- of a name.
pub mod Trace
pub mod Forwarded
use canterbury.Base.{
  Bool, true, false, ◌||◌, not, Option, none, some, List, [], ◌∷◌, ◌++◌, Bytes, codes, ◌=s=◌,
  if◌then◌else◌,
}
use canterbury.Strings.Trim.{is_empty, trim_space}
use canterbury.Strings.Affix.{cut, contains_any}
use canterbury.Strings.Case.{equal_fold}
use canterbury.Errors.{
  Error, Result, ok, err, message, sentinel, multiple_headers, missing_bearer_token,
  malformed_authorization,
}

abbrev pub Header : Type 0
Header = Bytes → List Bytes

-- `http.Header.Get`
abbrev pub first_value : List Bytes → Bytes
first_value [] = []
first_value (value ∷ values) = value

-- `http.Header.Set`, for a name in the canonical form in which it is looked up
unfoldable pub set_header : Bytes → Bytes → Header → Header
set_header name value header other = if name =s= other then value ∷ [] else header other

abbrev pub authorization : Bytes
authorization = codes "Authorization"

abbrev pub blanks : Bytes
blanks = 0x20 ∷ 0x09 ∷ 0x0d ∷ 0x0a ∷ []

-- What both functions do with the one value, trimmed, each with its errors.
unfoldable pub token_part : Error → Bytes → Result Bytes
token_part bad_token rest =
    let token = trim_space rest in
    if is_empty token || contains_any token blanks then err bad_token else ok token

unfoldable pub scheme_and_token : Error → Error → Option (Bytes × Bytes) → Result Bytes
scheme_and_token bad_scheme bad_token none = err bad_scheme
scheme_and_token bad_scheme bad_token (some (scheme, rest)) =
    if not (equal_fold scheme (codes "Bearer")) then err bad_scheme else token_part bad_token rest

unfoldable pub parse_credentials : Error → Error → Bytes → Result Bytes
unfolding token_part scheme_and_token
parse_credentials bad_scheme bad_token value =
    scheme_and_token bad_scheme bad_token (cut b' ' value)

-- The gateway.
unfoldable pub gateway_value : List Bytes → Result Bytes
gateway_value [] = err (message "exactly one authorization header is required")
gateway_value (value ∷ []) =
    parse_credentials (message "authorization scheme must be bearer")
      (message "bearer token is malformed") (trim_space value)
gateway_value (value ∷ next ∷ values) = err (message "exactly one authorization header is required")

unfoldable pub bearer_token : Header → Result Bytes
unfolding gateway_value
bearer_token header = gateway_value (header authorization)

-- The vault service.
unfoldable pub service_value : List Bytes → Result Bytes
service_value [] = err (sentinel missing_bearer_token)
service_value (value ∷ []) =
    let trimmed = trim_space value in
    if is_empty trimmed
    then err (sentinel missing_bearer_token)
    else parse_credentials (sentinel malformed_authorization) (sentinel malformed_authorization)
        trimmed
service_value (value ∷ next ∷ values) = err (sentinel multiple_headers)

unfoldable pub bearer_token_from_header : Header → Result Bytes
unfolding service_value
bearer_token_from_header header = service_value (header authorization)

-- The header of the request that the gateway makes.
unfoldable pub forward_authorization : Bytes → Header → Header
forward_authorization token header = set_header authorization (codes "Bearer " ++ token) header
