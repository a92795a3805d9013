-- ===== src/Url.antt =====
-- The addresses of services in cmd/vault-service/main.go and cmd/mcp-server/main.go. The package
-- `net/url` is a parameter.
use canterbury.Base.{Bool, not, ◌&&◌, ◌||◌, [], Bytes, codes, ◌=s=◌, if◌then◌else◌}
use canterbury.Strings.Trim.{is_empty, trim_space}
use canterbury.Errors.{Result, ok, err, message, ◌>>=◌}

-- The fields that are read; `has_user` tells that the user information is there.
pub record Url : Type 0 where
  pub scheme : Bytes
  pub host : Bytes
  pub has_user : Bool
  pub path : Bytes
  pub raw_query : Bytes
  pub fragment : Bytes

-- `url.Parse` and `URL.String`
pub record UrlLibrary : Type 0 where
  pub parse : Bytes → Result Url
  pub text : Url → Bytes

-- What both functions demand of an address.
unfoldable pub web_address : Url → Result Url
web_address parsed =
    if not (parsed.scheme =s= codes "http") && not (parsed.scheme =s= codes "https")
    then err (message "scheme must be http or https")
    else if is_empty parsed.host
    then err (message "host is required")
    else if parsed.has_user
    then err (message "user information is not allowed")
    else if not (is_empty parsed.raw_query) || not (is_empty parsed.fragment)
    then err (message "query and fragment are not allowed")
    else ok parsed

unfoldable pub normalize_base_url : UrlLibrary → Bytes → Result Bytes
normalize_base_url lib value = lib.parse (trim_space value) >>= λ parsed.
    web_address parsed >>= λ address.
    if not (is_empty address.path) && not (address.path =s= codes "/")
    then err (message "path must be empty")
    else ok (lib.text (record address { path = [] }))

unfoldable pub normalize_health_url : UrlLibrary → Bytes → Result Bytes
normalize_health_url lib value = lib.parse (trim_space value) >>= λ parsed.
    web_address parsed >>= λ address. ok (lib.text address)
