-- ===== src/Health/Http.antt =====
-- Health over HTTP: the handler of internal/interfaces/healthhttp, and the checker of
-- internal/adapters/healthhttp that asks it. The HTTP client and the decoder of JSON are parameters.
pub mod Laws
use canterbury.Base.{
  ℕ, ◌*◌, ◌+◌, not, ◌&&◌, Option, none, some, List, [], ◌∷◌, ◌++◌, Bytes, codes, take, length, ltb,
  ◌==◌, ◌=s=◌, if◌then◌else◌,
}
use canterbury.Strings.Decimal.{itoa}
use canterbury.Errors.{
  Error, Result, ok, err, message, wrapping, unless, is, canceled, deadline_exceeded, ◌>>=◌,
}
use canterbury.Context.{Context}
use canterbury.Encoding.Json.{object, string, end, member, print}
use canterbury.Health.{
  Status, status_unknown, status_serving, status_not_serving, is_serving, HealthResult,
}

abbrev pub HealthApplication : Type 0
HealthApplication = Context → Result HealthResult

-- internal/protocol/healthhttp/response.go: the one field of a response is a text.
abbrev pub unknown_text : Bytes
unknown_text = codes "UNKNOWN"

abbrev pub serving_text : Bytes
serving_text = codes "SERVING"

abbrev pub not_serving_text : Bytes
not_serving_text = codes "NOT_SERVING"

unfoldable pub health_response_from_domain : Status → Bytes
health_response_from_domain status_not_serving = not_serving_text
health_response_from_domain status_serving = serving_text
health_response_from_domain status_unknown = unknown_text

unfoldable pub marshal_response : Bytes → Bytes
marshal_response status = print (object (member (codes "status") (string status) end))

-- What a handler writes: the code, the headers that it sets, and the body.
pub record Reply : Type 0 where
  pub code : ℕ
  pub headers : List (Bytes × Bytes)
  pub body : Bytes

-- `http.Error`
abbrev pub http_error : ℕ → Bytes → Reply
http_error code text = record {
  code = code;
  headers =
      (codes "Content-Type", codes "text/plain; charset=utf-8")
      ∷ (codes "X-Content-Type-Options", codes "nosniff")
      ∷ [];
  body = text ++ 0x0a ∷ [];
}

abbrev pub request_timeout : ℕ
request_timeout = 408

abbrev pub internal_server_error : ℕ
internal_server_error = 500

unfoldable pub classify_http_error : Error → ℕ × Bytes
classify_http_error e =
    if is e canceled
    then (request_timeout, codes "request canceled")
    else if is e deadline_exceeded
    then (request_timeout, codes "request timeout")
    else (internal_server_error, codes "internal server error")

abbrev pub method_get : Bytes
method_get = codes "GET"

abbrev pub method_head : Bytes
method_head = codes "HEAD"

unfoldable pub get_health : HealthApplication → Context → Result (Status × Bytes)
get_health app ctx = wrapping "check service health" (app ctx) >>= λ result.
    ok (result.status, health_response_from_domain result.status)

-- The body is not written for a HEAD request.
unfoldable pub reply_for : Bytes → Result (Status × Bytes) → Reply
reply_for method (err e) = let (code, text) = classify_http_error e in http_error code text
reply_for method (ok (status, response)) =
    let json = marshal_response response in
    record {
      code = if is_serving status then 200 else 503;
      headers =
          (codes "Content-Type", codes "application/json")
          ∷ (codes "Cache-Control", codes "no-store")
          ∷ (codes "Content-Length", itoa (length json))
          ∷ [];
      body = if method =s= method_head then [] else json;
    }

unfoldable pub method_not_allowed : Reply
method_not_allowed =
    let reply = http_error 405 (codes "method not allowed") in
    record reply { headers = (codes "Allow", codes "GET, HEAD") ∷ reply.headers }

unfoldable pub serve_health : HealthApplication → Bytes → Context → Reply
serve_health app method ctx =
    if not (method =s= method_get) && not (method =s= method_head)
    then method_not_allowed
    else reply_for method (get_health app ctx)

-- `NewHandler`: two endpoints, each with its application; `none` is a nil one.
pub record HealthHandler : Type 0 where
  pub live : HealthApplication
  pub ready : HealthApplication

unfoldable pub new_health_handler :
    Option HealthApplication → Option HealthApplication → Result HealthHandler
new_health_handler none ready =
    wrapping "initialize handler for live check"
      (err (message "health application service is required"))
new_health_handler (some live) none =
    wrapping "initialize handler for ready check"
      (err (message "health application service is required"))
new_health_handler (some live) (some ready) = ok (record { live = live; ready = ready })

abbrev pub max_health_response_bytes : ℕ
max_health_response_bytes = 4 * 1024

-- A response of the client, whose body may fail to be read.
pub record HttpResponse : Type 0 where
  pub status_code : ℕ
  pub body : Result Bytes

-- `url`, the request that `client.Do` sends to it, and what `json.Unmarshal` reads as the status.
pub record HttpChecker : Type 0 where
  pub get : Context → Result HttpResponse
  pub unmarshal : Bytes → Result Bytes

unfoldable pub domain_status_from_response : Bytes → Result Status
domain_status_from_response text =
    if text =s= not_serving_text
    then ok status_not_serving
    else if text =s= serving_text
    then ok status_serving
    else if text =s= unknown_text
    then ok status_unknown
    else err (message "unknown health status")

-- The code must fit the status.
unfoldable pub confirmed : ℕ → Status → Result Status
confirmed code status =
    if code == 200
    then (if is_serving status
        then ok status
        else err (message "HTTP 200 response has health status"))
    else if code == 503
    then (if is_serving status
        then err (message "HTTP 503 response has serving health status")
        else ok status)
    else err (message "unexpected HTTP status")

unfoldable pub status_of_body : HttpChecker → ℕ → Bytes → Result Status
status_of_body checker code body =
    if ltb max_health_response_bytes (length body)
    then err (message "health response exceeds bytes")
    else wrapping "unmarshal health status body" (checker.unmarshal body) >>= λ text.
        wrapping "determine service status" (domain_status_from_response text) >>= λ status.
        confirmed code status

-- At most one byte more than the limit is read of a body.
unfoldable pub limited : Result Bytes → Result Bytes
limited (err e) = err e
limited (ok body) = ok (take (max_health_response_bytes + 1) body)

unfoldable pub check_over_http : HttpChecker → Context → Result Status
check_over_http checker ctx = unless ctx.cancelled (
    wrapping "get health over http" (checker.get ctx) >>= λ response.
    wrapping "read health status body" (limited response.body) >>= λ body.
    status_of_body checker response.status_code body)
