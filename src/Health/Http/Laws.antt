-- ===== src/Health/Http/Laws.antt =====
-- The checker reads from the handler the status that the application gave.
use canterbury.Base.{
  ℕ, zero, suc, ◌≤◌, ◌+◌, if◌then◌else◌, false, none, [], ◌∷◌, Bytes, codes, ◌≡◌, ◌≢◌, refl, ap,
  sym, inl, inr, ◌∙◌, ◌↔◌, ◌=s=◌, arith, take, length, ltb,
}
use canterbury.Errors.{Error, Result, ok, err, wrap, Result-cases, unless-eq-ok, ok-inj}
use canterbury.Context.{Context}
use canterbury.Encoding.Json.{
  escape_byte, escape_rune, escape_from, print_string, print, print_members,
}
use canterbury.Strings.Utf8.{rune_size}
use canterbury.Health.{Status, status_unknown, status_serving, status_not_serving, HealthResult}
use canterbury.Health.{is_serving}
use canterbury.Health.Http.{
  max_health_response_bytes, HealthApplication, health_response_from_domain, marshal_response,
  classify_http_error, method_get, get_health, reply_for, serve_health, HttpChecker,
  domain_status_from_response, confirmed, status_of_body, limited, check_over_http,
}

-- A client whose requests reach the handler.
abbrev pub asking : HealthApplication → (Bytes → Result Bytes) → Context → HttpChecker
asking app unmarshal ctx = record {
  get = λ ctx'.
      let reply = serve_health app method_get ctx in
      ok (record { status_code = reply.code; body = ok reply.body });
  unmarshal = unmarshal;
}

-- Decoding undoes encoding.
abbrev pub Decodes : (Bytes → Result Bytes) → Type 0
Decodes unmarshal =
    (status : Status)
    → unmarshal (marshal_response (health_response_from_domain status))
      ≡ ok (health_response_from_domain status)

json_text : Status → Bytes
json_text status_not_serving = codes "{\"status\":\"NOT_SERVING\"}"
json_text status_serving = codes "{\"status\":\"SERVING\"}"
json_text status_unknown = codes "{\"status\":\"UNKNOWN\"}"

marshal-json_text :
    (status : Status) → marshal_response (health_response_from_domain status) ≡ json_text status
unfolding health_response_from_domain marshal_response json_text print print_members print_string
    escape_from escape_rune escape_byte rune_size
marshal-json_text status_not_serving = refl
marshal-json_text status_serving = refl
marshal-json_text status_unknown = refl

fits : (status : Status) → length (json_text status) ≤ max_health_response_bytes
unfolding json_text
fits status_not_serving = omega arith
fits status_serving = omega arith
fits status_unknown = omega arith

from_text :
    (status : Status) → domain_status_from_response (health_response_from_domain status) ≡ ok status
unfolding domain_status_from_response health_response_from_domain ◌=s=◌
from_text status_not_serving = refl
from_text status_serving = refl
from_text status_unknown = refl

fitting_code :
    (status : Status) → confirmed (if is_serving status then 200 else 503) status ≡ ok status
unfolding confirmed
fitting_code status_not_serving = refl
fitting_code status_serving = refl
fitting_code status_unknown = refl

take-whole : (n : ℕ) (xs : Bytes) → length xs ≤ n → take n xs ≡ xs
take-whole zero [] h = refl
take-whole zero (x ∷ xs) h = absurd (omega arith)
take-whole (suc n) [] h = refl
take-whole (suc n) (x ∷ xs) h = ap (◌∷◌ x) (take-whole n xs (omega arith))

sent : Status → Bytes
sent status = marshal_response (health_response_from_domain status)

short : (status : Status) → length (sent status) ≤ max_health_response_bytes
unfolding sent
short status = rw (marshal-json_text status) (fits status)

sent-fits : (status : Status) → ltb max_health_response_bytes (length (sent status)) ≡ false
sent-fits status = ground (arith, short status)

sent-whole : (status : Status) → take (max_health_response_bytes + 1) (sent status) ≡ sent status
sent-whole status =
    take-whole (max_health_response_bytes + 1) (sent status) (omega (arith, short status))

read_status :
    (checker : HttpChecker) (status : Status)
    → checker.unmarshal (sent status) ≡ ok (health_response_from_domain status)
    → status_of_body checker (if is_serving status then 200 else 503) (sent status) ≡ ok status
unfolding status_of_body sent
read_status checker status decodes =
    rw (sent-fits status, decodes, from_text status, fitting_code status)

-- Another code is no status.
refuse_code :
    (checker : HttpChecker) (code : ℕ) (body : Bytes) (status : Status)
    → code ≢ 200
    → code ≢ 503
    → status_of_body checker code body ≢ ok status
unfolding status_of_body confirmed
refuse_code checker code body status not_ok not_failing h = ground arith

failure_code : (e : Error) → ((classify_http_error e).0 ≢ 200) × ((classify_http_error e).0 ≢ 503)
unfolding classify_http_error
failure_code e = ground arith

module _ (app : HealthApplication) (unmarshal : Bytes → Result Bytes) (served ctx : Context) where
  answered :
      (result : HealthResult)
      → Decodes unmarshal
      → app served ≡ ok result
      → ctx.cancelled ≡ none
      → check_over_http (asking app unmarshal served) ctx ≡ ok result.status
  unfolding check_over_http serve_health reply_for get_health limited sent ◌=s=◌
  answered result decodes found live =
      rw (live, found, sent-whole result.status)
        (read_status _ result.status (decodes result.status))

  refused :
      (e : Error) (status : Status)
      → app served ≡ err e
      → check_over_http (asking app unmarshal served) ctx ≢ ok status
  unfolding check_over_http serve_health reply_for get_health limited ◌=s=◌
  refused e status failed h =
      let (a, b) = failure_code (wrap "check service health" e) in
      refuse_code _ _ _ status a b (unless-eq-ok ctx.cancelled _ (rw failed at h))

  -- The checker that asks the handler returns a status exactly when the application that is
  -- behind the handler answers with that status, where decoding undoes the encoding of the three
  -- statuses and the context of the check is not cancelled.
  pub check_over_http_iff :
      (status : Status)
      → Decodes unmarshal
      → ctx.cancelled ≡ none
      → (check_over_http (asking app unmarshal served) ctx ≡ ok status)
        ↔ ((result : HealthResult) × (app served ≡ ok result) × (result.status ≡ status))
  check_over_http_iff status decodes live = (
    (λ h. elim (Result-cases (app served)) [
      | inl (result, found) ↦ (result, found, ok-inj (sym (answered result decodes found live) ∙ h))
      | inr (e, failed) ↦ absurd (refused e status failed h)
    ]),
    λ (result, found, same). answered result decodes found live ∙ ap ok same,
  )
