-- ===== src/AuthJwt/Laws.antt =====
-- What internal/adapters/authjwt accepts, and how it names a refusal.
use canterbury.Base.{true, Option, none, Bytes, ◌≡◌, refl, subst, inl, inr, Option-cases}
use canterbury.Errors.{Result, ok, err, wrapping, wrapping-eq-ok, >>=-eq-ok, ok-inj, err≢ok}
use canterbury.Time.{Time}
use canterbury.Context.{Context}
use canterbury.Auth.Authenticator.{TokenClaims, TokenRequirements}
use canterbury.AuthJwt.{
  JwtClaims, Jwt, Verifier, required, classifying, expiry_or_zero, claims_from, parser_options,
  verify_token,
}

-- The claims are those of the parsed token.
pub record AreClaimsOf (parsed : JwtClaims) (claims : TokenClaims) : Type 0 where
  pub issuer : parsed.get_issuer ≡ ok claims.issuer
  pub subject : parsed.get_subject ≡ ok claims.subject
  pub audiences : parsed.get_audience ≡ ok claims.audiences
  pub expires_at :
      (expiration : Option Time) × (parsed.get_expiration_time ≡ ok expiration)
      × (claims.expires_at ≡ expiry_or_zero expiration)

claims_from-AreClaimsOf :
    (parsed : JwtClaims) {claims : TokenClaims}
    → claims_from parsed ≡ ok claims
    → AreClaimsOf parsed claims
unfolding claims_from
claims_from-AreClaimsOf parsed h =
    let (issuer, i, h1) = >>=-eq-ok (wrapping "extract issuer" parsed.get_issuer) _ h in
    let (subject, s, h2) = >>=-eq-ok (wrapping "extract subject" parsed.get_subject) _ h1 in
    let (audiences, a, h3) = >>=-eq-ok (wrapping "extract audience" parsed.get_audience) _ h2 in
    let (expiration, x, h4) =
      >>=-eq-ok (wrapping "extract expiration" parsed.get_expiration_time) _ h3 in
    subst (AreClaimsOf parsed) (ok-inj h4) (record {
      issuer = wrapping-eq-ok _ _ i;
      subject = wrapping-eq-ok _ _ s;
      audiences = wrapping-eq-ok _ _ a;
      expires_at = (expiration, wrapping-eq-ok _ _ x, refl);
    })

classifying-eq-ok {ℓ} : {A : Type ℓ} (m : Result A) {a : A} → classifying m ≡ ok a → m ≡ ok a
unfolding classifying
classifying-eq-ok (ok a) h = h
classifying-eq-ok (err e) h = absurd (err≢ok h)

module _ (jwt : Jwt) (v : Verifier jwt) (ctx : Context) (token : Bytes)
    (requirements : TokenRequirements) where
  -- The parser took the token under these demands.
  pub record IsVerified (claims : TokenClaims) : Type 0 where
    pub live : ctx.cancelled ≡ none
    pub parsed : JwtClaims
    pub accepted :
        jwt.parse v.key_func
          (record {
            valid_methods = v.methods;
            now = v.now;
            expiration_required = true;
            issuer = required requirements.issuer;
            audience = required requirements.audience;
          })
          token
        ≡ ok parsed
    pub claimed : AreClaimsOf parsed claims

  -- Claims are returned only of a token that the library accepts for the verifier's methods and
  -- keys, with an expiry, and for the issuer and the audience that are required where they are not
  -- blank; they are the claims of this token.
  pub verify_token-IsVerified :
      {claims : TokenClaims}
      → verify_token jwt v ctx token requirements ≡ ok claims
      → IsVerified claims
  unfolding verify_token parser_options
  verify_token-IsVerified h = elim (Option-cases ctx.cancelled) [
    | inr (e, late) ↦ absurd (err≢ok (rw (late, verify_token) at h))
    | inl live ↦
        let (parsed, e, h') =
          >>=-eq-ok (classifying (jwt.parse v.key_func (parser_options jwt v requirements) token)) _
            (rw (live, verify_token) at h) in
        record {
          live = live;
          parsed = parsed;
          accepted = classifying-eq-ok _ e;
          claimed = claims_from-AreClaimsOf parsed h';
        }
  ]
