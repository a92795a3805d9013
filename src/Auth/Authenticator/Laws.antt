-- ===== src/Auth/Authenticator/Laws.antt =====
-- Whom the authenticator lets through, and what it records of those whom it does not.
use canterbury.Base.{[], none, some, ◌≡◌, ◌≢◌, ◌↔◌, ◌∙◌, arith, Bytes, Option-cases, inl, inr}
use canterbury.Strings.Trim.{trim_space}
use canterbury.Errors.{>>=-eq-ok, wrapping-eq-ok, err≢ok, ok}
use canterbury.Context.{Context, Principal}
use canterbury.Auth.Hash.{hash_subject}
use canterbury.Auth.ScopeMapper.{find, lookup_scopes}
use canterbury.Auth.Authenticator.{
  Authenticator, TokenClaims, authenticate, token_requirements, resolve,
}

module _ (sha256 : Bytes → Bytes) where
  -- The caller that the claims of a token stand for, according to the mapping.
  pub record IsResolved (a : Authenticator) (claims : TokenClaims) (p : Principal) : Type 0 where
    pub issuer : p.issuer ≡ trim_space claims.issuer
    pub subject : p.subject ≡ trim_space claims.subject
    pub named : (p.issuer ≢ []) × (p.subject ≢ [])
    pub hash : p.subject_hash ≡ hash_subject sha256 p.issuer p.subject
    pub mapped :
        find a.scope_mapper.lookup (record { issuer = p.issuer; subject = p.subject })
        ≡ some p.scopes
    pub granted : p.scopes ≢ []
    pub checksum : p.mapping_checksum ≡ a.scope_mapper.source_checksum

  resolve-IsResolved :
      (a : Authenticator) (ctx : Context) (claims : TokenClaims) (p : Principal)
      → resolve sha256 a ctx claims ≡ ok p
      → IsResolved a claims p
  unfolding resolve lookup_scopes
  resolve-IsResolved a ctx claims p h = ground arith

  resolve_of_IsResolved :
      (a : Authenticator) (ctx : Context) (claims : TokenClaims) (p : Principal)
      → ctx.cancelled ≡ none
      → IsResolved a claims p
      → resolve sha256 a ctx claims ≡ ok p
  unfolding resolve lookup_scopes
  resolve_of_IsResolved a ctx claims p live r = ground arith

  authenticate-verified :
      (a : Authenticator) (ctx : Context) (token : Bytes) (p : Principal)
      → authenticate sha256 a ctx token ≡ ok p
      → (claims : TokenClaims) × (ctx.cancelled ≡ none)
        × (a.verifier ctx token (token_requirements a) ≡ ok claims)
        × (resolve sha256 a ctx claims ≡ ok p)
  unfolding authenticate
  authenticate-verified a ctx token p h = elim (Option-cases ctx.cancelled) [
    | inl live ↦
        let (claims, verified, resolved) = >>=-eq-ok _ _ (rw (live, authenticate) at h) in
        (claims, live, wrapping-eq-ok "verify token" _ verified, resolved)
    | inr (e, stopped) ↦ absurd (err≢ok (rw (stopped, authenticate) at h))
  ]

  verified-authenticate :
      (a : Authenticator) (ctx : Context) (token : Bytes) {claims : TokenClaims}
      → ctx.cancelled ≡ none
      → a.verifier ctx token (token_requirements a) ≡ ok claims
      → authenticate sha256 a ctx token ≡ resolve sha256 a ctx claims
  unfolding authenticate
  verified-authenticate a ctx token live verified = ground arith

  -- A principal is returned exactly when the request is live, the verifier accepts the token for
  -- the configured issuer and audience, and the mapping gives the claimed issuer and subject at
  -- least one scope; the principal carries these, and the checksum of the mapping.
  pub authenticate_iff :
      (a : Authenticator) (ctx : Context) (token : Bytes) (p : Principal)
      → (authenticate sha256 a ctx token ≡ ok p) ↔ (
          (claims : TokenClaims) × (ctx.cancelled ≡ none)
          × (a.verifier ctx token (record { issuer = a.issuer; audience = a.audience }) ≡ ok claims)
          × IsResolved a claims p)
  unfolding token_requirements
  authenticate_iff a ctx token p = (
    λ h.
        let (claims, live, verified, resolved) = authenticate-verified a ctx token p h in
        (claims, live, verified, resolve-IsResolved a ctx claims p resolved),
    λ w.
        let (claims, live, verified, r) = w in
        verified-authenticate a ctx token live verified
        ∙ resolve_of_IsResolved a ctx claims p live r,
  )
