-- ===== src/DevAuth/Rpc/Laws.antt =====
-- The tokens that are minted over RPC, and the key set over HTTP.
use canterbury.Base.{
  ℕ, ◌*◌, ◌+◌, ◌<◌, ◌≤◌, ◌^◌, ◌≡◌, ◌↔◌, refl, sym, ap, ◌∙◌, arith, Bool, some, [], ◌∷◌, Bytes,
  Bool-cases, ltb, ltb→lt, map, inl, inr, subst,
}
use canterbury.Base.Int.{ℤ, pos_part, pos, negsuc}
use canterbury.Strings.Trim.{trim_space}
use canterbury.Errors.{Result, ok, err, ok-inj, err≢ok, Result-cases}
use canterbury.Time.{Time, second}
use canterbury.Context.{Context}
use canterbury.Encoding.Base64.{raw_url_encode}
use canterbury.DevAuth.{Claims, MintOptions, Token, DevAuthService, max_ttl, mint_token}
use canterbury.DevAuth.Laws.{mint_token-IsMinted}
use canterbury.DevAuth.Jwt.{
  Ed25519, JwtMinter, VerificationKey, minter_verification_key, new_minter, mint_jwt,
}
use canterbury.DevAuth.Jwt.Laws.{Verifies, IsSigned, mint_jwt-IsSigned}
use canterbury.DevAuth.Keys.{Key, KeySet, set_ed25519_key, verification_key_to_jwk, get_key_set}
use canterbury.DevAuth.Rpc.{
  MintTokenRequest, MintedToken, mint_options_from_proto, claims_from_proto,
  mint_token_request_to_domain, mint_answer, mint_for, handle_mint_token, minted_token_to_proto,
  max_duration_seconds,
}

-- A lifetime in seconds is accepted exactly when it is neither negative nor so large that its
-- number of nanoseconds is out of the range of an `int64`; it is then that number. An absent one
-- is zero.
pub mint_options_from_proto_iff :
    (ttl : ℤ) (options : MintOptions)
    → (mint_options_from_proto (some ttl) ≡ ok options)
      ↔ ((n : ℕ) × (ttl ≡ pos n) × (n * second < 2 ^ 63) × (options.ttl ≡ pos (n * second)))
unfolding mint_options_from_proto
mint_options_from_proto_iff (negsuc k) options =
    ((λ h. absurd (err≢ok h)), λ (n, e, small, ttl). cc)
mint_options_from_proto_iff (pos k) options = elim (Bool-cases (ltb max_duration_seconds k)) [
  | inl large ↦ rw large (
    (λ h. absurd (err≢ok h)),
    λ (n, e, small, ttl).
        absurd (omega (arith, ltb→lt max_duration_seconds k large, ap pos_part e, small)),
  )
  | inr fits ↦ rw fits (
    (λ h. (k, refl, ground (arith, fits), ap (λ (o : MintOptions). o.ttl) (sym (ok-inj h)))),
    λ (n, e, small, ttl). cc,
  )
]

-- A key set that is served has one key, the public key of the store.
get_key_set-ok :
    (key : VerificationKey) (ctx : Context) {jwks : KeySet}
    → get_key_set key ctx ≡ ok jwks
    → (jwk : Key) × (jwks ≡ jwk ∷ []) × (jwk.kid ≡ key.id) × (jwk.x ≡ raw_url_encode key.public_key)
unfolding get_key_set verification_key_to_jwk set_ed25519_key
get_key_set-ok key ctx h = ground arith

-- The answer is the message of a token of the application.
handled :
    {Timestamp : Type 0} (new_timestamp : Time → Timestamp) (m : Result Token)
    {answer : MintedToken Timestamp}
    → mint_answer new_timestamp m ≡ ok answer
    → (token : Token) × (m ≡ ok token)
      × (answer.jwt ≡ token.jwt)
      × (answer.expires_at ≡ new_timestamp token.expires_at)
unfolding mint_answer minted_token_to_proto
handled {Timestamp} new_timestamp (err e) h = absurd (err≢ok h)
handled {Timestamp} new_timestamp (ok token) h =
    let same = ok-inj (sym h) in
    (
      token,
      refl,
      ap (λ (m : MintedToken Timestamp). m.jwt) same,
      ap (λ (m : MintedToken Timestamp). m.expires_at) same,
    )

-- The service with a minter, as cmd/dev-auth makes it.
abbrev pub service_with : Ed25519 → Time → JwtMinter → DevAuthService
service_with ed25519 now minter = record { minter = mint_jwt ed25519 minter; now = now }

module _ {Timestamp : Type 0} (new_timestamp : Time → Timestamp) (sha256 : Bytes → Bytes)
    (ed25519 : Ed25519) (verify : Bytes → Bytes → Bytes → Bool) (issuer : Bytes) (now : Time) where
  abbrev trimmed_claims : MintTokenRequest → Claims
  trimmed_claims req = record {
    subject = trim_space (claims_from_proto req.claims).subject;
    audiences = map trim_space (claims_from_proto req.claims).audiences;
  }

  -- A token for a request, and the key with which it verifies.
  pub record IsVerifiable (minter : JwtMinter) (req : MintTokenRequest)
      (answer : MintedToken Timestamp) (jwks : KeySet) : Type 0 where
    pub public_key : Bytes
    pub jwk : Key
    pub expires_at : Time
    pub published : jwks ≡ jwk ∷ []
    pub encoded : jwk.x ≡ raw_url_encode public_key
    pub later : now < expires_at
    pub soon : expires_at ≤ now + max_ttl
    pub announced : answer.expires_at ≡ new_timestamp expires_at
    pub signed :
        IsSigned verify
          (trim_space issuer)
          jwk.kid
          public_key
          (trimmed_claims req)
          now
          expires_at
          answer.jwt

  -- A token that is minted over RPC is signed for the claims of the request without the white space
  -- around them; it expires after now and within an hour, when the answer says, and it verifies with
  -- the one key of the key set that is served over HTTP, which the token's header names. The
  -- signatures of a pair of keys verify.
  pub handle_mint_token-IsVerifiable :
      {minter : JwtMinter} (ctx ctx' : Context) (req : MintTokenRequest)
      {answer : MintedToken Timestamp} {jwks : KeySet}
      → Verifies ed25519 verify
      → new_minter sha256 ed25519 issuer ≡ ok minter
      → handle_mint_token new_timestamp (mint_token (service_with ed25519 now minter)) ctx req
        ≡ ok answer
      → get_key_set (minter_verification_key minter) ctx' ≡ ok jwks
      → IsVerifiable minter req answer jwks
  unfolding handle_mint_token mint_for mint_token_request_to_domain minter_verification_key
  handle_mint_token-IsVerifiable {minter} ctx ctx' req {answer} verifies made h served =
      elim (Result-cases (mint_options_from_proto req.ttl_seconds)) [
        | inr (e, bad) ↦ absurd (err≢ok (rw bad at h))
        | inl (options, fine) ↦
            let claims = claims_from_proto req.claims in
            let (token, minted, jwt, announced) =
              handled new_timestamp
                (mint_token (service_with ed25519 now minter) ctx claims options) (rw fine at h) in
            let m =
              mint_token-IsMinted (service_with ed25519 now minter) ctx claims options minted in
            let (signed, expiry) =
              mint_jwt-IsSigned sha256 ed25519 verify issuer ctx (trimmed_claims req) now
                m.expires_at verifies made m.minted in
            let (jwk, published, kid, x) =
              get_key_set-ok (minter_verification_key minter) ctx' served in
            record {
              public_key = minter.public_key;
              jwk = jwk;
              expires_at = m.expires_at;
              published = published;
              encoded = x;
              later = m.later;
              soon = m.soon;
              announced = announced ∙ ap new_timestamp expiry;
              signed =
                  subst
                    (λ key_id.
                      IsSigned verify (trim_space issuer) key_id minter.public_key
                        (trimmed_claims req) now m.expires_at answer.jwt)
                    (sym kid)
                    (subst
                      (λ text.
                        IsSigned verify (trim_space issuer) minter.key_id minter.public_key
                          (trimmed_claims req) now m.expires_at text)
                      (sym jwt) signed);
            }
      ]
