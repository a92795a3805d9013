-- ===== src/DevAuth/Laws.antt =====
-- The token that is minted.
use canterbury.Base.{
  suc, ◌+◌, ◌≤◌, ◌<◌, ◌||◌, not, List, [], ◌∷◌, ◌≡◌, ◌≢◌, refl, ap, subst, arith, Bytes, All,
  length, map, Bool-cases, inl, inr, ltb, ◌==◌,
}
use canterbury.Base.Int.{pos, negsuc}
use canterbury.Strings.Trim.{is_empty, trim_space}
use canterbury.Errors.{ok, err≢ok, unless-eq-ok, wrapping, wrapping-eq-ok, >>=-eq-ok}
use canterbury.Time.{Time, Duration}
use canterbury.Context.{Context}
use canterbury.DevAuth.{
  Claims, MintOptions, Token, DevAuthService, max_ttl, format_audiences, expiry_for_ttl, mint_token,
}

expiry_for_ttl-bounds :
    (issued_at : Time) (ttl : Duration) {expires_at : Time}
    → expiry_for_ttl issued_at ttl ≡ ok expires_at
    → (issued_at < expires_at) × (expires_at ≤ issued_at + max_ttl)
unfolding expiry_for_ttl
expiry_for_ttl-bounds issued_at (negsuc n) h = absurd (err≢ok h)
expiry_for_ttl-bounds issued_at (pos ttl) h = ground arith

format_audiences-length : (source : List Bytes) → length (format_audiences source) ≤ length source
unfolding format_audiences
format_audiences-length [] = omega arith
format_audiences-length (a ∷ source) = ground (arith, format_audiences-length source)

-- No audience was dropped exactly where none is blank.
format_audiences-map :
    (source : List Bytes)
    → length (format_audiences source) ≡ length source
    → (format_audiences source ≡ map trim_space source) × All (λ a. trim_space a ≢ []) source
unfolding format_audiences
format_audiences-map [] h = (refl, tt)
format_audiences-map (a ∷ source) h = elim (Bool-cases (is_empty (trim_space a))) [
  | inl blank ↦
      let shorter : length (format_audiences source) ≡ suc (length source) = rw blank at h in
      absurd (omega (arith, shorter, format_audiences-length source))
  | inr text ↦
      let same : suc (length (format_audiences source)) ≡ suc (length source) = rw text at h in
      let (e, filled) = format_audiences-map source (omega (arith, same)) in
      rw text (ap (λ r. trim_space a ∷ r) e, ((λ blank. cc (text, ap is_empty blank)), filled))
]

-- What the minter was asked for.
pub record IsMinted (service : DevAuthService) (ctx : Context) (claims : Claims) (token : Token)
    : Type 0 where
  pub expires_at : Time
  pub named : trim_space claims.subject ≢ []
  pub for_some : claims.audiences ≢ []
  pub filled : All (λ a. trim_space a ≢ []) claims.audiences
  pub later : service.now < expires_at
  pub soon : expires_at ≤ service.now + max_ttl
  pub minted :
      service.minter ctx
        (record {
          subject = trim_space claims.subject;
          audiences = map trim_space claims.audiences;
        })
        service.now
        expires_at
      ≡ ok token

-- A token is minted only for a subject and for at least one audience, none of them blank, all
-- without the white space around them, and it expires after its issue and at most an hour later.
pub mint_token-IsMinted :
    (service : DevAuthService) (ctx : Context) (claims : Claims) (options : MintOptions)
    {token : Token}
    → mint_token service ctx claims options ≡ ok token
    → IsMinted service ctx claims token
unfolding mint_token
mint_token-IsMinted service ctx claims options {token} h =
    let h' = unless-eq-ok ctx.cancelled _ h in
    let audiences = format_audiences claims.audiences in
    elim (Bool-cases (is_empty (trim_space claims.subject))) [
      | inl blank ↦ absurd (err≢ok (rw blank at h'))
      | inr text ↦
          elim (Bool-cases
            (ltb (length audiences) 1 || not (length audiences == length claims.audiences))) [
              | inl dropped ↦ absurd (err≢ok (rw (text, dropped) at h'))
              | inr kept ↦
                  let same : length audiences ≡ length claims.audiences = ground arith in
                  let some_left : 1 ≤ length audiences = ground arith in
                  let (e, filled) = format_audiences-map claims.audiences same in
                  let (expires_at, bounded, h1) =
                    >>=-eq-ok (wrapping "apply options" (expiry_for_ttl service.now options.ttl)) _
                      (rw (text, kept) at h') in
                  let bounds =
                    expiry_for_ttl-bounds service.now options.ttl
                      (wrapping-eq-ok "apply options" _ bounded) in
                  record {
                    expires_at = expires_at;
                    named = λ blank. cc (text, ap is_empty blank);
                    for_some = λ nobody. absurd (omega (arith, some_left, same, ap length nobody));
                    filled = filled;
                    later = bounds.0;
                    soon = bounds.1;
                    minted =
                        subst
                          (λ kept_as.
                            service.minter ctx
                              (record { subject = trim_space claims.subject; audiences = kept_as })
                              service.now expires_at
                            ≡ ok token)
                          e (wrapping-eq-ok "mint token" _ h1);
                  }
            ]
    ]
