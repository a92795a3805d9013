-- ===== src/DevAuth/Jwt/Laws.antt =====
-- A minted token can be taken apart, and its signature verifies with the published key.
use canterbury.Base.{
  ◌≢◌, arith, ◌≡◌, refl, sym, ap, ◌∙◌, true, Bool, [], ◌∷◌, ◌++◌, Bytes, codes, All,
}
use mathlib.Core.List.{append_assoc}
use canterbury.Strings.Split.{split_on}
use canterbury.Strings.Split.Laws.{split_on-append, split_on-part}
use canterbury.Strings.Trim.{trim_space}
use canterbury.Errors.{ok, ok-inj, unless-eq-ok}
use canterbury.Time.{Time, unix}
use canterbury.Context.{Context}
use canterbury.Encoding.Base64.{raw_url_encode}
use canterbury.Encoding.Base64.Laws.{raw_url_encode-plain}
use canterbury.Encoding.Json.{print}
use canterbury.DevAuth.{Claims, Token}
use canterbury.DevAuth.Jwt.{
  Ed25519, JwtMinter, header_json, payload_json, header_of, payload_of, signing_input_of, build_jwt,
  mint_jwt, new_minter, minter_with_keys,
}

-- A token of three parts has these.
three_parts :
    (a b c : Bytes)
    → All (λ x. x ≢ b'.') a
    → All (λ x. x ≢ b'.') b
    → All (λ x. x ≢ b'.') c
    → split_on b'.' ((a ++ b'.' ∷ b) ++ b'.' ∷ c) ≡ a ∷ b ∷ c ∷ []
three_parts a b c p q r =
    ap (split_on b'.') (append_assoc a (b'.' ∷ b) (b'.' ∷ c))
    ∙ split_on-append b'.' a (b ++ b'.' ∷ c) p
    ∙ ap (λ parts. a ∷ parts)
        (split_on-append b'.' b c q ∙ ap (λ parts. b ∷ parts) (split_on-part b'.' c r))

-- A signature is accepted for the text and the private key of which it was made, with the public
-- key of the pair.
abbrev pub Verifies : Ed25519 → (Bytes → Bytes → Bytes → Bool) → Type 0
Verifies ed25519 verify =
    (public_key private_key text : Bytes)
    → ed25519.generate_key ≡ ok (public_key, private_key)
    → verify public_key text (ed25519.sign private_key text) ≡ true

-- The three parts of a token for these claims, the third of which signs the two others.
pub record IsSigned (verify : Bytes → Bytes → Bytes → Bool) (issuer key_id public_key : Bytes)
    (claims : Claims) (issued_at expires_at : Time) (jwt : Bytes) : Type 0 where
  pub header : Bytes
  pub payload : Bytes
  pub signature : Bytes
  pub parts : split_on b'.' jwt ≡ header ∷ payload ∷ raw_url_encode signature ∷ []
  pub for_key :
      header
      ≡ raw_url_encode (
          print (
            header_json
              (record { type = codes "JWT"; algorithm = codes "EdDSA"; key_id = key_id })))
  pub for_claims :
      payload
      ≡ raw_url_encode (
          print (
            payload_json (record {
              issuer = issuer;
              subject = claims.subject;
              audiences = claims.audiences;
              expires_at = unix expires_at;
              issued_at = unix issued_at;
            })))
  pub verified : verify public_key (header ++ b'.' ∷ payload) signature ≡ true

-- The minter has a pair of keys.
new_minter-keys :
    (sha256 : Bytes → Bytes) (ed25519 : Ed25519) (issuer : Bytes) {minter : JwtMinter}
    → new_minter sha256 ed25519 issuer ≡ ok minter
    → (minter.issuer ≡ trim_space issuer)
      × (ed25519.generate_key ≡ ok (minter.public_key, minter.private_key))
unfolding new_minter minter_with_keys
new_minter-keys sha256 ed25519 issuer h = ground arith

-- A minted token has three parts, the header and the payload in JSON for the claims, the instants
-- and the minter's key and issuer, and a signature of these that verifies with the public key of
-- the minter, where the signatures of a pair of keys do.
pub mint_jwt-IsSigned :
    (sha256 : Bytes → Bytes) (ed25519 : Ed25519) (verify : Bytes → Bytes → Bytes → Bool)
    → (issuer : Bytes) (ctx : Context) (claims : Claims) (issued_at expires_at : Time)
      {minter : JwtMinter} {token : Token}
    → Verifies ed25519 verify
    → new_minter sha256 ed25519 issuer ≡ ok minter
    → mint_jwt ed25519 minter ctx claims issued_at expires_at ≡ ok token
    → IsSigned verify
        (trim_space issuer)
        minter.key_id
        minter.public_key
        claims
        issued_at
        expires_at
        token.jwt
      × (token.expires_at ≡ expires_at)
unfolding mint_jwt build_jwt signing_input_of header_of payload_of
mint_jwt-IsSigned sha256 ed25519 verify issuer ctx claims issued_at expires_at {minter} {token}
      verifies made h =
    let (same, keys) = new_minter-keys sha256 ed25519 issuer made in
    let minted = ok-inj (unless-eq-ok ctx.cancelled _ h) in
    let h' = raw_url_encode (print (header_json (header_of minter))) in
    let p' =
      raw_url_encode (print (payload_json (payload_of minter claims issued_at expires_at))) in
    let signature = ed25519.sign minter.private_key (h' ++ b'.' ∷ p') in
    (
      record {
        header = h';
        payload = p';
        signature = signature;
        parts =
            ap (λ (t : Token). split_on b'.' t.jwt) (sym minted)
            ∙ three_parts h' p' (raw_url_encode signature) (raw_url_encode-plain _)
                (raw_url_encode-plain _) (raw_url_encode-plain _);
        for_key = refl;
        for_claims =
            ap
              (λ iss. raw_url_encode (
                print (
                  payload_json (record {
                    issuer = iss;
                    subject = claims.subject;
                    audiences = claims.audiences;
                    expires_at = unix expires_at;
                    issued_at = unix issued_at;
                  }))))
              same;
        verified = verifies minter.public_key minter.private_key (h' ++ b'.' ∷ p') keys;
      },
      ap (λ (t : Token). t.expires_at) (sym minted),
    )
