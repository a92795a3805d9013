-- ===== src/DevAuth/Jwt.antt =====
-- internal/adapters/devauthjwt: the minter, which signs tokens with a key pair that it makes. The
-- package `crypto/ed25519` is a parameter.
pub mod Laws
use canterbury.Base.{List, ◌∷◌, ◌++◌, Bytes, codes, if◌then◌else◌}
use canterbury.Base.Int.{ℤ}
use canterbury.Strings.Trim.{is_empty, trim_space}
use canterbury.Errors.{Result, ok, err, sentinel, unless, wrapping, invalid_issuer, ◌>>=◌}
use canterbury.Time.{Time, unix}
use canterbury.Context.{Context}
use canterbury.Encoding.Base64.{raw_url_encode}
use canterbury.Encoding.Json.{Json, string, number, array, object, end, member, print, strings}
use canterbury.DevAuth.{Claims, Token}

-- The keys are texts of bytes.
pub record Ed25519 : Type 0 where
  pub generate_key : Result (Bytes × Bytes)
  pub sign : Bytes → Bytes → Bytes

pub record JwtMinter : Type 0 where
  pub issuer : Bytes
  pub key_id : Bytes
  pub public_key : Bytes
  pub private_key : Bytes

pub record VerificationKey : Type 0 where
  pub id : Bytes
  pub algorithm : Bytes
  pub public_key : Bytes

abbrev pub signing_algorithm : Bytes
signing_algorithm = codes "EdDSA"

unfoldable pub minter_with_keys : (Bytes → Bytes) → Bytes → Bytes × Bytes → JwtMinter
minter_with_keys sha256 issuer (public_key, private_key) = record {
  issuer = issuer;
  key_id = raw_url_encode (sha256 public_key);
  public_key = public_key;
  private_key = private_key;
}

unfoldable pub new_minter : (Bytes → Bytes) → Ed25519 → Bytes → Result JwtMinter
new_minter sha256 ed25519 issuer =
    let trimmed = trim_space issuer in
    if is_empty trimmed
    then err (sentinel invalid_issuer)
    else wrapping "generate ed25519 key" ed25519.generate_key >>= λ keys.
        ok (minter_with_keys sha256 trimmed keys)

unfoldable pub minter_verification_key : JwtMinter → VerificationKey
minter_verification_key minter = record {
  id = minter.key_id;
  algorithm = signing_algorithm;
  public_key = minter.public_key;
}

pub record TokenHeader : Type 0 where
  pub type : Bytes
  pub algorithm : Bytes
  pub key_id : Bytes

pub record TokenPayload : Type 0 where
  pub issuer : Bytes
  pub subject : Bytes
  pub audiences : List Bytes
  pub expires_at : ℤ
  pub issued_at : ℤ

unfoldable pub header_json : TokenHeader → Json
header_json header = object (
    member (codes "typ") (string header.type) (
      member (codes "alg") (string header.algorithm)
        (member (codes "kid") (string header.key_id) end)))

unfoldable pub payload_json : TokenPayload → Json
payload_json payload = object (
    member (codes "iss") (string payload.issuer) (
      member (codes "sub") (string payload.subject) (
        member (codes "aud") (array (strings payload.audiences)) (
          member (codes "exp") (number payload.expires_at)
            (member (codes "iat") (number payload.issued_at) end)))))

unfoldable pub header_of : JwtMinter → TokenHeader
header_of minter = record {
  type = codes "JWT";
  algorithm = signing_algorithm;
  key_id = minter.key_id;
}

unfoldable pub payload_of : JwtMinter → Claims → Time → Time → TokenPayload
payload_of minter claims issued_at expires_at = record {
  issuer = minter.issuer;
  subject = claims.subject;
  audiences = claims.audiences;
  expires_at = unix expires_at;
  issued_at = unix issued_at;
}

unfoldable pub signing_input_of : TokenHeader → TokenPayload → Bytes
signing_input_of header payload =
    raw_url_encode (print (header_json header))
    ++ b'.' ∷ raw_url_encode (print (payload_json payload))

-- The values have texts, numbers and lists of texts only, so that marshalling does not fail.
unfoldable pub build_jwt : Ed25519 → JwtMinter → TokenHeader → TokenPayload → Bytes
build_jwt ed25519 minter header payload =
    let signing_input = signing_input_of header payload in
    let signature = ed25519.sign minter.private_key signing_input in
    signing_input ++ b'.' ∷ raw_url_encode signature

unfoldable pub mint_jwt : Ed25519 → JwtMinter → Context → Claims → Time → Time → Result Token
mint_jwt ed25519 minter ctx claims issued_at expires_at = unless ctx.cancelled (
    ok (record {
      jwt =
          build_jwt ed25519 minter (header_of minter)
            (payload_of minter claims issued_at expires_at);
      expires_at = expires_at;
    }))
