-- ===== src/DevAuth/Keys.antt =====
-- internal/interfaces/keyshttp: the public key as a key set over HTTP. A verification key holds an
-- Ed25519 key, as the minter's does.
use canterbury.Base.{
  ℕ, not, ◌&&◌, List, [], ◌∷◌, Bytes, codes, length, ◌==◌, ◌=s=◌, if◌then◌else◌, String, Option,
  none, some,
}
use canterbury.Strings.Trim.{is_empty}
use canterbury.Strings.Decimal.{itoa}
use canterbury.Errors.{Result, ok, err, message, unless, wrapping, ◌>>=◌}
use canterbury.Context.{Context}
use canterbury.Encoding.Base64.{raw_url_encode}
use canterbury.Encoding.Json.{
  Json, Elements, Members, string, array, object, nil, cons, end, member, print,
}
use canterbury.Health.Http.{
  Reply, http_error, classify_http_error, method_not_allowed, method_get, method_head,
}
use canterbury.DevAuth.Jwt.{VerificationKey, signing_algorithm}

pub record Key : Type 0 where
  pub kty : Bytes
  pub use_for : Bytes
  pub kid : Bytes
  pub alg : Bytes
  pub crv : Bytes
  pub x : Bytes

abbrev pub KeySet : Type 0
KeySet = List Key

abbrev pub public_key_size : ℕ
public_key_size = 32

unfoldable pub set_ed25519_key : Key → Bytes → Bytes → Result Key
set_ed25519_key jwk algorithm public_key =
    if not (algorithm =s= signing_algorithm)
    then err (message "unsupported signing algorithm for Ed25519 public key")
    else if not (length public_key == public_key_size)
    then err (message "invalid Ed25519 public key size")
    else ok (record jwk {
      kty = codes "OKP";
      alg = algorithm;
      crv = codes "Ed25519";
      x = raw_url_encode public_key;
    })

unfoldable pub verification_key_to_jwk : VerificationKey → Result Key
verification_key_to_jwk key =
    let jwk : Key = record {
      kty = [];
      use_for = codes "sig";
      kid = key.id;
      alg = [];
      crv = [];
      x = [];
    } in
    wrapping "set ed25519 key" (set_ed25519_key jwk key.algorithm key.public_key)

unfoldable pub get_key_set : VerificationKey → Context → Result KeySet
get_key_set key ctx = unless ctx.cancelled (
    wrapping "convert verification key to JWK" (verification_key_to_jwk key) >>= λ jwk.
    ok (jwk ∷ []))

-- A field with `omitempty`.
unfoldable pub filled_member : String → Bytes → Members → Members
filled_member name value members =
    if is_empty value then members else member (codes name) (string value) members

unfoldable pub key_json : Key → Json
key_json key = object (
    member (codes "kty") (string key.kty) (
      filled_member "use" key.use_for (
        filled_member "kid" key.kid (
          filled_member "alg" key.alg
            (filled_member "crv" key.crv (filled_member "x" key.x end))))))

unfoldable pub keys_json : KeySet → Elements
keys_json [] = nil
keys_json (key ∷ keys) = cons (key_json key) (keys_json keys)

unfoldable pub key_set_reply : Bytes → Result KeySet → Reply
key_set_reply method (err e) = let (code, text) = classify_http_error e in http_error code text
key_set_reply method (ok jwks) =
    let json = print (object (member (codes "keys") (array (keys_json jwks)) end)) in
    record {
      code = 200;
      headers =
          (codes "Content-Type", codes "application/jwk-set+json")
          ∷ (codes "Cache-Control", codes "no-store")
          ∷ (codes "Content-Length", itoa (length json))
          ∷ [];
      body = if method =s= method_head then [] else json;
    }

-- The argument is the key of the store; `none` is a nil store.
unfoldable pub new_key_store_service_handler : Option VerificationKey → Result VerificationKey
new_key_store_service_handler none = err (message "key store service is required")
new_key_store_service_handler (some key) = ok key

unfoldable pub serve_keys : VerificationKey → Bytes → Context → Reply
serve_keys key method ctx =
    if not (method =s= method_get) && not (method =s= method_head)
    then method_not_allowed
    else key_set_reply method (get_key_set key ctx)
