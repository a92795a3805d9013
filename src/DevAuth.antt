-- ===== src/DevAuth.antt =====
-- internal/app/devauth and internal/domain/devauth: tokens for development.
pub mod Laws
pub mod Jwt
pub mod Rpc
pub mod Keys
use canterbury.Base.{
  ℕ, ◌+◌, ◌*◌, ◌||◌, not, Option, none, some, List, [], ◌∷◌, Bytes, length, ltb, ◌==◌,
  if◌then◌else◌,
}
use canterbury.Base.Int.{pos, negsuc}
use canterbury.Strings.Trim.{is_empty, trim_space}
use canterbury.Errors.{
  Result, ok, err, message, sentinel, unless, wrapping, claims_without_subject, missing_audience,
  negative_ttl, large_ttl, ◌>>=◌,
}
use canterbury.Time.{Time, Duration, second}
use canterbury.Context.{Context}

pub record Claims : Type 0 where
  pub subject : Bytes
  pub audiences : List Bytes

pub record MintOptions : Type 0 where
  pub ttl : Duration

-- The type of a token is always `Bearer`.
pub record Token : Type 0 where
  pub jwt : Bytes
  pub expires_at : Time

-- The interface that internal/adapters/devauthjwt implements, with the instants of issue and
-- expiry.
abbrev pub Minter : Type 0
Minter = Context → Claims → Time → Time → Result Token

-- The clock is read once in a request, and gives `now`.
pub record DevAuthService : Type 0 where
  pub minter : Minter
  pub now : Time

abbrev pub ServiceOption : Type 0
ServiceOption = DevAuthService → Result DevAuthService

-- `WithClock`: `none` is a nil clock.
unfoldable pub with_clock : Option Time → ServiceOption
with_clock none service = err (message "clock must not be nil")
with_clock (some now) service = ok (record service { now = now })

-- The loop over the options.
unfoldable pub apply_options : List ServiceOption → ServiceOption
apply_options [] service = ok service
apply_options (option ∷ options) service = option service >>= λ next. apply_options options next

-- `NewService`, with the reading of the system clock; `none` is a nil minter.
unfoldable pub new_dev_auth_service :
    Time → Option Minter → List ServiceOption → Result DevAuthService
new_dev_auth_service now none options = err (message "minter must not be nil")
new_dev_auth_service now (some minter) options =
    apply_options options (record { minter = minter; now = now })

abbrev pub max_ttl : ℕ
max_ttl = 60 * 60 * second

abbrev pub default_ttl : ℕ
default_ttl = 15 * 60 * second

unfoldable pub format_audiences : List Bytes → List Bytes
format_audiences [] = []
format_audiences (audience ∷ source) =
    let trimmed = trim_space audience in
    let rest = format_audiences source in if is_empty trimmed then rest else trimmed ∷ rest

unfoldable pub expiry_for_ttl : Time → Duration → Result Time
expiry_for_ttl issued_at (negsuc n) = err (sentinel negative_ttl)
expiry_for_ttl issued_at (pos ttl) =
    if ltb max_ttl ttl
    then err (sentinel large_ttl)
    else if ttl == 0
    then ok (issued_at + default_ttl)
    else ok (issued_at + ttl)

unfoldable pub mint_token : DevAuthService → Context → Claims → MintOptions → Result Token
mint_token service ctx claims options = unless ctx.cancelled (
    let subject = trim_space claims.subject in
    let audiences = format_audiences claims.audiences in
    if is_empty subject
    then err (sentinel claims_without_subject)
    else if ltb (length audiences) 1 || not (length audiences == length claims.audiences)
    then err (sentinel missing_audience)
    else wrapping "apply options" (expiry_for_ttl service.now options.ttl) >>= λ expires_at.
        wrapping "mint token" (
          service.minter ctx (record { subject = subject; audiences = audiences }) service.now
            expires_at))
