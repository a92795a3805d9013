-- ===== src/Errors/Outcome.antt =====
-- Errors, and results that may be one.
use canterbury.Base.{
  Bool, false, Option, none, some, String, List, Bytes, ◌≡◌, ◌≢◌, refl, ◌⊎◌, inl, inr,
}
use canterbury.Errors.Sentinel.{Sentinel, same}

-- The codes of the package `connect` that the program uses.
pub data Code : Type 0 where
  code_canceled code_unknown code_invalid_argument code_deadline_exceeded code_not_found : Code
  code_permission_denied code_internal code_unavailable code_unauthenticated : Code

pub record FailureContext : Type 0 where
  pub issuer : Bytes
  pub subject_hash : Bytes

pub data Error : Type 0 where
  sentinel : Sentinel → Error
  message : String → Error
  wrap : String → Error → Error
  failure : Error → FailureContext → Error
  connect : Code → Error → List (String × Bytes) → Error

-- `errors.Is(err, target)`
unfoldable pub is : Error → Sentinel → Bool
is (sentinel s) target = same s target
is (message text) target = false
is (wrap text err) target = is err target
is (failure cause context) target = is cause target
is (connect code err meta) target = is err target

abbrev pub with_failure_context : Error → FailureContext → Error
with_failure_context cause context = failure cause context

-- `errors.As` finds the outermost error that has a context.
unfoldable pub failure_context_from_error : Error → Option FailureContext
failure_context_from_error (sentinel s) = none
failure_context_from_error (message text) = none
failure_context_from_error (wrap text err) = failure_context_from_error err
failure_context_from_error (failure cause context) = some context
failure_context_from_error (connect code err meta) = failure_context_from_error err

-- `connect.CodeOf(err)`
unfoldable pub code_of : Error → Code
code_of (sentinel s) = code_unknown
code_of (message text) = code_unknown
code_of (wrap text err) = code_of err
code_of (failure cause context) = code_of cause
code_of (connect code err meta) = code

pub data Result {ℓ} (A : Type ℓ) : Type ℓ where
  ok : A → Result A
  err : Error → Result A

-- `if err != nil { return …, fmt.Errorf("text: %w", err) }`
abbrev pub wrapping {ℓ} : {A : Type ℓ} → String → Result A → Result A
wrapping text (ok a) = ok a
wrapping text (err e) = err (wrap text e)

-- The next step of a function, after its `if err != nil { return …, err }`.
infixl 5 ◌>>=◌
abbrev pub ◌>>=◌ {ℓ κ} : {A : Type ℓ} {B : Type κ} → Result A → (A → Result B) → Result B
err e >>= next = err e
ok found >>= next = next found

-- Inversion of a chain that succeeds.
pub >>=-eq-ok {ℓ κ} :
    {A : Type ℓ} {B : Type κ} (first : Result A) (next : A → Result B) {last : B}
    → (first >>= next) ≡ ok last
    → (found : A) × (first ≡ ok found) × (next found ≡ ok last)
>>=-eq-ok (err e) next h = cc
>>=-eq-ok (ok found) next h = (found, refl, h)

pub wrapping-eq-ok {ℓ} :
    {A : Type ℓ} (text : String) (m : Result A) {a : A} → wrapping text m ≡ ok a → m ≡ ok a
wrapping-eq-ok text (ok b) h = h
wrapping-eq-ok text (err e) h = cc

pub Result-cases {ℓ} :
    {A : Type ℓ} (m : Result A) → ((a : A) × (m ≡ ok a)) ⊎ ((e : Error) × (m ≡ err e))
Result-cases (ok a) = inl (a, refl)
Result-cases (err e) = inr (e, refl)

pub ok-inj {ℓ} : {A : Type ℓ} {a b : A} → ok a ≡ ok b → a ≡ b
ok-inj e = cc

pub err≢ok {ℓ} : {A : Type ℓ} {e : Error} {a : A} → err e ≢ ok a
err≢ok e = cc

-- `if err := ctx.Err(); err != nil { return …, err }`, before what follows it
abbrev pub unless {ℓ} : {A : Type ℓ} → Option Error → Result A → Result A
unless (some e) m = err e
unless none m = m

pub unless-eq-ok {ℓ} :
    {A : Type ℓ} (o : Option Error) (m : Result A) {a : A} → unless o m ≡ ok a → m ≡ ok a
unless-eq-ok none m h = h
unless-eq-ok (some e) m h = absurd (err≢ok h)
