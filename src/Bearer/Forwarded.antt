-- ===== src/Bearer/Forwarded.antt =====
-- The token that the gateway forwards.
use mathlib.Core.Bool.{false≢true}
use canterbury.Base.{
  ℕ, true, false, Option-cases, Bool-cases, inl, inr, List, [], ◌∷◌, ◌++◌, ◌≡◌, refl, sym, ap, ◌∙◌,
  arith, Bytes, codes, ◌=s=◌, =s=_refl, All, leb, ◌&&◌,
}
use canterbury.Strings.Trim.{is_empty, trim_space, trim_left, trim_right, trimming, space_width}
use canterbury.Strings.Trim.Laws.{trim_space_idem, trim_right_idem, trim_left_of_width}
use canterbury.Strings.Affix.{cut, contains_any}
use canterbury.Strings.Case.{equal_fold, lower_byte}
use canterbury.Errors.{Error, sentinel, malformed_authorization, ok, err≢ok}
use canterbury.Bearer.{
  Header, set_header, authorization, blanks, token_part, scheme_and_token, parse_credentials,
  gateway_value, bearer_token, service_value, bearer_token_from_header, forward_authorization,
}

-- What a token that was parsed is made of.
pub record IsToken (token : Bytes) : Type 0 where
  pub trimmed : trim_space token ≡ token
  pub filled : is_empty token ≡ false
  pub solid : contains_any token blanks ≡ false

token_part-IsToken :
    (e : Error) (rest : Bytes) {token : Bytes} → token_part e rest ≡ ok token → IsToken token
unfolding token_part
token_part-IsToken e rest {token} h = ground (arith, trim_space_idem rest)

parse_credentials-IsToken :
    (e f : Error) (value : Bytes) {token : Bytes}
    → parse_credentials e f value ≡ ok token
    → IsToken token
unfolding parse_credentials scheme_and_token
parse_credentials-IsToken e f value h = elim (Option-cases (cut b' ' value)) [
  | inl none_found ↦ absurd (err≢ok (rw none_found at h))
  | inr (parts, found) ↦ elim (Bool-cases (equal_fold parts.0 (codes "Bearer"))) [
    | inr other ↦ absurd (err≢ok (rw (found, other) at h))
    | inl bearer ↦ token_part-IsToken f parts.1 (rw (found, bearer) at h)
  ]
]

pub gateway_value-IsToken :
    (values : List Bytes) {token : Bytes} → gateway_value values ≡ ok token → IsToken token
unfolding gateway_value
gateway_value-IsToken [] h = absurd (err≢ok h)
gateway_value-IsToken (value ∷ []) h = parse_credentials-IsToken _ _ (trim_space value) h
gateway_value-IsToken (value ∷ next ∷ values) h = absurd (err≢ok h)

abbrev IsLetter : ℕ → Type 0
IsLetter c = (leb 65 c && leb c 122) ≡ true

letter-width : (c : ℕ) (s : Bytes) → IsLetter c → space_width (c ∷ s) ≡ 0
unfolding trimming space_width
letter-width c [] d = ground arith
letter-width c (a ∷ []) d = ground arith
letter-width c (a ∷ b ∷ s) d = ground arith

trim_right_of_letters :
    (p s : Bytes) → All IsLetter p → trim_right s ≡ s → trim_right (p ++ s) ≡ p ++ s
unfolding trim_right
trim_right_of_letters [] s h e = e
trim_right_of_letters (c ∷ p) s (d, h) e =
    rw (trim_left_of_width (c ∷ (p ++ s)) (letter-width c (p ++ s) d))
      (rw (trim_right_of_letters p s h e) refl)

trim_right_of_trimmed : (token : Bytes) → trim_space token ≡ token → trim_right token ≡ token
unfolding trim_space
trim_right_of_trimmed token e = ap trim_right (sym e) ∙ trim_right_idem (trim_left token) ∙ e

trim_left-filled :
    (token : Bytes)
    → trim_space token ≡ token
    → is_empty token ≡ false
    → is_empty (trim_left token) ≡ false
unfolding trim_space
trim_left-filled token e filled = elim (Bool-cases (is_empty (trim_left token))) [
  | inr some_left ↦ some_left
  | inl nothing ↦
      absurd (false≢true (sym filled ∙ ap is_empty (sym e) ∙ none_left (trim_left token) nothing))
]
  where
    none_left : (s : Bytes) → is_empty s ≡ true → is_empty (trim_right s) ≡ true
    none_left [] k = unfold trimming in refl
    none_left (c ∷ s) k = absurd (false≢true k)

trim_left-blank : (s : Bytes) → trim_left (b' ' ∷ s) ≡ trim_left s
unfolding trimming space_width
trim_left-blank s = refl

-- The value of the header that the gateway sends has no white space around it.
forwarded_trimmed :
    {token : Bytes}
    → IsToken token
    → trim_space (codes "Bearer " ++ token) ≡ codes "Bearer " ++ token
unfolding trim_space trim_right
forwarded_trimmed {token} t =
    let inner : trim_right (b' ' ∷ token) ≡ b' ' ∷ token = rw (trim_left-blank token) (
      rw (trim_left-filled token t.trimmed t.filled)
        (rw (trim_right_of_trimmed token t.trimmed) refl)) in
    let whole =
      trim_right_of_letters (codes "Bearer") (b' ' ∷ token)
        (refl, (refl, (refl, (refl, (refl, (refl, tt)))))) inner in
    rw
      (trim_left_of_width (codes "Bearer " ++ token)
        (letter-width b'B' (codes "earer " ++ token) refl))
      whole

parse_credentials-bearer :
    {token : Bytes}
    → IsToken token
    → parse_credentials
        (sentinel malformed_authorization)
        (sentinel malformed_authorization)
        (codes "Bearer " ++ token)
      ≡ ok token
unfolding parse_credentials scheme_and_token token_part cut equal_fold lower_byte ◌=s=◌
parse_credentials-bearer t = rw t.trimmed (rw t.filled (rw t.solid refl))

-- The token that the gateway accepts is the one that the vault service takes from the request
-- that the gateway makes for it.
pub bearer_token-forward_authorization :
    (header onward : Header) {token : Bytes}
    → bearer_token header ≡ ok token
    → bearer_token_from_header (forward_authorization token onward) ≡ ok token
unfolding bearer_token bearer_token_from_header service_value forward_authorization set_header
bearer_token-forward_authorization header onward {token} h =
    let t = gateway_value-IsToken (header authorization) h in
    rw (=s=_refl authorization) (rw (forwarded_trimmed t) (parse_credentials-bearer t))
