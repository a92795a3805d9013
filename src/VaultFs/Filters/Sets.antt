-- ===== src/VaultFs/Filters/Sets.antt =====
-- What the tests on two normalized sets mean for the values that were given.
use mathlib.Core.Bool.{false≢true}
use canterbury.Base.{
  true, List, [], ◌∷◌, ◌≡◌, ◌≢◌, ◌↔◌, ◌⊎◌, inl, inr, refl, sym, subst, ◌∙◌, arith, All, Memᴰ, Bytes,
  Bool-cases,
}
use canterbury.Base.Member.{elem, elem-Memᴰ, Memᴰ-elem}
use canterbury.Strings.Trim.{is_empty}
use canterbury.VaultFs.Filters.{is_nil, normalize_set, contains_all, contains_any}

-- A candidate that is the same as the value once both are normalized.
abbrev pub HasCounterpart : (Bytes → Bytes) → List Bytes → Bytes → Type 0
HasCounterpart normalize candidates value =
    (candidate : Bytes) × Memᴰ candidate candidates × (normalize candidate ≡ normalize value)

-- Every value that is not blank has a counterpart.
abbrev pub Covers : (Bytes → Bytes) → List Bytes → List Bytes → Type 0
Covers normalize candidates values =
    All (λ value. (normalize value ≡ []) ⊎ HasCounterpart normalize candidates value) values

-- All values are blank, or one that is not has a counterpart.
abbrev pub Touches : (Bytes → Bytes) → List Bytes → List Bytes → Type 0
Touches normalize candidates values =
    All (λ value. normalize value ≡ []) values
    ⊎ ((value : Bytes) × Memᴰ value values
        × (normalize value ≢ [])
        × HasCounterpart normalize candidates value)

pub empty_iff : (s : Bytes) → (is_empty s ≡ true) ↔ (s ≡ [])
empty_iff [] = ((λ h. refl), λ h. refl)
empty_iff (c ∷ s) = ((λ h. cc), λ h. cc)

module _ (normalize : Bytes → Bytes) where
  pub normalize_set-Memᴰ :
      (values : List Bytes) {x : Bytes}
      → Memᴰ x (normalize_set values normalize)
      → (x ≢ []) × (value : Bytes) × Memᴰ value values × (normalize value ≡ x)
  unfolding normalize_set
  normalize_set-Memᴰ [] m = elim m [ ]
  normalize_set-Memᴰ (v ∷ values) {x} m = elim (Bool-cases (is_empty (normalize v))) [
    | inl blank ↦
        let (ne, value, listed, e) = normalize_set-Memᴰ values (rw blank at m) in
        (ne, value, Memᴰ.tail listed, e)
    | inr text ↦
        kept (λ n. normalize_set-Memᴰ values n) (λ e. cc (text, (empty_iff (normalize v)).1 e))
          (rw text at m)
  ]
    where
      kept :
          (Memᴰ x (normalize_set values normalize)
            → (x ≢ []) × (value : Bytes) × Memᴰ value values × (normalize value ≡ x))
          → normalize v ≢ []
          → Memᴰ x (normalize v ∷ normalize_set values normalize)
          → (x ≢ []) × (value : Bytes) × Memᴰ value (v ∷ values) × (normalize value ≡ x)
      kept below ne (Memᴰ.head e) = (subst (λ y. y ≢ []) (sym e) ne, v, Memᴰ.head refl, sym e)
      kept below ne (Memᴰ.tail n) =
          let (ne', value, listed, e) = below n in (ne', value, Memᴰ.tail listed, e)

  pub Memᴰ-normalize_set :
      (values : List Bytes) {value : Bytes}
      → Memᴰ value values
      → normalize value ≢ []
      → Memᴰ (normalize value) (normalize_set values normalize)
  unfolding normalize_set
  Memᴰ-normalize_set [] m ne = elim m [ ]
  Memᴰ-normalize_set (v ∷ values) {value} (Memᴰ.head e) ne =
      elim (Bool-cases (is_empty (normalize v))) [
        | inl blank ↦
            absurd (ne (subst (λ y. normalize y ≡ []) (sym e) ((empty_iff (normalize v)).0 blank)))
        | inr text ↦ rw text (Memᴰ.head (λ i. normalize (e i)))
      ]
  Memᴰ-normalize_set (v ∷ values) {value} (Memᴰ.tail m) ne =
      elim (Bool-cases (is_empty (normalize v))) [
        | inl blank ↦ rw blank (Memᴰ-normalize_set values m ne)
        | inr text ↦ rw text (Memᴰ.tail (Memᴰ-normalize_set values m ne))
      ]

  pub elem-normalize_set_iff :
      (candidates : List Bytes) (value : Bytes)
      → normalize value ≢ []
      → (elem (normalize value) (normalize_set candidates normalize) ≡ true)
        ↔ HasCounterpart normalize candidates value
  elem-normalize_set_iff candidates value ne = (
    λ h.
        let (ne', c, listed, e) = normalize_set-Memᴰ candidates (elem-Memᴰ (normalize value) _ h) in
        (c, listed, e),
    λ w.
        let (c, listed, e) = w in
        Memᴰ-elem (normalize value) (
          subst (λ y. Memᴰ y (normalize_set candidates normalize)) e
            (Memᴰ-normalize_set candidates listed (λ blank. ne (sym e ∙ blank)))),
  )

  pub contains_all_iff :
      (values candidates : List Bytes)
      → (contains_all (normalize_set values normalize) (normalize_set candidates normalize) ≡ true)
        ↔ Covers normalize candidates values
  unfolding normalize_set contains_all
  contains_all_iff [] candidates = ((λ h. tt), λ h. refl)
  contains_all_iff (v ∷ values) candidates = elim (Bool-cases (is_empty (normalize v))) [
    | inl blank ↦ rw blank (
      (λ h. (inl ((empty_iff (normalize v)).0 blank), (contains_all_iff values candidates).0 h)),
      λ w. (contains_all_iff values candidates).1 w.1,
    )
    | inr text ↦
        let ne : normalize v ≢ [] = λ e. cc (text, (empty_iff (normalize v)).1 e) in
        let one = elem-normalize_set_iff candidates v ne in
        let more = contains_all_iff values candidates in
        rw text (elim (Bool-cases (elem (normalize v) (normalize_set candidates normalize))) [
          | inl found ↦ rw found ((λ h. (inr (one.0 found), more.0 h)), λ w. more.1 w.1)
          | inr lost ↦ rw lost (
            (λ h. absurd (false≢true h)),
            λ w. elim w.0 [
              | inl blank ↦ absurd (ne blank)
              | inr c ↦ absurd (false≢true (sym lost ∙ one.1 c))
            ],
          )
        ])
  ]

  common-contains_any :
      (search candidates : List Bytes)
      → contains_any search candidates ≡ true
      → (x : Bytes) × Memᴰ x search × (elem x candidates ≡ true)
  unfolding contains_any
  common-contains_any [] candidates h = absurd (false≢true h)
  common-contains_any (x ∷ search) candidates h = elim (Bool-cases (elem x candidates)) [
    | inl found ↦ (x, Memᴰ.head refl, found)
    | inr lost ↦
        let (y, listed, k) = common-contains_any search candidates (rw lost at h) in
        (y, Memᴰ.tail listed, k)
  ]

  contains_any-common :
      (candidates : List Bytes) {x : Bytes} {search : List Bytes}
      → Memᴰ x search
      → elem x candidates ≡ true
      → contains_any search candidates ≡ true
  unfolding contains_any
  contains_any-common candidates (Memᴰ.head {x = y} e) h = rw (← e) (rw h)
  contains_any-common candidates (Memᴰ.tail {x = y} m) h =
      ground (arith, contains_any-common candidates m h)

  pub contains_any_iff :
      (values candidates : List Bytes)
      → (contains_any (normalize_set values normalize) (normalize_set candidates normalize) ≡ true)
        ↔ ((value : Bytes) × Memᴰ value values
            × (normalize value ≢ [])
            × HasCounterpart normalize candidates value)
  contains_any_iff values candidates = (
    λ h.
        let (x, m, found) = common-contains_any _ _ h in
        let (ne, value, listed, e) = normalize_set-Memᴰ values m in
        let ne' : normalize value ≢ [] = λ blank. ne (sym e ∙ blank) in
        (
          value,
          listed,
          ne',
          (elem-normalize_set_iff candidates value ne').0
              (subst (λ y. elem y (normalize_set candidates normalize) ≡ true) (sym e) found),
        ),
    λ w.
        let (value, listed, ne, counterpart) = w in
        contains_any-common _ (Memᴰ-normalize_set values listed ne)
          ((elem-normalize_set_iff candidates value ne).1 counterpart),
  )

  -- The set is empty exactly where every value is blank.
  pub normalize_set-nil_iff :
      (values : List Bytes)
      → (is_nil (normalize_set values normalize) ≡ true)
        ↔ All (λ value. normalize value ≡ []) values
  unfolding normalize_set
  normalize_set-nil_iff [] = ((λ h. tt), λ h. refl)
  normalize_set-nil_iff (v ∷ values) = elim (Bool-cases (is_empty (normalize v))) [
    | inl blank ↦
        let e = (empty_iff (normalize v)).0 blank in
        let more = normalize_set-nil_iff values in rw blank ((λ h. (e, more.0 h)), λ w. more.1 w.1)
    | inr text ↦ rw text (
      (λ h. absurd (false≢true h)),
      λ w. absurd (false≢true (sym text ∙ (empty_iff (normalize v)).1 w.0)),
    )
  ]
