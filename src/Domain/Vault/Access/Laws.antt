-- ===== src/Domain/Vault/Access/Laws.antt =====
-- The access check and the scopes that are recorded for it.
use mathlib.Core.Bool.{false≢true}
use canterbury.Base.{
  true, false, not, List, [], ◌∷◌, ◌++◌, ◌≡◌, ◌≢◌, ◌↔◌, inl, inr, refl, sym, subst, ap, ◌∙◌, arith,
  Bytes, Memᴰ, Bool-cases, =s=_iff, ◌&&◌, ◌||◌,
}
use canterbury.Base.Member.{
  elem, elem_iff, Memᴰ-elem, Memᴰ-of-ne-nil, not-Memᴰ-nil, Distinct, Distinct-concat, elem-concat,
}
use canterbury.Strings.Trim.{is_empty, trim_space}
use canterbury.Strings.Trim.Laws.{trim_space_idem}
use canterbury.Errors.{ok, err≢ok, ok-inj}
use canterbury.Domain.Vault.Access.{
  Scope, ResourceAccess, new_scope, has_scope_loop, has_scope, allows_any, matched_loop,
  matched_scopes,
}

-- A scope that is accepted is not empty and is accepted as it is.
pub new_scope-normal :
    (value : Bytes) {scope : Scope}
    → new_scope value ≡ ok scope
    → (scope ≢ []) × (new_scope scope ≡ ok scope)
unfolding new_scope
new_scope-normal value {scope} h = elim (Bool-cases (is_empty (trim_space value))) [
  | inl blank ↦ absurd (err≢ok (rw blank at h))
  | inr text ↦ keep (ok-inj (rw text at h)) text
]
  where
    keep :
        trim_space value ≡ scope
        → is_empty (trim_space value) ≡ false
        → (scope ≢ []) × (new_scope scope ≡ ok scope)
    keep e text =
        rw (← e) ((λ n. false≢true (sym text ∙ ap is_empty n)), rw (trim_space_idem value, text))

has_scope_loop-elem : (allowed : List Scope) (s : Scope) → has_scope_loop allowed s ≡ elem s allowed
unfolding has_scope_loop elem
has_scope_loop-elem [] s = refl
has_scope_loop-elem (x ∷ xs) s = ground (arith, has_scope_loop-elem xs s)

pub has_scope-elem : (a : ResourceAccess) (s : Scope) → has_scope a s ≡ elem s a.scopes
unfolding has_scope
has_scope-elem a s = has_scope_loop-elem a.scopes s

allows_any-found :
    (a : ResourceAccess) (ss : List Scope)
    → allows_any a ss ≡ true
    → (s : Scope) × Memᴰ s ss × Memᴰ s a.scopes
unfolding allows_any
allows_any-found a [] h = cc
allows_any-found a (s ∷ ss) h = elim (Bool-cases (has_scope a s)) [
  | inl has ↦ (s, Memᴰ.head refl, (elem_iff s a.scopes).0 (sym (has_scope-elem a s) ∙ has))
  | inr lacks ↦ let (t, m, k) = allows_any-found a ss (rw lacks at h) in (t, Memᴰ.tail m, k)
]

allows_any-of_Memᴰ :
    (a : ResourceAccess) {s : Scope} {ss : List Scope}
    → Memᴰ s ss
    → has_scope a s ≡ true
    → allows_any a ss ≡ true
unfolding allows_any
allows_any-of_Memᴰ a (Memᴰ.head {x = t} e) h = rw (← e) (rw h)
allows_any-of_Memᴰ a (Memᴰ.tail {x = t} m) h = ground (arith, allows_any-of_Memᴰ a m h)

-- Access is allowed exactly when one of the scopes is declared by the resource.
pub allows_any_iff :
    (a : ResourceAccess) (scopes : List Scope)
    → (allows_any a scopes ≡ true) ↔ ((s : Scope) × Memᴰ s scopes × Memᴰ s a.scopes)
allows_any_iff a scopes = (
  allows_any-found a scopes,
  λ w. allows_any-of_Memᴰ a w.1 (has_scope-elem a w.0 ∙ (elem_iff w.0 a.scopes).1 w.2),
)

agree-concat :
    (t : Scope) (seen matches : List Scope)
    → ((s : Scope) → elem s seen ≡ elem s matches)
    → (s : Scope) → elem s (t ∷ seen) ≡ elem s (matches ++ t ∷ [])
agree-concat t seen matches agree s = rw elem-concat (unfold elem in ground (arith, agree s))

-- The state of the loop: what is seen is what has been matched, each scope once.
matched_loop-Distinct :
    (a : ResourceAccess) (seen matches ss : List Scope)
    → ((s : Scope) → elem s seen ≡ elem s matches)
    → Distinct matches
    → Distinct (matched_loop a seen matches ss)
unfolding matched_loop
matched_loop-Distinct a seen matches [] agree d = d
matched_loop-Distinct a seen matches (s ∷ ss) agree d =
    elim (Bool-cases (not (elem s seen) && has_scope a s)) [
      | inl fresh ↦ rw fresh (
          matched_loop-Distinct a (s ∷ seen) (matches ++ s ∷ []) ss
            (agree-concat s seen matches agree)
            (Distinct-concat matches s d (sym (agree s) ∙ ground arith)))
      | inr old ↦ rw old (matched_loop-Distinct a seen matches ss agree d)
    ]

-- A scope is matched if it was before, or if the resource declares it and it is asked for.
matched_loop-elem :
    (a : ResourceAccess) (seen matches ss : List Scope)
    → ((s : Scope) → elem s seen ≡ elem s matches)
    → (s : Scope)
    → elem s (matched_loop a seen matches ss) ≡ (elem s matches || has_scope a s && elem s ss)
unfolding matched_loop
matched_loop-elem a seen matches [] agree s = unfold elem in ground arith
matched_loop-elem a seen matches (t ∷ ss) agree s =
    elim (Bool-cases (not (elem t seen) && has_scope a t)) [
      | inl fresh ↦ rw fresh (
          matched_loop-elem a (t ∷ seen) (matches ++ t ∷ []) ss (agree-concat t seen matches agree)
            s
          ∙ rw elem-concat (unfold elem in ground (arith, =s=_iff t s)))
      | inr old ↦ rw old (
          matched_loop-elem a seen matches ss agree s
          ∙ unfold elem in ground (arith, =s=_iff t s, agree t))
    ]

matched_loop-both :
    (a : ResourceAccess) (scopes : List Scope) (s : Scope)
    → elem s (matched_loop a [] [] scopes) ≡ true
    → (elem s scopes ≡ true) × (elem s a.scopes ≡ true)
unfolding elem
matched_loop-both a scopes s h =
    ground (arith, matched_loop-elem a [] [] scopes (λ t. refl) s, has_scope-elem a s)

both-matched_loop :
    (a : ResourceAccess) (scopes : List Scope) (s : Scope)
    → elem s scopes ≡ true
    → elem s a.scopes ≡ true
    → elem s (matched_loop a [] [] scopes) ≡ true
unfolding elem
both-matched_loop a scopes s h k =
    ground (arith, matched_loop-elem a [] [] scopes (λ t. refl) s, has_scope-elem a s)

-- The matched scopes are those that are asked for and declared, each of them once.
pub matched_scopes_iff :
    (a : ResourceAccess) (scopes : List Scope) (s : Scope)
    → Distinct (matched_scopes a scopes)
      × (Memᴰ s (matched_scopes a scopes) ↔ (Memᴰ s scopes × Memᴰ s a.scopes))
unfolding matched_scopes
matched_scopes_iff a scopes s = (
  matched_loop-Distinct a [] [] scopes (λ s. refl) tt,
  (
    λ m.
        let both = matched_loop-both a scopes s (Memᴰ-elem s m) in
        ((elem_iff s scopes).0 both.0, (elem_iff s a.scopes).0 both.1),
    λ w. (elem_iff s _).0 (both-matched_loop a scopes s (Memᴰ-elem s w.0) (Memᴰ-elem s w.1)),
  ),
)

-- Access is allowed exactly when the set of matched scopes that is recorded is not empty.
pub allows_any-matched_scopes :
    (a : ResourceAccess) (scopes : List Scope)
    → (allows_any a scopes ≡ true) ↔ (matched_scopes a scopes ≢ [])
allows_any-matched_scopes a scopes = (
  λ h e.
      let (s, m, k) = (allows_any_iff a scopes).0 h in
      not-Memᴰ-nil (rw e at ((matched_scopes_iff a scopes s).1.1 (m, k))),
  λ ne.
      let (s, m) = Memᴰ-of-ne-nil (matched_scopes a scopes) ne in
      (allows_any_iff a scopes).1
        (s, ((matched_scopes_iff a scopes s).1.0 m).0, ((matched_scopes_iff a scopes s).1.0 m).1),
)

-- A resource that declares no scope is denied to everybody.
pub default_deny :
    (a : ResourceAccess) (scopes : List Scope) → a.scopes ≡ [] → allows_any a scopes ≡ false
default_deny a scopes e = elim (Bool-cases (allows_any a scopes)) [
  | inl h ↦
      let (s, m, k) = (allows_any_iff a scopes).0 h in
      absurd (not-Memᴰ-nil (subst (λ scopes'. Memᴰ s scopes') e k))
  | inr h ↦ h
]
