-- ===== src/Auth/ScopeMapper/Adding.antt =====
-- Which mapping documents are loaded.
use mathlib.Core.Bool.{false≢true}
use canterbury.Base.{
  true, List, [], ◌∷◌, none, ◌≡◌, ◌≢◌, ◌↔◌, inl, inr, refl, sym, ◌∙◌, arith, Bool-cases, =s=_iff,
  All,
}
use canterbury.Strings.Trim.{trim_space}
use canterbury.Errors.{ok, >>=-eq-ok}
use canterbury.Domain.Vault.Access.{Scope}
use canterbury.Auth.ScopeMapper.{
  MappingSubject, SubjectKey, key_eq, Table, find, key_of, add_mapping, add_mappings,
}

pub key_eq_iff : (a b : SubjectKey) → (key_eq a b ≡ true) ↔ (a ≡ b)
key_eq_iff a b = ground (arith, =s=_iff a.issuer b.issuer, =s=_iff a.subject b.subject)

-- What a mapping must satisfy to be added to a table.
pub record IsMapping (lookup : Table) (mapping : MappingSubject) : Type 0 where
  pub issuer : trim_space mapping.issuer ≢ []
  pub subject : trim_space mapping.subject ≢ []
  pub fresh : find lookup (key_of mapping) ≡ none
  pub granted : mapping.scopes ≢ []

pub add_mapping_inv :
    (lookup : Table) (m : MappingSubject) {extended : Table}
    → add_mapping lookup m ≡ ok extended
    → IsMapping lookup m × (extended ≡ (key_of m, m.scopes) ∷ lookup)
unfolding add_mapping
add_mapping_inv lookup m h = ground arith

add_mapping_of :
    (lookup : Table) (m : MappingSubject)
    → IsMapping lookup m
    → add_mapping lookup m ≡ ok ((key_of m, m.scopes) ∷ lookup)
unfolding add_mapping
add_mapping_of lookup m v = ground arith

-- A mapping document is complete where every mapping names an issuer, a subject and a scope.
abbrev pub IsComplete : MappingSubject → Type 0
IsComplete m = (trim_space m.issuer ≢ []) × (trim_space m.subject ≢ []) × (m.scopes ≢ [])

-- No two mappings have one key.
abbrev pub HasDistinctKeys : List MappingSubject → Type 0
HasDistinctKeys [] = Unit
HasDistinctKeys (m ∷ ms) = All (λ n. key_of n ≢ key_of m) ms × HasDistinctKeys ms

abbrev pub Unbound : Table → List MappingSubject → Type 0
Unbound lookup ms = All (λ m. find lookup (key_of m) ≡ none) ms

absent_entry_iff :
    (lookup : Table) (key k : SubjectKey) (scopes : List Scope)
    → (find ((key, scopes) ∷ lookup) k ≡ none) ↔ ((k ≢ key) × (find lookup k ≡ none))
unfolding find
absent_entry_iff lookup key k scopes = elim (Bool-cases (key_eq key k)) [
  | inl same ↦ rw same ((λ e. cc), λ h. absurd (h.0 (sym ((key_eq_iff key k).0 same))))
  | inr other ↦
      rw other
        ((λ e. ((λ same. false≢true (sym other ∙ (key_eq_iff key k).1 (sym same))), e)), λ h. h.1)
]

Unbound-cons :
    (lookup : Table) (key : SubjectKey) (scopes : List Scope) (ms : List MappingSubject)
    → Unbound ((key, scopes) ∷ lookup) ms ↔ (All (λ n. key_of n ≢ key) ms × Unbound lookup ms)
unfolding find
Unbound-cons lookup key scopes [] = ((λ h. (tt, tt)), λ h. tt)
Unbound-cons lookup key scopes (m ∷ ms) =
    let one = absent_entry_iff lookup key (key_of m) scopes in
    let more = Unbound-cons lookup key scopes ms in
    (
      (λ h. let p = one.0 h.0 in let q = more.0 h.1 in ((p.0, q.0), (p.1, q.1))),
      λ h. (one.1 (h.0.0, h.1.0), more.1 (h.0.1, h.1.1)),
    )

pub accepted :
    (lookup : Table) (ms : List MappingSubject) {table : Table}
    → add_mappings lookup ms ≡ ok table
    → All IsComplete ms × HasDistinctKeys ms × Unbound lookup ms
unfolding add_mappings
accepted lookup [] h = (tt, tt, tt)
accepted lookup (m ∷ ms) h =
    let (extended, added, rest) = >>=-eq-ok (add_mapping lookup m) _ h in
    let (mapping, e) = add_mapping_inv lookup m added in
    let (complete, distinct, unbound) = accepted extended ms rest in
    let (others, below) = (Unbound-cons lookup (key_of m) m.scopes ms).0 (rw e at unbound) in
    (
      ((mapping.issuer, mapping.subject, mapping.granted), complete),
      (others, distinct),
      (mapping.fresh, below),
    )

accepts :
    (lookup : Table) (ms : List MappingSubject)
    → All IsComplete ms
    → HasDistinctKeys ms
    → Unbound lookup ms
    → (table : Table) × (add_mappings lookup ms ≡ ok table)
unfolding add_mappings
accepts lookup [] complete distinct unbound = (lookup, refl)
accepts lookup (m ∷ ms) (c, complete) (others, distinct) (fresh, below) =
    let extended : Table = (key_of m, m.scopes) ∷ lookup in
    let (table, e) =
      accepts extended ms complete distinct
        ((Unbound-cons lookup (key_of m) m.scopes ms).1 (others, below)) in
    let mapping : IsMapping lookup m = record {
      issuer = c.0;
      subject = c.1;
      fresh = fresh;
      granted = c.2;
    } in
    (table, rw (add_mapping_of lookup m mapping) e)

Unbound-nil : (ms : List MappingSubject) → Unbound [] ms
unfolding find
Unbound-nil [] = tt
Unbound-nil (m ∷ ms) = (refl, Unbound-nil ms)

-- A document is loaded exactly when every mapping names an issuer, a subject and a scope, and no
-- two mappings have the same issuer and subject once the white space around them is removed.
pub add_mappings_iff :
    (ms : List MappingSubject)
    → ((table : Table) × (add_mappings [] ms ≡ ok table)) ↔ (All IsComplete ms × HasDistinctKeys ms)
add_mappings_iff ms =
    (λ w. let (c, d, _) = accepted [] ms w.1 in (c, d), λ h. accepts [] ms h.0 h.1 (Unbound-nil ms))
