-- ===== src/Auth/ScopeMapper/Lookup.antt =====
-- What is found in the table of a loaded document.
use canterbury.Base.{
  List, [], ◌∷◌, Option, none, some, ◌≡◌, ◌≢◌, ◌↔◌, inl, inr, refl, sym, subst, ap, ◌∙◌, Memᴰ,
  Bool-cases, Option-cases, All-Memᴰ, some-inj, if◌then◌else◌,
}
use canterbury.Errors.{ok, >>=-eq-ok, ok-inj}
use canterbury.Domain.Vault.Access.{Scope}
use canterbury.Auth.ScopeMapper.{
  MappingSubject, SubjectKey, key_eq, Table, find, key_of, add_mapping, add_mappings,
}
use canterbury.Auth.ScopeMapper.Adding.{
  key_eq_iff, IsMapping, add_mapping_inv, accepted, HasDistinctKeys,
}

-- The first mapping of a key, as a search through the document.
first_mapping : List MappingSubject → SubjectKey → Option (List Scope)
first_mapping [] key = none
first_mapping (m ∷ ms) key = if key_eq (key_of m) key then some m.scopes else first_mapping ms key

or_else : Option (List Scope) → Option (List Scope) → Option (List Scope)
or_else none other = other
or_else (some scopes) other = some scopes

search_entry :
    (lookup : Table) (m : MappingSubject) (key : SubjectKey) (later : Option (List Scope))
    → IsMapping lookup m
    → or_else (find ((key_of m, m.scopes) ∷ lookup) key) later
      ≡ or_else (find lookup key) (if key_eq (key_of m) key then some m.scopes else later)
unfolding or_else find
search_entry lookup m key later mapping = elim (Bool-cases (key_eq (key_of m) key)) [
  | inl same ↦
      let absent : find lookup key ≡ none =
        subst (λ k. find lookup k ≡ none) ((key_eq_iff (key_of m) key).0 same) mapping.fresh in
      rw (same, absent)
  | inr other ↦ rw other
]

-- The table is searched as the document is.
find-add_mappings :
    (lookup : Table) (ms : List MappingSubject) {table : Table} (key : SubjectKey)
    → add_mappings lookup ms ≡ ok table
    → find table key ≡ or_else (find lookup key) (first_mapping ms key)
unfolding add_mappings first_mapping or_else
find-add_mappings lookup [] key h = elim (Option-cases (find lookup key)) [
  | inl e ↦ rw (← ok-inj h) (rw e)
  | inr (s, e) ↦ rw (← ok-inj h) (rw e)
]
find-add_mappings lookup (m ∷ ms) key h =
    let (extended, added, rest) = >>=-eq-ok (add_mapping lookup m) _ h in
    let (mapping, e) = add_mapping_inv lookup m added in
    find-add_mappings extended ms key rest
    ∙ rw e (search_entry lookup m key (first_mapping ms key) mapping)

first_mapping-Memᴰ :
    (ms : List MappingSubject) (key : SubjectKey) {scopes : List Scope}
    → first_mapping ms key ≡ some scopes
    → (m : MappingSubject) × Memᴰ m ms × (key_of m ≡ key) × (m.scopes ≡ scopes)
unfolding first_mapping
first_mapping-Memᴰ [] key h = cc
first_mapping-Memᴰ (m ∷ ms) key {scopes} h = elim (Bool-cases (key_eq (key_of m) key)) [
  | inl same ↦ (m, Memᴰ.head refl, (key_eq_iff (key_of m) key).0 same, some-inj (rw same at h))
  | inr other ↦
      let (n, listed, k, s) = first_mapping-Memᴰ ms key (rw other at h) in
      (n, Memᴰ.tail listed, k, s)
]

Memᴰ-first_mapping :
    (ms : List MappingSubject) {m : MappingSubject}
    → HasDistinctKeys ms
    → Memᴰ m ms
    → first_mapping ms (key_of m) ≡ some m.scopes
unfolding first_mapping
Memᴰ-first_mapping [] d listed = elim listed [ ]
Memᴰ-first_mapping (n ∷ ms) {m} d (Memᴰ.head e) =
    rw ((key_eq_iff (key_of n) (key_of m)).1 (ap key_of (sym e)))
      (ap (λ (k : MappingSubject). some k.scopes) (sym e))
Memᴰ-first_mapping (n ∷ ms) {m} (others, d) (Memᴰ.tail listed) =
    elim (Bool-cases (key_eq (key_of n) (key_of m))) [
      | inl same ↦ absurd (
          All-Memᴰ (λ k. key_of k ≢ key_of n) ms others listed
            (sym ((key_eq_iff (key_of n) (key_of m)).0 same)))
      | inr other ↦ rw other (Memᴰ-first_mapping ms d listed)
    ]

-- The table of a loaded document holds under a key the scopes of the mapping with that key, and
-- nothing else.
pub find_iff :
    (ms : List MappingSubject) {table : Table} (key : SubjectKey) (scopes : List Scope)
    → add_mappings [] ms ≡ ok table
    → (find table key ≡ some scopes)
      ↔ ((m : MappingSubject) × Memᴰ m ms × (key_of m ≡ key) × (m.scopes ≡ scopes))
find_iff ms {table} key scopes h = (
  λ e. first_mapping-Memᴰ ms key (sym (search_of key) ∙ e),
  λ w.
      let (m, listed, k, s) = w in
      search_of key
      ∙ ap (first_mapping ms) (sym k)
      ∙ Memᴰ-first_mapping ms (accepted [] ms h).1 listed
      ∙ ap some s,
)
  where
    search_of : (k : SubjectKey) → find table k ≡ first_mapping ms k
    search_of k = find-add_mappings [] ms k h ∙ unfold find or_else in refl
