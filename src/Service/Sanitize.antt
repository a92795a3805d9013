-- ===== src/Service/Sanitize.antt =====
-- internal/app/vault/note.go: the frontmatter that a client sees.
use canterbury.Base.{
  Bool, false, ◌≡◌, ◌≢◌, Memᴰ, Bool-cases, inl, inr, subst, sym, ◌↔◌, =s=_iff, List, [], ◌∷◌, Bytes,
  codes, ◌=s=◌, if◌then◌else◌,
}
use canterbury.Strings.Trim.{trim_space}
use canterbury.Strings.Case.{to_lower}
use canterbury.Domain.Vault.Note.{NoteMetadata, Value}

module _ (lower_unicode : Bytes → Bytes) where
  unfoldable pub is_reserved_frontmatter_key : Bytes → Bool
  is_reserved_frontmatter_key key = to_lower lower_unicode (trim_space key) =s= codes "access"

  -- The loop over the entries of the map.
  unfoldable pub without_reserved : List (Bytes × Value) → List (Bytes × Value)
  without_reserved [] = []
  without_reserved ((key, val) ∷ entries) =
      let rest = without_reserved entries in
      if is_reserved_frontmatter_key key then rest else (key, val) ∷ rest

  unfoldable pub sanitize_frontmatter : NoteMetadata → NoteMetadata
  sanitize_frontmatter metadata = record metadata {
    frontmatter = without_reserved metadata.frontmatter;
  }

module _ (lower_unicode : Bytes → Bytes) where
  -- The key is none that the service keeps to itself.
  abbrev IsPublic : Bytes × Value → Type 0
  IsPublic entry = to_lower lower_unicode (trim_space entry.0) ≢ codes "access"

  is_reserved_frontmatter_key_iff :
      (entry : Bytes × Value)
      → (is_reserved_frontmatter_key lower_unicode entry.0 ≡ false) ↔ IsPublic entry
  unfolding is_reserved_frontmatter_key
  is_reserved_frontmatter_key_iff entry = (
    λ plain same.
        cc (plain, (=s=_iff (to_lower lower_unicode (trim_space entry.0)) (codes "access")).1 same),
    λ public. elim (Bool-cases (is_reserved_frontmatter_key lower_unicode entry.0)) [
      | inl reserved ↦ absurd (
          public
            ((=s=_iff (to_lower lower_unicode (trim_space entry.0)) (codes "access")).0 reserved))
      | inr plain ↦ plain
    ],
  )

  kept_head :
      (first : Bytes × Value) (entries : List (Bytes × Value)) {rest : List (Bytes × Value)}
      {entry : Bytes × Value}
      → IsPublic first
      → (Memᴰ entry rest → Memᴰ entry entries × IsPublic entry)
      → Memᴰ entry (first ∷ rest)
      → Memᴰ entry (first ∷ entries) × IsPublic entry
  kept_head first entries public below (Memᴰ.head e) = (Memᴰ.head e, subst IsPublic (sym e) public)
  kept_head first entries public below (Memᴰ.tail m) =
      let (listed, public') = below m in (Memᴰ.tail listed, public')

  Memᴰ-without_reserved :
      (entries : List (Bytes × Value)) {entry : Bytes × Value}
      → Memᴰ entry (without_reserved lower_unicode entries)
      → Memᴰ entry entries × IsPublic entry
  unfolding without_reserved
  Memᴰ-without_reserved [] m = elim m [ ]
  Memᴰ-without_reserved ((key, val) ∷ entries) {entry} m =
      elim (Bool-cases (is_reserved_frontmatter_key lower_unicode key)) [
        | inl reserved ↦
            let (listed, public) = Memᴰ-without_reserved entries (rw reserved at m) in
            (Memᴰ.tail listed, public)
        | inr plain ↦
            kept_head (key, val) entries ((is_reserved_frontmatter_key_iff (key, val)).0 plain)
              (λ n. Memᴰ-without_reserved entries n) (rw plain at m)
      ]

  without_reserved-Memᴰ :
      (entries : List (Bytes × Value)) {entry : Bytes × Value}
      → Memᴰ entry entries
      → IsPublic entry
      → Memᴰ entry (without_reserved lower_unicode entries)
  unfolding without_reserved
  without_reserved-Memᴰ [] m public = elim m [ ]
  without_reserved-Memᴰ ((key, val) ∷ entries) {entry} (Memᴰ.head e) public =
      let plain : is_reserved_frontmatter_key lower_unicode key ≡ false =
        (is_reserved_frontmatter_key_iff (key, val)).1 (subst IsPublic e public) in
      rw plain (Memᴰ.head e)
  without_reserved-Memᴰ ((key, val) ∷ entries) {entry} (Memᴰ.tail m) public =
      elim (Bool-cases (is_reserved_frontmatter_key lower_unicode key)) [
        | inl reserved ↦ rw reserved (without_reserved-Memᴰ entries m public)
        | inr plain ↦ rw plain (Memᴰ.tail (without_reserved-Memᴰ entries m public))
      ]

  -- The frontmatter that a client sees holds exactly those entries of the note's whose key does
  -- not read `access` once white space and case are set aside.
  pub sanitize_frontmatter_iff :
      (metadata : NoteMetadata) (entry : Bytes × Value)
      → Memᴰ entry (sanitize_frontmatter lower_unicode metadata).frontmatter ↔ (
          Memᴰ entry metadata.frontmatter
          × (to_lower lower_unicode (trim_space entry.0) ≢ codes "access"))
  unfolding sanitize_frontmatter
  sanitize_frontmatter_iff metadata entry = (
    Memᴰ-without_reserved metadata.frontmatter,
    λ w. without_reserved-Memᴰ metadata.frontmatter w.0 w.1,
  )
