-- ===== src/VaultFs/Paths/Within.antt =====
-- What it means that a path is within the root.
use mathlib.Core.Bool.{false≢true}
use canterbury.Base.{
  true, false, ◌&&◌, ◌||◌, not, List, [], ◌∷◌, ◌++◌, ◌≡◌, refl, sym, ap, subst, ◌∙◌, arith, Bytes,
  codes, ◌=s=◌, ◌==◌, =s=_iff, Bool-cases, inl, inr,
}
use canterbury.Strings.Affix.{has_prefix}
use canterbury.Strings.Split.{join}
use canterbury.Strings.Clean.{slash, dot, dot_dot, clean}
use canterbury.VaultFs.Paths.{
  elements, drop_common, parents, relative, rooted, base_path, rel, inside, is_within_root,
}

-- The elements of the path go on from those of the root.
abbrev pub ExtendsBy : Bytes → Bytes → List Bytes → Type 0
ExtendsBy root path rest = elements (clean path) ≡ elements (clean root) ++ rest

common_front :
    (bs ts : List Bytes)
    → (front : List Bytes) × (bs ≡ front ++ (drop_common bs ts).0)
      × (ts ≡ front ++ (drop_common bs ts).1)
unfolding drop_common
common_front [] ts = ([], refl, refl)
common_front (b ∷ bs) [] = ([], refl, refl)
common_front (b ∷ bs) (t ∷ ts) = elim (Bool-cases (b =s= t)) [
  | inl same ↦
      let (front, e, f) = common_front bs ts in
      rw same (b ∷ front, ap (λ r. b ∷ r) e, rw ((=s=_iff b t).0 same) (ap (λ r. t ∷ r) f))
  | inr other ↦ rw other ([], refl, refl)
]

-- A relative path that begins with a parent is not inside.
outside :
    (bs ts : List Bytes)
    → let r = join slash (dot_dot ∷ (parents bs ++ ts)) in
      (r =s= dot || (not (r =s= dot_dot) && not (has_prefix r (codes "../")))) ≡ false
unfolding join has_prefix ◌=s=◌
outside [] [] = refl
outside [] (t ∷ ts) = refl
outside (b ∷ bs) ts = refl

relative_inside : (bs ts : List Bytes) → inside (relative (bs, ts)) ≡ true → bs ≡ []
unfolding relative inside
relative_inside [] ts h = refl
relative_inside (b ∷ bs) [] h = absurd (false≢true (sym (outside bs []) ∙ h))
relative_inside (b ∷ bs) (t ∷ ts) h = elim (Bool-cases (b =s= dot_dot)) [
  | inl climbs ↦ absurd (false≢true (rw climbs at h))
  | inr plain ↦ absurd (false≢true (sym (outside bs (t ∷ ts)) ∙ (rw plain at h)))
]

base_path-rooted : (root : Bytes) → has_prefix root (codes "/") ≡ true → base_path root ≡ clean root
unfolding has_prefix clean ◌=s=◌
base_path-rooted [] h = absurd (false≢true h)
base_path-rooted (c ∷ s) h = elim (Bool-cases (c == slash)) [
  | inl same ↦ rw same refl
  | inr other ↦ absurd (ground arith)
]

append-nil : (xs : List Bytes) → xs ++ [] ≡ xs
append-nil [] = refl
append-nil (x ∷ xs) = ap (λ r. x ∷ r) (append-nil xs)

inside-ExtendsBy :
    (bs ts : List Bytes)
    → inside (relative (drop_common bs ts)) ≡ true
    → (rest : List Bytes) × (ts ≡ bs ++ rest)
inside-ExtendsBy bs ts h =
    let (front, e, f) = common_front bs ts in
    let all_common : (drop_common bs ts).0 ≡ [] =
      relative_inside (drop_common bs ts).0 (drop_common bs ts).1 h in
    (
      (drop_common bs ts).1,
      f
          ∙ ap (λ r. r ++ (drop_common bs ts).1)
              (sym (e ∙ ap (λ r. front ++ r) all_common ∙ append-nil front)),
    )

-- A candidate that is accepted as within an absolute root has, once both are cleaned, all the
-- elements of the root in front of its own.
pub is_within_root-ExtendsBy :
    (root candidate : Bytes)
    → has_prefix root (codes "/") ≡ true
    → is_within_root root candidate ≡ true
    → (rest : List Bytes) × ExtendsBy root candidate rest
unfolding is_within_root rel
is_within_root-ExtendsBy root candidate absolute h =
    elim (Bool-cases (clean candidate =s= clean root)) [
      | inl same ↦
          ([], ap elements ((=s=_iff _ _).0 same) ∙ sym (append-nil (elements (clean root))))
      | inr other ↦
          elim (Bool-cases (
            rooted (base_path root) && not (rooted (clean candidate))
            || not (rooted (base_path root)) && rooted (clean candidate))) [
              | inl apart ↦ absurd (false≢true (unfold inside in rw (other, apart) at h))
              | inr alike ↦ inside-ExtendsBy (elements (clean root)) (elements (clean candidate)) (
                  subst
                    (λ b.
                      inside (relative (drop_common (elements b) (elements (clean candidate))))
                      ≡ true)
                    (base_path-rooted root absolute) (rw (other, alike) at h))
            ]
    ]
