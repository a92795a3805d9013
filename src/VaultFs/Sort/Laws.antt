-- ===== src/VaultFs/Sort/Laws.antt =====
-- A sorted list of results: its order, and that it holds the results that were sorted.
use Prim.Native.Nat.{Ordering, lt, eq, gt}
use mathlib.Core.List.Permᴰ
use mathlib.Core.List.{Permᴰ}
use canterbury.Base.{
  ◌<◌, true, false, List, [], ◌∷◌, ◌≡◌, ◌≢◌, ◌⊎◌, inl, inr, refl, arith, Bytes, Bool-cases, ltb,
  ◌=s=◌, =s=_iff,
}
use canterbury.Errors.{ok, err≢ok, ok-inj}
use canterbury.Domain.Vault.Search.{
  SearchNotesQuery, SearchNoteResult, normalized_sort, search_sort_path_asc,
  search_sort_modified_desc,
}
use canterbury.VaultFs.Sort.{
  compare_strings, compare_result_path_asc, compare_result_modified_desc, is_gt, Comparison, insert,
  sort_func, sort_by_modified_desc, sort_by_path_asc, sort_by_query,
}

-- No result comes after its successor.
abbrev pub Ascending :
    (SearchNoteResult → SearchNoteResult → Type 0) → List SearchNoteResult → Type 0
Ascending R [] = Unit
Ascending R (x ∷ []) = Unit
Ascending R (x ∷ y ∷ ys) = R x y × Ascending R (y ∷ ys)

abbrev NotAfter : Comparison → SearchNoteResult → SearchNoteResult → Type 0
NotAfter cmp a b = is_gt (cmp a b) ≡ false

compare_strings_asym :
    (s t : Bytes) → is_gt (compare_strings s t) ≡ true → is_gt (compare_strings t s) ≡ false
unfolding compare_strings
compare_strings_asym [] [] h = refl
compare_strings_asym [] (b ∷ t) h = cc
compare_strings_asym (a ∷ s) [] h = refl
compare_strings_asym (a ∷ s) (b ∷ t) h = ground (arith, compare_strings_asym s t)

path_asc_asym :
    (a b : SearchNoteResult)
    → is_gt (compare_result_path_asc a b) ≡ true
    → is_gt (compare_result_path_asc b a) ≡ false
unfolding compare_result_path_asc
path_asc_asym a b h = compare_strings_asym a.ref.path b.ref.path h

modified_desc_asym :
    (a b : SearchNoteResult)
    → is_gt (compare_result_modified_desc a b) ≡ true
    → is_gt (compare_result_modified_desc b a) ≡ false
unfolding compare_result_modified_desc
modified_desc_asym a b h = ground (arith, path_asc_asym a b)

module _ (cmp : Comparison) where
  insert-Permᴰ :
      (x : SearchNoteResult) (ys : List SearchNoteResult) → Permᴰ (insert cmp x ys) (x ∷ ys)
  unfolding insert
  insert-Permᴰ x [] = Permᴰ.refl _
  insert-Permᴰ x (y ∷ ys) = elim (Bool-cases (is_gt (cmp x y))) [
    | inl after ↦
        rw after (Permᴰ.trans (Permᴰ.cons refl (insert-Permᴰ x ys)) (Permᴰ.swap refl refl))
    | inr before ↦ rw before (Permᴰ.refl _)
  ]

  sort_func-Permᴰ : (xs : List SearchNoteResult) → Permᴰ (sort_func cmp xs) xs
  unfolding sort_func
  sort_func-Permᴰ [] = Permᴰ.nil
  sort_func-Permᴰ (x ∷ xs) =
      Permᴰ.trans (insert-Permᴰ x (sort_func cmp xs)) (Permᴰ.cons refl (sort_func-Permᴰ xs))

  module _
      (asym : (a b : SearchNoteResult) → is_gt (cmp a b) ≡ true → is_gt (cmp b a) ≡ false) where
    insert-Ascending :
        (x : SearchNoteResult) (ys : List SearchNoteResult)
        → Ascending (NotAfter cmp) ys
        → Ascending (NotAfter cmp) (insert cmp x ys)
    unfolding insert
    insert-Ascending x [] h = tt
    insert-Ascending x (y ∷ []) h = elim (Bool-cases (is_gt (cmp x y))) [
      | inl after ↦ rw after (asym x y after, tt)
      | inr before ↦ rw before (before, tt)
    ]
    insert-Ascending x (y ∷ z ∷ zs) (le, h) =
        let below = insert-Ascending x (z ∷ zs) h in
        elim (Bool-cases (is_gt (cmp x y))) [
          | inr before ↦ rw before (before, (le, h))
          | inl after ↦ elim (Bool-cases (is_gt (cmp x z))) [
            | inl after' ↦ rw after (rw after' (le, rw after' at below))
            | inr before' ↦ rw after (rw before' (asym x y after, rw before' at below))
          ]
        ]

    sort_func-Ascending : (xs : List SearchNoteResult) → Ascending (NotAfter cmp) (sort_func cmp xs)
    unfolding sort_func
    sort_func-Ascending [] = tt
    sort_func-Ascending (x ∷ xs) = insert-Ascending x (sort_func cmp xs) (sort_func-Ascending xs)

-- The order of paths, byte by byte.
abbrev pub PathUpTo : SearchNoteResult → SearchNoteResult → Type 0
PathUpTo a b = compare_strings a.ref.path b.ref.path ≢ gt

-- Modified later, or at the same instant and with a path that is not greater.
abbrev pub NewerUpTo : SearchNoteResult → SearchNoteResult → Type 0
NewerUpTo a b =
    (b.metadata.modified_at < a.metadata.modified_at)
    ⊎ ((a.metadata.modified_at ≡ b.metadata.modified_at) × PathUpTo a b)

not_gt : (o : Ordering) → is_gt o ≡ false → o ≢ gt
not_gt lt h e = cc
not_gt eq h e = cc
not_gt gt h e = cc

Ascending-map :
    (R S : SearchNoteResult → SearchNoteResult → Type 0) (xs : List SearchNoteResult)
    → ((a b : SearchNoteResult) → R a b → S a b)
    → Ascending R xs
    → Ascending S xs
Ascending-map R S [] f h = tt
Ascending-map R S (x ∷ []) f h = tt
Ascending-map R S (x ∷ y ∷ ys) f (r, h) = (f x y r, Ascending-map R S (y ∷ ys) f h)

path_asc_up_to : (a b : SearchNoteResult) → NotAfter compare_result_path_asc a b → PathUpTo a b
unfolding compare_result_path_asc
path_asc_up_to a b h = not_gt (compare_strings a.ref.path b.ref.path) h

modified_desc_up_to :
    (a b : SearchNoteResult) → NotAfter compare_result_modified_desc a b → NewerUpTo a b
unfolding compare_result_modified_desc
modified_desc_up_to a b h = elim (Bool-cases (ltb b.metadata.modified_at a.metadata.modified_at)) [
  | inl newer ↦ inl (ground arith)
  | inr not_newer ↦ elim (Bool-cases (ltb a.metadata.modified_at b.metadata.modified_at)) [
    | inl older ↦ absurd (ground arith)
    | inr same ↦ inr (ground arith, path_asc_up_to a b (ground arith))
  ]
]

-- The order that a query asks for.
abbrev pub IsInOrder : SearchNotesQuery → List SearchNoteResult → Type 0
IsInOrder query results =
    ((normalized_sort query ≡ search_sort_modified_desc) × Ascending NewerUpTo results)
    ⊎ ((normalized_sort query ≡ search_sort_path_asc) × Ascending PathUpTo results)

-- Sorting as a query asks keeps the results, each as often as before, and puts them in its order:
-- the latest first, and by path where the times agree, or by path.
pub sort_by_query-IsInOrder :
    (query : SearchNotesQuery) {sort : List SearchNoteResult → List SearchNoteResult}
    (results : List SearchNoteResult)
    → sort_by_query query ≡ ok sort
    → Permᴰ (sort results) results × IsInOrder query (sort results)
unfolding sort_by_query sort_by_modified_desc sort_by_path_asc
sort_by_query-IsInOrder query {sort} results h =
    elim (Bool-cases (normalized_sort query =s= search_sort_modified_desc)) [
      | inl modified ↦ rw (← ok-inj (rw modified at h)) (
        sort_func-Permᴰ compare_result_modified_desc results,
        inl (
          (=s=_iff _ _).0 modified,
          Ascending-map _ _ _ modified_desc_up_to
              (sort_func-Ascending compare_result_modified_desc modified_desc_asym results),
        ),
      )
      | inr other ↦ elim (Bool-cases (normalized_sort query =s= search_sort_path_asc)) [
        | inl path ↦ rw (← ok-inj (rw (other, path) at h)) (
          sort_func-Permᴰ compare_result_path_asc results,
          inr (
            (=s=_iff _ _).0 path,
            Ascending-map _ _ _ path_asc_up_to
                (sort_func-Ascending compare_result_path_asc path_asc_asym results),
          ),
        )
        | inr neither ↦ absurd (err≢ok (rw (other, neither) at h))
      ]
    ]
