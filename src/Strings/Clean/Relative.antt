-- ===== src/Strings/Clean/Relative.antt =====
-- A relative path that stays below its directory when it is cleaned.
use mathlib.Core.Bool.{false≢true}
use mathlib.Core.List.{cons-ne-nil}
use canterbury.Base.{
  List, [], ◌∷◌, ◌≡◌, ◌≢◌, refl, sym, ap, ◌∙◌, false, arith, Bytes, codes, All, inl, inr, ◌=s=◌,
  =s=_refl, =s=_iff, cons-inj, ◌≡⟨◌⟩◌, ◌∎,
}
use canterbury.Strings.Trim.{is_empty}
use canterbury.Strings.Affix.{has_prefix}
use canterbury.Strings.Split.{split_on, join}
use canterbury.Strings.Split.Laws.{Lacks, split_on-Lacks, split_on-join}
use canterbury.Strings.Clean.{slash, dot, dot_dot, run, or_dot, clean}
use canterbury.Strings.Clean.Laws.{IsPlain, Climbs, run-Grounded, run-All, run_of_plain}

-- The elements of a path below its directory.
pub record IsInside (path : Bytes) (parts : List Bytes) : Type 0 where
  pub some_part : parts ≢ []
  pub joined : path ≡ join slash parts
  pub plain : All IsPlain parts
  pub no_slash : All (Lacks slash) parts

clean_of_relative :
    (s : Bytes)
    → is_empty s ≡ false
    → has_prefix s (codes "/") ≡ false
    → clean s ≡ or_dot (run false [] (split_on slash s))
unfolding clean has_prefix
clean_of_relative [] e p = cc
clean_of_relative (c ∷ s) e p = ground arith

parts-IsInside :
    (parts : List Bytes)
    → (or_dot parts =s= dot) ≡ false
    → All IsPlain parts
    → All (Lacks slash) parts
    → IsInside (or_dot parts) parts
parts-IsInside [] not_dot plain lacks = absurd (false≢true (sym not_dot ∙ =s=_refl dot))
parts-IsInside (part ∷ parts) not_dot plain lacks = record {
  some_part = cons-ne-nil part parts;
  joined = refl;
  plain = plain;
  no_slash = lacks;
}

-- A path that climbs is `..` or begins with `../`.
leaves_root_lem :
    (parts : List Bytes)
    → Climbs parts
    → (or_dot parts =s= dot_dot) ≡ false
    → has_prefix (or_dot parts) (codes "../") ≡ false
    → ⊥
unfolding join has_prefix
leaves_root_lem [] (rest, e) two prefix = cons-ne-nil _ _ (sym e)
leaves_root_lem (part ∷ []) (rest, e) two prefix =
    false≢true (sym two ∙ (=s=_iff part dot_dot).1 (cons-inj e).0)
leaves_root_lem (part ∷ next ∷ parts) (rest, e) two prefix =
    let prefix' = rw (cons-inj e).0 at prefix in cc

pub clean-IsInside :
    (s : Bytes)
    → is_empty s ≡ false
    → has_prefix s (codes "/") ≡ false
    → (clean s =s= dot) ≡ false
    → (clean s =s= dot_dot) ≡ false
    → has_prefix (clean s) (codes "../") ≡ false
    → (parts : List Bytes) × IsInside (clean s) parts
clean-IsInside s text relative one two prefix =
    let parts = run false [] (split_on slash s) in
    let e = clean_of_relative s text relative in
    elim (run-Grounded [] (split_on slash s) (inl tt)) [
      | inl plain ↦ (
        parts,
        rw e (
            parts-IsInside parts (rw e at one) plain
              (run-All (Lacks slash) (omega arith) false [] _ tt (split_on-Lacks slash s))),
      )
      | inr climbs ↦ absurd (leaves_root_lem parts climbs (rw e at two) (rw e at prefix))
    ]

inside_tests :
    (path : Bytes) (parts : List Bytes)
    → IsInside path parts
    → (is_empty path ≡ false) × (has_prefix path (codes "/") ≡ false)
unfolding join has_prefix
inside_tests path [] h = absurd (h.some_part refl)
inside_tests path ([] ∷ parts) h = absurd (h.plain.0.0 refl)
inside_tests path ((c ∷ part) ∷ []) h = rw h.joined (refl, ground arith)
inside_tests path ((c ∷ part) ∷ next ∷ parts) h = rw h.joined (refl, ground arith)

pub split_on_of_IsInside :
    (path : Bytes) (parts : List Bytes) → IsInside path parts → split_on slash path ≡ parts
split_on_of_IsInside path [] h = absurd (h.some_part refl)
split_on_of_IsInside path (part ∷ parts) h = rw h.joined (split_on-join slash part parts h.no_slash)

or_dot_of_IsInside : (path : Bytes) (parts : List Bytes) → IsInside path parts → or_dot parts ≡ path
or_dot_of_IsInside path [] h = absurd (h.some_part refl)
or_dot_of_IsInside path (part ∷ parts) h = sym h.joined

-- A path of plain elements is clean.
pub clean_of_IsInside :
    (path : Bytes) (parts : List Bytes) → IsInside path parts → clean path ≡ path
clean_of_IsInside path parts h =
    let (text, relative) = inside_tests path parts h in
    clean path
    ≡⟨ clean_of_relative path text relative ⟩ or_dot (run false [] (split_on slash path))
    ≡⟨ ap (λ ps. or_dot (run false [] ps)) (split_on_of_IsInside path parts h) ⟩
      or_dot (run false [] parts)
    ≡⟨ ap or_dot (run_of_plain false [] parts h.plain) ⟩ or_dot parts
    ≡⟨ or_dot_of_IsInside path parts h ⟩ path ∎
