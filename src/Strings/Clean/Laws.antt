-- ===== src/Strings/Clean/Laws.antt =====
-- The elements of a cleaned relative path.
use mathlib.Core.List.{reverse-append, reverse-cons, append_assoc, append-nil, cons-ne-nil}
use mathlib.Core.Bool.{false≢true}
use canterbury.Base.{
  List, [], ◌∷◌, ◌++◌, reverse, ◌≡◌, ◌≢◌, refl, sym, ap, ◌∙◌, false, Bool, arith, Bytes, All,
  Bool-cases, ◌⊎◌, inl, inr, ◌=s=◌, =s=_iff, =s=_sound, cons-inj, All-reverse, ◌≡⟨◌⟩◌, ◌∎,
}
use canterbury.Strings.Clean.{dot, dot_dot, go_up, step, run}

-- An element that names an entry of its directory.
abbrev pub IsPlain : Bytes → Type 0
IsPlain part = (part ≢ []) × (part ≢ dot) × (part ≢ dot_dot)

-- A stack of plain elements, or one whose lowest element is `..`.
abbrev Grounded : List Bytes → Type 0
Grounded stack = All IsPlain stack ⊎ ((upper : List Bytes) × (stack ≡ upper ++ dot_dot ∷ []))

-- Below a top that is not `..` the stack stays grounded.
pop-Grounded :
    (top : Bytes) (stack : List Bytes)
    → (top =s= dot_dot) ≡ false
    → Grounded (top ∷ stack)
    → Grounded stack
pop-Grounded top stack ne (inl (plain, k)) = inl k
pop-Grounded top stack ne (inr ([], e)) =
    let same = (=s=_iff top dot_dot).1 (cons-inj e).0 in absurd (false≢true (sym ne ∙ same))
pop-Grounded top stack ne (inr (_ ∷ upper, e)) = inr (upper, (cons-inj e).1)

push-Grounded :
    (part : Bytes) (stack : List Bytes) → IsPlain part → Grounded stack → Grounded (part ∷ stack)
push-Grounded part stack plain (inl k) = inl (plain, k)
push-Grounded part stack plain (inr (upper, e)) = inr (part ∷ upper, ap (◌∷◌ part) e)

go_up-Grounded : (stack : List Bytes) → Grounded stack → Grounded (go_up false stack)
unfolding go_up
go_up-Grounded [] h = inr ([], refl)
go_up-Grounded (top ∷ stack) h = elim (Bool-cases (top =s= dot_dot)) [
  | inl same ↦ rw same (climb (=s=_sound top dot_dot same) h)
  | inr other ↦ rw other (pop-Grounded top stack other h)
]
  where
    climb : top ≡ dot_dot → Grounded (top ∷ stack) → Grounded (dot_dot ∷ top ∷ stack)
    climb same (inl (plain, _)) = absurd (plain.2 same)
    climb same (inr (upper, e)) = inr (dot_dot ∷ upper, ap (◌∷◌ dot_dot) e)

step-Grounded :
    (stack : List Bytes) (part : Bytes) → Grounded stack → Grounded (step false stack part)
unfolding step
step-Grounded stack [] h = h
step-Grounded stack (c ∷ part) h = elim (Bool-cases ((c ∷ part) =s= dot)) [
  | inl one ↦ rw one h
  | inr not_one ↦ elim (Bool-cases ((c ∷ part) =s= dot_dot)) [
    | inl two ↦ rw (not_one, two) (go_up-Grounded stack h)
    | inr not_two ↦
        rw (not_one, not_two)
          (push-Grounded (c ∷ part) stack
            (
              cons-ne-nil c part,
              ground (arith, =s=_iff (c ∷ part) dot),
              ground (arith, =s=_iff (c ∷ part) dot_dot),
            )
            h)
  ]
]

-- Elements that all name an entry, or a path that leaves its directory at once.
abbrev pub Climbs : List Bytes → Type 0
Climbs parts = (rest : List Bytes) × (parts ≡ dot_dot ∷ rest)

reverse-Grounded :
    (stack : List Bytes) → Grounded stack → All IsPlain (reverse stack) ⊎ Climbs (reverse stack)
reverse-Grounded stack (inl k) = inl (All-reverse IsPlain stack k)
reverse-Grounded stack (inr (upper, e)) =
    inr (reverse upper, rw e (reverse-append upper (dot_dot ∷ [])))

pub run-Grounded :
    (stack parts : List Bytes)
    → Grounded stack
    → All IsPlain (run false stack parts) ⊎ Climbs (run false stack parts)
unfolding run
run-Grounded stack [] h = reverse-Grounded stack h
run-Grounded stack (part ∷ parts) h =
    run-Grounded (step false stack part) parts (step-Grounded stack part h)

-- What holds of every element of the input and of `..` holds of every element of the output.
module _ (P : Bytes → Type 0) (up : P dot_dot) where
  step-All :
      (rooted : Bool) (stack : List Bytes) (part : Bytes)
      → All P stack
      → P part
      → All P (step rooted stack part)
  unfolding step go_up
  step-All rooted stack [] h k = h
  step-All rooted [] (c ∷ part) h k = ground arith
  step-All rooted (top ∷ stack) (c ∷ part) h k = ground arith

  pub run-All :
      (rooted : Bool) (stack parts : List Bytes)
      → All P stack
      → All P parts
      → All P (run rooted stack parts)
  unfolding run
  run-All rooted stack [] h k = All-reverse P stack h
  run-All rooted stack (part ∷ parts) h (k, ks) =
      run-All rooted (step rooted stack part) parts (step-All rooted stack part h k) ks

-- Plain elements are left as they are.
step_of_plain :
    (rooted : Bool) (stack : List Bytes) (part : Bytes)
    → IsPlain part
    → step rooted stack part ≡ part ∷ stack
unfolding step
step_of_plain rooted stack [] plain = absurd (plain.0 refl)
step_of_plain rooted stack (c ∷ part) plain =
    ground (arith, =s=_iff (c ∷ part) dot, =s=_iff (c ∷ part) dot_dot)

pub run_of_plain :
    (rooted : Bool) (stack parts : List Bytes)
    → All IsPlain parts
    → run rooted stack parts ≡ reverse stack ++ parts
unfolding run
run_of_plain rooted stack [] h = sym (append-nil _)
run_of_plain rooted stack (part ∷ parts) (plain, h) =
    run rooted (step rooted stack part) parts
    ≡⟨ ap (λ s. run rooted s parts) (step_of_plain rooted stack part plain) ⟩
      run rooted (part ∷ stack) parts
    ≡⟨ run_of_plain rooted (part ∷ stack) parts h ⟩ reverse (part ∷ stack) ++ parts
    ≡⟨ (simp (reverse-cons, append_assoc)) ⟩ reverse stack ++ part ∷ parts ∎
