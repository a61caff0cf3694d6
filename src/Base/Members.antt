-- ===== src/Base/Members.antt =====
-- Lists as finite sets: members, repetitions, and two lists that are too long to share nothing.
use Prim.Native.Nat.{suc, ◌+◌, ◌≤◌, ◌<◌}
use mathlib.Core.Path.{◌≡◌, refl, subst}
use mathlib.Core.Logic.{◌≢◌, ◌⊎◌, inl, inr}
use mathlib.Core.List.{List, [], ◌∷◌, ◌++◌}
use native.Mathlib.Omega.{arith}
use advanced_group_chat_syst.Base.Tests.{if◌then◌else◌, Bool-cases}
use advanced_group_chat_syst.Base.Lists.{length, length-append}
use advanced_group_chat_syst.Base.Maps.{Eq}

abbrev pub In : {A : Type 0} → A → List A → Type 0
In a [] = ⊥
In a (x ∷ xs) = (a ≡ x) ⊎ In a xs

-- No member stands twice.
abbrev pub Distinct : {A : Type 0} → List A → Type 0
Distinct [] = Unit {0}
Distinct (x ∷ xs) = (In x xs → ⊥) × Distinct xs

abbrev pub Within : {A : Type 0} → List A → List A → Type 0
Within {A} xs ms = (a : A) → In a xs → In a ms

pub In-append : {A : Type 0} (a : A) (xs ys : List A) → In a (xs ++ ys) → In a xs ⊎ In a ys
In-append a [] ys h = inr h
In-append a (x ∷ xs) ys (inl e) = inl (inl e)
In-append a (x ∷ xs) ys (inr h) = elim (In-append a xs ys h) [ inl l ↦ inl (inr l) | inr r ↦ inr r ]

Distinct-append :
    {A : Type 0} (xs ys : List A)
    → Distinct xs
    → Distinct ys
    → ((a : A) → In a xs → In a ys → ⊥)
    → Distinct (xs ++ ys)
Distinct-append [] ys d e apart = e
Distinct-append (x ∷ xs) ys (new, d) e apart = (
  λ h. elim (In-append x xs ys h) [ inl l ↦ new l | inr r ↦ apart x (inl refl) r ],
  Distinct-append xs ys d e (λ a l r. apart a (inr l) r),
)

module _ {A : Type 0} ⦃e : Eq A⦄ where
  -- The list without the first occurrence.
  abbrev without : A → List A → List A
  without a [] = []
  without a (x ∷ xs) = let rest = without a xs in if e.equals a x then xs else x ∷ rest

  length-without : (a : A) (xs : List A) → In a xs → length xs ≡ suc (length (without a xs))
  length-without a [] h = absurd h
  length-without a (x ∷ xs) (inl same) = ground (arith, e.equals_iff a x)
  length-without a (x ∷ xs) (inr h) = ground (arith, length-without a xs h)

  In-without : (a b : A) (xs : List A) → b ≢ a → In b xs → In b (without a xs)
  In-without a b [] other h = h
  In-without a b (x ∷ xs) other h = ground (arith, e.equals_iff a x, In-without a b xs other)

  pub length-le_of_Within : (xs ms : List A) → Distinct xs → Within xs ms → length xs ≤ length ms
  length-le_of_Within [] ms d sub = omega arith
  length-le_of_Within (x ∷ xs) ms (new, d) sub = omega (
    arith,
    length-without x ms (sub x (inl refl)),
    length-le_of_Within xs (without x ms) d
        (λ a h. In-without x a ms (λ same. new (subst (λ b. In b xs) same h)) (sub a (inr h))),
  )

  pub dec_In : (a : A) (xs : List A) → In a xs ⊎ (In a xs → ⊥)
  dec_In a [] = inr (λ h. h)
  dec_In a (x ∷ xs) = elim (Bool-cases (e.equals a x)) [
    | inl same ↦ inl (inl ((e.equals_iff a x).0 same))
    | inr other ↦ elim (dec_In a xs) [
      | inl h ↦ inl (inr h)
      | inr none_in ↦ inr (λ h. ground (arith, e.equals_iff a x))
    ]
  ]

  find_shared : (xs ys : List A) → ((a : A) × In a xs × In a ys) ⊎ ((a : A) → In a xs → In a ys → ⊥)
  find_shared [] ys = inr (λ a h k. h)
  find_shared (x ∷ xs) ys = elim (dec_In x ys) [
    | inl here ↦ inl (x, inl refl, here)
    | inr gone ↦ elim (find_shared xs ys) [
      | inl (a, h, k) ↦ inl (a, inr h, k)
      | inr apart ↦ inr (λ a h k. elim h [
        | inl same ↦ gone (subst (λ b. In b ys) same k)
        | inr later ↦ apart a later k
      ])
    ]
  ]

  -- Two lists without repetition, that together are longer than a list that holds all their
  -- members, share a member.
  pub shared_member :
      (xs ys ms : List A)
      → Distinct xs
      → Distinct ys
      → Within xs ms
      → Within ys ms
      → length ms < length xs + length ys
      → (a : A) × In a xs × In a ys
  shared_member xs ys ms d f sub sub' long = elim (find_shared xs ys) [
    | inl found ↦ found
    | inr apart ↦ absurd (
        omega (
          arith,
          length-append xs ys,
          length-le_of_Within (xs ++ ys) ms (Distinct-append xs ys d f apart)
              (λ a h. elim (In-append a xs ys h) [ inl l ↦ sub a l | inr r ↦ sub' a r ]),
        ))
  ]
