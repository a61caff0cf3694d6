-- ===== src/Base/Lists.antt =====
-- Lists measured and indexed by native numbers, under the library's names.
use Prim.Native.Nat.{ℕ, zero, suc, ◌+◌, ◌-◌, ◌≤◌, ◌<◌, min}
use mathlib.Core.Path.{◌≡◌, refl, ap, ◌∙◌}
use mathlib.Core.Logic.{◌⊎◌, inl, inr}
use mathlib.Core.List.{List, [], ◌∷◌, ◌++◌}
use mathlib.Core.Option.{Option, none, some}
use native.Mathlib.Omega.{arith}

module _ {ℓ} {A : Type ℓ} where
  abbrev pub length : List A → ℕ
  length [] = 0
  length (x ∷ xs) = suc (length xs)

  abbrev pub get_elem? : List A → ℕ → Option A
  get_elem? [] i = none
  get_elem? (x ∷ xs) zero = some x
  get_elem? (x ∷ xs) (suc i) = get_elem? xs i

  abbrev pub take : ℕ → List A → List A
  take zero xs = []
  take (suc n) [] = []
  take (suc n) (x ∷ xs) = x ∷ take n xs

  abbrev pub drop : ℕ → List A → List A
  drop zero xs = xs
  drop (suc n) [] = []
  drop (suc n) (x ∷ xs) = drop n xs

module _ {ℓ} {A : Type ℓ} where
  pub length-append : (xs ys : List A) → length (xs ++ ys) ≡ length xs + length ys
  length-append [] ys = omega arith
  length-append (x ∷ xs) ys = omega (arith, length-append xs ys)

  pub take-append-drop : (n : ℕ) (xs : List A) → take n xs ++ drop n xs ≡ xs
  take-append-drop zero xs = refl
  take-append-drop (suc n) [] = refl
  take-append-drop (suc n) (x ∷ xs) = ap (λ l. x ∷ l) (take-append-drop n xs)

  pub length-take : (n : ℕ) (xs : List A) → length (take n xs) ≡ min n (length xs)
  length-take zero xs = omega arith
  length-take (suc n) [] = omega arith
  length-take (suc n) (x ∷ xs) = omega (arith, length-take n xs)

  pub length-drop : (n : ℕ) (xs : List A) → length (drop n xs) ≡ length xs - n
  length-drop zero xs = omega arith
  length-drop (suc n) [] = omega arith
  length-drop (suc n) (x ∷ xs) = omega (arith, length-drop n xs)

  -- A prefix of a prefix, and a prefix of a concatenation that is cut behind it.
  pub take-take : (m n : ℕ) (xs : List A) → m ≤ n → take m (take n xs) ≡ take m xs
  take-take zero n xs h = refl
  take-take (suc m) zero xs h = absurd (omega arith)
  take-take (suc m) (suc n) [] h = refl
  take-take (suc m) (suc n) (x ∷ xs) h = ap (λ l. x ∷ l) (take-take m n xs (omega arith))

  pub take-append : (n : ℕ) (xs ys : List A) → n ≤ length xs → take n (xs ++ ys) ≡ take n xs
  take-append zero xs ys h = refl
  take-append (suc n) [] ys h = absurd (omega arith)
  take-append (suc n) (x ∷ xs) ys h = ap (λ l. x ∷ l) (take-append n xs ys (omega arith))

  pub take-ge : (n : ℕ) (xs : List A) → length xs ≤ n → take n xs ≡ xs
  take-ge zero [] h = refl
  take-ge zero (x ∷ xs) h = absurd (omega arith)
  take-ge (suc n) [] h = refl
  take-ge (suc n) (x ∷ xs) h = ap (λ l. x ∷ l) (take-ge n xs (omega arith))

  pub get_elem?-of_lt : (xs : List A) (i : ℕ) → i < length xs → (a : A) × (get_elem? xs i ≡ some a)
  get_elem?-of_lt [] i h = absurd (omega arith)
  get_elem?-of_lt (x ∷ xs) zero h = (x, refl)
  get_elem?-of_lt (x ∷ xs) (suc i) h = get_elem?-of_lt xs i (omega arith)

  pub lt_of_get_elem? : (xs : List A) (i : ℕ) {a : A} → get_elem? xs i ≡ some a → i < length xs
  lt_of_get_elem? [] i h = ground arith
  lt_of_get_elem? (x ∷ xs) zero h = omega arith
  lt_of_get_elem? (x ∷ xs) (suc i) h = omega (arith, lt_of_get_elem? xs i h)

  pub drop_cons :
      (xs : List A) (i : ℕ) {a : A} → get_elem? xs i ≡ some a → drop i xs ≡ a ∷ drop (suc i) xs
  drop_cons [] i h = ground arith
  drop_cons (x ∷ xs) zero h = ground arith
  drop_cons (x ∷ xs) (suc i) h = drop_cons xs i h

  pub drop_all : (xs : List A) (i : ℕ) → length xs ≤ i → drop i xs ≡ []
  drop_all [] zero h = refl
  drop_all [] (suc i) h = refl
  drop_all (x ∷ xs) zero h = absurd (omega arith)
  drop_all (x ∷ xs) (suc i) h = drop_all xs i (omega arith)

  pub get_elem?-drop :
      (n : ℕ) (xs : List A) (i : ℕ) → get_elem? (drop n xs) i ≡ get_elem? xs (n + i)
  get_elem?-drop zero xs i = ap (get_elem? xs) (omega arith)
  get_elem?-drop (suc n) [] i = refl
  get_elem?-drop (suc n) (x ∷ xs) i =
      get_elem?-drop n xs i
      ∙ ap (get_elem? (x ∷ xs)) (let e : suc (n + i) ≡ suc n + i = omega arith in e)

  pub get_elem?-take :
      (n : ℕ) (xs : List A) (i : ℕ) → i < n → get_elem? (take n xs) i ≡ get_elem? xs i
  get_elem?-take zero xs i h = absurd (omega arith)
  get_elem?-take (suc n) [] i h = refl
  get_elem?-take (suc n) (x ∷ xs) zero h = refl
  get_elem?-take (suc n) (x ∷ xs) (suc i) h = get_elem?-take n xs i (omega arith)

  -- A prefix that is as long as it should be, and what follows it.
  pub take-append_self : (xs ys : List A) → take (length xs) (xs ++ ys) ≡ xs
  take-append_self [] ys = refl
  take-append_self (x ∷ xs) ys = ap (λ l. x ∷ l) (take-append_self xs ys)

  pub take-append_add :
      (n m : ℕ) (xs ys : List A) → length xs ≡ n → take (n + m) (xs ++ ys) ≡ xs ++ take m ys
  take-append_add zero m [] ys h = ap (λ k. take k ys) (omega arith)
  take-append_add zero m (x ∷ xs) ys h = absurd (omega arith)
  take-append_add (suc n) m [] ys h = absurd (omega arith)
  take-append_add (suc n) m (x ∷ xs) ys h =
      ap (λ k. take k (x ∷ xs ++ ys)) (let e : suc n + m ≡ suc (n + m) = omega arith in e)
      ∙ ap (λ l. x ∷ l) (take-append_add n m xs ys (omega arith))

  pub take-add : (n m : ℕ) (xs : List A) → take n xs ++ take m (drop n xs) ≡ take (n + m) xs
  take-add zero m xs = ap (λ k. take k xs) (omega arith)
  take-add (suc n) zero [] = ap (λ k. take k []) (let e : suc n ≡ suc n + 0 = omega arith in e)
  take-add (suc n) (suc m) [] =
      ap (λ k. take k []) (let e : suc (n + suc m) ≡ suc n + suc m = omega arith in e)
  take-add (suc n) m (x ∷ xs) =
      ap (λ l. x ∷ l) (take-add n m xs)
      ∙ ap (λ k. take k (x ∷ xs)) (let e : suc (n + m) ≡ suc n + m = omega arith in e)

  pub drop-append_self : (n : ℕ) (xs ys : List A) → length xs ≡ n → drop n (xs ++ ys) ≡ ys
  drop-append_self zero [] ys h = refl
  drop-append_self zero (x ∷ xs) ys h = absurd (omega arith)
  drop-append_self (suc n) [] ys h = absurd (omega arith)
  drop-append_self (suc n) (x ∷ xs) ys h = drop-append_self n xs ys (omega arith)

  -- An element of two lists one after the other is one of the first or one of the second.
  pub get_elem?-append :
      (xs ys : List A) (k : ℕ) (a : A)
      → get_elem? (xs ++ ys) k ≡ some a
      → ((k < length xs) × (get_elem? xs k ≡ some a)) ⊎ ((j : ℕ) × (get_elem? ys j ≡ some a))
  get_elem?-append [] ys k a h = inr (k, h)
  get_elem?-append (x ∷ xs) ys zero a h = inl (omega arith, h)
  get_elem?-append (x ∷ xs) ys (suc k) a h = elim (get_elem?-append xs ys k a h) [
    | inl (inside, found) ↦ inl (omega arith, found)
    | inr found ↦ inr found
  ]
