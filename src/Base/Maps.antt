-- ===== src/Base/Maps.antt =====
-- Go maps, as association lists that hold a key at most once. A read of a missing key gives
-- `none`; where the source reads the zero value, the model says so with a default.
use Prim.Native.Nat.{ℕ, suc}
use Prim.Native.String.{String}
use mathlib.Core.Path.{◌≡◌, refl}
use mathlib.Core.Logic.{◌↔◌}
use mathlib.Core.Bool.{Bool, true}
use mathlib.Core.Option.{Option, none, some}
use mathlib.Core.List.{List, [], ◌∷◌}
use native.Mathlib.Omega.{arith}
use text.Mathlib.Text.{◌==◌ as str_eq}
use text.Mathlib.TextEquality.{eq_iff}
use advanced_group_chat_syst.Base.Tests.{nat_beq, nat_beq_iff, if◌then◌else◌}
use advanced_group_chat_syst.Base.Lists.{length}

-- Equality of keys, as Go's `==`: a test, and what it decides.
pub record Eq {ℓ} (K : Type ℓ) : Type ℓ where
  pub equals : (k j : K) → Bool
  pub equals_iff : (k j : K) → (equals k j ≡ true) ↔ (k ≡ j)

infix 50 ◌==◌
abbrev pub ◌==◌ {ℓ} : {K : Type ℓ} ⦃e : Eq K⦄ (k j : K) → Bool
◌==◌ ⦃e⦄ k j = e.equals k j

instance abbrev pub nat_eq : Eq ℕ
nat_eq = record { equals = nat_beq; equals_iff = nat_beq_iff }

instance abbrev pub string_eq : Eq String
string_eq = record { equals = str_eq; equals_iff = eq_iff }

abbrev pub Map {ℓ κ} : Type ℓ → Type κ → Type (ℓ ⊔ κ)
Map K V = List (K × V)

module _ {ℓ κ} {K : Type ℓ} {V : Type κ} ⦃e : Eq K⦄ where
  -- m[k], with the "found" flag
  unfoldable pub lookup : K → Map K V → Option V
  lookup k [] = none
  lookup k ((j, v) ∷ m) = if j == k then some v else lookup k m

  -- m[k] = v
  unfoldable pub insert : K → V → Map K V → Map K V
  insert k v [] = (k, v) ∷ []
  insert k v ((j, w) ∷ m) = if j == k then (j, v) ∷ m else (j, w) ∷ insert k v m

  -- delete(m, k)
  unfoldable pub delete : K → Map K V → Map K V
  delete k [] = []
  delete k ((j, v) ∷ m) = let rest = delete k m in if j == k then rest else (j, v) ∷ rest

  -- A read after a write, and after a deletion.
  pub lookup-insert :
      (new key : K) (value : V) (m : Map K V)
      → lookup key (insert new value m) ≡ (if new == key then some value else lookup key m)
  unfolding lookup insert
  lookup-insert new key value [] = refl
  lookup-insert new key value ((i, w) ∷ m) =
      let rest = lookup-insert new key value m in
      ground (arith, rest, e.equals_iff new key, e.equals_iff i new, e.equals_iff i key)

  pub lookup-delete :
      (old key : K) (m : Map K V)
      → lookup key (delete old m) ≡ (if old == key then none else lookup key m)
  unfolding lookup delete
  lookup-delete old key [] = ground arith
  lookup-delete old key ((i, w) ∷ m) =
      let rest = lookup-delete old key m in
      ground (arith, rest, e.equals_iff old key, e.equals_iff i old, e.equals_iff i key)

  -- A new key makes the map longer by one; an old key keeps its length.
  pub length-insert_new :
      (k : K) (v : V) (m : Map K V) → lookup k m ≡ none → length (insert k v m) ≡ suc (length m)
  unfolding lookup insert
  length-insert_new k v [] h = refl
  length-insert_new k v ((j, w) ∷ m) h = ground (arith, length-insert_new k v m)

  pub length-insert_old :
      (k : K) (v w : V) (m : Map K V) → lookup k m ≡ some w → length (insert k v m) ≡ length m
  unfolding lookup insert
  length-insert_old k v w [] h = ground arith
  length-insert_old k v w ((j, u) ∷ m) h = ground (arith, length-insert_old k v w m)

pub ruleset map_laws = (lookup-insert, lookup-delete)
