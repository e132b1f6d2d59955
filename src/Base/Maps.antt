-- ===== src/Base/Maps.antt =====
-- Go maps as association lists: `m[k]`, `m[k] = v` and `delete(m, k)`. A `range` loop walks the
-- list; the theorems hold of every list, so of every order of a map's entries.
use mathlib.Core.Path.{◌≡◌, refl, subst}
use mathlib.Core.Logic.{◌↔◌, ◌≢◌, inl, inr}
use mathlib.Core.Bool.{Bool, true}
use mathlib.Core.List.{List, [], ◌∷◌, ◌++◌}
use mathlib.Core.Option.{Option, none, some}
use native.Mathlib.Omega.{arith}
use Prim.Native.Nat.{ℕ}
use mx_chain_notifier_go.Base.Tests.{◌==◌, ==_iff, if◌then◌else◌, Bool-cases}
use mx_chain_notifier_go.Base.Lists.{All}
use mx_chain_notifier_go.Base.Text.{GoString, str_eq, str_eq_iff}

pub record Eq {ℓ} (A : Type ℓ) : Type ℓ where
  pub beq : A → A → Bool
  pub beq_iff : (a b : A) → (beq a b ≡ true) ↔ (a ≡ b)

instance abbrev pub nat_eq : Eq ℕ
nat_eq = record { beq = ◌==◌; beq_iff = ==_iff }

instance abbrev pub string_eq : Eq GoString
string_eq = record { beq = str_eq; beq_iff = str_eq_iff }

module _ {ℓ} {K V : Type ℓ} ⦃e : Eq K⦄ where
  unfoldable pub lookup : K → List (K × V) → Option V
  lookup k [] = none
  lookup k ((j, v) ∷ m) = if e.beq j k then some v else lookup k m

  unfoldable pub insert : K → V → List (K × V) → List (K × V)
  insert k v [] = (k, v) ∷ []
  insert k v ((j, w) ∷ m) = if e.beq j k then (k, v) ∷ m else (j, w) ∷ insert k v m

  -- Every entry with the key goes, as there is at most one in a Go map.
  unfoldable pub delete : K → List (K × V) → List (K × V)
  delete k [] = []
  delete k ((j, w) ∷ m) = let rest = delete k m in if e.beq j k then rest else (j, w) ∷ rest

  pub lookup-insert :
      (k j : K) (v : V) (m : List (K × V))
      → lookup j (insert k v m) ≡ (if e.beq k j then some v else lookup j m)
  unfolding lookup insert
  lookup-insert k j v [] = refl
  lookup-insert k j v ((i, w) ∷ m) =
      ground (arith, e.beq_iff k j, e.beq_iff i k, e.beq_iff i j, lookup-insert k j v m)

  pub lookup-delete :
      (k j : K) (m : List (K × V))
      → lookup j (delete k m) ≡ (if e.beq k j then none else lookup j m)
  unfolding lookup delete
  lookup-delete k j [] = ground arith
  lookup-delete k j ((i, w) ∷ m) =
      ground (arith, e.beq_iff k j, e.beq_iff i k, e.beq_iff i j, lookup-delete k j m)

  -- No key stands twice.
  abbrev pub Unique : List (K × V) → Type ℓ
  Unique [] = Unit
  Unique ((k, v) ∷ m) = (lookup k m ≡ none) × Unique m

  pub Unique-insert : (k : K) (v : V) (m : List (K × V)) → Unique m → Unique (insert k v m)
  unfolding insert lookup
  Unique-insert k v [] u = (refl, tt)
  Unique-insert k v ((i, w) ∷ m) u =
      ground (arith, e.beq_iff i k, e.beq_iff k i, lookup-insert k i v m, Unique-insert k v m u.1)

  pub Unique-delete : (k : K) (m : List (K × V)) → Unique m → Unique (delete k m)
  unfolding delete lookup
  Unique-delete k [] u = tt
  Unique-delete k ((i, w) ∷ m) u = ground (arith, lookup-delete k i m, Unique-delete k m u.1)

  lookup-present : (k : K) (v : V) (xs ys : List (K × V)) → lookup k (xs ++ (k, v) ∷ ys) ≢ none
  unfolding lookup
  lookup-present k v [] ys = ground (arith, e.beq_iff k k)
  lookup-present k v ((i, w) ∷ xs) ys = ground (arith, lookup-present k v xs ys)

  -- In a map without repeated keys each entry is found, wherever it stands.
  pub lookup-middle :
      (k : K) (v : V) (xs ys : List (K × V))
      → Unique (xs ++ (k, v) ∷ ys)
      → lookup k (xs ++ (k, v) ∷ ys) ≡ some v
  unfolding lookup
  lookup-middle k v [] ys u = ground (arith, e.beq_iff k k)
  lookup-middle k v ((i, w) ∷ xs) ys u =
      ground (arith, e.beq_iff i k, lookup-present k v xs ys, lookup-middle k v xs ys u.1)

  -- What holds of every entry holds of one that is found.
  pub lookup-All {κ} :
      (P : K → V → Type κ) (m : List (K × V)) {k : K} {v : V}
      → All (λ entry. P entry.0 entry.1) m
      → lookup k m ≡ some v
      → P k v
  unfolding lookup
  lookup-All P [] h found = cc
  lookup-All P ((j, w) ∷ m) {k} {v} h found = elim (Bool-cases (e.beq j k)) [
    | inl here ↦
        subst (λ x. P x v) ((e.beq_iff j k).0 here)
          (subst (λ x. P j x) (ground (arith, here, found)) h.0)
    | inr other ↦ lookup-All P m h.1 (ground (arith, other, found))
  ]
