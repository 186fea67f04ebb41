-- ===== src/Common/AssocMap.antt =====
-- `std::unordered_map` and `std::map` as association lists with distinct keys. The order of the
-- list is the map's iteration order.
use Prim.Native.Nat.{suc, ◌≤◌}
use mathlib.Core.Path.{◌≡◌, refl}
use mathlib.Core.Logic.{◌≢◌}
use mathlib.Core.Option.{Option, none, some}
use mathlib.Core.List.{List, [], ◌∷◌}
use native.Mathlib.Omega.{arith}
use scatter_web_project.Common.Tests.{Eq, ◌==◌, if◌then◌else◌, beq_refl, beq-eq-false}
use scatter_web_project.Common.Lists.{length}

abbrev pub Assoc {ℓ κ} : Type ℓ → Type κ → Type (ℓ ⊔ κ)
Assoc K V = List (K × V)

module _ {ℓ κ} {K : Type ℓ} {V : Type κ} ⦃e : Eq K⦄ where
  -- m.find(k)
  unfoldable pub lookup : K → Assoc K V → Option V
  lookup wanted [] = none
  lookup wanted ((key, found) ∷ rest) = if key == wanted then some found else lookup wanted rest

  -- m[k] = v
  unfoldable pub assign : K → V → Assoc K V → Assoc K V
  assign k v [] = (k, v) ∷ []
  assign k v ((j, w) ∷ m) = if j == k then (j, v) ∷ m else (j, w) ∷ assign k v m

  -- m.erase(k)
  unfoldable pub erase : K → Assoc K V → Assoc K V
  erase k [] = []
  erase k ((j, w) ∷ m) = let rest = erase k m in if j == k then rest else (j, w) ∷ rest

  -- No key stands twice.
  abbrev pub Unique : Assoc K V → Type κ
  Unique [] = Unit
  Unique ((j, v) ∷ m) = (lookup j m ≡ none) × Unique m

  pub lookup-assign :
      (k j : K) (v : V) (m : Assoc K V)
      → lookup j (assign k v m) ≡ (if k == j then some v else lookup j m)
  unfolding lookup assign
  lookup-assign k j v [] = refl
  lookup-assign k j v ((i, w) ∷ m) =
      ground (arith, e.same_iff k j, e.same_iff i k, e.same_iff i j, lookup-assign k j v m)

  pub lookup-erase :
      (k j : K) (m : Assoc K V) → lookup j (erase k m) ≡ (if k == j then none else lookup j m)
  unfolding lookup erase
  lookup-erase k j [] = ground arith
  lookup-erase k j ((i, w) ∷ m) =
      ground (arith, e.same_iff k j, e.same_iff i k, e.same_iff i j, lookup-erase k j m)

  pub lookup-assign_self : (k : K) (v : V) (m : Assoc K V) → lookup k (assign k v m) ≡ some v
  lookup-assign_self k v m = rw (lookup-assign k k v m, beq_refl k)

  pub lookup-assign_ne :
      (k j : K) (v : V) (m : Assoc K V) → k ≢ j → lookup j (assign k v m) ≡ lookup j m
  lookup-assign_ne k j v m h = rw (lookup-assign k j v m, beq-eq-false k j h)

  pub lookup-erase_self : (k : K) (m : Assoc K V) → lookup k (erase k m) ≡ none
  lookup-erase_self k m = rw (lookup-erase k k m, beq_refl k)

  pub lookup-erase_ne : (k j : K) (m : Assoc K V) → k ≢ j → lookup j (erase k m) ≡ lookup j m
  lookup-erase_ne k j m h = rw (lookup-erase k j m, beq-eq-false k j h)

  -- A write to a new key adds one entry, and to a present one none.
  pub length-assign_new :
      (k : K) (v : V) (m : Assoc K V) → lookup k m ≡ none → length (assign k v m) ≡ suc (length m)
  unfolding lookup assign
  length-assign_new k v [] h = refl
  length-assign_new k v ((i, w) ∷ m) h = ground (arith, length-assign_new k v m)

  pub length-assign_old :
      (k : K) (v w : V) (m : Assoc K V) → lookup k m ≡ some w → length (assign k v m) ≡ length m
  unfolding lookup assign
  length-assign_old k v w [] h = ground arith
  length-assign_old k v w ((i, x) ∷ m) h = ground (arith, length-assign_old k v w m)

  pub length-assign-le : (k : K) (v : V) (m : Assoc K V) → length (assign k v m) ≤ suc (length m)
  unfolding assign
  length-assign-le k v [] = omega arith
  length-assign-le k v ((i, w) ∷ m) = ground (arith, length-assign-le k v m)

  pub length-erase-le : (k : K) (m : Assoc K V) → length (erase k m) ≤ length m
  unfolding erase
  length-erase-le k [] = omega arith
  length-erase-le k ((i, w) ∷ m) = ground (arith, length-erase-le k m)

  pub erase-eq_of_none : (k : K) (m : Assoc K V) → lookup k m ≡ none → erase k m ≡ m
  unfolding lookup erase
  erase-eq_of_none k [] h = refl
  erase-eq_of_none k ((i, w) ∷ m) h = ground (arith, erase-eq_of_none k m)

  pub assign-Unique : (k : K) (v : V) (m : Assoc K V) → Unique m → Unique (assign k v m)
  unfolding assign lookup
  assign-Unique k v [] u = (refl, tt)
  assign-Unique k v ((i, w) ∷ m) u =
      ground (arith, assign-Unique k v m u.1, lookup-assign k i v m, e.same_iff i k, e.same_iff k i)

  pub erase-Unique : (k : K) (m : Assoc K V) → Unique m → Unique (erase k m)
  unfolding erase lookup
  erase-Unique k [] u = tt
  erase-Unique k ((i, w) ∷ m) u = ground (arith, erase-Unique k m u.1, lookup-erase k i m)
