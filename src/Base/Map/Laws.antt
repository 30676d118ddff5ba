-- ===== src/Base/Map/Laws.antt =====
-- The laws of the association lists.
use chain_forge.Base.{true, ◌++◌}
use Prim.Native.Nat.{◌+◌}
use mathlib.Core.Path.{◌≡◌, refl}
use mathlib.Core.Bool.{false}
use mathlib.Core.Option.{none, some}
use mathlib.Core.List.{◌++◌, [], ◌∷◌}
use native.Mathlib.Omega.{arith}
use chain_forge.Base.Tests.{if◌then◌else◌}
use chain_forge.Base.Lists.{length}
use chain_forge.Base.Keys.{Eq, ◌==◌, beq_self}
use chain_forge.Base.Map.{contains, Map, lookup, insert, erase, IsMap}

module _ {ℓ κ} {K : Type ℓ} {V : Type κ} ⦃e : Eq K⦄ where
  pub lookup-insert :
      (j k : K) (v : V) (m : Map K V)
      → lookup j (insert k v m) ≡ (if j == k then some v else lookup j m)
  lookup-insert j k v [] = refl
  lookup-insert j k v ((i, w) ∷ m) =
      ground (arith, e.beq_iff j k, e.beq_iff k i, e.beq_iff j i, lookup-insert j k v m)

  pub lookup-insert_self : (k : K) (v : V) (m : Map K V) → lookup k (insert k v m) ≡ some v
  lookup-insert_self k v m = ground (arith, lookup-insert k k v m, beq_self k)

  pub lookup-erase_ne :
      (j k : K) (m : Map K V) → (j == k) ≡ false → lookup j (erase k m) ≡ lookup j m
  lookup-erase_ne j k [] h = refl
  lookup-erase_ne j k ((i, w) ∷ m) h =
      ground (arith, e.beq_iff j k, e.beq_iff k i, e.beq_iff j i, lookup-erase_ne j k m h)

  pub lookup-erase_self : (k : K) (m : Map K V) → IsMap m → lookup k (erase k m) ≡ none
  lookup-erase_self k [] h = refl
  lookup-erase_self k ((i, w) ∷ m) h = ground (arith, e.beq_iff k i, lookup-erase_self k m h.1)

  pub lookup-erase :
      (j k : K) (m : Map K V)
      → IsMap m
      → lookup j (erase k m) ≡ (if j == k then none else lookup j m)
  lookup-erase j k m h =
      ground (arith, e.beq_iff j k, lookup-erase_self k m h, lookup-erase_ne j k m)

  pub insert-IsMap : (k : K) (v : V) (m : Map K V) → IsMap m → IsMap (insert k v m)
  insert-IsMap k v [] h = (refl, tt)
  insert-IsMap k v ((i, w) ∷ m) h =
      ground (arith, insert-IsMap k v m h.1, lookup-insert i k v m, e.beq_iff i k, e.beq_iff k i)

  pub erase-IsMap : (k : K) (m : Map K V) → IsMap m → IsMap (erase k m)
  erase-IsMap k [] h = tt
  erase-IsMap k ((i, w) ∷ m) h =
      ground (arith, erase-IsMap k m h.1, lookup-erase_ne i k m, e.beq_iff i k, e.beq_iff k i)

  pub length-erase :
      (k : K) (v : V) (m : Map K V) → lookup k m ≡ some v → length (erase k m) + 1 ≡ length m
  length-erase k v [] h = cc
  length-erase k v ((i, w) ∷ m) h = ground (arith, length-erase k v m)

  pub erase_absent : (k : K) (m : Map K V) → lookup k m ≡ none → erase k m ≡ m
  erase_absent k [] h = refl
  erase_absent k ((i, w) ∷ m) h = ground (arith, erase_absent k m)

module _ {ℓ κ} {K : Type ℓ} {V : Type κ} ⦃e : Eq K⦄ where
  contains-append : (k : K) (v : V) (m n : Map K V) → contains k (m ++ (k, v) ∷ n) ≡ true
  contains-append k v [] n = ground (arith, beq_self k)
  contains-append k v ((i, w) ∷ m) n = ground (arith, contains-append k v m n)

  pub lookup_before : (k : K) (v : V) (m n : Map K V) → IsMap (m ++ (k, v) ∷ n) → lookup k m ≡ none
  lookup_before k v [] n h = refl
  lookup_before k v ((i, w) ∷ m) n h =
      ground (arith, lookup_before k v m n h.1, contains-append k v m n, e.beq_iff k i)

  pub insert_absent :
      (k : K) (v : V) (m : Map K V) → lookup k m ≡ none → insert k v m ≡ m ++ (k, v) ∷ []
  insert_absent k v [] h = refl
  insert_absent k v ((i, w) ∷ m) h = ground (arith, insert_absent k v m)
