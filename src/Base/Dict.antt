-- ===== src/Base/Dict.antt =====
-- `std::unordered_map` as an association list: `find`, `operator[]` on the left of `=`, `erase`,
-- `size` and the keys in some order.
use mathlib.Core.Path.{◌≡◌, refl}
use mathlib.Core.Option.{Option, none, some}
use mathlib.Core.List.{List, [], ◌∷◌}
use native.Mathlib.Omega.{arith}
use justice_flow.Base.Tests.{if◌then◌else◌}
use justice_flow.Base.Keys.{Eq, ◌==◌}

abbrev pub Dict {ℓ κ} : Type ℓ → Type κ → Type (ℓ ⊔ κ)
Dict K V = List (K × V)

module _ {ℓ κ} {K : Type ℓ} {V : Type κ} ⦃e : Eq K⦄ where
  unfoldable pub lookup : K → Dict K V → Option V
  lookup a [] = none
  lookup a ((b, v) ∷ d) = if b == a then some v else lookup a d

  unfoldable pub insert : K → V → Dict K V → Dict K V
  insert a v [] = (a, v) ∷ []
  insert a v ((b, old) ∷ d) = if b == a then (a, v) ∷ d else (b, old) ∷ insert a v d

  unfoldable pub erase : K → Dict K V → Dict K V
  erase a [] = []
  erase a ((b, old) ∷ d) = let rest = erase a d in if b == a then rest else (b, old) ∷ rest

  unfoldable pub keys : Dict K V → List K
  keys [] = []
  keys ((b, old) ∷ d) = b ∷ keys d

  pub lookup-insert :
      (a b : K) (v : V) (d : Dict K V)
      → lookup b (insert a v d) ≡ (if a == b then some v else lookup b d)
  unfolding lookup insert
  lookup-insert a b v [] = refl
  lookup-insert a b v ((c, old) ∷ d) =
      ground (arith, e.test_iff a b, e.test_iff c a, e.test_iff c b, lookup-insert a b v d)

  pub lookup-erase :
      (a b : K) (d : Dict K V) → lookup b (erase a d) ≡ (if a == b then none else lookup b d)
  unfolding lookup erase
  lookup-erase a b [] = ground arith
  lookup-erase a b ((c, old) ∷ d) =
      ground (arith, e.test_iff a b, e.test_iff c a, e.test_iff c b, lookup-erase a b d)

  pub lookup-insert_self : (a : K) (v : V) (d : Dict K V) → lookup a (insert a v d) ≡ some v
  lookup-insert_self a v d = ground (arith, lookup-insert a a v d, e.test_iff a a)

  pub lookup-erase_self : (a : K) (d : Dict K V) → lookup a (erase a d) ≡ none
  lookup-erase_self a d = ground (arith, lookup-erase a a d, e.test_iff a a)
