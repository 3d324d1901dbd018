-- ===== src/Base/SortedMap.antt =====
-- The standard library's `BTreeMap`, as the list of its pairs in the order of its keys.
pub mod Laws
use Prim.Native.Nat.{ℕ, Ordering}
use mathlib.Core.Path.{◌≡◌}
use mathlib.Core.Bool.{Bool, true, false}
use mathlib.Core.Option.{Option, none, some}
use mathlib.Core.List.{List, [], ◌∷◌}
use git_internal.Base.Lists.{All}

module _ {ℓ} {A : Type ℓ} where
  -- A pair put into a map whose first pair and rest are given.
  abbrev pub place : Ordering → A → A → List (A) → List (A) → List (A)
  place Ordering.lt new first rest placed = new ∷ first ∷ rest
  place Ordering.eq new first rest placed = new ∷ rest
  place Ordering.gt new first rest placed = first ∷ placed

  abbrev pub without : Ordering → A → List (A) → List (A) → List (A)
  without Ordering.lt first rest removed = first ∷ rest
  without Ordering.eq first rest removed = rest
  without Ordering.gt first rest removed = first ∷ removed

  abbrev pub found : Ordering → A → Option A → Option A
  found Ordering.lt v later = none
  found Ordering.eq v later = some v
  found Ordering.gt v later = later

module _ {ℓ κ} {K : Type ℓ} {V : Type κ} (cmp : K → K → Ordering) where
  abbrev pub insert : K → V → List (K × V) → List (K × V)
  insert k v [] = (k, v) ∷ []
  insert k v (p ∷ m) = place (cmp k p.0) (k, v) p m (insert k v m)

  abbrev pub get : K → List (K × V) → Option V
  get k [] = none
  get k (p ∷ m) = found (cmp k p.0) p.1 (get k m)

  abbrev pub remove : K → List (K × V) → List (K × V)
  remove k [] = []
  remove k (p ∷ m) = without (cmp k p.0) p m (remove k m)

  -- The keys in order, without repetition.
  abbrev pub Increasing : List (K × V) → Type (ℓ ⊔ κ)
  Increasing [] = Unit {ℓ ⊔ κ}
  Increasing (p ∷ m) = All (λ (q : K × V). cmp p.0 q.0 ≡ Ordering.lt) m × Increasing m

-- What makes a comparison a total order.
pub record IsOrder {ℓ} {K : Type ℓ} (cmp : K → K → Ordering) : Type ℓ where
  pub same : (a : K) → cmp a a ≡ Ordering.eq
  pub eq_of_same : (a b : K) → cmp a b ≡ Ordering.eq → a ≡ b
  pub greater : (a b : K) → cmp a b ≡ Ordering.gt → cmp b a ≡ Ordering.lt
  pub less_trans :
      (a b c : K) → cmp a b ≡ Ordering.lt → cmp b c ≡ Ordering.lt → cmp a c ≡ Ordering.lt
