-- ===== src/Base/Map.antt =====
-- A `sync.Map`: an association list behind its laws. `entries` is what `Range` visits.
use mathlib.Core.Path.{◌≡◌, refl}
use mathlib.Core.Bool.{Bool, true}
use mathlib.Core.Option.{Option, none, some}
use mathlib.Core.List.{List, [], ◌∷◌}
use native.Mathlib.Omega.{arith}
use mathlib.Core.Logic.{◌≢◌, inl, inr}
use void_link_tunnels.Base.Tests.{if◌then◌else◌, Option-cases, Bool-cases}
use void_link_tunnels.Base.Classes.{Key, ◌==◌}

pub record Map {ℓ κ} (K : Type ℓ) (V : Type κ) : Type (ℓ ⊔ κ) where
  pub entries : List (K × V)

module _ {ℓ κ} {K : Type ℓ} {V : Type κ} where
  abbrev pub empty : Map K V
  empty = record { entries = [] }

module _ {ℓ κ} {K : Type ℓ} {V : Type κ} ⦃e : Key K⦄ where
  find : K → List (K × V) → Option V
  find k [] = none
  find k ((j, v) ∷ m) = if j == k then some v else find k m

  without : K → List (K × V) → List (K × V)
  without k [] = []
  without k ((j, v) ∷ m) = let rest = without k m in if j == k then rest else (j, v) ∷ rest

  unfoldable pub load : K → Map K V → Option V
  unfolding find
  load k m = find k m.entries

  unfoldable pub delete : K → Map K V → Map K V
  unfolding without
  delete k m = record { entries = without k m.entries }

  unfoldable pub store : K → V → Map K V → Map K V
  unfolding without
  store k v m = record { entries = (k, v) ∷ without k m.entries }

  find-without :
      (k j : K) (m : List (K × V)) → find j (without k m) ≡ (if k == j then none else find j m)
  unfolding find without
  find-without k j [] = ground arith
  find-without k j ((i, v) ∷ m) =
      ground (arith, find-without k j m, e.same_iff i k, e.same_iff i j, e.same_iff k j)

  pub load-delete :
      (k j : K) (m : Map K V) → load j (delete k m) ≡ (if k == j then none else load j m)
  unfolding load delete
  load-delete k j m = find-without k j m.entries

  pub load-store :
      (k j : K) (v : V) (m : Map K V) → load j (store k v m) ≡ (if k == j then some v else load j m)
  unfolding load store
  load-store k j v m = ground (arith, find-without k j m.entries)

  pub load-empty : (k : K) → load k (empty {V = V}) ≡ none
  unfolding load
  load-empty k = refl

module _ {κ} {V : Type κ} where
  passing : (V → Bool) → Option V → Option V
  passing p none = none
  passing p (some v) = if p v then some v else none

  passing_sound :
      (p : V → Bool) (o : Option V) (v : V) → passing p o ≡ some v → (o ≡ some v) × (p v ≡ true)
  unfolding passing
  passing_sound p none v h = absurd (cc)
  passing_sound p (some w) v h = elim (Bool-cases (p w)) [
    | inl e ↦ ground arith
    | inr e ↦ ground arith
  ]

-- `Range`, stopped at the first value that passes the test. A key is visited with the value
-- that `Load` gives.
module _ {ℓ κ} {K : Type ℓ} {V : Type κ} ⦃e : Key K⦄ where
  first_of_keys : (V → Bool) → Map K V → List (K × V) → Option V
  unfolding passing
  first_of_keys p m [] = none
  first_of_keys p m ((k, _) ∷ l) =
      let rest = first_of_keys p m l in
      elim (passing p (load k m)) [ none ↦ rest | some v ↦ some v ]

  unfoldable pub range_first : (V → Bool) → Map K V → Option V
  unfolding first_of_keys
  range_first p m = first_of_keys p m m.entries

  first_of_keys_sound :
      (p : V → Bool) (m : Map K V) (l : List (K × V)) (v : V)
      → first_of_keys p m l ≡ some v
      → (k : K) × (load k m ≡ some v) × (p v ≡ true)
  unfolding first_of_keys
  first_of_keys_sound p m [] v h = cc
  first_of_keys_sound p m ((k, _) ∷ l) v h = elim (Option-cases (passing p (load k m))) [
    | inl n ↦ first_of_keys_sound p m l v (rw (n, first_of_keys) at h)
    | inr (w, found) ↦
        let (here, good) = passing_sound p (load k m) w found in (k, ground arith, ground arith)
  ]

  -- What `Range` stops at is in the map and passes the test.
  pub range_first_sound :
      (p : V → Bool) (m : Map K V) (v : V)
      → range_first p m ≡ some v
      → (k : K) × (load k m ≡ some v) × (p v ≡ true)
  unfolding range_first
  range_first_sound p m v h = first_of_keys_sound p m m.entries v h

  first_of_keys-ne-none :
      (p : V → Bool) (m : Map K V) (l : List (K × V)) (k : K) (v w : V)
      → load k m ≡ some v
      → p v ≡ true
      → find k l ≡ some w
      → first_of_keys p m l ≢ none
  unfolding first_of_keys find passing
  first_of_keys-ne-none p m [] k v w here good h = cc
  first_of_keys-ne-none p m ((j, u) ∷ l) k v w here good h =
      ground (arith, e.same_iff j k, first_of_keys-ne-none p m l k v w here good)

  -- A value in the map that passes the test keeps `Range` from coming out empty.
  pub range_first-ne-none :
      (p : V → Bool) (m : Map K V) (k : K) (v : V)
      → load k m ≡ some v
      → p v ≡ true
      → range_first p m ≢ none
  unfolding range_first load
  range_first-ne-none p m k v here good = first_of_keys-ne-none p m m.entries k v v here good here

pub ruleset map_laws = (load-store, load-delete, load-empty)
