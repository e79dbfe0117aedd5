-- ===== src/Base/Dict.antt =====
-- JavaScript's `Map`, and plain objects used as dictionaries: entries in insertion order.
use mathlib.Core.Path.{◌≡◌, refl}
use mathlib.Core.Bool.{cond}
use mathlib.Core.Option.{Option, none, some}
use mathlib.Core.List.{List, [], ◌∷◌, map}
use native.Mathlib.Omega.{arith}
use mocko.Base.Tests.{if◌then◌else◌}
use mocko.Base.Equality.{Eq, ◌==◌}

abbrev pub Dict {ℓ κ} : Type ℓ → Type κ → Type (ℓ ⊔ κ)
Dict K V = List (K × V)

abbrev pub keys {ℓ κ} : {K : Type ℓ} {V : Type κ} → Dict K V → List K
keys = map (λ (k, _). k)

abbrev pub values {ℓ κ} : {K : Type ℓ} {V : Type κ} → Dict K V → List V
values = map (λ (_, v). v)

module _ {ℓ κ} {K : Type ℓ} {V : Type κ} ⦃e : Eq K⦄ where
  -- `map.get(k)`
  unfoldable pub get : K → Dict K V → Option V
  get k [] = none
  get k ((j, v) ∷ d) = let rest = get k d in cond (k == j) (some v) rest

  -- `map.set(k, v)`: a key that is there keeps its place
  unfoldable pub set : K → V → Dict K V → Dict K V
  set k v [] = (k, v) ∷ []
  set k v ((j, w) ∷ d) = if k == j then (k, v) ∷ d else (j, w) ∷ set k v d

  -- `map.delete(k)`
  unfoldable pub delete : K → Dict K V → Dict K V
  delete k [] = []
  delete k ((j, w) ∷ d) = let rest = delete k d in if k == j then rest else (j, w) ∷ rest

  -- No key is listed twice.
  abbrev pub NodupKeys : Dict K V → Type κ
  NodupKeys [] = Unit
  NodupKeys ((k, _) ∷ d) = (get k d ≡ none) × NodupKeys d

  pub get-set :
      (j k : K) (v : V) (d : Dict K V) → get j (set k v d) ≡ (if j == k then some v else get j d)
  unfolding get set
  get-set j k v [] = ground arith
  get-set j k v (x ∷ d) = ground (arith, get-set j k v d)

  pub get-delete :
      (j k : K) (d : Dict K V) → get j (delete k d) ≡ (if j == k then none else get j d)
  unfolding get delete
  get-delete j k [] = ground arith
  get-delete j k (x ∷ d) = ground (arith, get-delete j k d)

  pub set-NodupKeys : (k : K) (v : V) (d : Dict K V) → NodupKeys d → NodupKeys (set k v d)
  unfolding get set
  set-NodupKeys k v [] h = (refl, tt)
  set-NodupKeys k v ((j, w) ∷ d) h = ground (arith, set-NodupKeys k v d h.1, get-set j k v d)

  pub delete-NodupKeys : (k : K) (d : Dict K V) → NodupKeys d → NodupKeys (delete k d)
  unfolding get delete
  delete-NodupKeys k [] h = tt
  delete-NodupKeys k ((j, w) ∷ d) h = ground (arith, delete-NodupKeys k d h.1, get-delete j k d)

  pub get-set_self : (k : K) (v : V) (d : Dict K V) → get k (set k v d) ≡ some v
  get-set_self k v d = ground (arith, get-set k k v d)

  pub get-delete_self : (k : K) (d : Dict K V) → get k (delete k d) ≡ none
  get-delete_self k d = ground (arith, get-delete k k d)

pub ruleset dict_laws = (get-set, get-delete)
