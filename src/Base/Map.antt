-- ===== src/Base/Map.antt =====
-- A JavaScript `Map` with numbers as keys, in insertion order: `put` is its `set`, which replaces a
-- value in place and appends a new key.
use Prim.Native.Nat.{ℕ}
use mathlib.Core.Path.{◌≡◌, refl}
use mathlib.Core.Logic.{◌≢◌, inl, inr}
use mathlib.Core.Bool.{Bool, true, false}
use mathlib.Core.List
use mathlib.Core.List.{List, [], ◌∷◌, ◌++◌}
use mathlib.Core.Option.{Option, none, some}
use native.Mathlib.Omega.{arith}
use ocap2_web.Base.Tests.{◌==◌, Bool-cases, if◌then◌else◌}
use ocap2_web.Base.Lists.{contains}

abbrev pub Map {ℓ} : Type ℓ → Type ℓ
Map V = List (ℕ × V)

module _ {ℓ} {V : Type ℓ} where
  abbrev pub keys : Map V → List ℕ
  keys = List.map (λ e. e.0)

  abbrev pub values : Map V → List V
  values = List.map (λ e. e.1)

  unfoldable pub get : ℕ → Map V → Option V
  get k [] = none
  get k ((j, v) ∷ m) = if j == k then some v else get k m

  unfoldable pub has : ℕ → Map V → Bool
  has k [] = false
  has k ((j, v) ∷ m) = if j == k then true else has k m

  unfoldable pub put : ℕ → V → Map V → Map V
  put k v [] = (k, v) ∷ []
  put k v ((j, w) ∷ m) = if j == k then (k, v) ∷ m else (j, w) ∷ put k v m

  unfoldable pub delete : ℕ → Map V → Map V
  delete k [] = []
  delete k ((j, w) ∷ m) = if j == k then m else (j, w) ∷ delete k m

  pub get-put :
      (k j : ℕ) (v : V) (m : Map V) → get j (put k v m) ≡ (if k == j then some v else get j m)
  unfolding get put
  get-put k j v [] = refl
  get-put k j v ((i, w) ∷ m) = ground (arith, get-put k j v m)

  pub get-put_self : (k : ℕ) (v : V) (m : Map V) → get k (put k v m) ≡ some v
  get-put_self k v m = ground (arith, get-put k k v m)

  pub get-delete_ne : (k j : ℕ) (m : Map V) → k ≢ j → get j (delete k m) ≡ get j m
  unfolding get delete
  get-delete_ne k j [] h = refl
  get-delete_ne k j ((i, w) ∷ m) h = ground (arith, get-delete_ne k j m h)

  pub has-contains : (k : ℕ) (m : Map V) → has k m ≡ contains k (keys m)
  unfolding has
  has-contains k [] = refl
  has-contains k ((i, w) ∷ m) = ground (arith, has-contains k m)

  pub get-eq-none : (k : ℕ) (m : Map V) → has k m ≡ false → get k m ≡ none
  unfolding has get
  get-eq-none k [] h = refl
  get-eq-none k ((i, w) ∷ m) h = ground (arith, get-eq-none k m)

  pub get_of_has : (k : ℕ) (m : Map V) → has k m ≡ true → (v : V) × (get k m ≡ some v)
  unfolding has get
  get_of_has k [] h = cc
  get_of_has k ((i, w) ∷ m) h = elim (Bool-cases (i == k)) [
    | inl e ↦ (w, rw e)
    | inr e ↦ rw e (get_of_has k m (rw e at h))
  ]

  pub has_of_get : (k : ℕ) (v : V) (m : Map V) → get k m ≡ some v → has k m ≡ true
  unfolding has get
  has_of_get k v [] h = cc
  has_of_get k v ((i, w) ∷ m) h = ground (arith, has_of_get k v m)
