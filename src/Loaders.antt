-- ===== src/Loaders.antt =====
-- ui/src/data/loaders/loaderRegistry.ts: the class LoaderRegistry. Versions are natural numbers, and the
-- map's decoders are of any type.
mod Closest
mod Tests
use ocap2_web.Base.{
  ℕ, ◌≤◌, ◌≡◌, Bool, true, false, Option, none, some, List, [], ◌∷◌, ◌++◌, leb, length, get_elem?,
  ◌-◌, if◌then◌else◌,
}
use ocap2_web.Base.Map
use ocap2_web.Base.Map.{Map}
use ocap2_web.Sort.{sort_by}

-- Behind the first element that is not above.
unfoldable pub insert_down : ℕ → List ℕ → List ℕ
insert_down x [] = x ∷ []
insert_down x (y ∷ ys) = if leb y x then x ∷ y ∷ ys else y ∷ insert_down x ys

-- `sort((a, b) => b - a)`.
unfoldable pub sort_down : List ℕ → List ℕ
unfolding insert_down
sort_down [] = []
sort_down (x ∷ xs) = insert_down x (sort_down xs)

-- `find((v) => v <= version)`.
unfoldable pub find_at_most : ℕ → List ℕ → Option ℕ
find_at_most version [] = none
find_at_most version (v ∷ vs) = if leb v version then some v else find_at_most version vs

abbrev pub last_or_zero : List ℕ → ℕ
last_or_zero vs = elim (get_elem? vs (length vs - 1)) [ none ↦ 0 | some v ↦ v ]

module _ {ℓ} {Decoder : Type ℓ} where
  abbrev pub register : ℕ → Decoder → Map Decoder → Map Decoder
  register version decoder loaders = Map.put version decoder loaders

  -- `sort((a, b) => a - b)`.
  unfoldable pub get_versions : Map Decoder → List ℕ
  get_versions loaders = sort_by (λ v. v) (Map.keys loaders)

  -- `none` where it throws.
  unfoldable pub get_loader : ℕ → Map Decoder → Option Decoder
  unfolding sort_down find_at_most
  get_loader version loaders =
      if Map.has version loaders
      then Map.get version loaders
      else (elim (find_at_most version (sort_down (Map.keys loaders))) [
        | none ↦ none
        | some fallback ↦ Map.get fallback loaders
      ])

  abbrev pub has_loader : ℕ → Map Decoder → Bool
  has_loader version loaders = Map.has version loaders

  unfoldable pub get_latest_version : Map Decoder → ℕ
  unfolding get_versions
  get_latest_version loaders = last_or_zero (get_versions loaders)
