-- ===== src/Loaders/Closest.antt =====
-- The decoder that LoaderRegistry of ui/src/data/loaders/loaderRegistry.ts chooses.
use ocap2_web.Base.{
  ℕ, ◌≤◌, ◌<◌, ◌≡◌, refl, sym, ◌∙◌, true, false, Option, none, some, List, [], ◌∷◌, arith, leb,
  leb→le, ◌==◌, ==→eq, ==_refl, contains, Bool-cases, inl, inr, by_test,
}
use ocap2_web.Base.Map
use ocap2_web.Base.Map.{Map, has-contains, get_of_has, get-eq-none}
use ocap2_web.Loaders.{insert_down, sort_down, find_at_most, get_loader}

-- Descending.
abbrev AllBelow : ℕ → List ℕ → Type 0
AllBelow a [] = Unit
AllBelow a (x ∷ xs) = (x ≤ a) × AllBelow a xs

abbrev Descends : List ℕ → Type 0
Descends [] = Unit
Descends (x ∷ xs) = AllBelow x xs × Descends xs

AllBelow-mono : (a b : ℕ) (xs : List ℕ) → a ≤ b → AllBelow a xs → AllBelow b xs
AllBelow-mono a b [] le h = tt
AllBelow-mono a b (x ∷ xs) le h = (omega (arith, h.0), AllBelow-mono a b xs le h.1)

AllBelow-insert_down :
    (a x : ℕ) (ys : List ℕ) → x ≤ a → AllBelow a ys → AllBelow a (insert_down x ys)
unfolding insert_down
AllBelow-insert_down a x [] le h = (le, tt)
AllBelow-insert_down a x (y ∷ ys) le h = ground (arith, AllBelow-insert_down a x ys le h.1)

insert_down-Descends : (x : ℕ) (ys : List ℕ) → Descends ys → Descends (insert_down x ys)
unfolding insert_down
insert_down-Descends x [] d = (tt, tt)
insert_down-Descends x (y ∷ ys) d = elim (Bool-cases (leb y x)) [
  | inl le ↦ rw le ((leb→le y x le, AllBelow-mono y x ys (leb→le y x le) d.0), d)
  | inr gt ↦ rw gt (AllBelow-insert_down y x ys (ground arith) d.0, insert_down-Descends x ys d.1)
]

sort_down-Descends : (xs : List ℕ) → Descends (sort_down xs)
unfolding sort_down
sort_down-Descends [] = tt
sort_down-Descends (x ∷ xs) = insert_down-Descends x (sort_down xs) (sort_down-Descends xs)

contains-insert_down : (v x : ℕ) (ys : List ℕ) → contains v (insert_down x ys) ≡ contains v (x ∷ ys)
unfolding insert_down
contains-insert_down v x [] = refl
contains-insert_down v x (y ∷ ys) = ground (arith, contains-insert_down v x ys)

contains-sort_down : (v : ℕ) (xs : List ℕ) → contains v (sort_down xs) ≡ contains v xs
unfolding sort_down
contains-sort_down v [] = refl
contains-sort_down v (x ∷ xs) =
    contains-insert_down v x (sort_down xs) ∙ ground (arith, contains-sort_down v xs)

-- The greatest number of a list that is at most a bound.
abbrev pub IsClosest : ℕ → List ℕ → Option ℕ → Type 0
IsClosest version vs none = (v : ℕ) → contains v vs ≡ true → version < v
IsClosest version vs (some w) =
    (contains w vs ≡ true) × (w ≤ version) × ((v : ℕ) → contains v vs ≡ true → v ≤ version → v ≤ w)

le_of_contains : (a v : ℕ) (xs : List ℕ) → AllBelow a xs → contains v xs ≡ true → v ≤ a
le_of_contains a v [] h c = cc
le_of_contains a v (x ∷ xs) h c = elim (Bool-cases (x == v)) [
  | inl e ↦ omega (arith, ==→eq x v e, h.0)
  | inr e ↦ le_of_contains a v xs h.1 (rw e at c)
]

lt_of_leb : (a b : ℕ) → leb a b ≡ false → b < a
lt_of_leb a b h = ground arith

module _ (version x : ℕ) (xs : List ℕ) where
  -- The head is above the bound.
  of_tail : (v : ℕ) → version < x → contains v (x ∷ xs) ≡ true → v ≤ version → contains v xs ≡ true
  of_tail v gt c le = elim (Bool-cases (x == v)) [
    | inl e ↦ absurd (omega (arith, ==→eq x v e))
    | inr e ↦ rw e at c
  ]

  cons_contains : (v : ℕ) → contains v xs ≡ true → contains v (x ∷ xs) ≡ true
  cons_contains v c = by_test (λ b. b ≡ true) (x == v) true (contains v xs) (λ e. refl) (λ e. c)

  skipped : (o : Option ℕ) → version < x → IsClosest version xs o → IsClosest version (x ∷ xs) o
  skipped none gt h = λ v c. elim (Bool-cases (leb v version)) [
    | inl le ↦ h v (of_tail v gt c (leb→le v version le))
    | inr above ↦ lt_of_leb v version above
  ]
  skipped (some w) gt h = (cons_contains w h.0, h.1, λ v c le. h.2 v (of_tail v gt c le) le)

  taken : x ≤ version → AllBelow x xs → IsClosest version (x ∷ xs) (some x)
  taken le below = (
    rw (==_refl x) refl,
    le,
    λ v c w. elim (Bool-cases (x == v)) [
      | inl e ↦ omega (arith, ==→eq x v e)
      | inr e ↦ le_of_contains x v xs below (rw e at c)
    ],
  )

find_at_most-IsClosest :
    (version : ℕ) (vs : List ℕ) → Descends vs → IsClosest version vs (find_at_most version vs)
unfolding find_at_most
find_at_most-IsClosest version [] d = λ v c. cc c
find_at_most-IsClosest version (x ∷ xs) d = elim (Bool-cases (leb x version)) [
  | inl le ↦ rw le (taken version x xs (leb→le x version le) d.0)
  | inr gt ↦ rw gt (
      skipped version x xs (find_at_most version xs) (lt_of_leb x version gt)
        (find_at_most-IsClosest version xs d.1))
]

IsClosest-sort_down :
    (version : ℕ) (vs : List ℕ) (o : Option ℕ)
    → IsClosest version (sort_down vs) o
    → IsClosest version vs o
IsClosest-sort_down version vs none h = λ v c. h v (contains-sort_down v vs ∙ c)
IsClosest-sort_down version vs (some w) h =
    (sym (contains-sort_down w vs) ∙ h.0, h.1, λ v c le. h.2 v (contains-sort_down v vs ∙ c) le)

module _ {ℓ} {Decoder : Type ℓ} where
  -- The decoder of a chosen version, or a throw.
  abbrev pub IsChosen : Map Decoder → Option ℕ → Option Decoder → Type ℓ
  IsChosen loaders none r = r ≡ none
  IsChosen loaders (some v) r = (d : Decoder) × (Map.get v loaders ≡ some d) × (r ≡ some d)

  registered :
      (version : ℕ) (loaders : Map Decoder)
      → Map.has version loaders ≡ true
      → IsClosest version (Map.keys loaders) (some version)
  registered version loaders h = (sym (has-contains version loaders) ∙ h, omega arith, λ v c le. le)

  fallback-IsChosen :
      (version : ℕ) (loaders : Map Decoder) (o : Option ℕ)
      → IsClosest version (Map.keys loaders) o
      → IsChosen loaders o (elim o [ none ↦ none | some v ↦ Map.get v loaders ])
  fallback-IsChosen version loaders none h = refl
  fallback-IsChosen version loaders (some v) h =
      let (d, g) = get_of_has v loaders (has-contains v loaders ∙ h.0) in (d, g, g)

  -- The decoder of a version is that of the greatest registered version that is not above it, whatever
  -- the order of the registrations; where every registered version is above, and only there, it throws.
  pub get_loader-IsClosest :
      (version : ℕ) (loaders : Map Decoder)
      → (o : Option ℕ) × IsClosest version (Map.keys loaders) o
        × IsChosen loaders o (get_loader version loaders)
  unfolding get_loader
  get_loader-IsClosest version loaders = elim (Bool-cases (Map.has version loaders)) [
    | inl h ↦
        let (d, g) = get_of_has version loaders h in
        (some version, registered version loaders h, (d, g, rw (h, get_loader) g))
    | inr h ↦
        let found = find_at_most version (sort_down (Map.keys loaders)) in
        let closest = IsClosest-sort_down version (Map.keys loaders) found (
          find_at_most-IsClosest version (sort_down (Map.keys loaders))
            (sort_down-Descends (Map.keys loaders))) in
        (found, closest, rw (h, get_loader) (fallback-IsChosen version loaders found closest))
  ]
