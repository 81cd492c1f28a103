-- ===== src/Chunks/Keys.antt =====
-- The keys of the memory and the access order as finite sets: membership, distinctness and size under
-- the operations of ui/src/data/chunkManager.ts.
use ocap2_web.Base.{
  ℕ, ◌+◌, ◌≡◌, refl, ◌≢◌, Bool, true, false, List, [], ◌∷◌, ◌++◌, length, contains, arith, ◌==◌,
  if◌then◌else◌,
}
use ocap2_web.Base.Map
use ocap2_web.Base.Map.{Map}
use ocap2_web.Chunks.{remove_first}

abbrev pub Distinct : List ℕ → Type 0
Distinct [] = Unit
Distinct (x ∷ xs) = (contains x xs ≡ false) × Distinct xs

abbrev pub bit : Bool → ℕ
bit b = if b then 1 else 0

pub contains-append :
    (k : ℕ) (xs ys : List ℕ)
    → contains k (xs ++ ys) ≡ (if contains k xs then true else contains k ys)
contains-append k [] ys = refl
contains-append k (x ∷ xs) ys = ground (arith, contains-append k xs ys)

pub contains-remove_first_ne :
    (i k : ℕ) (xs : List ℕ) → i ≢ k → contains k (remove_first i xs) ≡ contains k xs
unfolding remove_first
contains-remove_first_ne i k [] h = refl
contains-remove_first_ne i k (x ∷ xs) h = ground (arith, contains-remove_first_ne i k xs h)

pub contains-remove_first_self :
    (i : ℕ) (xs : List ℕ) → Distinct xs → contains i (remove_first i xs) ≡ false
unfolding remove_first
contains-remove_first_self i [] h = refl
contains-remove_first_self i (x ∷ xs) h = ground (arith, contains-remove_first_self i xs h.1)

pub remove_first-Distinct : (i : ℕ) (xs : List ℕ) → Distinct xs → Distinct (remove_first i xs)
unfolding remove_first
remove_first-Distinct i [] h = tt
remove_first-Distinct i (x ∷ xs) h =
    ground (arith, contains-remove_first_ne i x xs, remove_first-Distinct i xs h.1)

pub append-Distinct :
    (xs : List ℕ) (y : ℕ) → Distinct xs → contains y xs ≡ false → Distinct (xs ++ y ∷ [])
append-Distinct [] y h e = (refl, tt)
append-Distinct (x ∷ xs) y h e =
    ground (arith, append-Distinct xs y h.1, contains-append x xs (y ∷ []))

pub length-remove_first :
    (i : ℕ) (xs : List ℕ) → length (remove_first i xs) + bit (contains i xs) ≡ length xs
unfolding remove_first
length-remove_first i [] = refl
length-remove_first i (x ∷ xs) = ground (arith, length-remove_first i xs)

pub remove_first_absent : (i : ℕ) (xs : List ℕ) → contains i xs ≡ false → remove_first i xs ≡ xs
unfolding remove_first
remove_first_absent i [] h = refl
remove_first_absent i (x ∷ xs) h = ground (arith, remove_first_absent i xs)

module _ {V : Type 0} where
  pub has-delete_ne : (i k : ℕ) (m : Map V) → i ≢ k → Map.has k (Map.delete i m) ≡ Map.has k m
  unfolding Map.has Map.delete
  has-delete_ne i k [] h = refl
  has-delete_ne i k ((j, v) ∷ m) h = ground (arith, has-delete_ne i k m h)

  pub has-put :
      (i k : ℕ) (v : V) (m : Map V)
      → Map.has k (Map.put i v m) ≡ (if i == k then true else Map.has k m)
  unfolding Map.has Map.put
  has-put i k v [] = refl
  has-put i k v ((j, w) ∷ m) = ground (arith, has-put i k v m)

  pub delete-Distinct :
      (i : ℕ) (m : Map V) → Distinct (Map.keys m) → Distinct (Map.keys (Map.delete i m))
  unfolding Map.delete
  delete-Distinct i [] h = tt
  delete-Distinct i ((j, v) ∷ m) h = ground (
    arith,
    delete-Distinct i m h.1,
    has-delete_ne i j m,
    Map.has-contains j m,
    Map.has-contains j (Map.delete i m),
  )

  pub has-delete_self :
      (i : ℕ) (m : Map V) → Distinct (Map.keys m) → Map.has i (Map.delete i m) ≡ false
  unfolding Map.has Map.delete
  has-delete_self i [] h = refl
  has-delete_self i ((j, v) ∷ m) h = ground (arith, has-delete_self i m h.1, Map.has-contains j m)

  pub put-Distinct :
      (i : ℕ) (v : V) (m : Map V) → Distinct (Map.keys m) → Distinct (Map.keys (Map.put i v m))
  unfolding Map.put
  put-Distinct i v [] h = (refl, tt)
  put-Distinct i v ((j, w) ∷ m) h = ground (
    arith,
    put-Distinct i v m h.1,
    has-put i j v m,
    Map.has-contains j m,
    Map.has-contains j (Map.put i v m),
  )

  pub length-delete : (i : ℕ) (m : Map V) → length (Map.delete i m) + bit (Map.has i m) ≡ length m
  unfolding Map.has Map.delete
  length-delete i [] = refl
  length-delete i ((j, v) ∷ m) = ground (arith, length-delete i m)

  pub length-put :
      (i : ℕ) (v : V) (m : Map V) → length (Map.put i v m) + bit (Map.has i m) ≡ length m + 1
  unfolding Map.has Map.put
  length-put i v [] = omega arith
  length-put i v ((j, w) ∷ m) = ground (arith, length-put i v m)
