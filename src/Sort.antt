-- ===== src/Sort.antt =====
-- `Array.prototype.sort` with the comparison by frame number: the stable sort that the language asks
-- for, by insertion.
use ocap2_web.Base.{
  ℕ, ◌≤◌, ◌≡◌, refl, List, [], ◌∷◌, arith, All, keep, leb, leb→le, ◌==◌, Bool-cases, inl, inr,
  if◌then◌else◌, length, suc,
}
use ocap2_web.Search.{SortedBy}

module _ {ℓ} {A : Type ℓ} (frame_of : A → ℕ) where
  -- In front of the first element with the same frame or a later one.
  unfoldable pub insert_by : A → List A → List A
  insert_by x [] = x ∷ []
  insert_by x (y ∷ ys) = if leb (frame_of x) (frame_of y) then x ∷ y ∷ ys else y ∷ insert_by x ys

  unfoldable pub sort_by : List A → List A
  sort_by [] = []
  sort_by (x ∷ xs) = insert_by x (sort_by xs)

  All-insert_by : (P : A → Type 0) (x : A) (ys : List A) → P x → All P ys → All P (insert_by x ys)
  unfolding insert_by
  All-insert_by P x [] p h = (p, tt)
  All-insert_by P x (y ∷ ys) p h = ground (arith, All-insert_by P x ys p h.1)

  All-mono :
      (a b : ℕ) (ys : List A) → a ≤ b → All (λ y. b ≤ frame_of y) ys → All (λ y. a ≤ frame_of y) ys
  All-mono a b [] le h = tt
  All-mono a b (y ∷ ys) le h = (omega (arith, h.0), All-mono a b ys le h.1)

  insert_by-SortedBy :
      (x : A) (ys : List A) → SortedBy frame_of ys → SortedBy frame_of (insert_by x ys)
  unfolding insert_by
  insert_by-SortedBy x [] s = (tt, tt)
  insert_by-SortedBy x (y ∷ ys) s = elim (Bool-cases (leb (frame_of x) (frame_of y))) [
    | inl le ↦ rw le (((leb→le _ _ le), All-mono _ _ ys (leb→le _ _ le) s.0), s)
    | inr gt ↦ rw gt (
      All-insert_by (λ z. frame_of y ≤ frame_of z) x ys (ground arith) s.0,
      insert_by-SortedBy x ys s.1,
    )
  ]

  pub sort_by-SortedBy : (xs : List A) → SortedBy frame_of (sort_by xs)
  unfolding sort_by
  sort_by-SortedBy [] = tt
  sort_by-SortedBy (x ∷ xs) = insert_by-SortedBy x (sort_by xs) (sort_by-SortedBy xs)

  -- Stability: the elements of one frame keep their order, and none is lost or added.
  keep-insert_by :
      (f : ℕ) (x : A) (ys : List A)
      → keep (λ y. frame_of y == f) (insert_by x ys) ≡ keep (λ y. frame_of y == f) (x ∷ ys)
  unfolding insert_by
  keep-insert_by f x [] = refl
  keep-insert_by f x (y ∷ ys) = ground (arith, keep-insert_by f x ys)

  pub keep-sort_by :
      (f : ℕ) (xs : List A)
      → keep (λ y. frame_of y == f) (sort_by xs) ≡ keep (λ y. frame_of y == f) xs
  unfolding sort_by
  keep-sort_by f [] = refl
  keep-sort_by f (x ∷ xs) = ground (arith, keep-sort_by f xs, keep-insert_by f x (sort_by xs))

  length-insert_by : (x : A) (ys : List A) → length (insert_by x ys) ≡ suc (length ys)
  unfolding insert_by
  length-insert_by x [] = refl
  length-insert_by x (y ∷ ys) = ground (arith, length-insert_by x ys)

  pub length-sort_by : (xs : List A) → length (sort_by xs) ≡ length xs
  unfolding sort_by
  length-sort_by [] = refl
  length-sort_by (x ∷ xs) = ground (arith, length-sort_by xs, length-insert_by x (sort_by xs))

  -- A sorted list is left as it is.
  insert_by-eq-cons :
      (x : A) (ys : List A) → All (λ y. frame_of x ≤ frame_of y) ys → insert_by x ys ≡ x ∷ ys
  unfolding insert_by
  insert_by-eq-cons x [] h = refl
  insert_by-eq-cons x (y ∷ ys) h = ground arith

  pub sort_by_of_SortedBy : (xs : List A) → SortedBy frame_of xs → sort_by xs ≡ xs
  unfolding sort_by
  sort_by_of_SortedBy [] s = refl
  sort_by_of_SortedBy (x ∷ xs) s = rw (sort_by_of_SortedBy xs s.1) (insert_by-eq-cons x xs s.0)
