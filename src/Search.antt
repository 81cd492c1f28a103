-- ===== src/Search.antt =====
-- The binary search that ui/src/playback/events/counterEvent.ts and ui/src/playback/time.ts share: the
-- last element of a sorted array whose frame number is at most a frame.
pub mod Correct
use ocap2_web.Base.{
  ℕ, zero, suc, ◌+◌, ◌-◌, ◌/◌, ◌%◌, ◌^◌, ◌≤◌, ◌<◌, ◌≡◌, Bool, true, false, Option, none, some, List,
  [], ◌∷◌, arith, All, All-get_elem?, length, get_elem?, leb,
}
use ocap2_web.Base.Int.{ℤ, pos, pos_part, neg_part, sub_ℕ}

-- `lo <= hi`, where `hi` may be -1.
abbrev pub at_most : ℕ → ℤ → Bool
at_most lo hi = leb (lo + neg_part hi) (pos_part hi)

-- `(lo + hi) >>> 1`, for `hi` at least 0: the sum is taken modulo 2 ^ 32.
abbrev pub unsigned_half : ℕ → ℕ → ℕ
unsigned_half lo hi = (lo + hi) % 2 ^ 32 / 2

module _ {ℓ} {A : Type ℓ} (frame_of : A → ℕ) (items : List A) (frame : ℕ) where
  -- The loop, on fuel; `none` is a read of an undefined element, or the end of the fuel.
  unfoldable pub search : ℕ → ℕ → ℤ → ℤ → Option ℤ
  search zero lo hi idx = none
  search (suc fuel) lo hi idx = elim (at_most lo hi) [
    | false ↦ some idx
    | true ↦ elim (get_elem? items (unsigned_half lo (pos_part hi))) [
      | none ↦ none
      | some e ↦ elim (leb (frame_of e) frame) [
        | true ↦
            search fuel (unsigned_half lo (pos_part hi) + 1) hi
              (pos (unsigned_half lo (pos_part hi)))
        | false ↦ search fuel lo (sub_ℕ (unsigned_half lo (pos_part hi)) 1) idx
      ]
    ]
  ]

  -- The first `c` elements are at or before the frame, and the others are after it.
  pub record IsSplit (c : ℕ) : Type ℓ where
    pub within : c ≤ length items
    pub before : (j : ℕ) (e : A) → j < c → get_elem? items j ≡ some e → frame_of e ≤ frame
    pub after : (j : ℕ) (e : A) → c ≤ j → get_elem? items j ≡ some e → frame < frame_of e

module _ {ℓ} {A : Type ℓ} (frame_of : A → ℕ) where
  -- Sorted by frame number.
  abbrev pub SortedBy : List A → Type 0
  SortedBy [] = Unit
  SortedBy (x ∷ xs) = All (λ y. frame_of x ≤ frame_of y) xs × SortedBy xs

  pub SortedBy-get_elem? :
      (xs : List A) (i j : ℕ) (a b : A)
      → SortedBy xs
      → i ≤ j
      → get_elem? xs i ≡ some a
      → get_elem? xs j ≡ some b
      → frame_of a ≤ frame_of b
  SortedBy-get_elem? [] i j a b s h p q = cc
  SortedBy-get_elem? (x ∷ xs) zero zero a b s h p q = ground arith
  SortedBy-get_elem? (x ∷ xs) zero (suc j) a b s h p q =
      ground (arith, All-get_elem? (λ y. frame_of x ≤ frame_of y) xs j b s.0 q)
  SortedBy-get_elem? (x ∷ xs) (suc i) zero a b s h p q = absurd (omega arith)
  SortedBy-get_elem? (x ∷ xs) (suc i) (suc j) a b s h p q =
      SortedBy-get_elem? xs i j a b s.1 (omega arith) p q
