-- ===== src/Chunks/Lru.antt =====
-- Which chunks stay in memory when ui/src/data/chunkManager.ts stores one more.
use ocap2_web.Base.{
  ℕ, zero, suc, ◌-◌, ◌≡◌, sym, ◌∙◌, false, Option, none, some, List, [], ◌∷◌, ◌++◌, length,
  contains, arith, ◌==◌, if◌then◌else◌,
}
use ocap2_web.Base.Map
use ocap2_web.Base.Map.{Map}
use ocap2_web.Types.{ChunkData}
use ocap2_web.Chunks.{ChunkManager, Memory, update_access_order, evict, store_in_memory, stored}
use ocap2_web.Chunks.Keys.{remove_first_absent, length-delete}
use ocap2_web.Chunks.Evict.{Evicts, evict-Evicts}
use ocap2_web.Chunks.Invariant.{Coherent, IsValid, Coherent-AgreesBut}

abbrev pub drop : ℕ → List ℕ → List ℕ
drop zero xs = xs
drop (suc n) [] = []
drop (suc n) (x ∷ xs) = drop n xs

-- The last `n` chunks of an access order.
abbrev pub newest : ℕ → List ℕ → List ℕ
newest n order = drop (length order - n) order

evict-newest :
    (i : ℕ) (order : List ℕ) (loaded : Map ChunkData) (mem : Memory)
    → contains i order ≡ false
    → Coherent order loaded
    → evict i order loaded [] ≡ some mem
    → mem.order ≡ newest 2 order
unfolding evict
evict-newest i [] loaded mem h c e = ground (arith, c.sizes)
evict-newest i (a ∷ []) loaded mem h c e = ground (arith, c.sizes)
evict-newest i (a ∷ b ∷ []) loaded mem h c e = ground (arith, c.sizes)
evict-newest i (a ∷ b ∷ z ∷ []) loaded mem h c e =
    ground (arith, c.sizes, c.same a, length-delete a loaded)
evict-newest i (a ∷ b ∷ z ∷ y ∷ order) loaded mem h c e = absurd (omega (arith, c.sizes, c.bounded))

module _ (i : ℕ) (chunk : ChunkData) (order : List ℕ) (loaded : Map ChunkData) (r : Option Memory)
    (v : Evicts i order loaded r) (absent : contains i order ≡ false) where
  touched_order : update_access_order i v.mem.order ≡ v.mem.order ++ i ∷ []
  unfolding update_access_order
  touched_order = rw (remove_first_absent i v.mem.order (ground (arith, v.suborder i)))

  get-stored :
      (k : ℕ)
      → Map.get k (Map.put i chunk v.mem.loaded) ≡ (
          if i == k
          then some chunk
          else (if contains k v.mem.order then Map.get k loaded else none))
  get-stored k = ground (
    arith,
    Map.get-put i k chunk v.mem.loaded,
    v.kept k,
    v.agrees.same k,
    Map.get-eq-none k v.mem.loaded,
  )

-- Storing a chunk that is not in memory keeps the two most recently used chunks, in their order, and
-- makes the new chunk the most recent. Every other chunk is gone, and no kept chunk changes.
pub store_in_memory-lru :
    (i : ℕ) (chunk : ChunkData) (m : ChunkManager)
    → IsValid m
    → Map.has i m.loaded ≡ false
    → (m' : ChunkManager) × (store_in_memory i chunk m ≡ some m')
      × (m'.order ≡ newest 2 m.order ++ i ∷ [])
      × ((k : ℕ)
          → Map.get k m'.loaded ≡ (
              if i == k
              then some chunk
              else (if contains k (newest 2 m.order) then Map.get k m.loaded else none)))
unfolding store_in_memory
store_in_memory-lru i chunk m c miss =
    let v = evict-Evicts i m.order m.loaded [] (Coherent-AgreesBut i m.order m.loaded c) in
    let absent : contains i m.order ≡ false = sym (c.same i) ∙ miss in
    let kept : v.mem.order ≡ newest 2 m.order =
      evict-newest i m.order m.loaded v.mem absent c v.returns in
    (
      stored i chunk m v.mem,
      rw (v.returns, store_in_memory),
      rw (← kept) (touched_order i chunk m.order m.loaded _ v absent),
      λ k. rw (← kept) (get-stored i chunk m.order m.loaded _ v absent k),
    )
