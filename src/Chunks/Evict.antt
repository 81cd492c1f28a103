-- ===== src/Chunks/Evict.antt =====
-- The eviction loop of `storeInMemory` in ui/src/data/chunkManager.ts.
use ocap2_web.Base.{
  ℕ, ◌<◌, ◌≡◌, refl, ◌∙◌, ◌≢◌, true, false, Option, some, List, [], ◌∷◌, ◌++◌, length, contains,
  arith, ltb, ltb→lt, ◌==◌, Bool-cases, inl, inr, lt→ltb, ==→eq, if◌then◌else◌,
}
use ocap2_web.Base.Map
use ocap2_web.Base.Map.{Map}
use ocap2_web.Types.{ChunkData}
use ocap2_web.Chunks.{remove_first, Memory, evict}
use ocap2_web.Chunks.Keys.{
  Distinct, remove_first_absent, has-delete_ne, has-delete_self, delete-Distinct, length-delete,
}

-- The memory agrees with the access order, but for the chunk `i` that is being stored.
pub record AgreesBut (i : ℕ) (order : List ℕ) (loaded : Map ChunkData) : Type 0 where
  pub distinct_order : Distinct order
  pub distinct_keys : Distinct (Map.keys loaded)
  pub same : (k : ℕ) → i ≢ k → Map.has k loaded ≡ contains k order
  pub sizes : length (Map.delete i loaded) ≡ length (remove_first i order)

pub record Evicts (i : ℕ) (order : List ℕ) (loaded : Map ChunkData) (r : Option Memory)
    : Type 0 where
  pub mem : Memory
  pub returns : r ≡ some mem
  pub agrees : AgreesBut i mem.order mem.loaded
  pub suborder : (k : ℕ) → contains k mem.order ≡ true → contains k order ≡ true
  pub room : length mem.loaded < 3
  pub kept : (k : ℕ) → i ≢ k → contains k mem.order ≡ true → Map.get k mem.loaded ≡ Map.get k loaded

done-Evicts :
    (i : ℕ) (order : List ℕ) (loaded : Map ChunkData) (gone : List ℕ) (r : Option Memory)
    → AgreesBut i order loaded
    → ltb (length loaded) 3 ≡ true
    → r ≡ some (record { order = order; loaded = loaded; evicted = gone })
    → Evicts i order loaded r
done-Evicts i order loaded gone r a h e = record {
  mem = record { order = order; loaded = loaded; evicted = gone };
  returns = e;
  agrees = a;
  room = ltb→lt _ _ h;
  suborder = λ k c. c;
  kept = λ k n c. refl;
}

skip-AgreesBut :
    (i : ℕ) (order : List ℕ) (loaded : Map ChunkData)
    → AgreesBut i (i ∷ order) loaded
    → AgreesBut i order loaded
unfolding remove_first
skip-AgreesBut i order loaded a = record {
  distinct_order = a.distinct_order.1;
  distinct_keys = a.distinct_keys;
  same = λ k n. ground (arith, a.same k n);
  sizes = ground (arith, a.sizes, a.distinct_order.0, remove_first_absent i order);
}

drop-AgreesBut :
    (i o : ℕ) (order : List ℕ) (loaded : Map ChunkData)
    → o ≢ i
    → AgreesBut i (o ∷ order) loaded
    → AgreesBut i order (Map.delete o loaded)
unfolding remove_first
drop-AgreesBut i o order loaded n a = record {
  distinct_order = a.distinct_order.1;
  distinct_keys = delete-Distinct o loaded a.distinct_keys;
  same = same;
  sizes = ground (
    arith,
    a.sizes,
    a.same o,
    length-delete i (Map.delete o loaded),
    length-delete o loaded,
    length-delete i loaded,
    has-delete_ne o i loaded,
  );
}
  where
    same : (k : ℕ) → i ≢ k → Map.has k (Map.delete o loaded) ≡ contains k order
    same k h = ground (
      arith,
      a.same k h,
      a.distinct_order.0,
      has-delete_ne o k loaded,
      has-delete_self o loaded a.distinct_keys,
    )

nil-room : (i : ℕ) (loaded : Map ChunkData) → AgreesBut i [] loaded → length loaded < 3
unfolding remove_first
nil-room i loaded a = ground (arith, a.sizes, length-delete i loaded)

-- What the rest of the loop keeps, it keeps of the memory before the deletion too.
after_drop :
    (i o : ℕ) (order : List ℕ) (loaded : Map ChunkData) (r : Option Memory)
    → contains o order ≡ false
    → Evicts i order (Map.delete o loaded) r
    → Evicts i (o ∷ order) loaded r
after_drop i o order loaded r absent v = record {
  mem = v.mem;
  returns = v.returns;
  agrees = v.agrees;
  suborder = λ k c. ground (arith, v.suborder k c);
  room = v.room;
  kept = kept;
}
  where
    kept :
        (k : ℕ) → i ≢ k → contains k v.mem.order ≡ true → Map.get k v.mem.loaded ≡ Map.get k loaded
    kept k n c = v.kept k n c ∙ Map.get-delete_ne o k loaded (λ e. ground (arith, v.suborder k c))

after_skip :
    (i o : ℕ) (order : List ℕ) (loaded : Map ChunkData) (r : Option Memory)
    → Evicts i order loaded r
    → Evicts i (o ∷ order) loaded r
after_skip i o order loaded r v = record {
  mem = v.mem;
  returns = v.returns;
  agrees = v.agrees;
  suborder = λ k c. ground (arith, v.suborder k c);
  room = v.room;
  kept = v.kept;
}

-- What a stored chunk's eviction does to one round, by its two tests.
evict_step :
    (i o : ℕ) (order : List ℕ) (loaded : Map ChunkData) (gone : List ℕ)
    → ltb (length loaded) 3 ≡ false
    → evict i (o ∷ order) loaded gone
      ≡ evict i order
          (if o == i then loaded else Map.delete o loaded)
          (if o == i then gone else gone ++ o ∷ [])
unfolding evict
evict_step i o order loaded gone full = rw full

-- The loop returns, with room for one more chunk, and what stays in the order stays in memory.
pub evict-Evicts :
    (i : ℕ) (order : List ℕ) (loaded : Map ChunkData) (gone : List ℕ)
    → AgreesBut i order loaded
    → Evicts i order loaded (evict i order loaded gone)
unfolding evict
evict-Evicts i [] loaded gone a =
    let small : ltb (length loaded) 3 ≡ true = lt→ltb _ _ (nil-room i loaded a) in
    done-Evicts i [] loaded gone _ a small (rw small)
evict-Evicts i (o ∷ order) loaded gone a = elim (Bool-cases (ltb (length loaded) 3)) [
  | inl small ↦ done-Evicts i (o ∷ order) loaded gone _ a small (rw small)
  | inr full ↦ elim (Bool-cases (o == i)) [
    | inl same ↦
        rw (evict_step i o order loaded gone full, same)
          (after_skip i o order loaded _ (
            evict-Evicts i order loaded gone
              (skip-AgreesBut i order loaded (rw (==→eq _ _ same) at a))))
    | inr other ↦
        rw (evict_step i o order loaded gone full, other)
          (after_drop i o order loaded _ a.distinct_order.0 (
            evict-Evicts i order (Map.delete o loaded) (gone ++ o ∷ [])
              (drop-AgreesBut i o order loaded (λ e. ground arith) a)))
  ]
]
