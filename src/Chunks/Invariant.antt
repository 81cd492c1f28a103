-- ===== src/Chunks/Invariant.antt =====
-- The invariant of the memory in ui/src/data/chunkManager.ts, under every event and in every order of
-- the events.
use ocap2_web.Base.{
  ℕ, ◌+◌, ◌≤◌, ◌<◌, ◌≡◌, refl, Bool, true, false, Option, none, some, List, [], ◌∷◌, length,
  contains, arith, ◌==◌, Bool-cases, Option-cases, inl, inr, if◌then◌else◌, get_elem?,
}
use ocap2_web.Base.Map
use ocap2_web.Base.Map.{Map}
use ocap2_web.Types.{ChunkData}
use ocap2_web.Chunks.{
  ChunkManager, remove_first, update_access_order, store_in_memory, stored, start_load, load_chunk,
  ensure_loaded, check_prefetch, wants_prefetch, perform, arrive, fail, resume, clear, step, run,
  Event, Caller, Action, unlock, call, frame_caller, prefetcher, plain, new_manager, find_fetch,
  await_on, Wait, on, settled, drop_waiter,
}
use ocap2_web.Chunks.Keys.{
  Distinct, bit, contains-append, contains-remove_first_ne, contains-remove_first_self,
  remove_first-Distinct, append-Distinct, length-remove_first, has-put, put-Distinct, length-put,
  length-delete,
}
use ocap2_web.Chunks.Evict.{AgreesBut, evict-Evicts}
use ocap2_web.Base.{length-append}

-- The access order lists the chunks in memory, each once, and there are at most three.
pub record Coherent (order : List ℕ) (loaded : Map ChunkData) : Type 0 where
  pub distinct_order : Distinct order
  pub distinct_keys : Distinct (Map.keys loaded)
  pub same : (k : ℕ) → Map.has k loaded ≡ contains k order
  pub sizes : length loaded ≡ length order
  pub bounded : length loaded ≤ 3

abbrev pub IsValid : ChunkManager → Type 0
IsValid m = Coherent m.order m.loaded

contains-touch :
    (i k : ℕ) (order : List ℕ)
    → contains k (update_access_order i order) ≡ (if i == k then true else contains k order)
unfolding update_access_order
contains-touch i k order =
    ground
      (arith, contains-append k (remove_first i order) (i ∷ []), contains-remove_first_ne i k order)

touch-Distinct : (i : ℕ) (order : List ℕ) → Distinct order → Distinct (update_access_order i order)
unfolding update_access_order
touch-Distinct i order h =
    append-Distinct (remove_first i order) i (remove_first-Distinct i order h)
      (contains-remove_first_self i order h)

length-touch :
    (i : ℕ) (order : List ℕ)
    → length (update_access_order i order) + bit (contains i order) ≡ length order + 1
unfolding update_access_order
length-touch i order =
    omega (arith, length-remove_first i order, length-append {0} (remove_first i order) (i ∷ []))

-- An access to a chunk in memory.
touch-Coherent :
    (i : ℕ) (order : List ℕ) (loaded : Map ChunkData)
    → Map.has i loaded ≡ true
    → Coherent order loaded
    → Coherent (update_access_order i order) loaded
touch-Coherent i order loaded h c = record {
  distinct_order = touch-Distinct i order c.distinct_order;
  distinct_keys = c.distinct_keys;
  same = λ k. ground (arith, contains-touch i k order, c.same k, c.same i);
  sizes = ground (arith, length-touch i order, c.same i, c.sizes);
  bounded = c.bounded;
}

pub Coherent-AgreesBut :
    (i : ℕ) (order : List ℕ) (loaded : Map ChunkData)
    → Coherent order loaded
    → AgreesBut i order loaded
Coherent-AgreesBut i order loaded c = record {
  distinct_order = c.distinct_order;
  distinct_keys = c.distinct_keys;
  same = λ k n. c.same k;
  sizes = ground (arith, c.same i, c.sizes, length-delete i loaded, length-remove_first i order);
}

put-Coherent :
    (i : ℕ) (chunk : ChunkData) (order : List ℕ) (loaded : Map ChunkData)
    → AgreesBut i order loaded
    → length loaded < 3
    → Coherent (update_access_order i order) (Map.put i chunk loaded)
put-Coherent i chunk order loaded a room = record {
  distinct_order = touch-Distinct i order a.distinct_order;
  distinct_keys = put-Distinct i chunk loaded a.distinct_keys;
  same = λ k. ground (arith, contains-touch i k order, has-put i k chunk loaded, a.same k);
  sizes = omega (
    arith,
    length-touch i order,
    a.sizes,
    length-put i chunk loaded,
    length-delete i loaded,
    length-remove_first i order,
  );
  bounded = omega (arith, length-put i chunk loaded);
}

-- `storeInMemory` returns on a valid manager, and keeps the invariant.
pub store_in_memory-IsValid :
    (i : ℕ) (chunk : ChunkData) (m : ChunkManager)
    → IsValid m
    → (m' : ChunkManager) × (store_in_memory i chunk m ≡ some m') × IsValid m'
unfolding store_in_memory
store_in_memory-IsValid i chunk m c =
    let v = evict-Evicts i m.order m.loaded [] (Coherent-AgreesBut i m.order m.loaded c) in
    (
      stored i chunk m v.mem,
      rw (v.returns, store_in_memory),
      put-Coherent i chunk v.mem.order v.mem.loaded v.agrees v.room,
    )

load_chunk-IsValid :
    (i : ℕ) (k : Caller) (m : ChunkManager) → IsValid m → IsValid (load_chunk i k m)
unfolding load_chunk start_load
load_chunk-IsValid i k m c = elim (Bool-cases (Map.has i m.loaded)) [
  | inl hit ↦ rw hit (touch-Coherent i m.order m.loaded hit c)
  | inr miss ↦ rw miss (go (Map.get i m.loading))
]
  where
    go :
        (o : Option ℕ)
        → IsValid (elim o [ some id ↦ await_on (on id) (call k) m | none ↦ start_load i k m ])
    go (some id) = c
    go none = c

ensure_loaded-IsValid : (frame : ℕ) (m : ChunkManager) → IsValid m → IsValid (ensure_loaded frame m)
unfolding ensure_loaded
ensure_loaded-IsValid frame m c = elim (Option-cases m.manifest) [
  | inl e ↦ rw (e, ensure_loaded) c
  | inr (mf, e) ↦ rw (e, ensure_loaded) (load_chunk-IsValid _ _ m c)
]

check_prefetch-IsValid :
    (frame i : ℕ) (m : ChunkManager) → IsValid m → IsValid (check_prefetch frame i m)
unfolding check_prefetch
check_prefetch-IsValid frame i m c = elim (Option-cases m.manifest) [
  | inl e ↦ rw (e, check_prefetch) c
  | inr (mf, e) ↦ elim (Bool-cases (wants_prefetch frame i mf m)) [
    | inl wants ↦
        rw (e, check_prefetch, wants)
          (load_chunk-IsValid (i + 1) prefetcher (record m { prefetching = some (i + 1) }) c)
    | inr not_now ↦ rw (e, check_prefetch, not_now) c
  ]
]

perform-IsValid :
    (outcome : Bool) (a : Action) (m : ChunkManager) → IsValid m → IsValid (perform outcome a m)
unfolding perform
perform-IsValid outcome (unlock i k) m c = c
perform-IsValid true (call (frame_caller frame i)) m c = check_prefetch-IsValid frame i m c
perform-IsValid false (call (frame_caller frame i)) m c = c
perform-IsValid outcome (call prefetcher) m c = c
perform-IsValid true (call plain) m c = c
perform-IsValid false (call plain) m c = c

resume_one-IsValid :
    (n : ℕ) (w : Wait) (a : Action) (m : ChunkManager)
    → IsValid m
    → IsValid (elim w [
      | on id ↦ m
      | settled outcome ↦ perform outcome a (record m { waiters = drop_waiter n m.waiters })
    ])
resume_one-IsValid n (on id) a m c = c
resume_one-IsValid n (settled outcome) a m c = perform-IsValid outcome a _ c

resume-IsValid : (n : ℕ) (m : ChunkManager) → IsValid m → IsValid (resume n m)
unfolding resume
resume-IsValid n m c = elim (Option-cases (get_elem? m.waiters n)) [
  | inl e ↦ rw (e, resume) c
  | inr (w, e) ↦ rw (e, resume) (resume_one-IsValid n w.wait w.action m c)
]

fail-IsValid : (id : ℕ) (m : ChunkManager) → IsValid m → IsValid (fail id m)
unfolding fail
fail-IsValid id m c = elim (Option-cases (find_fetch id m.fetches)) [
  | inl e ↦ rw (e, fail) c
  | inr (f, e) ↦ rw (e, fail) c
]

arrive-IsValid :
    (id : ℕ) (chunk : ChunkData) (m : ChunkManager)
    → IsValid m
    → (m' : ChunkManager) × (arrive id chunk m ≡ some m') × IsValid m'
unfolding arrive
arrive-IsValid id chunk m c = elim (Option-cases (find_fetch id m.fetches)) [
  | inl e ↦ (m, rw (e, arrive), c)
  | inr (f, e) ↦ rw (e, arrive) (store_in_memory-IsValid f.index chunk _ c)
]

pub clear-IsValid : (m : ChunkManager) → IsValid (clear m)
unfolding clear Map.has
clear-IsValid m = record {
  distinct_order = tt;
  distinct_keys = tt;
  same = λ k. refl;
  sizes = refl;
  bounded = omega arith;
}

pub new_manager-IsValid : IsValid new_manager
unfolding Map.has
new_manager-IsValid = record {
  distinct_order = tt;
  distinct_keys = tt;
  same = λ k. refl;
  sizes = refl;
  bounded = omega arith;
}

step-IsValid :
    (e : Event) (m : ChunkManager)
    → IsValid m
    → (m' : ChunkManager) × (step e m ≡ some m') × IsValid m'
unfolding step
step-IsValid (Event.ensure frame) m c =
    (ensure_loaded frame m, refl, ensure_loaded-IsValid frame m c)
step-IsValid (Event.load i) m c = (load_chunk i plain m, refl, load_chunk-IsValid i plain m c)
step-IsValid (Event.arrived id chunk) m c = arrive-IsValid id chunk m c
step-IsValid (Event.failed id) m c = (fail id m, refl, fail-IsValid id m c)
step-IsValid (Event.resumed n) m c = (resume n m, refl, resume-IsValid n m c)
step-IsValid Event.cleared m c = (clear m, refl, clear-IsValid m)
step-IsValid (Event.manifest_requested file) m c = (record m { filename = some file }, refl, c)
step-IsValid (Event.manifest_arrived mf) m c = (record m { manifest = some mf }, refl, c)

-- From a valid manager every sequence of events runs to its end: the eviction loop of `storeInMemory`
-- always stops. At the end at most three chunks are in memory, the access order lists exactly the
-- chunks in memory, and it lists each of them once.
pub run-IsValid :
    (events : List Event) (m : ChunkManager)
    → IsValid m
    → (m' : ChunkManager) × (run events m ≡ some m') × IsValid m'
unfolding run
run-IsValid [] m c = (m, refl, c)
run-IsValid (e ∷ events) m c =
    let (m', stepped, c') = step-IsValid e m c in rw (stepped, run) (run-IsValid events m' c')
