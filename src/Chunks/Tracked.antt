-- ===== src/Chunks/Tracked.antt =====
-- The loads that ui/src/data/chunkManager.ts keeps track of: what its operations keep while `clear` is not
-- called.
use ocap2_web.Base.{
  ℕ, suc, ◌+◌, ◌≤◌, ◌<◌, ◌≡◌, refl, sym, ap, ◌∙◌, subst, Bool, true, not, none, some, List, [], ◌∷◌,
  ◌++◌, arith, ◌==◌, ==→eq, Bool-cases, Option-cases, inl, inr, All, All-append, All-keep,
}
use ocap2_web.Base.Map
use ocap2_web.Base.Map.{Map}
use ocap2_web.Chunks.{
  ChunkManager, Fetch, Waiter, Wait, on, settled, unlock, call, Caller, prefetcher, finished,
  load_chunk, start_load, ensure_loaded, check_prefetch, wants_prefetch,
}
use ocap2_web.Chunks.Keys.{Distinct, bit, append-Distinct}
use ocap2_web.Chunks.Single.{
  Load, load_id, ids, loads, open_locks, locks, key_count, without, loads-append, open_locks-unlock,
  open_locks-call, locks-append, locks-settle, open_locks-settle, without-Distinct,
  loads-drop_fetch, key_count-put, key_count-none, ids-append, contains_fresh,
}

-- The loads in flight are the open locks, each with its own id; `loadingChunks` has a chunk exactly as
-- long as a call of `loadChunk` has to delete it, and has it once.
pub record TrackedFields (fetches : List Fetch) (waiters : List Waiter) (loading : Map ℕ)
    (next_id : ℕ) : Type 0 where
  pub paired : loads fetches ≡ open_locks waiters
  pub locked : (i : ℕ) → locks i waiters ≡ key_count i loading
  pub once : (i : ℕ) → key_count i loading ≤ 1
  pub fresh : All (λ p. load_id p < next_id) (loads fetches)
  pub distinct : Distinct (ids (loads fetches))

abbrev pub IsTracked : ChunkManager → Type 0
IsTracked m = TrackedFields m.fetches m.waiters m.loading m.next_id

pub called :
    (w : Wait) (k : Caller) (fs : List Fetch) (ws : List Waiter) (l : Map ℕ) (n : ℕ)
    → TrackedFields fs ws l n
    → TrackedFields fs (ws ++ record { wait = w; action = call k } ∷ []) l n
called w k fs ws l n t = record {
  paired = t.paired ∙ sym (open_locks-call ws w k);
  locked = λ i. omega (arith, locks-append i ws (record { wait = w; action = call k }), t.locked i);
  once = t.once;
  fresh = t.fresh;
  distinct = t.distinct;
}

All-later : (n : ℕ) (ps : List Load) → All (λ p. load_id p < n) ps → All (λ p. load_id p < suc n) ps
All-later n [] h = tt
All-later n (p ∷ ps) h = (omega (arith, h.0), All-later n ps h.1)

start_load-IsTracked :
    (i : ℕ) (k : Caller) (m : ChunkManager)
    → Map.get i m.loading ≡ none
    → IsTracked m
    → IsTracked (start_load i k m)
unfolding start_load
start_load-IsTracked i k m absent t = record {
  paired =
      added
      ∙ ap (λ ps. ps ++ (m.next_id, i) ∷ []) t.paired
      ∙ sym (open_locks-unlock m.waiters m.next_id i k);
  locked = λ j. omega (
    arith,
    locks-append j m.waiters (record { wait = on m.next_id; action = unlock i k }),
    t.locked j,
    key_count-put i j m.next_id m.loading absent,
  );
  once = λ j. elim (Bool-cases (i == j)) [
    | inl q ↦
        let here : key_count j m.loading ≡ 0 =
          ap (λ x. key_count x m.loading) (sym (==→eq i j q)) ∙ key_count-none i m.loading absent in
        let put = key_count-put i j m.next_id m.loading absent in
        let one : bit (i == j) ≡ 1 = rw q refl in omega arith
    | inr q ↦
        let put = key_count-put i j m.next_id m.loading absent in
        let one : bit (i == j) ≡ 0 = rw q refl in omega (arith, t.once j)
  ];
  fresh = subst (All (λ p. load_id p < suc m.next_id)) (sym added) (
      All-append (λ p. load_id p < suc m.next_id) (loads m.fetches) ((m.next_id, i) ∷ [])
        (All-later m.next_id (loads m.fetches) t.fresh) (omega arith, tt));
  distinct =
      subst (λ ps. Distinct (ids ps)) (sym added)
        (subst Distinct (sym (ids-append (loads m.fetches) (m.next_id, i))) (
          append-Distinct (ids (loads m.fetches)) m.next_id t.distinct
            (contains_fresh m.next_id (loads m.fetches) t.fresh)));
}
  where
    added :
        loads (m.fetches ++ record { id = m.next_id; file = m.filename; index = i } ∷ [])
        ≡ loads m.fetches ++ (m.next_id, i) ∷ []
    added = loads-append m.fetches (record { id = m.next_id; file = m.filename; index = i })

pub load_chunk-IsTracked :
    (i : ℕ) (k : Caller) (m : ChunkManager) → IsTracked m → IsTracked (load_chunk i k m)
unfolding load_chunk
load_chunk-IsTracked i k m t = elim (Bool-cases (Map.has i m.loaded)) [
  | inl hit ↦ rw hit (called (settled true) k m.fetches m.waiters m.loading m.next_id t)
  | inr miss ↦ elim (Option-cases (Map.get i m.loading)) [
    | inl n ↦ rw (miss, n) (start_load-IsTracked i k m n t)
    | inr (id, e) ↦ rw (miss, e) (called (on id) k m.fetches m.waiters m.loading m.next_id t)
  ]
]

pub ensure_loaded-IsTracked :
    (frame : ℕ) (m : ChunkManager) → IsTracked m → IsTracked (ensure_loaded frame m)
unfolding ensure_loaded
ensure_loaded-IsTracked frame m t = elim (Option-cases m.manifest) [
  | inl e ↦ rw (e, ensure_loaded) t
  | inr (mf, e) ↦ rw (e, ensure_loaded) (load_chunk-IsTracked _ _ m t)
]

pub check_prefetch-IsTracked :
    (frame i : ℕ) (m : ChunkManager) → IsTracked m → IsTracked (check_prefetch frame i m)
unfolding check_prefetch
check_prefetch-IsTracked frame i m t = elim (Option-cases m.manifest) [
  | inl e ↦ rw (e, check_prefetch) t
  | inr (mf, e) ↦ elim (Bool-cases (wants_prefetch frame i mf m)) [
    | inl wants ↦
        rw (e, check_prefetch, wants)
          (load_chunk-IsTracked (i + 1) prefetcher (record m { prefetching = some (i + 1) }) t)
    | inr not_now ↦ rw (e, check_prefetch, not_now) t
  ]
]

pub finished-IsTracked :
    (id : ℕ) (o : Bool) (m : ChunkManager) → IsTracked m → IsTracked (finished id o m)
finished-IsTracked id o m t =
    let left = loads-drop_fetch id m.fetches t.distinct in
    record {
      paired = left ∙ ap (without id) t.paired ∙ sym (open_locks-settle id o m.waiters);
      locked = λ i. locks-settle i id o m.waiters ∙ t.locked i;
      once = t.once;
      fresh =
          subst (All (λ p. load_id p < m.next_id)) (sym left) (
            All-keep (λ p. load_id p < m.next_id) (λ p. not (p.0 == id)) (loads m.fetches) t.fresh);
      distinct =
          subst (λ ps. Distinct (ids ps)) (sym left)
            (without-Distinct id (loads m.fetches) t.distinct);
    }
