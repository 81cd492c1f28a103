-- ===== src/Chunks.antt =====
-- ui/src/data/chunkManager.ts: the class ChunkManager.
--
-- The asynchronous part is explicit. `fetches` are the calls of `loadChunkInternal` that wait for the
-- network and the decoder; `waiters` are the continuations behind an `await` or a `then`, which wait
-- for a load or are ready to run with its outcome. The scheduler chooses the next event freely.
-- `notices` are the calls of the two callbacks, oldest first.
pub mod Keys
pub mod Evict
pub mod Invariant
pub mod Lru
pub mod Single
pub mod Tracked
pub mod Requests
pub mod InFlight
mod Tests
use Prim.Native.String.{String}
use ocap2_web.Base.{
  ℕ, zero, suc, ◌+◌, ◌-◌, ◌*◌, ◌/◌, Bool, true, false, not, ◌&&◌, Option, none, some, List, [], ◌∷◌,
  ◌++◌, map, length, get_elem?, keep, ltb, leb, ◌==◌, if◌then◌else◌,
}
use ocap2_web.Base.Map
use ocap2_web.Base.Map.{Map}
use ocap2_web.Types.{Manifest, ChunkData}

-- Who waits for a chunk: `ensureLoaded` with its frame and chunk index, the `then` of a prefetch, or
-- any other caller of `loadChunk`.
pub data Caller : Type 0 where
  frame_caller : ℕ → ℕ → Caller
  prefetcher plain : Caller

-- The code behind the await: the end of `loadChunk`, or the caller.
pub data Action : Type 0 where
  unlock : ℕ → Caller → Action
  call : Caller → Action

-- A waiter waits on a load, or is settled: fulfilled or rejected.
pub data Wait : Type 0 where
  on : ℕ → Wait
  settled : Bool → Wait

pub record Waiter : Type 0 where
  pub wait : Wait
  pub action : Action

pub record Fetch : Type 0 where
  pub id : ℕ
  pub file : Option String
  pub index : ℕ

pub data Notice : Type 0 where
  chunk_loaded chunk_evicted : ℕ → Notice

pub record ChunkManager : Type 0 where
  pub loaded : Map ChunkData
  pub order : List ℕ
  pub loading : Map ℕ
  pub prefetching : Option ℕ
  pub manifest : Option Manifest
  pub filename : Option String
  pub fetches : List Fetch
  pub waiters : List Waiter
  pub next_id : ℕ
  pub notices : List Notice

abbrev pub max_chunks_in_memory : ℕ
max_chunks_in_memory = 3

abbrev pub new_manager : ChunkManager
new_manager = record {
  loaded = [];
  order = [];
  loading = [];
  prefetching = none;
  manifest = none;
  filename = none;
  fetches = [];
  waiters = [];
  next_id = 0;
  notices = [];
}

-- `manifest.chunkSize || 300`.
abbrev pub chunk_size_of : Manifest → ℕ
chunk_size_of mf = if mf.chunk_size == 0 then 300 else mf.chunk_size

unfoldable pub chunk_index : Manifest → ℕ → ℕ
chunk_index mf frame = frame / chunk_size_of mf

-- `indexOf` and `splice`.
unfoldable pub remove_first : ℕ → List ℕ → List ℕ
remove_first i [] = []
remove_first i (x ∷ xs) = if x == i then xs else x ∷ remove_first i xs

unfoldable pub update_access_order : ℕ → List ℕ → List ℕ
update_access_order i order = remove_first i order ++ i ∷ []

pub record Memory : Type 0 where
  pub order : List ℕ
  pub loaded : Map ChunkData
  pub evicted : List ℕ

-- The loop of `storeInMemory`. At an empty order `shift` gives undefined and changes nothing, so with
-- the memory full the loop never ends: `none`.
unfoldable pub evict : ℕ → List ℕ → Map ChunkData → List ℕ → Option Memory
evict i [] loaded gone =
    if ltb (length loaded) max_chunks_in_memory
    then some (record { order = []; loaded = loaded; evicted = gone })
    else none
evict i (oldest ∷ order) loaded gone =
    let rest =
      evict i order (if oldest == i then loaded else Map.delete oldest loaded)
        (if oldest == i then gone else gone ++ oldest ∷ []) in
    if ltb (length loaded) max_chunks_in_memory
    then some (record { order = oldest ∷ order; loaded = loaded; evicted = gone })
    else rest

abbrev pub stored : ℕ → ChunkData → ChunkManager → Memory → ChunkManager
stored i chunk m mem = record m {
  loaded = Map.put i chunk mem.loaded;
  order = update_access_order i mem.order;
  notices = m.notices ++ map chunk_evicted mem.evicted ++ chunk_loaded i ∷ [];
}

unfoldable pub store_in_memory : ℕ → ChunkData → ChunkManager → Option ChunkManager
store_in_memory i chunk m = elim (evict i m.order m.loaded []) [
  | none ↦ none
  | some mem ↦ some (stored i chunk m mem)
]

abbrev pub await_on : Wait → Action → ChunkManager → ChunkManager
await_on w a m = record m { waiters = m.waiters ++ record { wait = w; action = a } ∷ [] }

-- The call of `loadChunkInternal` up to its first await, and the entry in `loadingChunks`.
unfoldable pub start_load : ℕ → Caller → ChunkManager → ChunkManager
start_load i k m = record m {
  loading = Map.put i m.next_id m.loading;
  fetches = m.fetches ++ record { id = m.next_id; file = m.filename; index = i } ∷ [];
  waiters = m.waiters ++ record { wait = on m.next_id; action = unlock i k } ∷ [];
  next_id = suc m.next_id;
}

unfoldable pub load_chunk : ℕ → Caller → ChunkManager → ChunkManager
load_chunk i k m =
    if Map.has i m.loaded
    then await_on (settled true) (call k) (record m { order = update_access_order i m.order })
    else (elim (Map.get i m.loading) [
      | some id ↦ await_on (on id) (call k) m
      | none ↦ start_load i k m
    ])

-- Without a manifest the promise is rejected and nothing changes.
unfoldable pub ensure_loaded : ℕ → ChunkManager → ChunkManager
ensure_loaded frame m = elim m.manifest [
  | none ↦ m
  | some mf ↦ load_chunk (chunk_index mf frame) (frame_caller frame (chunk_index mf frame)) m
]

abbrev is_prefetching : Option ℕ → ℕ → Bool
is_prefetching none i = false
is_prefetching (some j) i = j == i

-- The condition of `checkPrefetch`. `progress >= 0.8` is read exactly: the quotient of two integers
-- below 2 ^ 50 is rounded to a double below the double 0.8 only if it is below 4 / 5.
unfoldable pub wants_prefetch : ℕ → ℕ → Manifest → ChunkManager → Bool
wants_prefetch frame current mf m =
    leb (4 * chunk_size_of mf) (5 * (frame - current * chunk_size_of mf))
    && (ltb (current + 1) mf.chunk_count
        && (not (Map.has (current + 1) m.loaded)
            && (not (Map.has (current + 1) m.loading)
                && not (is_prefetching m.prefetching (current + 1)))))

-- After a `clear` during the wait there is no manifest, and the continuation throws.
unfoldable pub check_prefetch : ℕ → ℕ → ChunkManager → ChunkManager
unfolding wants_prefetch
check_prefetch frame current m = elim m.manifest [
  | none ↦ m
  | some mf ↦
      if wants_prefetch frame current mf m
      then load_chunk (current + 1) prefetcher (record m { prefetching = some (current + 1) })
      else m
]

-- A continuation runs, with the outcome of what it waited for.
unfoldable pub perform : Bool → Action → ChunkManager → ChunkManager
perform outcome (unlock i k) m =
    await_on (settled outcome) (call k) (record m { loading = Map.delete i m.loading })
perform true (call (frame_caller frame i)) m = check_prefetch frame i m
perform false (call (frame_caller frame i)) m = m
perform outcome (call prefetcher) m = record m { prefetching = none }
perform outcome (call plain) m = m

unfoldable pub settle : ℕ → Bool → List Waiter → List Waiter
settle id outcome [] = []
settle id outcome (w ∷ ws) = elim w.wait [
  | on j ↦ (if j == id then record w { wait = settled outcome } else w) ∷ settle id outcome ws
  | settled b ↦ w ∷ settle id outcome ws
]

unfoldable pub find_fetch : ℕ → List Fetch → Option Fetch
find_fetch id [] = none
find_fetch id (f ∷ fs) = if f.id == id then some f else find_fetch id fs

unfoldable pub drop_fetch : ℕ → List Fetch → List Fetch
drop_fetch id [] = []
drop_fetch id (f ∷ fs) = if f.id == id then fs else f ∷ drop_fetch id fs

abbrev pub finished : ℕ → Bool → ChunkManager → ChunkManager
finished id outcome m = record m {
  fetches = drop_fetch id m.fetches;
  waiters = settle id outcome m.waiters;
}

-- The answer of the network, decoded: the rest of `loadChunkInternal`.
unfoldable pub arrive : ℕ → ChunkData → ChunkManager → Option ChunkManager
arrive id chunk m = elim (find_fetch id m.fetches) [
  | none ↦ some m
  | some f ↦ store_in_memory f.index chunk (finished id true m)
]

-- The request or the decoder fails.
unfoldable pub fail : ℕ → ChunkManager → ChunkManager
fail id m = elim (find_fetch id m.fetches) [ none ↦ m | some f ↦ finished id false m ]

unfoldable pub drop_waiter : ℕ → List Waiter → List Waiter
drop_waiter n [] = []
drop_waiter zero (w ∷ ws) = ws
drop_waiter (suc n) (w ∷ ws) = w ∷ drop_waiter n ws

-- Runs the waiter at a place of the list, if it is ready.
unfoldable pub resume : ℕ → ChunkManager → ChunkManager
resume n m = elim (get_elem? m.waiters n) [
  | none ↦ m
  | some w ↦ elim w.wait [
    | on id ↦ m
    | settled outcome ↦ perform outcome w.action (record m { waiters = drop_waiter n m.waiters })
  ]
]

-- `getChunkForFrame`, `none` outside where it throws for want of a manifest.
unfoldable pub get_chunk_for_frame : ℕ → ChunkManager → Option (Option ChunkData)
get_chunk_for_frame frame m = elim m.manifest [
  | none ↦ none
  | some mf ↦ some (Map.get (chunk_index mf frame) m.loaded)
]

-- Promises in flight are not cancelled.
unfoldable pub clear : ChunkManager → ChunkManager
clear m = record m {
  loaded = [];
  order = [];
  loading = [];
  prefetching = none;
  manifest = none;
  filename = none;
}

pub data Event : Type 0 where
  ensure : ℕ → Event
  load : ℕ → Event
  arrived : ℕ → ChunkData → Event
  failed : ℕ → Event
  resumed : ℕ → Event
  cleared : Event
  manifest_requested : String → Event
  manifest_arrived : Manifest → Event

unfoldable pub step : Event → ChunkManager → Option ChunkManager
step (ensure frame) m = some (ensure_loaded frame m)
step (load i) m = some (load_chunk i plain m)
step (arrived id chunk) m = arrive id chunk m
step (failed id) m = some (fail id m)
step (resumed n) m = some (resume n m)
step cleared m = some (clear m)
step (manifest_requested file) m = some (record m { filename = some file })
step (manifest_arrived mf) m = some (record m { manifest = some mf })

unfoldable pub run : List Event → ChunkManager → Option ChunkManager
run [] m = some m
run (e ∷ es) m = elim (step e m) [ none ↦ none | some m' ↦ run es m' ]
