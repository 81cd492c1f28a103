-- ===== src/Chunks/Tests.antt =====
-- Concrete runs of the class ChunkManager of ui/src/data/chunkManager.ts.
use ocap2_web.Base.{
  ℕ, ◌≡◌, refl, arith, Option, none, some, List, [], ◌∷◌, ◌++◌, ◌==◌, contains, if◌then◌else◌,
}
use ocap2_web.Base.Map
use ocap2_web.Types.{Manifest, ChunkData}
use ocap2_web.Chunks.{ChunkManager, Event, new_manager, run, store_in_memory}
use ocap2_web.Chunks.Invariant.{IsValid, run-IsValid, new_manager-IsValid}
use ocap2_web.Chunks.{clear, arrive, load_chunk, start_load, step, find_fetch}
use ocap2_web.Chunks.InFlight.{arrive-clear}
use ocap2_web.Chunks.Single.{loads, index_count}
use ocap2_web.Chunks.Lru.{newest, store_in_memory-lru}

abbrev test_manifest : Manifest
test_manifest = record {
  version = 1;
  world_name = "altis";
  mission_name = "test";
  mission_author = none;
  end_frame = 2000;
  chunk_size = 300;
  capture_delay_ms = 1000;
  chunk_count = 7;
  entities = [];
  events = [];
  markers = [];
  times = [];
  extension_version = none;
  addon_version = none;
}

abbrev test_chunk : ChunkData
test_chunk = record { entities = [] }

abbrev four_loads : List Event
four_loads =
    Event.manifest_requested "mission"
    ∷ Event.manifest_arrived test_manifest
    ∷ Event.ensure 290
    ∷ Event.load 2
    ∷ Event.load 1
    ∷ Event.load 5
    ∷ Event.arrived 0 test_chunk
    ∷ Event.arrived 1 test_chunk
    ∷ Event.resumed 0
    ∷ Event.arrived 2 test_chunk
    ∷ Event.arrived 3 test_chunk
    ∷ []

run-IsValid_example : (m : ChunkManager) × (run four_loads new_manager ≡ some m) × IsValid m
run-IsValid_example = run-IsValid four_loads new_manager new_manager-IsValid

abbrev full_manager : ChunkManager
full_manager = record new_manager {
  loaded = (0, test_chunk) ∷ (1, test_chunk) ∷ (2, test_chunk) ∷ [];
  order = 1 ∷ 0 ∷ 2 ∷ [];
}

full_manager-IsValid : IsValid full_manager
unfolding Map.has Map.get
full_manager-IsValid = record {
  distinct_order = (refl, (refl, (refl, tt)));
  distinct_keys = (refl, (refl, (refl, tt)));
  same = λ k. ground arith;
  sizes = refl;
  bounded = omega arith;
}

store_in_memory-lru_example :
    (m' : ChunkManager) × (store_in_memory 4 test_chunk full_manager ≡ some m')
    × (m'.order ≡ newest 2 (1 ∷ 0 ∷ 2 ∷ []) ++ 4 ∷ [])
    × ((k : ℕ)
        → Map.get k m'.loaded ≡ (
            if 4 == k
            then some test_chunk
            else (if contains k (newest 2 (1 ∷ 0 ∷ 2 ∷ []))
                then Map.get k full_manager.loaded
                else none)))
store_in_memory-lru_example =
    store_in_memory-lru 4 test_chunk full_manager full_manager-IsValid (unfold Map.has in refl)

abbrev loading_one : ChunkManager
loading_one = record new_manager {
  manifest = some test_manifest;
  filename = some "mission";
  loading = (3, 0) ∷ [];
  fetches = record { id = 0; file = some "mission"; index = 3 } ∷ [];
  next_id = 1;
}

arrive-clear_example :
    (m' : ChunkManager) × (arrive 0 test_chunk (clear loading_one) ≡ some m')
    × (Map.get 3 m'.loaded ≡ some test_chunk)
arrive-clear_example =
    arrive-clear 0 test_chunk loading_one (record { id = 0; file = some "mission"; index = 3 })
      (unfold find_fetch in refl)

-- With `clear` between them, two requests for the same chunk are in flight.
abbrev requests : Option ChunkManager → ℕ
requests none = 0
requests (some m) = index_count 3 (loads m.fetches)

two_requests : requests (run (Event.load 3 ∷ Event.cleared ∷ Event.load 3 ∷ []) new_manager) ≡ 2
unfolding run step load_chunk start_load clear Map.get Map.has Map.put
two_requests = refl
