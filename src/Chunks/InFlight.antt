-- ===== src/Chunks/InFlight.antt =====
-- Loads in flight in ui/src/data/chunkManager.ts.
use ocap2_web.Base.{◌≡◌, refl, ◌∙◌, ℕ, true, some, [], arith}
use ocap2_web.Base.Map
use ocap2_web.Types.{ChunkData}
use ocap2_web.Chunks.{
  ChunkManager, Fetch, find_fetch, clear, arrive, store_in_memory, stored, evict, finished,
}

-- A load that is in flight at a `clear` still stores its chunk: the answer that comes behind the clear
-- puts the chunk, which is one of the old mission, into the emptied memory.
pub arrive-clear :
    (id : ℕ) (chunk : ChunkData) (m : ChunkManager) (f : Fetch)
    → find_fetch id m.fetches ≡ some f
    → (m' : ChunkManager) × (arrive id chunk (clear m) ≡ some m')
      × (Map.get f.index m'.loaded ≡ some chunk)
unfolding arrive clear store_in_memory evict
arrive-clear id chunk m f e = (
  stored f.index chunk (finished id true (clear m))
      (record { order = []; loaded = []; evicted = [] }),
  rw (arrive, e) refl,
  Map.get-put f.index f.index chunk [] ∙ ground arith,
)
