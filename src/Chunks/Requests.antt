-- ===== src/Chunks/Requests.antt =====
-- One request at a time for a chunk in ui/src/data/chunkManager.ts, while `clear` is not called.
use ocap2_web.Base.{Bool, true, false}
use ocap2_web.Base.Map
use ocap2_web.Base.Map.{Map}
use ocap2_web.Chunks.{Event}

abbrev pub is_cleared : Event → Bool
is_cleared Event.cleared = true
is_cleared _ = false
