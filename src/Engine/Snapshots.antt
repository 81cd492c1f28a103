-- ===== src/Engine/Snapshots.antt =====
-- `computeSnapshots` of ui/src/playback/engine.ts: what is drawn of every entity at a frame, from the
-- chunk in memory or from the entity's own positions.
use mathlib.Core.Option
use ocap2_web.Base.{
  ℕ, Bool, false, Option, none, some, List, [], ◌∷◌, ◌||◌, any, ltb, get_elem?, if◌then◌else◌,
}
use ocap2_web.Base.Int.{ℤ, pos, ltb_ℤ}
use ocap2_web.Base.Map
use ocap2_web.Base.Map.{Map}
use ocap2_web.Types.{EntityState, EntitySnapshot, ChunkData}
use ocap2_web.Entities.{
  Entity, EntityBase, UnitEntity, Vehicle, unit, vehicle, base_of, or_else, snapshot_of, state_at,
  get_relative_frame_index, unit_state_at_frame, vehicle_state_at_frame, fired_on_frame, set_crew,
  get_side_from_crew,
}

-- `entity.firedOnFrame(frame)`, noted in the snapshot if the unit fired.
abbrev pub with_shots : UnitEntity → ℕ → EntitySnapshot → EntitySnapshot
with_shots u frame s = record s { fired_targets = fired_on_frame u frame }

abbrev pub is_player_unit : Option Entity → Bool
is_player_unit (some (unit u)) = u.is_player
is_player_unit _ = false

-- `crewIds?.length ? crewIds : []`.
abbrev pub crew_of : EntityState → List ℕ
crew_of state = or_else state.crew_ids []

-- The side and the player flag of a vehicle come from its crew; without a crew they stay as given.
unfoldable pub with_crew : (ℕ → Option Entity) → List ℕ → Vehicle → EntitySnapshot → EntitySnapshot
with_crew get_entity [] v s = s
with_crew get_entity (id ∷ ids) v s = record s {
  side = get_side_from_crew get_entity (set_crew (id ∷ ids) v);
  is_player = any (λ k. is_player_unit (get_entity k)) (id ∷ ids);
}

-- An entity after the frame, and its snapshot if it has one.
unfoldable pub from_chunk :
    (ℕ → Option Entity) → ℕ → EntityState → Entity → Entity × Option EntitySnapshot
unfolding with_crew
from_chunk get_entity frame state (unit u) = (
  unit u,
  some (
      with_shots u frame (
        snapshot_of u.base state (some (or_else state.side u.side)) u.is_player
          (or_else state.is_in_vehicle false))),
)
from_chunk get_entity frame state (vehicle v) = (
  vehicle (set_crew (crew_of state) v),
  some (
      with_crew get_entity (crew_of state) v
        (snapshot_of v.base state none false (or_else state.is_in_vehicle false))),
)

abbrev pub crew_at : Vehicle → ℤ → List ℕ
crew_at v relative = elim (state_at v.base relative) [ none ↦ [] | some state ↦ crew_of state ]

-- The fallback to the entity's own positions.
unfoldable pub from_positions : (ℕ → Option Entity) → ℕ → Entity → Entity × Option EntitySnapshot
unfolding with_crew
from_positions get_entity frame (unit u) = (
  unit u,
  Option.map (with_shots u frame) (unit_state_at_frame u (get_relative_frame_index u.base frame)),
)
from_positions get_entity frame (vehicle v) =
    let relative = get_relative_frame_index v.base frame in
    elim (vehicle_state_at_frame v relative) [
      | none ↦ (vehicle v, none)
      | some s ↦ (
        vehicle (set_crew (crew_at v relative) v),
        some (with_crew get_entity (crew_at v relative) v s),
      )
    ]

-- `chunkData.entities.get(entity.id)?.[frameInChunk]`.
abbrev pub chunk_state : Option ChunkData → ℕ → ℕ → Option EntityState
chunk_state none id i = none
chunk_state (some data_) id i = elim (Map.get id data_.entities) [
  | none ↦ none
  | some states ↦ or_else (get_elem? states i) none
]

abbrev pub outside_life : EntityBase → ℕ → Bool
outside_life b frame = ltb frame b.start_frame || ltb_ℤ b.end_frame (pos frame)

unfoldable pub snapshot_entity :
    (ℕ → Option Entity) → Option ChunkData → ℕ → ℕ → Entity → Entity × Option EntitySnapshot
unfolding from_chunk from_positions
snapshot_entity get_entity chunk frame_in_chunk frame e =
    if outside_life (base_of e) frame
    then (e, none)
    else (elim (chunk_state chunk (base_of e).id frame_in_chunk) [
      | some state ↦ from_chunk get_entity frame state e
      | none ↦ from_positions get_entity frame e
    ])

abbrev pub note_snapshot : Option EntitySnapshot → Map EntitySnapshot → Map EntitySnapshot
note_snapshot none m = m
note_snapshot (some s) m = Map.put s.id s m

-- The loop over the entities. A vehicle's crew is set in place; the lookups read units only, which the
-- loop does not change.
unfoldable pub snapshot_all :
    (ℕ → Option Entity)
    → Option ChunkData
    → ℕ
    → ℕ
    → Map Entity
    → Map EntitySnapshot
    → Map Entity × Map EntitySnapshot
unfolding snapshot_entity
snapshot_all get_entity chunk i frame [] snapshots = ([], snapshots)
snapshot_all get_entity chunk i frame ((id, e) ∷ es) snapshots =
    let (e', s) = snapshot_entity get_entity chunk i frame e in
    let (es', snapshots') = snapshot_all get_entity chunk i frame es (note_snapshot s snapshots) in
    ((id, e') ∷ es', snapshots')
