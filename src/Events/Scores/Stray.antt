-- ===== src/Events/Scores/Stray.antt =====
-- A kill of an unknown victim in the two counts of ui/src/playback/eventManager.ts.

use ocap2_web.Base.{ℕ, none, some, [], ◌∷◌}
use ocap2_web.Base.Map
use ocap2_web.Base.Map.{Map}
use Prim.Native.String.{String}
use ocap2_web.Types.{Number, hit_killed, killed}
use ocap2_web.Entities.{UnitEntity}
use ocap2_web.Events.{
  GameEvent, HitKilledEvent, EventManager, hit_killed_event, add_events, empty_events,
}

-- The events of a recording whose only event is a kill.
abbrev pub one_kill : ℕ → ℕ → ℕ → Number → String → EventManager
one_kill frame victim causer distance weapon =
    add_events 0
      (record { frame_num = frame; body = hit_killed killed victim causer distance weapon } ∷ [])
      empty_events

-- The kill of an unknown victim by a unit, behind the first pass of `resolveReferences`.
stray_hit : UnitEntity → ℕ → ℕ → Number → String → HitKilledEvent
stray_hit u victim causer distance weapon = record {
  kind = killed;
  victim_id = victim;
  caused_by_id = causer;
  distance = distance;
  weapon = weapon;
  victim_name = none;
  causer_name = some u.base.name;
  victim_side = none;
  causer_side = some u.side;
  causer_kill_score = none;
  victim_is_vehicle = none;
}

stray_event : UnitEntity → ℕ → ℕ → ℕ → Number → String → GameEvent
stray_event u at victim causer distance weapon = record {
  frame_num = at;
  id = 0;
  detail = hit_killed_event (stray_hit u victim causer distance weapon);
}
