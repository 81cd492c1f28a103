-- ===== src/Bridge/Tests.antt =====
-- A concrete run of the effect of ui/src/pages/recording-playback/useRenderBridge.ts.
use Prim.Native.String.{String}
use ocap2_web.Base.{ℕ, refl, true, false, Option, none, some, [], ◌∷◌}
use ocap2_web.Base.Map
use ocap2_web.Base.Map.{Map}
use ocap2_web.Types.{EntitySnapshot, xy, whole, alive, west, man}
use ocap2_web.Entities.{Entity}
use ocap2_web.Events.{empty_events, get_events_at_frame}
use ocap2_web.Bridge.{Bridge, new_bridge, sync_markers, hit_ids}
use ocap2_web.Bridge.Drawing.{Scene}
use ocap2_web.Bridge.Shown.{IsCoherent, IsShowing, sync_markers-IsShowing}

abbrev snap_at : ℕ → ℕ → EntitySnapshot
snap_at id x = record {
  id = id;
  position = xy (whole x) (whole 0);
  direction = whole 90;
  alive = alive;
  side = some west;
  name = "rifleman";
  icon_type = man;
  is_player = true;
  is_in_vehicle = false;
  fired_targets = some (xy (whole 1) (whole 2) ∷ []);
}

abbrev empty_scene : Scene
empty_scene = record { markers = []; lines = []; next = 0; legal = true }

abbrev no_entity : ℕ → Option Entity
no_entity id = none

abbrev some_text : ℕ → String
some_text n = "n"

abbrev two_snaps : Map EntitySnapshot
two_snaps = (4, snap_at 4 10) ∷ (5, snap_at 5 20) ∷ []

new_bridge-IsCoherent : IsCoherent (new_bridge empty_scene)
unfolding Map.get
new_bridge-IsCoherent = record {
  in_step = record { legal = refl; owned = tt; known = λ h m q. cc q; fresh = λ h m q. cc q };
  distinct = tt;
  holds = record { keys = refl; distinct = tt; below = tt };
}

abbrev frame_1 : Bridge
frame_1 = sync_markers no_entity some_text empty_events 1 two_snaps (new_bridge empty_scene)

frame_1-IsShowing :
    IsShowing no_entity some_text (hit_ids (get_events_at_frame 1 empty_events)) two_snaps frame_1
frame_1-IsShowing =
    sync_markers-IsShowing no_entity some_text empty_events 1 two_snaps (new_bridge empty_scene)
      (refl, (refl, tt)) new_bridge-IsCoherent

-- At the next frame the entity 4 is gone.
sync_markers-IsShowing_example :
    IsShowing no_entity some_text
      (hit_ids (get_events_at_frame 2 empty_events))
      ((5, snap_at 5 21) ∷ [])
      (sync_markers no_entity some_text empty_events 2 ((5, snap_at 5 21) ∷ []) frame_1)
sync_markers-IsShowing_example =
    sync_markers-IsShowing no_entity some_text empty_events 2 ((5, snap_at 5 21) ∷ []) frame_1
      (refl, tt) frame_1-IsShowing.coherent
