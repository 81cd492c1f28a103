-- ===== src/Bridge/Shown.antt =====
-- The effect of ui/src/pages/recording-playback/useRenderBridge.ts as a whole.
use Prim.Native.String.{String}
use ocap2_web.Base.{
  ℕ, ◌≡◌, refl, sym, ap, ◌∙◌, subst, true, Option, some, List, [], ◌∷◌, ◌++◌, arith, Bool-cases,
  Option-cases, inl, inr,
}
use ocap2_web.Base.Map
use ocap2_web.Base.Map.{Map, has-contains}
use ocap2_web.Chunks.Keys.{Distinct, put-Distinct}
use ocap2_web.Types.{ArmaCoord, EntitySnapshot}
use ocap2_web.Entities.{Entity, or_else}
use ocap2_web.Events.{EventManager, get_events_at_frame}
use ocap2_web.Bridge.{
  Bridge, sync_markers, prune, remove_lines, draw_all, draw_marker, add_fire_lines, hit_ids,
  state_of,
}
use ocap2_web.Bridge.Drawing.{Scene, Marker}
use ocap2_web.Bridge.InStep.{IsInStep, Owns, All-map}
use ocap2_web.Bridge.Draw.{InStep, Shown, draw_all-Drawn}
use ocap2_web.Bridge.Lines.{Holds, wanted_lines, remove_lines-Cleared, draw_all-Grown}
use ocap2_web.Bridge.Prune.{prune-Pruned}

-- The handles of the bridge are, one each, those of the markers and of the lines on the map, and no call
-- was wrong.
pub record IsCoherent (b : Bridge) : Type 0 where
  pub in_step : InStep b
  pub distinct : Distinct (Map.keys b.handles)
  pub holds : Holds b.fire_lines b.scene

add_fire_lines-handles :
    (snap : EntitySnapshot) (targets : List ArmaCoord) (b : Bridge)
    → (add_fire_lines snap targets b).handles ≡ b.handles
unfolding add_fire_lines
add_fire_lines-handles snap [] b = refl
add_fire_lines-handles snap (t ∷ ts) b = add_fire_lines-handles snap ts _

module _ (get_entity : ℕ → Option Entity) (text_of : ℕ → String) (hits : List ℕ) where
  draw_marker-Distinct :
      (id : ℕ) (snap : EntitySnapshot) (b : Bridge)
      → Distinct (Map.keys b.handles)
      → Distinct (Map.keys (draw_marker get_entity text_of hits id snap b).handles)
  unfolding draw_marker
  draw_marker-Distinct id snap b d = elim (Option-cases (Map.get id b.handles)) [
    | inl e ↦ rw (e, draw_marker) (put-Distinct id b.scene.next b.handles d)
    | inr (h, e) ↦ rw (e, draw_marker) d
  ]

  draw_all-Distinct :
      (snaps : Map EntitySnapshot) (b : Bridge)
      → Distinct (Map.keys b.handles)
      → Distinct (Map.keys (draw_all get_entity text_of hits snaps b).handles)
  unfolding draw_all
  draw_all-Distinct [] b d = d
  draw_all-Distinct ((id, snap) ∷ snaps) b d =
      let b1 : Bridge = draw_marker get_entity text_of hits id snap b in
      let targets : List ArmaCoord = or_else snap.fired_targets [] in
      draw_all-Distinct snaps (add_fire_lines snap targets b1) (
        subst (λ hs. Distinct (Map.keys hs)) (sym (add_fire_lines-handles snap targets b1))
          (draw_marker-Distinct id snap b d))

-- The lines leave the map, and the markers stay in step.
cleared-InStep :
    (handles : Map ℕ) (lines : List ℕ) (s : Scene)
    → Holds lines s
    → IsInStep handles s
    → IsInStep handles (remove_lines lines s)
cleared-InStep handles lines s holds w =
    let c = remove_lines-Cleared lines s holds in
    let same : (h : ℕ) → Map.get h (remove_lines lines s).markers ≡ Map.get h s.markers =
      λ h. ap (Map.get h) c.markers in
    record {
      legal = c.legal ∙ w.legal;
      owned =
          All-map (Owns s) (Owns (remove_lines lines s)) handles
            (λ e o. record { marker = o.marker; on_map = same e.1 ∙ o.on_map; entity = o.entity })
            w.owned;
      known = λ h m q. w.known h m (sym (same h) ∙ q);
      fresh = λ h m q. omega (arith, w.fresh h m (sym (same h) ∙ q), c.next);
    }

-- What the map shows: for every snapshot a marker with its state, no other marker, and the lines of the
-- shots that the snapshots tell of.
pub record IsShowing (get_entity : ℕ → Option Entity) (text_of : ℕ → String) (hits : List ℕ)
    (snaps : Map EntitySnapshot) (b : Bridge) : Type 0 where
  pub coherent : IsCoherent b
  pub shown :
      (id : ℕ) (snap : EntitySnapshot)
      → Map.get id snaps ≡ some snap
      → Shown id (state_of get_entity text_of hits id snap) b
  pub only :
      (h : ℕ) (m : Marker) → Map.get h b.scene.markers ≡ some m → Map.has m.0.entity snaps ≡ true
  pub lines : Map.values b.scene.lines ≡ wanted_lines snaps

-- The map shows the frame. If the handles are those on the map and no call was wrong, and no two snapshots
-- are of one entity, then behind the effect this is so again; every snapshot has a marker that shows its
-- state, with the hits of the frame, no other marker is left, and the lines on the map are those of the
-- shots of the snapshots, in their order.
pub sync_markers-IsShowing :
    (get_entity : ℕ → Option Entity) (text_of : ℕ → String) (events : EventManager) (frame : ℕ)
    (snaps : Map EntitySnapshot) (b : Bridge)
    → Distinct (Map.keys snaps)
    → IsCoherent b
    → IsShowing get_entity text_of
        (hit_ids (get_events_at_frame frame events))
        snaps
        (sync_markers get_entity text_of events frame snaps b)
unfolding sync_markers
sync_markers-IsShowing get_entity text_of events frame snaps b distinct w =
    let hits : List ℕ = hit_ids (get_events_at_frame frame events) in
    let cleared = remove_lines-Cleared b.fire_lines b.scene w.holds in
    let s0 : Scene = remove_lines b.fire_lines b.scene in
    let pruned =
      prune-Pruned snaps b.handles s0 w.distinct
        (cleared-InStep b.handles b.fire_lines b.scene w.holds w.in_step) in
    let start : Bridge = record {
      handles = (prune snaps b.handles s0).0;
      fire_lines = [];
      scene = (prune snaps b.handles s0).1;
    } in
    let no_lines : start.scene.lines ≡ [] = pruned.lines ∙ cleared.lines in
    let drawn = draw_all-Drawn get_entity text_of hits snaps start distinct pruned.in_step in
    let grown =
      draw_all-Grown get_entity text_of hits snaps start
        (record { keys = ap Map.keys no_lines; distinct = tt; below = tt }) in
    record {
      coherent = record {
        in_step = drawn.in_step;
        distinct = draw_all-Distinct get_entity text_of hits snaps start pruned.distinct;
        holds = grown.holds;
      };
      shown = drawn.shown;
      only = λ h m q. elim (Bool-cases (Map.has m.0.entity snaps)) [
        | inl has ↦ has
        | inr missing ↦ pruned.has_snapshot m.0.entity h (
            drawn.handles_of m.0.entity h (drawn.in_step.known h m q)
              (sym (has-contains m.0.entity snaps) ∙ missing))
      ];
      lines = grown.lines ∙ ap (λ ls. Map.values ls ++ wanted_lines snaps) no_lines;
    }
