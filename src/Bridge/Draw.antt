-- ===== src/Bridge/Draw.antt =====
-- The loop over the snapshots of ui/src/pages/recording-playback/useRenderBridge.ts.
use Prim.Native.String.{String}
use ocap2_web.Base.{
  ℕ, ◌≡◌, refl, sym, ap, ◌∙◌, subst, false, Option, none, some, List, [], ◌∷◌, ◌++◌, ◌==◌, ==→eq,
  Bool-cases, Option-cases, some_inj, inl, inr, contains, arith,
}
use ocap2_web.Base.Map
use ocap2_web.Base.Map.{Map, get-put_self}
use ocap2_web.Chunks.Keys.{Distinct}
use ocap2_web.Types.{ArmaCoord, EntitySnapshot}
use ocap2_web.Entities.{Entity, or_else}
use ocap2_web.Bridge.{Bridge, state_of, opts_of, draw_marker, draw_all, add_fire_lines, line_from}
use ocap2_web.Bridge.Drawing.{Scene, Marker, MarkerState, update_marker, create_marker, add_line}
use ocap2_web.Bridge.InStep.{
  Owns, IsInStep, Shows, All-get, replace_marker, replace-IsInStep, create-IsInStep, Shows-replace,
  Shows-create, get-put_ne, All-map,
}

-- The two of a bridge.
abbrev pub InStep : Bridge → Type 0
InStep b = IsInStep b.handles b.scene

abbrev pub Shown : ℕ → MarkerState → Bridge → Type 0
Shown id state b = Shows id state b.handles b.scene

update-replace :
    (h : ℕ) (m : Marker) (state : MarkerState) (s : Scene)
    → Map.get h s.markers ≡ some m
    → update_marker h state s ≡ replace_marker h (m.0, some state) s
unfolding update_marker
update-replace h m state s g = rw (g, update_marker) refl

-- What drawing one marker does: in step, shown, and the others as they were.
pub record Drew (id : ℕ) (state : MarkerState) (b b' : Bridge) : Type 0 where
  pub in_step : InStep b'
  pub shown : Shown id state b'
  pub others : (k : ℕ) (st : MarkerState) → (id == k) ≡ false → Shown k st b → Shown k st b'
  pub handles_of :
      (k h : ℕ) → Map.get k b'.handles ≡ some h → (id == k) ≡ false → Map.get k b.handles ≡ some h

module _ (get_entity : ℕ → Option Entity) (text_of : ℕ → String) (hits : List ℕ) where
  abbrev pub drawn_state : ℕ → EntitySnapshot → MarkerState
  drawn_state id snap = state_of get_entity text_of hits id snap

  redrawn :
      (id h : ℕ) (m : Marker) (state : MarkerState) (b : Bridge)
      → InStep b
      → Map.get id b.handles ≡ some h
      → Map.get h b.scene.markers ≡ some m
      → m.0.entity ≡ id
      → Drew id state b (record b { scene = replace_marker h (m.0, some state) b.scene })
  redrawn id h m state b w held on_map for_id = record {
    in_step = replace-IsInStep b.handles h (m.0, some state) m b.scene on_map refl w;
    shown = record {
      handle = h;
      opts = m.0;
      held = held;
      drawn = get-put_self h (m.0, some state) b.scene.markers;
    };
    others = λ k st ne sh.
        Shows-replace k h st (m.0, some state) m b.handles b.scene w on_map
          (ap (λ i. i == k) for_id ∙ ne) sh;
    handles_of = λ k g q ne. q;
  }

  -- The marker is created first.
  abbrev created : ℕ → EntitySnapshot → Bridge → Bridge
  created id snap b = record b {
    handles = Map.put id b.scene.next b.handles;
    scene = create_marker (opts_of get_entity text_of id snap) b.scene;
  }

  drawn_new :
      (id : ℕ) (snap : EntitySnapshot) (b : Bridge)
      → InStep b
      → Map.get id b.handles ≡ none
      → Drew id (drawn_state id snap) b (record (created id snap b) {
        scene = update_marker b.scene.next (drawn_state id snap) (created id snap b).scene;
      })
  drawn_new id snap b w none_yet =
      let b1 : Bridge = created id snap b in
      let m : Marker = (opts_of get_entity text_of id snap, none) in
      let on_map : Map.get b.scene.next b1.scene.markers ≡ some m =
        get-put_self b.scene.next m b.scene.markers in
      let w1 : InStep b1 = create-IsInStep b.handles id m.0 b.scene w none_yet refl in
      let drew =
        redrawn id b.scene.next m (drawn_state id snap) b1 w1
          (get-put_self id b.scene.next b.handles) on_map refl in
      rw (update-replace b.scene.next m (drawn_state id snap) b1.scene on_map) (record {
        in_step = drew.in_step;
        shown = drew.shown;
        others = λ k st ne sh.
            drew.others k st ne (Shows-create k id st m.0 b.handles b.scene w none_yet sh);
        handles_of = λ k h q ne. sym (get-put_ne id k b.scene.next b.handles ne) ∙ q;
      })

  draw_marker-Drew :
      (id : ℕ) (snap : EntitySnapshot) (b : Bridge)
      → InStep b
      → Drew id (drawn_state id snap) b (draw_marker get_entity text_of hits id snap b)
  unfolding draw_marker
  draw_marker-Drew id snap b w = elim (Option-cases (Map.get id b.handles)) [
    | inr (h, held) ↦
        let own = All-get (Owns b.scene) id h b.handles w.owned held in
        rw (held, draw_marker, update-replace h own.marker (drawn_state id snap) b.scene own.on_map)
          (redrawn id h own.marker (drawn_state id snap) b w held own.on_map own.entity)
    | inl none_yet ↦ rw (none_yet, draw_marker) (drawn_new id snap b w none_yet)
  ]

-- The fire lines of a snapshot leave the markers.
add_line-InStep :
    (snap : EntitySnapshot) (target : ArmaCoord) (b : Bridge)
    → InStep b
    → IsInStep b.handles (add_line (line_from snap target) b.scene)
add_line-InStep snap target b w = record {
  legal = w.legal;
  owned =
      All-map (Owns b.scene) (Owns (add_line (line_from snap target) b.scene)) b.handles
        (λ e o. record { marker = o.marker; on_map = o.on_map; entity = o.entity }) w.owned;
  known = w.known;
  fresh = λ h m q. omega (arith, w.fresh h m q);
}

pub record Lined (b b' : Bridge) : Type 0 where
  pub in_step : InStep b'
  pub others : (k : ℕ) (st : MarkerState) → Shown k st b → Shown k st b'
  pub handles_of : (k h : ℕ) → Map.get k b'.handles ≡ some h → Map.get k b.handles ≡ some h

add_fire_lines-Lined :
    (snap : EntitySnapshot) (targets : List ArmaCoord) (b : Bridge)
    → InStep b
    → Lined b (add_fire_lines snap targets b)
unfolding add_fire_lines
add_fire_lines-Lined snap [] b w = record {
  in_step = w;
  others = λ k st sh. sh;
  handles_of = λ k h q. q;
}
add_fire_lines-Lined snap (target ∷ targets) b w =
    let b1 : Bridge = record b {
      fire_lines = b.fire_lines ++ b.scene.next ∷ [];
      scene = add_line (line_from snap target) b.scene;
    } in
    let rest = add_fire_lines-Lined snap targets b1 (add_line-InStep snap target b w) in
    record {
      in_step = rest.in_step;
      others = λ k st sh.
          rest.others k st
            (record { handle = sh.handle; opts = sh.opts; held = sh.held; drawn = sh.drawn });
      handles_of = λ k h q. rest.handles_of k h q;
    }

module _ (get_entity : ℕ → Option Entity) (text_of : ℕ → String) (hits : List ℕ) where
  -- Behind the loop every snapshot is shown, and a marker has a snapshot or was there before.
  pub record Drawn (snaps : Map EntitySnapshot) (b b' : Bridge) : Type 0 where
    pub in_step : InStep b'
    pub shown :
        (id : ℕ) (snap : EntitySnapshot)
        → Map.get id snaps ≡ some snap
        → Shown id (drawn_state get_entity text_of hits id snap) b'
    pub others :
        (k : ℕ) (st : MarkerState)
        → contains k (Map.keys snaps) ≡ false
        → Shown k st b
        → Shown k st b'
    pub handles_of :
        (k h : ℕ)
        → Map.get k b'.handles ≡ some h
        → contains k (Map.keys snaps) ≡ false
        → Map.get k b.handles ≡ some h

  Shown-again :
      (id k : ℕ) (snap s : EntitySnapshot) (b : Bridge)
      → id ≡ k
      → snap ≡ s
      → Shown id (drawn_state get_entity text_of hits id snap) b
      → Shown k (drawn_state get_entity text_of hits k s) b
  Shown-again id k snap s b p q sh =
      subst (λ i. Shown i (drawn_state get_entity text_of hits i s) b) p
        (subst (λ x. Shown id (drawn_state get_entity text_of hits id x) b) q sh)

  pub draw_all-Drawn :
      (snaps : Map EntitySnapshot) (b : Bridge)
      → Distinct (Map.keys snaps)
      → InStep b
      → Drawn snaps b (draw_all get_entity text_of hits snaps b)
  unfolding draw_all Map.get
  draw_all-Drawn [] b d w = record {
    in_step = w;
    shown = λ id snap q. cc q;
    others = λ k st c sh. sh;
    handles_of = λ k h q c. q;
  }
  draw_all-Drawn ((id, snap) ∷ snaps) b d w =
      let drew = draw_marker-Drew get_entity text_of hits id snap b w in
      let b1 : Bridge = draw_marker get_entity text_of hits id snap b in
      let targets : List ArmaCoord = or_else snap.fired_targets [] in
      let lined = add_fire_lines-Lined snap targets b1 drew.in_step in
      let rest = draw_all-Drawn snaps (add_fire_lines snap targets b1) d.1 lined.in_step in
      record {
        in_step = rest.in_step;
        shown = λ k s q. elim (Bool-cases (id == k)) [
          | inl e ↦
              Shown-again id k snap s (draw_all get_entity text_of hits ((id, snap) ∷ snaps) b)
                (==→eq id k e) (some_inj (rw e at q))
                (rest.others id (drawn_state get_entity text_of hits id snap) d.0
                  (lined.others id (drawn_state get_entity text_of hits id snap) drew.shown))
          | inr e ↦ rest.shown k s (rw e at q)
        ];
        others = λ k st c sh. elim (Bool-cases (id == k)) [
          | inl e ↦ cc (rw e at c)
          | inr e ↦ rest.others k st (rw e at c) (lined.others k st (drew.others k st e sh))
        ];
        handles_of = λ k h q c. elim (Bool-cases (id == k)) [
          | inl e ↦ cc (rw e at c)
          | inr e ↦ drew.handles_of k h (lined.handles_of k h (rest.handles_of k h q (rw e at c))) e
        ];
      }
