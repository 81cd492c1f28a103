-- ===== src/Bridge/Lines.antt =====
-- The fire lines of ui/src/pages/recording-playback/useRenderBridge.ts.
use Prim.Native.String.{String}
use ocap2_web.Base.{
  ℕ, suc, ◌<◌, ◌≤◌, ◌≡◌, refl, sym, ap, ◌∙◌, subst, ◌&&◌, Bool, true, false, Option, none, List, [],
  ◌∷◌, ◌++◌, map, All, All-append, ◌==◌, ==_refl, Bool-cases, Option-cases, inl, inr, contains,
  arith,
}
use ocap2_web.Base.Map
use ocap2_web.Base.Map.{Map}
use ocap2_web.Chunks.Keys.{Distinct, append-Distinct}
use ocap2_web.Types.{ArmaCoord, EntitySnapshot}
use ocap2_web.Entities.{Entity, or_else}
use ocap2_web.Bridge.{
  Bridge, draw_marker, draw_all, add_fire_lines, line_from, remove_lines, state_of, opts_of,
}
use ocap2_web.Bridge.Drawing.{Scene, Line, MarkerState, update_marker, remove_line, without}

without_absent : (k : ℕ) (m : Map Line) → contains k (Map.keys m) ≡ false → without k m ≡ m
unfolding without
without_absent k [] h = refl
without_absent k ((j, v) ∷ m) h = elim (Bool-cases (j == k)) [
  | inl e ↦ cc (rw e at h)
  | inr e ↦ rw e (ap (λ r. (j, v) ∷ r) (without_absent k m (rw e at h)))
]

-- The lines on the map are those of the handles, one each.
pub record Holds (lines : List ℕ) (s : Scene) : Type 0 where
  pub keys : Map.keys s.lines ≡ lines
  pub distinct : Distinct lines
  pub below : All (λ h. h < s.next) lines

-- All lines leave the map, by legal calls, and the markers stay.
pub record Cleared (s s' : Scene) : Type 0 where
  pub lines : s'.lines ≡ []
  pub legal : s'.legal ≡ s.legal
  pub markers : s'.markers ≡ s.markers
  pub next : s'.next ≡ s.next

remove_head :
    (h : ℕ) (v : Line) (m : Map Line) (s : Scene)
    → s.lines ≡ (h, v) ∷ m
    → contains h (Map.keys m) ≡ false
    → ((remove_line h s).lines ≡ m) × ((remove_line h s).legal ≡ s.legal)
unfolding remove_line without Map.has
remove_head h v m s q c =
    (rw (q, ==_refl h) (without_absent h m c), rw (q, ==_refl h) (and_true s.legal))
  where
    and_true : (b : Bool) → (b && true) ≡ b
    and_true true = refl
    and_true false = refl

remove_lines-lines :
    (m : Map Line) (s : Scene)
    → s.lines ≡ m
    → Distinct (Map.keys m)
    → Cleared s (remove_lines (Map.keys m) s)
unfolding remove_lines
remove_lines-lines [] s q d = record { lines = q; legal = refl; markers = refl; next = refl }
remove_lines-lines ((h, v) ∷ m) s q d =
    let (gone, ok) = remove_head h v m s q d.0 in
    let rest = remove_lines-lines m (remove_line h s) gone d.1 in
    record {
      lines = rest.lines;
      legal = rest.legal ∙ ok;
      markers = rest.markers ∙ remove_line-markers h s;
      next = rest.next ∙ remove_line-next h s;
    }
  where
    remove_line-markers : (h : ℕ) (s : Scene) → (remove_line h s).markers ≡ s.markers
    remove_line-markers h s = refl

    remove_line-next : (h : ℕ) (s : Scene) → (remove_line h s).next ≡ s.next
    remove_line-next h s = refl

pub remove_lines-Cleared :
    (lines : List ℕ) (s : Scene) → Holds lines s → Cleared s (remove_lines lines s)
remove_lines-Cleared lines s w =
    subst (λ hs. Cleared s (remove_lines hs s)) w.keys
      (remove_lines-lines s.lines s refl (subst Distinct (sym w.keys) w.distinct))

-- The lines that the snapshots ask for.
abbrev pub wanted_lines : Map EntitySnapshot → List Line
wanted_lines [] = []
wanted_lines ((id, snap) ∷ snaps) =
    map (line_from snap) (or_else snap.fired_targets []) ++ wanted_lines snaps

-- The lines of a bridge, with those added since.
pub record Grown (added : List Line) (b b' : Bridge) : Type 0 where
  pub holds : Holds b'.fire_lines b'.scene
  pub lines : Map.values b'.scene.lines ≡ Map.values b.scene.lines ++ added

keys-append : (m : Map Line) (k : ℕ) (v : Line) → Map.keys (m ++ (k, v) ∷ []) ≡ Map.keys m ++ k ∷ []
keys-append [] k v = refl
keys-append ((j, w) ∷ m) k v = ap (λ ks. j ∷ ks) (keys-append m k v)

values-append :
    (m : Map Line) (k : ℕ) (v : Line) → Map.values (m ++ (k, v) ∷ []) ≡ Map.values m ++ v ∷ []
values-append [] k v = refl
values-append ((j, w) ∷ m) k v = ap (λ vs. w ∷ vs) (values-append m k v)

append_assoc : (xs ys zs : List Line) → (xs ++ ys) ++ zs ≡ xs ++ (ys ++ zs)
append_assoc [] ys zs = refl
append_assoc (x ∷ xs) ys zs = ap (λ r. x ∷ r) (append_assoc xs ys zs)

append_nil : (xs : List Line) → xs ++ [] ≡ xs
append_nil [] = refl
append_nil (x ∷ xs) = ap (λ r. x ∷ r) (append_nil xs)

not_below : (k : ℕ) (hs : List ℕ) → All (λ h. h < k) hs → contains k hs ≡ false
not_below k [] h = refl
not_below k (x ∷ hs) h = ground (arith, not_below k hs h.1)

All-lt_mono : (a b : ℕ) (hs : List ℕ) → a ≤ b → All (λ h. h < a) hs → All (λ h. h < b) hs
All-lt_mono a b [] le h = tt
All-lt_mono a b (x ∷ hs) le h = (omega (arith, h.0), All-lt_mono a b hs le h.1)

-- One line more.
add_line-Holds :
    (lines : List ℕ) (line : Line) (s : Scene)
    → Holds lines s
    → Holds
        (lines ++ s.next ∷ [])
        (record s { lines = s.lines ++ (s.next, line) ∷ []; next = suc s.next })
add_line-Holds lines line s w = record {
  keys = keys-append s.lines s.next line ∙ ap (λ ks. ks ++ s.next ∷ []) w.keys;
  distinct = append-Distinct lines s.next w.distinct (not_below s.next lines w.below);
  below =
      All-append (λ h. h < suc s.next) lines (s.next ∷ [])
        (All-lt_mono s.next (suc s.next) lines (omega arith) w.below) (omega arith, tt);
}

pub add_fire_lines-Grown :
    (snap : EntitySnapshot) (targets : List ArmaCoord) (b : Bridge)
    → Holds b.fire_lines b.scene
    → Grown (map (line_from snap) targets) b (add_fire_lines snap targets b)
unfolding add_fire_lines
add_fire_lines-Grown snap [] b w = record {
  holds = w;
  lines = sym (append_nil (Map.values b.scene.lines));
}
add_fire_lines-Grown snap (target ∷ targets) b w =
    let line : Line = line_from snap target in
    let b1 : Bridge = record b {
      fire_lines = b.fire_lines ++ b.scene.next ∷ [];
      scene = record b.scene {
        lines = b.scene.lines ++ (b.scene.next, line) ∷ [];
        next = suc b.scene.next;
      };
    } in
    let rest = add_fire_lines-Grown snap targets b1 (add_line-Holds b.fire_lines line b.scene w) in
    record {
      holds = rest.holds;
      lines =
          rest.lines
          ∙ ap (λ vs. vs ++ map (line_from snap) targets)
              (values-append b.scene.lines b.scene.next line)
          ∙ append_assoc (Map.values b.scene.lines) (line ∷ []) (map (line_from snap) targets);
    }

-- A marker leaves the lines.
update_marker-lines :
    (h : ℕ) (state : MarkerState) (s : Scene)
    → ((update_marker h state s).lines ≡ s.lines) × ((update_marker h state s).next ≡ s.next)
unfolding update_marker
update_marker-lines h state s = elim (Option-cases (Map.get h s.markers)) [
  | inl e ↦ rw (e, update_marker) (refl, refl)
  | inr (m, e) ↦ rw (e, update_marker) (refl, refl)
]

module _ (get_entity : ℕ → Option Entity) (text_of : ℕ → String) (hits : List ℕ) where
  Holds-update :
      (lines : List ℕ) (h : ℕ) (state : MarkerState) (s : Scene)
      → Holds lines s
      → Holds lines (update_marker h state s)
  Holds-update lines h state s w =
      let (same, next) = update_marker-lines h state s in
      record {
        keys = ap Map.keys same ∙ w.keys;
        distinct = w.distinct;
        below = subst (λ n. All (λ k. k < n) lines) (sym next) w.below;
      }

  draw_marker-Grown :
      (id : ℕ) (snap : EntitySnapshot) (b : Bridge)
      → Holds b.fire_lines b.scene
      → Grown [] b (draw_marker get_entity text_of hits id snap b)
  unfolding draw_marker
  draw_marker-Grown id snap b w = elim (Option-cases (Map.get id b.handles)) [
    | inr (h, e) ↦
        rw (e, draw_marker)
          (record {
            holds =
                Holds-update b.fire_lines h (state_of get_entity text_of hits id snap) b.scene w;
            lines =
                ap Map.values
                  (update_marker-lines h (state_of get_entity text_of hits id snap) b.scene).0
                ∙ sym (append_nil (Map.values b.scene.lines));
          })
    | inl e ↦
        let made : Scene = record b.scene {
          markers = Map.put b.scene.next (opts_of get_entity text_of id snap, none) b.scene.markers;
          next = suc b.scene.next;
        } in
        rw (e, draw_marker)
          (record {
            holds =
                Holds-update b.fire_lines b.scene.next (state_of get_entity text_of hits id snap)
                  made
                  (record {
                    keys = w.keys;
                    distinct = w.distinct;
                    below =
                        All-lt_mono b.scene.next (suc b.scene.next) b.fire_lines (omega arith)
                          w.below;
                  });
            lines =
                ap Map.values
                  (update_marker-lines b.scene.next (state_of get_entity text_of hits id snap)
                    made).0
                ∙ sym (append_nil (Map.values b.scene.lines));
          })
  ]

  pub draw_all-Grown :
      (snaps : Map EntitySnapshot) (b : Bridge)
      → Holds b.fire_lines b.scene
      → Grown (wanted_lines snaps) b (draw_all get_entity text_of hits snaps b)
  unfolding draw_all
  draw_all-Grown [] b w = record { holds = w; lines = sym (append_nil (Map.values b.scene.lines)) }
  draw_all-Grown ((id, snap) ∷ snaps) b w =
      let targets : List ArmaCoord = or_else snap.fired_targets [] in
      let b1 : Bridge = draw_marker get_entity text_of hits id snap b in
      let one = draw_marker-Grown id snap b w in
      let two = add_fire_lines-Grown snap targets b1 one.holds in
      let rest = draw_all-Grown snaps (add_fire_lines snap targets b1) two.holds in
      record {
        holds = rest.holds;
        lines =
            rest.lines
            ∙ ap (λ vs. vs ++ wanted_lines snaps)
                (two.lines
                  ∙ ap (λ vs. vs ++ map (line_from snap) targets)
                      (one.lines ∙ append_nil (Map.values b.scene.lines)))
            ∙ append_assoc (Map.values b.scene.lines) (map (line_from snap) targets)
                (wanted_lines snaps);
      }
