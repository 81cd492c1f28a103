-- ===== src/Bridge/InStep.antt =====
-- The handles of ui/src/pages/recording-playback/useRenderBridge.ts and the markers on the map, at the
-- drawing of one marker.
use ocap2_web.Base.{
  ℕ, ◌<◌, ◌≡◌, refl, sym, ap, ◌∙◌, subst, true, false, none, some, [], ◌∷◌, arith, All, ◌==◌, ==→eq,
  eq→==, Bool-cases, some_inj, inl, inr,
}
use ocap2_web.Base.Map
use ocap2_web.Base.Map.{Map, get-put, get-put_self}
use ocap2_web.Bridge.Drawing.{Scene, Marker, MarkerOpts, MarkerState, create_marker}

module _ {V : Type 0} where
  pub get-put_ne :
      (k j : ℕ) (v : V) (m : Map V) → (k == j) ≡ false → Map.get j (Map.put k v m) ≡ Map.get j m
  get-put_ne k j v m h = get-put k j v m ∙ rw h refl

  pub All-put :
      (P : ℕ × V → Type 0) (k : ℕ) (v : V) (m : Map V) → All P m → P (k, v) → All P (Map.put k v m)
  unfolding Map.put
  All-put P k v [] h p = (p, tt)
  All-put P k v ((j, w) ∷ m) h p = ground (arith, All-put P k v m h.1 p)

  pub All-get :
      (P : ℕ × V → Type 0) (k : ℕ) (v : V) (m : Map V) → All P m → Map.get k m ≡ some v → P (k, v)
  unfolding Map.get
  All-get P k v [] h g = cc g
  All-get P k v ((j, w) ∷ m) h g = elim (Bool-cases (j == k)) [
    | inl e ↦ subst P (ap (λ i. (i, w)) (==→eq j k e) ∙ ap (λ u. (k, u)) (some_inj (rw e at g))) h.0
    | inr e ↦ All-get P k v m h.1 (rw e at g)
  ]

  pub All-map : (P Q : ℕ × V → Type 0) (m : Map V) → ((e : ℕ × V) → P e → Q e) → All P m → All Q m
  All-map P Q [] f h = tt
  All-map P Q (e ∷ m) f h = (f e h.0, All-map P Q m f h.1)

-- An entry of the handles has its marker on the map, made for the entity.
pub record Owns (s : Scene) (e : ℕ × ℕ) : Type 0 where
  pub marker : Marker
  pub on_map : Map.get e.1 s.markers ≡ some marker
  pub entity : marker.0.entity ≡ e.0

-- The handles are those of the markers on the map, and no call was wrong.
pub record IsInStep (handles : Map ℕ) (s : Scene) : Type 0 where
  pub legal : s.legal ≡ true
  pub owned : All (Owns s) handles
  pub known :
      (h : ℕ) (m : Marker) → Map.get h s.markers ≡ some m → Map.get m.0.entity handles ≡ some h
  pub fresh : (h : ℕ) (m : Marker) → Map.get h s.markers ≡ some m → h < s.next

-- A marker of an entity is replaced by another one of the same entity.
abbrev pub replace_marker : ℕ → Marker → Scene → Scene
replace_marker h m s = record s { markers = Map.put h m s.markers }

Owns-replace :
    (h : ℕ) (m old : Marker) (s : Scene)
    → Map.get h s.markers ≡ some old
    → m.0.entity ≡ old.0.entity
    → (e : ℕ × ℕ) → Owns s e
    → Owns (replace_marker h m s) e
Owns-replace h m old s g same e o = elim (Bool-cases (h == e.1)) [
  | inl q ↦ record {
    marker = m;
    on_map = get-put h e.1 m s.markers ∙ rw q refl;
    entity =
        let at : Map.get e.1 s.markers ≡ some old =
          ap (λ k. Map.get k s.markers) (sym (==→eq h e.1 q)) ∙ g in
        same ∙ ap (λ (x : Marker). x.0.entity) (some_inj (sym at ∙ o.on_map)) ∙ o.entity;
  }
  | inr q ↦ record {
    marker = o.marker;
    on_map = get-put_ne h e.1 m s.markers q ∙ o.on_map;
    entity = o.entity;
  }
]

pub replace-IsInStep :
    (handles : Map ℕ) (h : ℕ) (m old : Marker) (s : Scene)
    → Map.get h s.markers ≡ some old
    → m.0.entity ≡ old.0.entity
    → IsInStep handles s
    → IsInStep handles (replace_marker h m s)
replace-IsInStep handles h m old s g same w = record {
  legal = w.legal;
  owned =
      All-map (Owns s) (Owns (replace_marker h m s)) handles (Owns-replace h m old s g same)
        w.owned;
  known = λ k x q. elim (Bool-cases (h == k)) [
    | inl e ↦
        let x_is : m ≡ x = some_inj (rw e at (sym (get-put h k m s.markers) ∙ q)) in
        ap (λ (y : Marker). Map.get y.0.entity handles) (sym x_is)
        ∙ ap (λ i. Map.get i handles) same
        ∙ w.known h old g
        ∙ ap some (==→eq h k e)
    | inr e ↦ w.known k x (sym (get-put_ne h k m s.markers e) ∙ q)
  ];
  fresh = λ k x q. elim (Bool-cases (h == k)) [
    | inl e ↦ omega (arith, w.fresh h old g, ==→eq h k e)
    | inr e ↦ w.fresh k x (sym (get-put_ne h k m s.markers e) ∙ q)
  ];
}

above_ne : (a b : ℕ) → b < a → (a == b) ≡ false
above_ne a b h = ground arith

module _ (handles : Map ℕ) (id : ℕ) (opts : MarkerOpts) (s : Scene) (w : IsInStep handles s) where
  Owns-create : (e : ℕ × ℕ) → Owns s e → Owns (create_marker opts s) e
  Owns-create e o = record {
    marker = o.marker;
    on_map =
        get-put_ne s.next e.1 (opts, none) s.markers
          (above_ne s.next e.1 (w.fresh e.1 o.marker o.on_map))
        ∙ o.on_map;
    entity = o.entity;
  }

  -- An entity of a marker on the map is not one without a handle.
  other_entity :
      (k : ℕ) (x : Marker)
      → Map.get id handles ≡ none
      → Map.get k s.markers ≡ some x
      → (id == x.0.entity) ≡ false
  other_entity k x none_yet q = elim (Bool-cases (id == x.0.entity)) [
    | inr e ↦ e
    | inl e ↦ cc (none_yet, ap (λ i. Map.get i handles) (==→eq id x.0.entity e) ∙ w.known k x q)
  ]

  pub create-IsInStep :
      Map.get id handles ≡ none
      → opts.entity ≡ id
      → IsInStep (Map.put id s.next handles) (create_marker opts s)
  create-IsInStep none_yet for_id = record {
    legal = w.legal;
    owned =
        All-put (Owns (create_marker opts s)) id s.next handles
          (All-map (Owns s) (Owns (create_marker opts s)) handles Owns-create w.owned)
          (record {
            marker = (opts, none);
            on_map = get-put_self s.next (opts, none) s.markers;
            entity = for_id;
          });
    known = λ k x q. elim (Bool-cases (s.next == k)) [
      | inl e ↦
          let x_is : (opts, none) ≡ x =
            some_inj (rw e at (sym (get-put s.next k (opts, none) s.markers) ∙ q)) in
          ap (λ (y : Marker). Map.get y.0.entity (Map.put id s.next handles)) (sym x_is)
          ∙ ap (λ i. Map.get i (Map.put id s.next handles)) for_id
          ∙ get-put_self id s.next handles
          ∙ ap some (==→eq s.next k e)
      | inr e ↦
          let before : Map.get k s.markers ≡ some x =
            sym (get-put_ne s.next k (opts, none) s.markers e) ∙ q in
          get-put_ne id x.0.entity s.next handles (other_entity k x none_yet before)
          ∙ w.known k x before
    ];
    fresh = λ k x q. elim (Bool-cases (s.next == k)) [
      | inl e ↦ omega (arith, ==→eq s.next k e)
      | inr e ↦ omega (arith, w.fresh k x (sym (get-put_ne s.next k (opts, none) s.markers e) ∙ q))
    ];
  }

-- A marker shows a state of an entity.
pub record Shows (id : ℕ) (state : MarkerState) (handles : Map ℕ) (s : Scene) : Type 0 where
  pub handle : ℕ
  pub opts : MarkerOpts
  pub held : Map.get id handles ≡ some handle
  pub drawn : Map.get handle s.markers ≡ some (opts, some state)

-- An update of another entity's marker leaves it.
pub Shows-replace :
    (id h : ℕ) (state : MarkerState) (m old : Marker) (handles : Map ℕ) (s : Scene)
    → IsInStep handles s
    → Map.get h s.markers ≡ some old
    → (old.0.entity == id) ≡ false
    → Shows id state handles s
    → Shows id state handles (replace_marker h m s)
Shows-replace id h state m old handles s w g other sh = record {
  handle = sh.handle;
  opts = sh.opts;
  held = sh.held;
  drawn = get-put_ne h sh.handle m s.markers distinct ∙ sh.drawn;
}
  where
    distinct : (h == sh.handle) ≡ false
    distinct = elim (Bool-cases (h == sh.handle)) [
      | inr e ↦ e
      | inl e ↦
          let own = All-get (Owns s) id sh.handle handles w.owned sh.held in
          let at : Map.get sh.handle s.markers ≡ some old =
            sym (ap (λ k. Map.get k s.markers) (==→eq h sh.handle e)) ∙ g in
          let its : old ≡ own.marker = some_inj (sym at ∙ own.on_map) in
          cc (other, eq→== old.0.entity id (ap (λ (y : Marker). y.0.entity) its ∙ own.entity))
    ]

-- The creation of another entity's marker leaves it.
pub Shows-create :
    (id other : ℕ) (state : MarkerState) (opts : MarkerOpts) (handles : Map ℕ) (s : Scene)
    → IsInStep handles s
    → Map.get other handles ≡ none
    → Shows id state handles s
    → Shows id state (Map.put other s.next handles) (create_marker opts s)
Shows-create id other state opts handles s w none_yet sh = record {
  handle = sh.handle;
  opts = sh.opts;
  held = get-put_ne other id s.next handles apart ∙ sh.held;
  drawn =
      get-put_ne s.next sh.handle (opts, none) s.markers
        (above_ne s.next sh.handle (w.fresh sh.handle (sh.opts, some state) sh.drawn))
      ∙ sh.drawn;
}
  where
    apart : (other == id) ≡ false
    apart = elim (Bool-cases (other == id)) [
      | inr e ↦ e
      | inl e ↦ cc (none_yet, ap (λ k. Map.get k handles) (==→eq other id e) ∙ sh.held)
    ]
