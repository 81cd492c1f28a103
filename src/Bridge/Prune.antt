-- ===== src/Bridge/Prune.antt =====
-- The loop of ui/src/pages/recording-playback/useRenderBridge.ts that removes the markers of entities
-- without a snapshot.
use ocap2_web.Base.{
  ℕ, ◌≡◌, refl, sym, ap, ◌∙◌, Bool, true, false, ◌&&◌, Option, none, some, [], ◌∷◌, All, ◌==◌,
  ==→eq, eq→==, ==_refl, Bool-cases, Option-cases, some_inj, inl, inr, contains, arith,
  if◌then◌else◌,
}
use ocap2_web.Base.Map
use ocap2_web.Base.Map.{Map, has_of_get}
use ocap2_web.Chunks.Keys.{Distinct}
use ocap2_web.Types.{EntitySnapshot}
use ocap2_web.Bridge.{prune}
use ocap2_web.Bridge.Drawing.{Scene, Marker, remove_marker, get-without}
use ocap2_web.Bridge.InStep.{Owns, IsInStep}

and_true : (a b : Bool) → b ≡ true → (a && b) ≡ a
and_true true b h = h
and_true false b h = refl

-- What the loop leaves of the handles and of the map.
record Left (snaps : Map EntitySnapshot) (hs : Map ℕ) (s : Scene) (hs' : Map ℕ) (s' : Scene)
    : Type 0 where
  kept : (k : ℕ) → Map.get k hs' ≡ (if Map.has k snaps then Map.get k hs else none)
  absent : (k : ℕ) → contains k (Map.keys hs) ≡ false → contains k (Map.keys hs') ≡ false
  distinct : Distinct (Map.keys hs')
  owned : All (Owns s') hs'
  legal : s'.legal ≡ s.legal
  next : s'.next ≡ s.next
  lines : s'.lines ≡ s.lines
  before : (h : ℕ) (m : Marker) → Map.get h s'.markers ≡ some m → Map.get h s.markers ≡ some m
  stays :
      (h : ℕ) (m : Marker)
      → Map.get h s.markers ≡ some m
      → Map.has m.0.entity snaps ≡ true
      → Map.get h s'.markers ≡ some m
  gone : (k h : ℕ) → Map.get k hs ≡ some h → Map.has k snaps ≡ false → Map.get h s'.markers ≡ none

module _ (snaps : Map EntitySnapshot) (id h : ℕ) (hs : Map ℕ) (s : Scene) where
  -- A handle that is kept.
  keep-Left :
      (hs' : Map ℕ) (s' : Scene)
      → Map.has id snaps ≡ true
      → contains id (Map.keys hs) ≡ false
      → Owns s (id, h)
      → Left snaps hs s hs' s'
      → Left snaps ((id, h) ∷ hs) s ((id, h) ∷ hs') s'
  unfolding Map.get
  keep-Left hs' s' has new o l = record {
    kept = λ k. elim (Bool-cases (id == k)) [
      | inl e ↦ rw (e, ap (λ i. Map.has i snaps) (sym (==→eq id k e)) ∙ has) refl
      | inr e ↦ rw e (l.kept k)
    ];
    absent = λ k c. elim (Bool-cases (id == k)) [
      | inl e ↦ cc (rw e at c)
      | inr e ↦ rw e (l.absent k (rw e at c))
    ];
    distinct = (l.absent id new, l.distinct);
    owned = (
      record {
        marker = o.marker;
        on_map = l.stays h o.marker o.on_map (ap (λ i. Map.has i snaps) o.entity ∙ has);
        entity = o.entity;
      },
      l.owned,
    );
    legal = l.legal;
    next = l.next;
    lines = l.lines;
    before = l.before;
    stays = l.stays;
    gone = λ k g q missing. elim (Bool-cases (id == k)) [
      | inl e ↦ cc (missing, ap (λ i. Map.has i snaps) (sym (==→eq id k e)) ∙ has)
      | inr e ↦ l.gone k g (rw e at q) missing
    ];
  }

  -- The marker at another handle, behind the removal.
  removed_ne :
      (g : ℕ) → (h == g) ≡ false → Map.get g (remove_marker h s).markers ≡ Map.get g s.markers
  unfolding remove_marker
  removed_ne g e = get-without h g s.markers ∙ rw e refl

  removed_self : Map.get h (remove_marker h s).markers ≡ none
  unfolding remove_marker
  removed_self = get-without h h s.markers ∙ rw (==_refl h) refl

  -- A marker of another entity has another handle.
  other_handle :
      (g : ℕ) (m : Marker)
      → Owns s (id, h)
      → Map.get g s.markers ≡ some m
      → (m.0.entity ≡ id → ⊥)
      → (h == g) ≡ false
  other_handle g m o q ne = elim (Bool-cases (h == g)) [
    | inr e ↦ e
    | inl e ↦
        let same : m ≡ o.marker =
          some_inj (sym q ∙ ap (λ i. Map.get i s.markers) (sym (==→eq h g e)) ∙ o.on_map) in
        absurd (ne (ap (λ (x : Marker). x.0.entity) same ∙ o.entity))
  ]

  -- A handle that is dropped.
  drop-Left :
      (hs' : Map ℕ) (s' : Scene)
      → Map.has id snaps ≡ false
      → contains id (Map.keys hs) ≡ false
      → Owns s (id, h)
      → Left snaps hs (remove_marker h s) hs' s'
      → Left snaps ((id, h) ∷ hs) s hs' s'
  unfolding Map.get remove_marker
  drop-Left hs' s' missing new o l = record {
    kept = λ k. elim (Bool-cases (id == k)) [
      | inl e ↦ l.kept k ∙ rw (ap (λ i. Map.has i snaps) (sym (==→eq id k e)) ∙ missing) refl
      | inr e ↦ rw e (l.kept k)
    ];
    absent = λ k c. elim (Bool-cases (id == k)) [
      | inl e ↦ cc (rw e at c)
      | inr e ↦ l.absent k (rw e at c)
    ];
    distinct = l.distinct;
    owned = l.owned;
    legal = l.legal ∙ and_true s.legal _ (has_of_get h o.marker s.markers o.on_map);
    next = l.next;
    lines = l.lines;
    before = λ g m q. elim (Bool-cases (h == g)) [
      | inl e ↦ cc (
        l.before g m q,
        ap (λ i. Map.get i (remove_marker h s).markers) (sym (==→eq h g e)) ∙ removed_self,
      )
      | inr e ↦ sym (removed_ne g e) ∙ l.before g m q
    ];
    stays = λ g m q has.
        l.stays g m
          (removed_ne g (
              other_handle g m o q
                (λ same. cc (missing, sym (ap (λ i. Map.has i snaps) same) ∙ has)))
            ∙ q)
          has;
    gone = λ k g q missing_too. elim (Bool-cases (id == k)) [
      | inl e ↦ gone_now g (some_inj (rw e at q))
      | inr e ↦ l.gone k g (rw e at q) missing_too
    ];
  }
    where
      gone_now : (g : ℕ) → h ≡ g → Map.get g s'.markers ≡ none
      gone_now g same = elim (Option-cases (Map.get g s'.markers)) [
        | inl e ↦ e
        | inr (m, e) ↦ cc (
          l.before g m e,
          ap (λ i. Map.get i (remove_marker h s).markers) (sym same) ∙ removed_self,
        )
      ]

module _ (snaps : Map EntitySnapshot) where
  -- The handles of other entities outlive the removal.
  owned_rest :
      (id h : ℕ) (hs : Map ℕ) (s : Scene)
      → contains id (Map.keys hs) ≡ false
      → Owns s (id, h)
      → All (Owns s) hs
      → All (Owns (remove_marker h s)) hs
  owned_rest id h [] s new o w = tt
  owned_rest id h ((j, g) ∷ hs) s new o w = elim (Bool-cases (j == id)) [
    | inl e ↦ cc (rw e at new)
    | inr e ↦
        let own = w.0 in
        let ne : (h == g) ≡ false =
          other_handle snaps id h hs s g own.marker o own.on_map
            (λ same. cc (e, eq→== j id (sym own.entity ∙ same))) in
        (
          record {
            marker = own.marker;
            on_map = removed_ne snaps id h hs s g ne ∙ own.on_map;
            entity = own.entity;
          },
          owned_rest id h hs s (rw e at new) o w.1,
        )
  ]

  prune-Left :
      (hs : Map ℕ) (s : Scene)
      → Distinct (Map.keys hs)
      → All (Owns s) hs
      → Left snaps hs s (prune snaps hs s).0 (prune snaps hs s).1
  unfolding prune Map.get
  prune-Left [] s d w = record {
    kept = λ k. nothing (Map.has k snaps);
    absent = λ k c. c;
    distinct = tt;
    owned = tt;
    legal = refl;
    next = refl;
    lines = refl;
    before = λ h m q. q;
    stays = λ h m q has. q;
    gone = λ k h q missing. cc q;
  }
    where
      nothing : (b : Bool) → ◌≡◌ {A = Option ℕ} none (if b then none else none)
      nothing true = refl
      nothing false = refl
  prune-Left ((id, h) ∷ hs) s d w = elim (Bool-cases (Map.has id snaps)) [
    | inl has ↦ rw has (
        keep-Left snaps id h hs s (prune snaps hs s).0 (prune snaps hs s).1 has d.0 w.0
          (prune-Left hs s d.1 w.1))
    | inr missing ↦
        let s1 : Scene = remove_marker h s in
        rw missing (
          drop-Left snaps id h hs s (prune snaps hs s1).0 (prune snaps hs s1).1 missing d.0 w.0
            (prune-Left hs s1 d.1 (owned_rest id h hs s d.0 w.0 w.1)))
  ]

  -- The handles and the map behind the loop.
  pub record Pruned (hs : Map ℕ) (s : Scene) (hs' : Map ℕ) (s' : Scene) : Type 0 where
    pub in_step : IsInStep hs' s'
    pub distinct : Distinct (Map.keys hs')
    pub has_snapshot : (k h : ℕ) → Map.get k hs' ≡ some h → Map.has k snaps ≡ true
    pub next : s'.next ≡ s.next
    pub lines : s'.lines ≡ s.lines

  pub prune-Pruned :
      (hs : Map ℕ) (s : Scene)
      → Distinct (Map.keys hs)
      → IsInStep hs s
      → Pruned hs s (prune snaps hs s).0 (prune snaps hs s).1
  prune-Pruned hs s d w =
      let l = prune-Left hs s d w.owned in
      record {
        in_step = record {
          legal = l.legal ∙ w.legal;
          owned = l.owned;
          known = λ h m q.
              let at = w.known h m (l.before h m q) in
              elim (Bool-cases (Map.has m.0.entity snaps)) [
                | inl has ↦ l.kept m.0.entity ∙ rw has at
                | inr missing ↦ cc (q, l.gone m.0.entity h at missing)
              ];
          fresh = λ h m q. omega (arith, w.fresh h m (l.before h m q), l.next);
        };
        distinct = l.distinct;
        has_snapshot = λ k h q. elim (Bool-cases (Map.has k snaps)) [
          | inl has ↦ has
          | inr missing ↦ cc (rw missing at (sym (l.kept k) ∙ q))
        ];
        next = l.next;
        lines = l.lines;
      }
