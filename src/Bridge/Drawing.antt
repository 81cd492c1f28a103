-- ===== src/Bridge/Drawing.antt =====
-- The markers of entities and the lines of a map, as ui/src/renderers/renderer.interface.ts and
-- ui/src/renderers/renderer.types.ts promise them.
use Prim.Native.String.{String}
use ocap2_web.Base.{
  ℕ, suc, ◌≡◌, Bool, false, ◌&&◌, Option, none, some, List, [], ◌∷◌, ◌++◌, ◌==◌, if◌then◌else◌,
  arith,
}
use ocap2_web.Base.Map
use ocap2_web.Base.Map.{Map}
use ocap2_web.Types.{ArmaCoord, Number, AliveState, Side, EntityType}

pub record CrewInfo : Type 0 where
  pub count : ℕ
  pub names : List String

pub record MarkerOpts : Type 0 where
  pub entity : ℕ
  pub position : ArmaCoord
  pub direction : Number
  pub icon_type : EntityType
  pub side : Option Side
  pub name : String
  pub is_player : Bool
  pub crew : Option CrewInfo

pub record MarkerState : Type 0 where
  pub position : ArmaCoord
  pub direction : Number
  pub alive : AliveState
  pub side : Option Side
  pub name : String
  pub icon_type : EntityType
  pub is_player : Bool
  pub is_in_vehicle : Bool
  pub hit : Bool
  pub crew : Option CrewInfo

pub record Line : Type 0 where
  pub from : ArmaCoord
  pub to : ArmaCoord
  pub color : String
  pub weight : Number
  pub opacity : Number

-- A marker: what it was created with, and the state of its last update.
abbrev pub Marker : Type 0
Marker = MarkerOpts × Option MarkerState

pub record Scene : Type 0 where
  pub markers : Map Marker
  pub lines : Map Line
  pub next : ℕ
  pub legal : Bool

unfoldable pub without {ℓ} : {V : Type ℓ} → ℕ → Map V → Map V
without k [] = []
without k ((j, v) ∷ m) = if j == k then without k m else (j, v) ∷ without k m

abbrev pub create_marker : MarkerOpts → Scene → Scene
create_marker opts s = record s {
  markers = Map.put s.next (opts, none) s.markers;
  next = suc s.next;
}

unfoldable pub update_marker : ℕ → MarkerState → Scene → Scene
update_marker h state s = elim (Map.get h s.markers) [
  | none ↦ record s { legal = false }
  | some marker ↦ record s { markers = Map.put h (marker.0, some state) s.markers }
]

unfoldable pub remove_marker : ℕ → Scene → Scene
unfolding without
remove_marker h s = record s {
  markers = without h s.markers;
  legal = s.legal && Map.has h s.markers;
}

abbrev pub add_line : Line → Scene → Scene
add_line line s = record s { lines = s.lines ++ (s.next, line) ∷ []; next = suc s.next }

unfoldable pub remove_line : ℕ → Scene → Scene
unfolding without
remove_line h s = record s { lines = without h s.lines; legal = s.legal && Map.has h s.lines }

pub get-without {ℓ} :
    {V : Type ℓ} (k j : ℕ) (m : Map V)
    → Map.get j (without k m) ≡ (if k == j then none else Map.get j m)
unfolding without Map.get
get-without k j [] = ground arith
get-without k j ((i, v) ∷ m) = ground (arith, get-without k j m)
