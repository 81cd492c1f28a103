-- ===== src/Types.antt =====
-- ui/src/data/types.ts, ui/src/utils/coordinates.ts and ui/src/playback/types.ts: the records that the
-- decoders build and the playback reads.
--
-- A JavaScript number that is only carried along (a coordinate, an angle, an opacity, a distance) is a
-- `Number`, the exact value of a finite double. Frame numbers and ids are natural numbers, and integers
-- where the source uses -1.
use Prim.Native.String.{String}
use ocap2_web.Base.{ℕ, ◌+◌, ◌-◌, ◌*◌, ◌^◌, Bool, List, Option}
use ocap2_web.Base.Int.{ℤ, pos, negsuc, eqb_ℤ}
use ocap2_web.Base.Map.{Map}

-- `mantissa / 2 ^ places`.
pub record Number : Type 0 where
  pub mantissa : ℤ
  pub places : ℕ

abbrev pub whole : ℕ → Number
whole n = record { mantissa = pos n; places = 0 }

abbrev scaled : ℤ → ℕ → ℤ
scaled (pos n) k = pos (n * 2 ^ k)
scaled (negsuc n) k = negsuc ((n + 1) * 2 ^ k - 1)

-- `===` on numbers.
unfoldable pub number_eq : Number → Number → Bool
number_eq a b = eqb_ℤ (scaled a.mantissa b.places) (scaled b.mantissa a.places)

pub data ArmaCoord : Type 0 where
  xy : Number → Number → ArmaCoord
  xyz : Number → Number → Number → ArmaCoord

pub data Side : Type 0 where
  west east guer civ : Side

pub data EntityType : Type 0 where
  man car tank apc truck ship heli plane parachute static_weapon static_mortar unknown : EntityType

-- 0, 1 and 2 in the source; a cast lets any other number through.
pub data AliveState : Type 0 where
  dead alive unconscious : AliveState
  cast_alive : ℕ → AliveState

pub record EntityState : Type 0 where
  pub position : ArmaCoord
  pub direction : Number
  pub alive : AliveState
  pub name : Option String
  pub crew_ids : Option (List ℕ)
  pub vehicle_id : Option ℕ
  pub is_in_vehicle : Option Bool
  pub is_player : Option Bool
  pub group_name : Option String
  pub side : Option Side

pub record EntityDef : Type 0 where
  pub id : ℕ
  pub type : EntityType
  pub name : String
  pub side : Side
  pub group_name : String
  pub is_player : Bool
  pub start_frame : ℕ
  pub end_frame : ℤ
  pub role : Option String
  pub frames_fired : Option (List (ℕ × ArmaCoord))
  pub positions : Option (List EntityState)

pub data HitKind : Type 0 where
  hit killed : HitKind

pub data ConnectKind : Type 0 where
  connected disconnected : ConnectKind

pub data CounterKind : Type 0 where
  respawn_tickets counter_init counter_set : CounterKind

pub data CaptureKind : Type 0 where
  captured captured_flag contested : CaptureKind

pub data HackKind : Type 0 where
  hack_started hack_canceled : HackKind

-- The union of the event definitions, without the frame number.
pub data EventBody : Type 0 where
  hit_killed : HitKind → ℕ → ℕ → Number → String → EventBody
  connect : ConnectKind → String → EventBody
  counter : CounterKind → List Number → EventBody
  end_mission : String → String → EventBody
  general : String → EventBody
  capture : CaptureKind → String → String → Option String → Option (Number × Number) → EventBody
  terminal_hack : HackKind → String → EventBody

pub record EventDef : Type 0 where
  pub frame_num : ℕ
  pub body : EventBody

-- A value of the type `any` or `unknown`: what JSON gives, or undefined.
mutual
  pub data Value : Type 0 where
    undefined : Value
    null : Value
    bool : Bool → Value
    num : Number → Value
    str : String → Value
    arr : Values → Value

  pub data Values : Type 0 where
    nil : Values
    cons : Value → Values → Values

-- `[number, ...any]`.
pub record PositionEntry : Type 0 where
  pub frame_num : ℕ
  pub rest : List Value

-- A cast lets any other text through.
pub data Shape : Type 0 where
  icon ellipse rectangle polyline : Shape
  cast_shape : String → Shape

-- The sentinel -1: a marker that stays until the mission's end.
abbrev pub frame_forever : ℤ
frame_forever = negsuc 0

pub record MarkerDef : Type 0 where
  pub shape : Shape
  pub type : String
  pub text : Option String
  pub side : String
  pub color : String
  pub size : Option (Number × Number)
  pub positions : List PositionEntry
  pub player : ℤ
  pub alpha : Number
  pub brush : Option String
  pub start_frame : ℕ
  pub end_frame : ℤ

pub record TimeEntry : Type 0 where
  pub frame_num : ℕ
  pub system_time_utc : String
  pub date : Option String
  pub time_multiplier : Option Number

pub record Manifest : Type 0 where
  pub version : ℕ
  pub world_name : String
  pub mission_name : String
  pub mission_author : Option String
  pub end_frame : ℕ
  pub chunk_size : ℕ
  pub capture_delay_ms : ℕ
  pub chunk_count : ℕ
  pub entities : List EntityDef
  pub events : List EventDef
  pub markers : List MarkerDef
  pub times : List TimeEntry
  pub extension_version : Option String
  pub addon_version : Option String

-- The states of the chunk's frames by entity id; `none` is a hole of the array.
pub record ChunkData : Type 0 where
  pub entities : Map (List (Option EntityState))

pub record EntitySnapshot : Type 0 where
  pub id : ℕ
  pub position : ArmaCoord
  pub direction : Number
  pub alive : AliveState
  pub side : Option Side
  pub name : String
  pub icon_type : EntityType
  pub is_player : Bool
  pub is_in_vehicle : Bool
  pub fired_targets : Option (List ArmaCoord)
