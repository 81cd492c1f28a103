-- ===== src/Decoders/Messages.antt =====
-- The messages of ui/src/data/decoders/generated/ocap.pb.ts, as the generated code hands them over. An
-- enumeration is the number that the wire carries.
use Prim.Native.String.{String}
use ocap2_web.Base.{ℕ, Bool, List}
use ocap2_web.Base.Int.{ℤ}
use ocap2_web.Types.{Number}

pub record PbFiredFrame : Type 0 where
  pub frame_num : ℕ
  pub pos_x : Number
  pub pos_y : Number
  pub pos_z : Number

pub record PbEntityDef : Type 0 where
  pub id : ℕ
  pub type : ℕ
  pub name : String
  pub side : ℕ
  pub group_name : String
  pub role : String
  pub start_frame : ℕ
  pub end_frame : ℕ
  pub is_player : Bool
  pub vehicle_class : String
  pub frames_fired : List PbFiredFrame

pub record PbTimeSample : Type 0 where
  pub frame_num : ℕ
  pub system_time_utc : String
  pub date : String
  pub time_multiplier : Number
  pub time : Number

pub record PbEntityState : Type 0 where
  pub entity_id : ℕ
  pub pos_x : Number
  pub pos_y : Number
  pub direction : Number
  pub alive : ℕ
  pub crew_ids : List ℕ
  pub vehicle_id : ℕ
  pub is_in_vehicle : Bool
  pub name : String
  pub is_player : Bool
  pub pos_z : Number
  pub group_name : String
  pub side : String
  pub frame_num : ℕ

pub record PbFrame : Type 0 where
  pub frame_num : ℕ
  pub entities : List PbEntityState

pub record PbChunk : Type 0 where
  pub index : ℕ
  pub start_frame : ℕ
  pub frame_count : ℕ
  pub frames : List PbFrame

pub record PbEvent : Type 0 where
  pub frame_num : ℕ
  pub type : String
  pub source_id : ℕ
  pub target_id : ℕ
  pub message : String
  pub distance : Number
  pub weapon : String
  pub pos_x : Number
  pub pos_y : Number
  pub object_type : String
  pub unit_name : String
  pub side : String

pub record PbMarkerPosition : Type 0 where
  pub frame_num : ℕ
  pub pos_x : Number
  pub pos_y : Number
  pub pos_z : Number
  pub direction : Number
  pub alpha : Number
  pub line_coords : List Number
  pub text : String
  pub color : String
  pub size : List Number
  pub type : String
  pub brush : String

pub record PbMarkerDef : Type 0 where
  pub type : String
  pub text : String
  pub start_frame : ℕ
  pub end_frame : ℕ
  pub player_id : ℤ
  pub color : String
  pub side : ℕ
  pub positions : List PbMarkerPosition
  pub size : List Number
  pub shape : String
  pub brush : String

pub record PbManifest : Type 0 where
  pub version : ℕ
  pub world_name : String
  pub mission_name : String
  pub end_frame : ℕ
  pub chunk_size : ℕ
  pub capture_delay_ms : ℕ
  pub chunk_count : ℕ
  pub entities : List PbEntityDef
  pub times : List PbTimeSample
  pub events : List PbEvent
  pub markers : List PbMarkerDef
  pub extension_version : String
  pub addon_version : String
