-- ===== src/Decoders/Protobuf.antt =====
-- ui/src/data/decoders/protobufDecoder.ts: the conversion of the generated messages, and the class
-- ProtobufDecoder. The decoding of the bytes into messages is generated code and a parameter, `Wire`, as
-- are the runtime's conversions between numbers and texts.
pub mod Positions
pub mod Chunk
pub mod Stored
mod Tests
use Prim.Native.String.{String}
use text.Mathlib.Text.{◌==◌ as str_eq}
use ocap2_web.Base.{
  ℕ, zero, suc, ◌%◌, Bool, true, false, not, ◌&&◌, ◌||◌, Option, none, some, List, [], ◌∷◌, map,
  ◌==◌, if◌then◌else◌,
}
use ocap2_web.Base.Int.{ℤ, pos, negsuc, sub_ℕ}
use ocap2_web.Base.Map
use ocap2_web.Base.Map.{Map}
use ocap2_web.Types.{
  Number, whole, ArmaCoord, xy, xyz, Side, west, east, guer, civ, EntityType, man, unknown,
  EntityState, EntityDef, EventBody, EventDef, HitKind, hit, killed, hit_killed, connected,
  disconnected, connect, respawn_tickets, counter_init, counter_set, counter, CounterKind,
  end_mission, general, capture, captured, captured_flag, contested, CaptureKind, terminal_hack,
  hack_started, hack_canceled, Value, Values, num, str, arr, nil, cons, undefined, PositionEntry,
  MarkerDef, frame_forever, Manifest, TimeEntry, ChunkData,
}
use ocap2_web.Decoders.{
  non_empty_text, text_or, is_nonzero, nonzero_number, shape_of, alive_of, side_of,
  vehicle_class_of,
}
use ocap2_web.Decoders.Messages.{
  PbFiredFrame, PbEntityDef, PbTimeSample, PbEntityState, PbFrame, PbChunk, PbEvent,
  PbMarkerPosition, PbMarkerDef, PbManifest,
}

-- `split(",").map(Number)` and `String(number)` of the runtime.
pub record Texts : Type 0 where
  pub numbers_of : String → List Number
  pub text_of : ℕ → String

abbrev pub entity_side_map : ℕ → Option Side
entity_side_map n =
    if n == 1
    then some west
    else (if n == 2
        then some east
        else (if n == 3 then some guer else (if n == 4 then some civ else none)))

abbrev pub marker_side_map : ℕ → Option String
marker_side_map n =
    if n == 1
    then some "WEST"
    else (if n == 2
        then some "EAST"
        else (if n == 3
            then some "GUER"
            else (if n == 4 then some "CIV" else (if n == 5 then some "GLOBAL" else none))))

abbrev pub side_or_civ : Option Side → Side
side_or_civ none = civ
side_or_civ (some s) = s

-- ENTITY_TYPE_UNIT is 1 and ENTITY_TYPE_VEHICLE is 2.
unfoldable pub entity_type_of : ℕ → String → EntityType
entity_type_of type vehicle_class =
    if type == 1
    then man
    else (if type == 2 && not (str_eq vehicle_class "")
        then vehicle_class_of vehicle_class
        else unknown)

-- `list.length > 0` decides whether an optional array is set.
abbrev pub non_empty_list {ℓ} : {A : Type ℓ} → List A → Option (List A)
non_empty_list [] = none
non_empty_list (x ∷ xs) = some (x ∷ xs)

abbrev pub fired_shot : PbFiredFrame → ℕ × ArmaCoord
fired_shot ff = (ff.frame_num, xy ff.pos_x ff.pos_y)

unfoldable pub convert_entity_def : PbEntityDef → EntityDef
convert_entity_def pb = record {
  id = pb.id;
  type = entity_type_of pb.type pb.vehicle_class;
  name = pb.name;
  side = side_or_civ (entity_side_map pb.side);
  group_name = pb.group_name;
  is_player = pb.is_player;
  start_frame = pb.start_frame;
  end_frame = pos pb.end_frame;
  role = non_empty_text pb.role;
  frames_fired = non_empty_list (map fired_shot pb.frames_fired);
  positions = none;
}

abbrev pub true_or_none : Bool → Option Bool
true_or_none true = some true
true_or_none false = none

abbrev pub nonzero : ℕ → Option ℕ
nonzero zero = none
nonzero (suc n) = some (suc n)

abbrev pub raw_side : String → Option Side
raw_side s = if str_eq s "" then none else some (side_of s)

unfoldable pub convert_entity_state : PbEntityState → EntityState
convert_entity_state pb = record {
  position = xyz pb.pos_x pb.pos_y pb.pos_z;
  direction = pb.direction;
  alive = alive_of (pb.alive % 4);
  name = non_empty_text pb.name;
  crew_ids = non_empty_list pb.crew_ids;
  vehicle_id = nonzero pb.vehicle_id;
  is_in_vehicle = true_or_none pb.is_in_vehicle;
  is_player = true_or_none pb.is_player;
  group_name = non_empty_text pb.group_name;
  side = raw_side pb.side;
}

abbrev pub event_position : PbEvent → Option (Number × Number)
event_position pb =
    if is_nonzero pb.pos_x || is_nonzero pb.pos_y then some (pb.pos_x, pb.pos_y) else none

abbrev pub hit_body : HitKind → PbEvent → EventBody
hit_body kind pb = hit_killed kind pb.target_id pb.source_id pb.distance pb.weapon

abbrev pub counter_body : Texts → CounterKind → PbEvent → EventBody
counter_body rt kind pb =
    counter kind (if str_eq pb.message "" then [] else rt.numbers_of pb.message)

abbrev pub capture_body : CaptureKind → PbEvent → EventBody
capture_body kind pb =
    capture kind pb.unit_name pb.object_type (non_empty_text pb.side) (event_position pb)

abbrev pub flag_body : PbEvent → EventBody
flag_body pb =
    capture captured_flag pb.unit_name (text_or pb.object_type "flag") none (event_position pb)

-- The kinds of events by the type of the message.
unfoldable pub event_body : Texts → PbEvent → Option EventBody
event_body rt pb =
    let t = pb.type in
    if str_eq t "hit"
    then some (hit_body hit pb)
    else (if str_eq t "killed"
        then some (hit_body killed pb)
        else (if str_eq t "connected"
            then some (connect connected pb.message)
            else (if str_eq t "disconnected"
                then some (connect disconnected pb.message)
                else (if str_eq t "respawnTickets"
                    then some (counter_body rt respawn_tickets pb)
                    else (if str_eq t "counterInit"
                        then some (counter_body rt counter_init pb)
                        else (if str_eq t "counterSet"
                            then some (counter_body rt counter_set pb)
                            else (if str_eq t "endMission"
                                then some (end_mission pb.side pb.message)
                                else (if str_eq t "generalEvent"
                                    then some (general pb.message)
                                    else (if str_eq t "capturedFlag"
                                        then some (flag_body pb)
                                        else (if str_eq t "captured"
                                            then some (capture_body captured pb)
                                            else (if str_eq t "contested"
                                                then some (capture_body contested pb)
                                                else (if str_eq t "terminalHackStarted"
                                                    then some
                                                        (terminal_hack hack_started pb.message)
                                                    else (if str_eq t "terminalHackCanceled"
                                                        then some
                                                            (terminal_hack hack_canceled pb.message)
                                                        else none)))))))))))))

abbrev pub at_frame : ℕ → Option EventBody → Option EventDef
at_frame frame none = none
at_frame frame (some b) = some (record { frame_num = frame; body = b })

unfoldable pub convert_event : Texts → PbEvent → Option EventDef
unfolding event_body
convert_event rt pb = at_frame pb.frame_num (event_body rt pb)

-- `[[x1, y1], [x2, y2], …]`; a last odd coordinate is dropped.
unfoldable pub points_of : List Number → Values
points_of [] = nil
points_of (x ∷ []) = nil
points_of (x ∷ y ∷ cs) = cons (arr (cons (num x) (cons (num y) nil))) (points_of cs)

abbrev pub place_of : PbMarkerPosition → Value
place_of pb = elim pb.line_coords [
  | [] ↦ arr (cons (num pb.pos_x) (cons (num pb.pos_y) (cons (num pb.pos_z) nil)))
  | c ∷ cs ↦ arr (points_of (c ∷ cs))
]

abbrev pub is_text : String → Bool
is_text s = not (str_eq s "")

abbrev pub is_non_empty {ℓ} : {A : Type ℓ} → List A → Bool
is_non_empty [] = false
is_non_empty (x ∷ xs) = true

abbrev pub has_style : PbMarkerPosition → Bool
has_style pb =
    is_text pb.text
    || (is_text pb.color || (is_text pb.type || (is_text pb.brush || is_non_empty pb.size)))

abbrev pub size_value : List Number → Value
size_value (a ∷ b ∷ cs) = arr (cons (num a) (cons (num b) nil))
size_value _ = undefined

abbrev pub style_values : PbMarkerPosition → List Value
style_values pb = str pb.text ∷ str pb.color ∷ size_value pb.size ∷ str pb.type ∷ str pb.brush ∷ []

unfoldable pub convert_marker_position : PbMarkerPosition → PositionEntry
unfolding points_of
convert_marker_position pb = record {
  frame_num = pb.frame_num;
  rest =
      place_of pb
      ∷ num pb.direction
      ∷ num pb.alpha
      ∷ (if has_style pb then style_values pb else []);
}

abbrev pub first_alpha : List PbMarkerPosition → Number
first_alpha [] = whole 1
first_alpha (p ∷ ps) = p.alpha

abbrev pub marker_side : Texts → ℕ → Option String → String
marker_side rt side none = rt.text_of side
marker_side rt side (some s) = s

abbrev pub size_pair : List Number → Option (Number × Number)
size_pair (a ∷ b ∷ cs) = some (a, b)
size_pair _ = none

unfoldable pub convert_marker_def : Texts → PbMarkerDef → MarkerDef
unfolding convert_marker_position
convert_marker_def rt pb = record {
  shape = shape_of (text_or pb.shape "ICON");
  type = pb.type;
  text = non_empty_text pb.text;
  side = marker_side rt pb.side (marker_side_map pb.side);
  color = pb.color;
  size = size_pair pb.size;
  positions = map convert_marker_position pb.positions;
  player = pb.player_id;
  alpha = first_alpha pb.positions;
  brush = non_empty_text pb.brush;
  start_frame = pb.start_frame;
  end_frame = if pb.end_frame == 0 then frame_forever else pos pb.end_frame;
}

abbrev pub convert_time : PbTimeSample → TimeEntry
convert_time t = record {
  frame_num = t.frame_num;
  system_time_utc = t.system_time_utc;
  date = non_empty_text t.date;
  time_multiplier = nonzero_number t.time_multiplier;
}

-- `filter((e) => e !== null)`.
unfoldable pub present {ℓ} : {A : Type ℓ} → List (Option A) → List A
present [] = []
present (none ∷ os) = present os
present (some x ∷ os) = x ∷ present os

-- `decodeManifest` behind the decoding of the message.
unfoldable pub convert_manifest : Texts → PbManifest → Manifest
unfolding convert_entity_def convert_event convert_marker_def present
convert_manifest rt pb = record {
  version = pb.version;
  world_name = pb.world_name;
  mission_name = pb.mission_name;
  mission_author = none;
  end_frame = pb.end_frame;
  chunk_size = pb.chunk_size;
  capture_delay_ms = pb.capture_delay_ms;
  chunk_count = pb.chunk_count;
  entities = map convert_entity_def pb.entities;
  events = present (map (convert_event rt) pb.events);
  markers = map (convert_marker_def rt) pb.markers;
  times = map convert_time pb.times;
  extension_version = non_empty_text pb.extension_version;
  addon_version = non_empty_text pb.addon_version;
}

-- `new Array(n)`.
unfoldable pub holes {ℓ} : {A : Type ℓ} → ℕ → List (Option A)
holes zero = []
holes (suc n) = none ∷ holes n

-- `arr[i] = v`, which fills up with holes behind the end.
unfoldable pub set_at {ℓ} : {A : Type ℓ} → ℕ → A → List (Option A) → List (Option A)
set_at zero v [] = some v ∷ []
set_at zero v (x ∷ xs) = some v ∷ xs
set_at (suc i) v [] = none ∷ set_at i v []
set_at (suc i) v (x ∷ xs) = x ∷ set_at i v xs

-- A write at a negative index is a property of the object and no element of the array.
abbrev pub set_at_ℤ {ℓ} : {A : Type ℓ} → ℤ → A → List (Option A) → List (Option A)
set_at_ℤ (pos i) v xs = set_at i v xs
set_at_ℤ (negsuc i) v xs = xs

abbrev pub States : Type 0
States = Map (List (Option EntityState))

abbrev pub array_or_new : ℕ → Option (List (Option EntityState)) → List (Option EntityState)
array_or_new n none = holes n
array_or_new n (some a) = a

unfoldable pub store_state : ℕ → ℤ → PbEntityState → States → States
unfolding holes set_at
store_state count idx raw m =
    Map.put raw.entity_id
      (set_at_ℤ idx (convert_entity_state raw) (array_or_new count (Map.get raw.entity_id m))) m

unfoldable pub store_entities : ℕ → ℤ → List PbEntityState → States → States
unfolding store_state
store_entities count idx [] m = m
store_entities count idx (raw ∷ raws) m =
    store_entities count idx raws (store_state count idx raw m)

unfoldable pub store_frames : ℕ → ℕ → List PbFrame → States → States
unfolding store_entities
store_frames start count [] m = m
store_frames start count (f ∷ fs) m =
    store_frames start count fs (store_entities count (sub_ℕ f.frame_num start) f.entities m)

-- `decodeChunk` behind the decoding of the message.
unfoldable pub convert_chunk : PbChunk → ChunkData
unfolding store_frames
convert_chunk pb = record { entities = store_frames pb.start_frame pb.frame_count pb.frames [] }

-- The generated decoders, which throw on bytes that are no message: `none`.
pub record Wire {ℓ} (Buffer : Type ℓ) : Type ℓ where
  pub decode_manifest : Buffer → Option PbManifest
  pub decode_chunk : Buffer → Option PbChunk

module _ {ℓ} {Buffer : Type ℓ} (wire : Wire Buffer) (rt : Texts) where
  unfoldable pub decode_manifest : Buffer → Option Manifest
  decode_manifest buffer = elim (wire.decode_manifest buffer) [
    | none ↦ none
    | some pb ↦ some (convert_manifest rt pb)
  ]

  unfoldable pub decode_chunk : Buffer → Option ChunkData
  decode_chunk buffer = elim (wire.decode_chunk buffer) [
    | none ↦ none
    | some pb ↦ some (convert_chunk pb)
  ]
