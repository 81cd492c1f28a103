-- ===== src/Decoders/Json/Manifest.antt =====
-- The events, the markers and the manifest of ui/src/data/decoders/jsonDecoder.ts, and the class
-- JsonDecoder.
use Prim.Native.String.{String}
use text.Mathlib.Text.{◌==◌ as str_eq}
use ocap2_web.Base.{ℕ, zero, suc, Option, none, some, List, [], ◌∷◌, if◌then◌else◌, ltb, length}
use ocap2_web.Base.Int.{ℤ, pos, negsuc}
use ocap2_web.Types.{
  Number, whole, EventBody, EventDef, HitKind, hit, killed, hit_killed, ConnectKind, connected,
  disconnected, connect, CounterKind, respawn_tickets, counter_init, counter_set, counter,
  end_mission, general, capture, CaptureKind, captured, captured_flag, contested, HackKind,
  terminal_hack, hack_started, hack_canceled, Value, undefined, null, null, num, str, arr,
  PositionEntry, MarkerDef, Manifest, TimeEntry, ChunkData,
}
use ocap2_web.Markers.Parse.{elem, coalesce, to_list, number}
use ocap2_web.Decoders.{non_empty_text, nonzero_number, shape_of}
use ocap2_web.Decoders.Protobuf.{present}
use ocap2_web.Decoders.Json.{
  Cast, cast, outside, ◌>>=◌, cast_all, as_number, as_text, as_list, as_numbers, as_integer,
  as_natural, text_if, non_empty_option, or_default, RawJsonEntity, convert_entity,
}

-- `value?.[i]`. A text would give its characters, which the code does not mean.
unfoldable pub optional_index : Value → ℕ → Cast Value
optional_index (arr vs) i = cast (elem (to_list vs) i)
optional_index (str s) i = outside
optional_index _ i = cast undefined

abbrev pub text_at : Value → ℕ → Cast String
text_at v i = optional_index v i >>= λ x. as_text (coalesce x (str ""))

unfoldable pub hit_body : HitKind → List Value → Cast (Option EventBody)
unfolding as_natural optional_index
hit_body kind raw = do
  victim ← as_natural (coalesce (elem raw 2) (number 0))
  causer ← optional_index (elem raw 3) 0
  causer_id ← as_natural (coalesce causer (number 0))
  weapon ← text_at (elem raw 3) 1
  distance ← as_number (coalesce (elem raw 4) (number 0))
  cast (some (hit_killed kind victim causer_id distance weapon))

abbrev pub connect_body : ConnectKind → List Value → Cast (Option EventBody)
connect_body kind raw =
    as_text (coalesce (elem raw 2) (str "")) >>= λ name. cast (some (connect kind name))

-- `Array.isArray(raw[2]) ? raw[2] : []`.
unfoldable pub counter_data : Value → Cast (List Number)
counter_data (arr vs) = as_numbers (arr vs)
counter_data _ = cast []

abbrev pub counter_body : CounterKind → List Value → Cast (Option EventBody)
counter_body kind raw = counter_data (elem raw 2) >>= λ data_. cast (some (counter kind data_))

unfoldable pub end_body : List Value → Cast (Option EventBody)
unfolding optional_index
end_body raw = do
  side ← text_at (elem raw 2) 0
  message ← text_at (elem raw 2) 1
  cast (some (end_mission side message))

-- The first element that is an array with two elements or more, the first of them a number.
unfoldable pub find_position : List Value → Cast (Option (Number × Number))
find_position [] = cast none
find_position (arr vs ∷ rest) =
    let next = find_position rest in
    elim (elem (to_list vs) 0) [
      | num x ↦
          if ltb (length (to_list vs)) 2
          then next
          else (as_number (elem (to_list vs) 1) >>= λ y. cast (some (x, y)))
      | _ ↦ next
    ]
find_position (_ ∷ rest) = find_position rest

-- The captured data, nothing for a value that is missing.
abbrev pub capture_list : Value → Cast (List Value)
capture_list undefined = cast []
capture_list null = cast []
capture_list v = as_list v

-- `String(v)`, a text itself; the texts of other values are the runtime's.
abbrev pub string_of : (Value → String) → Value → String
string_of text_of (str s) = s
string_of text_of v = text_of v

unfoldable pub flag_body : (Value → String) → List Value → Cast (Option EventBody)
unfolding find_position
flag_body text_of raw = do
  data_ ← capture_list (elem raw 2)
  let name = string_of text_of (coalesce (elem data_ 0) (str ""))
  position ← find_position data_
  cast (some (capture captured_flag name "flag" none position))

unfoldable pub capture_body : (Value → String) → CaptureKind → List Value → Cast (Option EventBody)
unfolding find_position
capture_body text_of kind raw = do
  data_ ← capture_list (elem raw 2)
  let name = string_of text_of (coalesce (elem data_ 1) (str ""))
  let object = string_of text_of (coalesce (elem data_ 0) (str ""))
  position ← find_position data_
  cast (some (capture kind name object (text_if (elem data_ 2)) position))

unfoldable pub hack_body : HackKind → List Value → Cast (Option EventBody)
unfolding optional_index
hack_body kind raw = text_at (elem raw 2) 0 >>= λ name. cast (some (terminal_hack kind name))

-- The kinds of events; an unknown kind is skipped.
unfoldable pub event_body : (Value → String) → String → List Value → Cast (Option EventBody)
unfolding hit_body counter_data end_body flag_body capture_body hack_body
event_body text_of t raw =
    if str_eq t "hit"
    then hit_body hit raw
    else (if str_eq t "killed"
        then hit_body killed raw
        else (if str_eq t "connected"
            then connect_body connected raw
            else (if str_eq t "disconnected"
                then connect_body disconnected raw
                else (if str_eq t "respawnTickets"
                    then counter_body respawn_tickets raw
                    else (if str_eq t "counterInit"
                        then counter_body counter_init raw
                        else (if str_eq t "counterSet"
                            then counter_body counter_set raw
                            else (if str_eq t "endMission"
                                then end_body raw
                                else (if str_eq t "generalEvent"
                                    then (as_text (coalesce (elem raw 2) (str "")) >>= λ message.
                                        cast (some (general message)))
                                    else (if str_eq t "capturedFlag"
                                        then flag_body text_of raw
                                        else (if str_eq t "captured"
                                            then capture_body text_of captured raw
                                            else (if str_eq t "contested"
                                                then capture_body text_of contested raw
                                                else (if str_eq t "terminalHackStarted"
                                                    then hack_body hack_started raw
                                                    else (if str_eq t "terminalHackCanceled"
                                                        then hack_body hack_canceled raw
                                                        else cast none)))))))))))))

abbrev pub at_frame : ℕ → Option EventBody → Option EventDef
at_frame frame none = none
at_frame frame (some b) = some (record { frame_num = frame; body = b })

-- `null` for a value that is no event.
unfoldable pub convert_event : (Value → String) → Value → Cast (Option EventDef)
unfolding event_body as_natural
convert_event text_of (arr vs) =
    if ltb (length (to_list vs)) 2
    then cast none
    else (as_natural (elem (to_list vs) 0) >>= λ frame. as_text (elem (to_list vs) 1) >>= λ type.
        event_body text_of type (to_list vs) >>= λ body. cast (at_frame frame body))
convert_event text_of _ = cast none

abbrev pub marker_sides : List String
marker_sides = "GLOBAL" ∷ "EAST" ∷ "WEST" ∷ "GUER" ∷ "CIV" ∷ []

abbrev pub text_elem : List String → ℕ → String
text_elem [] i = "GLOBAL"
text_elem (s ∷ ss) zero = s
text_elem (s ∷ ss) (suc i) = text_elem ss i

-- `MARKER_SIDE_MAP[index + 1] ?? "GLOBAL"`.
unfoldable pub marker_side : ℤ → String
marker_side (pos n) = text_elem marker_sides (suc n)
marker_side (negsuc zero) = text_elem marker_sides 0
marker_side (negsuc (suc n)) = "GLOBAL"

unfoldable pub position_entry : Value → Cast PositionEntry
unfolding as_natural
position_entry v = as_list v >>= λ vs.
    as_natural (elem vs 0) >>= λ frame. cast (record { frame_num = frame; rest = tail_of vs })
  where
    tail_of : List Value → List Value
    tail_of [] = []
    tail_of (v ∷ vs) = vs

-- An array with two elements or more gives a size.
unfoldable pub marker_size : Value → Cast (Option (Number × Number))
marker_size (arr vs) =
    if ltb (length (to_list vs)) 2
    then cast none
    else (as_number (elem (to_list vs) 0) >>= λ w.
        as_number (elem (to_list vs) 1) >>= λ h. cast (some (w, h)))
marker_size _ = cast none

-- `raw[10]`, and none if it is false as a condition.
abbrev pub brush_of : Value → Cast (Option String)
brush_of undefined = cast none
brush_of null = cast none
brush_of v = as_text v >>= λ s. cast (non_empty_text s)

unfoldable pub convert_marker_list : List Value → Cast MarkerDef
unfolding position_entry marker_size
convert_marker_list raw = do
  type ← as_text (elem raw 0)
  text ← as_text (coalesce (elem raw 1) (str ""))
  start_frame ← as_natural (elem raw 2)
  end_frame ← as_integer (elem raw 3)
  player ← as_integer (elem raw 4)
  color ← as_text (elem raw 5)
  side ← as_integer (elem raw 6)
  entries ← as_list (elem raw 7)
  positions ← cast_all position_entry entries
  size ← marker_size (elem raw 8)
  shape ← as_text (coalesce (elem raw 9) (str "ICON"))
  brush ← brush_of (elem raw 10)
  cast (record {
    shape = shape_of shape;
    type = type;
    text = non_empty_text text;
    side = marker_side side;
    color = color;
    size = size;
    positions = positions;
    player = player;
    alpha = whole 1;
    brush = brush;
    start_frame = start_frame;
    end_frame = end_frame;
  })

unfoldable pub convert_marker : Value → Cast (Option MarkerDef)
unfolding convert_marker_list
convert_marker (arr vs) =
    if ltb (length (to_list vs)) 8
    then cast none
    else (convert_marker_list (to_list vs) >>= λ def. cast (some def))
convert_marker _ = cast none

pub record RawTime : Type 0 where
  pub frame_num : ℕ
  pub system_time_utc : String
  pub date : Option String
  pub time_multiplier : Option Number

pub record RawJsonOperation : Type 0 where
  pub world_name : Option String
  pub mission_name : Option String
  pub mission_author : Option String
  pub end_frame : Option ℕ
  pub capture_delay : Option Number
  pub extension_version : Option String
  pub addon_version : Option String
  pub entities : Option (List RawJsonEntity)
  pub events : Option (List Value)
  pub markers : Option (List Value)
  pub times : Option (List RawTime)

abbrev pub convert_time : RawTime → TimeEntry
convert_time t = record {
  frame_num = t.frame_num;
  system_time_utc = t.system_time_utc;
  date = non_empty_option t.date;
  time_multiplier = elim t.time_multiplier [ none ↦ none | some n ↦ nonzero_number n ];
}

-- The runtime: the decoder of text and `JSON.parse` together, which throw on other bytes (`none`),
-- the product of doubles with 1000, and `String` on a value that is not a text.
pub record Runtime {ℓ} (Buffer : Type ℓ) : Type ℓ where
  pub parse : Buffer → Option RawJsonOperation
  pub thousandfold : Number → ℕ
  pub text_of : Value → String

abbrev pub map_times : List RawTime → List TimeEntry
map_times [] = []
map_times (t ∷ ts) = convert_time t ∷ map_times ts

module _ {ℓ} {Buffer : Type ℓ} (rt : Runtime Buffer) where
  unfoldable pub convert_operation : RawJsonOperation → Cast Manifest
  unfolding convert_entity convert_event convert_marker present
  convert_operation d = do
    entities ← cast_all convert_entity (or_default d.entities [])
    events ← cast_all (convert_event rt.text_of) (or_default d.events [])
    markers ← cast_all convert_marker (or_default d.markers [])
    cast (record {
      version = 0;
      world_name = or_default d.world_name "";
      mission_name = or_default d.mission_name "";
      mission_author = d.mission_author;
      end_frame = or_default d.end_frame 0;
      chunk_size = or_default d.end_frame 0;
      capture_delay_ms = rt.thousandfold (or_default d.capture_delay (whole 1));
      chunk_count = 1;
      entities = entities;
      events = present events;
      markers = present markers;
      times = map_times (or_default d.times []);
      extension_version = d.extension_version;
      addon_version = d.addon_version;
    })

  -- `none` where it throws.
  unfoldable pub decode_manifest : Buffer → Option (Cast Manifest)
  unfolding convert_operation
  decode_manifest buffer = elim (rt.parse buffer) [
    | none ↦ none
    | some d ↦ some (convert_operation d)
  ]

  -- It always throws.
  unfoldable pub decode_chunk : Buffer → Option ChunkData
  decode_chunk buffer = none
