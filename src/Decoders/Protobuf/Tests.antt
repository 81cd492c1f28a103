-- ===== src/Decoders/Protobuf/Tests.antt =====
-- Concrete runs of the decoder of ui/src/data/decoders/protobufDecoder.ts.
use mathlib.Core.Option
use ocap2_web.Base.{ℕ, ◌≡◌, refl, true, false, none, some, List, [], ◌∷◌, arith}
use ocap2_web.Search.Correct.{last?}
use ocap2_web.Types.{Number, whole, num, str}
use ocap2_web.Engine.Snapshots.{chunk_state}
use ocap2_web.Markers.Parse.{parse_marker_position}
use ocap2_web.Decoders.Messages.{PbEntityState, PbChunk, PbMarkerPosition}
use ocap2_web.Decoders.Protobuf.{
  convert_chunk, convert_entity_state, convert_marker_position, size_value,
}
use ocap2_web.Decoders.Protobuf.Positions.{
  styled, unstyled, number_pairs, overrides, parse_marker_position-point,
  parse_marker_position-line,
}
use ocap2_web.Decoders.Protobuf.Chunk.{written, chunk_state-convert_chunk}
use ocap2_web.Decoders.Protobuf.Stored.{IsSized, convert_chunk-IsSized}

-- The state of an entity at `(x, 0)`.
abbrev state_of : ℕ → ℕ → PbEntityState
state_of id x = record {
  entity_id = id;
  pos_x = whole x;
  pos_y = whole 0;
  direction = whole 90;
  alive = 1;
  crew_ids = [];
  vehicle_id = 0;
  is_in_vehicle = false;
  name = "rifleman";
  is_player = true;
  pos_z = whole 5;
  group_name = "Alpha";
  side = "WEST";
  frame_num = 0;
}

-- The frames 300 to 302, out of order, with two states of the entity 4 at frame 301.
abbrev chunk_1 : PbChunk
chunk_1 = record {
  index = 1;
  start_frame = 300;
  frame_count = 3;
  frames =
      record { frame_num = 301; entities = state_of 4 10 ∷ state_of 5 20 ∷ state_of 4 11 ∷ [] }
      ∷ record { frame_num = 300; entities = state_of 4 9 ∷ [] }
      ∷ [];
}

chunk_state-convert_chunk_example :
    chunk_state (some (convert_chunk chunk_1)) 4 1
    ≡ Option.map convert_entity_state (last? (written 4 301 chunk_1.frames))
chunk_state-convert_chunk_example = chunk_state-convert_chunk chunk_1 4 1

last_one : last? (written 4 301 chunk_1.frames) ≡ some (state_of 4 11)
last_one = refl

convert_chunk-IsSized_example : IsSized 3 (convert_chunk chunk_1).entities
convert_chunk-IsSized_example =
    convert_chunk-IsSized chunk_1 ((omega arith, omega arith), ((omega arith, omega arith), tt))

abbrev position_at : List Number → PbMarkerPosition
position_at coords = record {
  frame_num = 12;
  pos_x = whole 100;
  pos_y = whole 200;
  pos_z = whole 3;
  direction = whole 45;
  alpha = whole 1;
  line_coords = coords;
  text = "";
  color = "#ff0000";
  size = whole 2 ∷ whole 2 ∷ [];
  type = "mil_dot";
  brush = "";
}

parse_marker_position-point_example :
    parse_marker_position (convert_marker_position (position_at []))
    ≡ styled (position_at []) (unstyled (position_at []) none (num (whole 100), num (whole 200)))
parse_marker_position-point_example = parse_marker_position-point (position_at []) refl

abbrev line_2 : List Number
line_2 = whole 1 ∷ whole 2 ∷ whole 3 ∷ whole 4 ∷ whole 5 ∷ []

parse_marker_position-line_example :
    (overrides (convert_marker_position (position_at line_2))
      ≡ str "" ∷ str "#ff0000" ∷ size_value (whole 2 ∷ whole 2 ∷ []) ∷ str "mil_dot" ∷ str "" ∷ [])
    × (parse_marker_position (convert_marker_position (position_at line_2))
        ≡ unstyled (position_at line_2) (some (number_pairs line_2)) (num (whole 1), num (whole 2)))
parse_marker_position-line_example =
    parse_marker_position-line (position_at line_2) (whole 1) (whole 2) (whole 3) (whole 4)
      (whole 5 ∷ []) refl refl
