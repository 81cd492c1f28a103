-- ===== src/Decoders/Protobuf/Positions.antt =====
-- A marker position of a protobuf recording, from the message through the entry of the marker's
-- definition to what the marker manager draws: `convertMarkerPosition` of
-- ui/src/data/decoders/protobufDecoder.ts and `parseMarkerPosition` of ui/src/playback/markerManager.ts.
use Prim.Native.String.{String}
use text.Mathlib.Text.{◌==◌ as str_eq}
use ocap2_web.Base.{
  ◌≡◌, refl, ap, Option, none, some, List, [], ◌∷◌, if◌then◌else◌, Bool-cases, inl, inr, map, true,
}
use ocap2_web.Types.{Number, Value, PositionEntry, num, str, undefined}
use ocap2_web.Markers.Parse.{
  Parsed, plain_position, parse_marker_position, parse_json, unwrap, with_overrides, non_null, elem,
  to_list, point_of,
}
use ocap2_web.Decoders.Messages.{PbMarkerPosition}
use ocap2_web.Decoders.Protobuf.{convert_marker_position, points_of, has_style, size_value}

-- The text of the message, undefined if it is empty.
abbrev pub text_value : String → Value
text_value s = if str_eq s "" then undefined else str s

-- The position and the style of a message as they should be drawn.
abbrev pub unstyled : PbMarkerPosition → Option (List (Value × Value)) → Value × Value → Parsed
unstyled pb points at = plain_position pb.frame_num at (num pb.direction) (num pb.alpha) points

abbrev pub styled : PbMarkerPosition → Parsed → Parsed
styled pb p =
    if has_style pb
    then record p {
      text = text_value pb.text;
      color = str pb.color;
      size = size_value pb.size;
      type = text_value pb.type;
      brush = str pb.brush;
    }
    else p

non_null-size_value : (cs : List Number) → non_null (size_value cs) ≡ size_value cs
non_null-size_value [] = refl
non_null-size_value (a ∷ []) = refl
non_null-size_value (a ∷ b ∷ cs) = refl

-- The points of the line, two numbers each.
abbrev pub number_pairs : List Number → List (Value × Value)
number_pairs [] = []
number_pairs (x ∷ []) = []
number_pairs (x ∷ y ∷ cs) = (num x, num y) ∷ number_pairs cs

map-points_of : (cs : List Number) → map point_of (to_list (points_of cs)) ≡ number_pairs cs
unfolding points_of
map-points_of [] = refl
map-points_of (x ∷ []) = refl
map-points_of (x ∷ y ∷ cs) = ap (λ ps. (num x, num y) ∷ ps) (map-points_of cs)

-- A marker position without a line is drawn where the message puts it, with the direction, the opacity
-- and, if the message carries any style, the style of the message.
pub parse_marker_position-point :
    (pb : PbMarkerPosition)
    → pb.line_coords ≡ []
    → parse_marker_position (convert_marker_position pb)
      ≡ styled pb (unstyled pb none (num pb.pos_x, num pb.pos_y))
unfolding parse_marker_position convert_marker_position parse_json unwrap with_overrides
parse_marker_position-point pb h = elim (Bool-cases (has_style pb)) [
  | inl e ↦ rw (h, e, non_null-size_value pb.size) refl
  | inr e ↦ rw (h, e) refl
]

-- The values behind the opacity in an entry, as `parseMarkerPosition` numbers them.
abbrev pub overrides : PositionEntry → List Value
overrides entry = map (elem entry.rest) (3 ∷ 4 ∷ 5 ∷ 6 ∷ 7 ∷ [])

-- A marker position that carries a line and a style loses the style in the parser, though the decoder
-- passes it on: if a message has a style and the coordinates of two points or more, the decoder's entry
-- has its text, colour, size, type and brush as overrides, and the parser of this entry gives the line
-- through the points without any of them.
pub parse_marker_position-line :
    (pb : PbMarkerPosition) (a b c d : Number) (cs : List Number)
    → has_style pb ≡ true
    → pb.line_coords ≡ a ∷ b ∷ c ∷ d ∷ cs
    → (overrides (convert_marker_position pb)
        ≡ str pb.text ∷ str pb.color ∷ size_value pb.size ∷ str pb.type ∷ str pb.brush ∷ [])
      × (parse_marker_position (convert_marker_position pb)
          ≡ unstyled pb (some (number_pairs (a ∷ b ∷ c ∷ d ∷ cs))) (num a, num b))
unfolding parse_marker_position convert_marker_position parse_json unwrap points_of
parse_marker_position-line pb a b c d cs s h = (rw (h, s) refl, rw (h, map-points_of cs) refl)
