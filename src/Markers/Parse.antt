-- ===== src/Markers/Parse.antt =====
-- `parseMarkerPosition` and `lerpMarkerPosition` of ui/src/playback/markerManager.ts, over the values
-- of type `any` of a position entry. The arithmetic of doubles is a parameter.

use text.Mathlib.Text.{◌==◌ as str_eq}
use ocap2_web.Base.{
  ℕ, zero, suc, Bool, true, false, Option, none, some, List, [], ◌∷◌, ltb, length, if◌then◌else◌,
  map,
}
use ocap2_web.Types.{whole, Value, Values, undefined, null, num, str, arr, nil, cons, PositionEntry}

-- The operations on doubles of which the code's results are made.
pub record Arithmetic : Type 0 where
  pub add : Value → Value → Value
  pub sub : Value → Value → Value
  pub mul : Value → Value → Value
  pub div : Value → Value → Value
  pub min : Value → Value → Value
  pub max : Value → Value → Value

abbrev pub to_list : Values → List Value
to_list nil = []
to_list (cons v vs) = v ∷ to_list vs

abbrev pub of_list : List Value → Values
of_list [] = nil
of_list (v ∷ vs) = cons v (of_list vs)

-- `array[i]`.
abbrev pub elem : List Value → ℕ → Value
elem [] i = undefined
elem (v ∷ vs) zero = v
elem (v ∷ vs) (suc i) = elem vs i

-- `value[i]` where the value is an array.
abbrev pub index : Value → ℕ → Value
index (arr vs) i = elem (to_list vs) i
index _ i = undefined

abbrev pub is_array : Value → Bool
is_array (arr vs) = true
is_array _ = false

-- `??`.
abbrev pub coalesce : Value → Value → Value
coalesce undefined d = d
coalesce null d = d
coalesce v d = v

-- `value != null && value !== ""` and `value != null`, with the value or undefined.
abbrev pub non_empty : Value → Value
non_empty null = undefined
non_empty (str s) = if str_eq s "" then undefined else str s
non_empty v = v

abbrev pub non_null : Value → Value
non_null null = undefined
non_null v = v

abbrev pub number : ℕ → Value
number n = num (whole n)

pub record Parsed : Type 0 where
  pub frame_num : ℕ
  pub position : Value × Value
  pub direction : Value
  pub alpha : Value
  pub line_points : Option (List (Value × Value))
  pub text : Value
  pub color : Value
  pub size : Value
  pub type : Value
  pub brush : Value

abbrev pub plain_position :
    ℕ → Value × Value → Value → Value → Option (List (Value × Value)) → Parsed
plain_position frame at direction alpha points = record {
  frame_num = frame;
  position = at;
  direction = direction;
  alpha = alpha;
  line_points = points;
  text = undefined;
  color = undefined;
  size = undefined;
  type = undefined;
  brush = undefined;
}

abbrev pub first_point : List (Value × Value) → Value × Value
first_point [] = (number 0, number 0)
first_point (p ∷ ps) = p

-- `[[x, y]]` stands for `[x, y]`.
unfoldable pub unwrap : List Value → List Value
unwrap (arr vs ∷ []) = to_list vs
unwrap vs = vs

-- The style overrides, in an entry of more than four elements.
unfoldable pub with_overrides : List Value → Parsed → Parsed
with_overrides rest p =
    if ltb 3 (length rest)
    then record p {
      text = non_empty (elem rest 3);
      color = non_null (elem rest 4);
      size = non_null (elem rest 5);
      type = non_empty (elem rest 6);
      brush = non_null (elem rest 7);
    }
    else p

abbrev pub point_of : Value → Value × Value
point_of v = (index v 0, index v 1)

-- The JSON format, `[frameNum, pos, dir, alpha, …]`.
unfoldable pub parse_json : ℕ → List Value → List Value → Parsed
unfolding with_overrides
parse_json frame at rest =
    let direction = coalesce (elem rest 1) (number 0) in
    let alpha = coalesce (elem rest 2) (number 1) in
    if is_array (elem at 0)
    then plain_position frame (first_point (map point_of at)) direction alpha
        (some (map point_of at))
    else with_overrides rest (plain_position frame (elem at 0, elem at 1) direction alpha none)

-- The pairs behind the opacity in the flat format; a last odd value is dropped.
unfoldable pub pairs : List Value → List (Value × Value)
pairs [] = []
pairs (x ∷ []) = []
pairs (x ∷ y ∷ vs) = (x, y) ∷ pairs vs

abbrev pub line_of : List (Value × Value) → Option (List (Value × Value))
line_of [] = none
line_of (p ∷ ps) = some (p ∷ ps)

abbrev pub drop_five : List Value → List Value
drop_five (a ∷ b ∷ c ∷ d ∷ e ∷ vs) = vs
drop_five _ = []

-- The flat format, `[frameNum, posX, posY, posZ, direction, alpha, ...lineCoords]`.
unfoldable pub parse_flat : ℕ → List Value → Parsed
unfolding pairs
parse_flat frame rest =
    plain_position frame (coalesce (elem rest 0) (number 0), coalesce (elem rest 1) (number 0))
      (coalesce (elem rest 3) (number 0)) (coalesce (elem rest 4) (number 1))
      (line_of (pairs (drop_five rest)))

unfoldable pub parse_marker_position : PositionEntry → Parsed
unfolding parse_json parse_flat unwrap
parse_marker_position entry = elim (elem entry.rest 0) [
  | arr vs ↦ parse_json entry.frame_num (unwrap (to_list vs)) entry.rest
  | _ ↦ parse_flat entry.frame_num entry.rest
]

-- `a + (b - a) * t`.
abbrev pub lerp : Arithmetic → Value → Value → Value → Value
lerp ar a b t = ar.add a (ar.mul (ar.sub b a) t)

unfoldable pub lerp_marker_position : Arithmetic → Parsed → Parsed → Value → Parsed
lerp_marker_position ar a b t =
    plain_position a.frame_num
      (lerp ar a.position.0 b.position.0 t, lerp ar a.position.1 b.position.1 t)
      (lerp ar a.direction b.direction t) (lerp ar a.alpha b.alpha t) none
