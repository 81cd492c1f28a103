-- ===== src/Decoders/Json.antt =====
-- ui/src/data/decoders/jsonDecoder.ts: the decoder of a recording in one JSON file.
--
-- The code casts values of the type unknown. A value that is not of the type to which it is cast is
-- outside of the model, where a conversion is `outside`. The runtime's parser, and the product of a
-- number and 1000, are a parameter.
pub mod Expand
pub mod Manifest
mod Tests
use Prim.Native.String.{String}
use text.Mathlib.Text.{◌==◌ as str_eq}
use ocap2_web.Base.{
  ℕ, zero, suc, ◌+◌, ◌-◌, ◌/◌, ◌%◌, ◌^◌, Bool, true, false, not, ◌||◌, Option, none, some, List, [],
  ◌∷◌, ◌++◌, map, ◌==◌, if◌then◌else◌, ltb, leb, length,
}
use ocap2_web.Base.Int.{ℤ, pos, negsuc, sub_ℕ, ◌+ℤ◌}
use ocap2_web.Types.{
  Number, whole, ArmaCoord, xy, xyz, Side, EntityType, man, EntityState, EntityDef, EventBody,
  EventDef, HitKind, hit, killed, hit_killed, ConnectKind, connected, disconnected, connect,
  CounterKind, respawn_tickets, counter_init, counter_set, counter, end_mission, general, capture,
  CaptureKind, captured, captured_flag, contested, HackKind, terminal_hack, hack_started,
  hack_canceled, Value, undefined, null, bool, num, str, arr, PositionEntry, MarkerDef, Shape, icon,
  TimeEntry, number_eq,
}
use ocap2_web.Markers.Parse.{elem, coalesce, to_list, number}
use ocap2_web.Decoders.{
  non_empty_text, text_or, nonzero_number, shape_of, alive_of, side_of, vehicle_class_of,
}
use ocap2_web.Decoders.Protobuf.{present}

-- A conversion, or values outside of the model.
pub data Cast {ℓ} (A : Type ℓ) : Type ℓ where
  cast : A → Cast A
  outside : Cast A

infixl 5 ◌>>=◌
abbrev pub ◌>>=◌ {ℓ κ} : {A : Type ℓ} {B : Type κ} → Cast A → (A → Cast B) → Cast B
cast a >>= f = f a
outside >>= f = outside

abbrev pub cast_all {ℓ κ} : {A : Type ℓ} {B : Type κ} → (A → Cast B) → List A → Cast (List B)
cast_all f [] = cast []
cast_all f (x ∷ xs) = f x >>= λ y. cast_all f xs >>= λ ys. cast (y ∷ ys)

abbrev pub as_number : Value → Cast Number
as_number (num n) = cast n
as_number _ = outside

abbrev pub as_text : Value → Cast String
as_text (str s) = cast s
as_text _ = outside

abbrev pub as_list : Value → Cast (List Value)
as_list (arr vs) = cast (to_list vs)
as_list _ = outside

-- An integer that a double holds.
unfoldable pub integer_of : Number → Cast ℤ
integer_of n = elim n.mantissa [
  | pos m ↦ if m % 2 ^ n.places == 0 then cast (pos (m / 2 ^ n.places)) else outside
  | negsuc m ↦
      if (m + 1) % 2 ^ n.places == 0 then cast (negsuc ((m + 1) / 2 ^ n.places - 1)) else outside
]

abbrev pub as_integer : Value → Cast ℤ
as_integer v = as_number v >>= integer_of

abbrev pub natural_of : ℤ → Cast ℕ
natural_of (pos n) = cast n
natural_of (negsuc n) = outside

unfoldable pub as_natural : Value → Cast ℕ
unfolding integer_of
as_natural v = as_integer v >>= natural_of

abbrev pub as_numbers : Value → Cast (List Number)
as_numbers v = as_list v >>= cast_all as_number

unfoldable pub as_naturals : Value → Cast (List ℕ)
unfolding as_natural
as_naturals v = as_list v >>= cast_all as_natural

-- `toArmaCoord`. The code gives undefined coordinates for an array that is too short.
unfoldable pub to_arma_coord : List Number → Cast ArmaCoord
to_arma_coord (x ∷ y ∷ []) = cast (xy x y)
to_arma_coord (x ∷ y ∷ z ∷ ns) = cast (xyz x y z)
to_arma_coord _ = outside

unfoldable pub map_entity_type : String → EntityType
map_entity_type raw = if str_eq raw "unit" then man else vehicle_class_of raw

-- `typeof value === "string" ? value : undefined`.
abbrev pub text_if : Value → Option String
text_if (str s) = some s
text_if _ = none

-- `text || undefined`, of a text that may be missing.
abbrev pub non_empty_option : Option String → Option String
non_empty_option none = none
non_empty_option (some s) = non_empty_text s

-- `typeof frame[3] === "number" ? frame[3] : 0`.
unfoldable pub vehicle_field : Value → Cast ℕ
unfolding as_natural
vehicle_field (num n) = as_natural (num n)
vehicle_field _ = cast 0

abbrev pub is_one : Value → Bool
is_one (num n) = number_eq n (whole 1)
is_one (bool b) = b
is_one _ = false

abbrev pub raw_side : Option String → Option Side
raw_side none = none
raw_side (some s) = if str_eq s "" then none else some (side_of s)

unfoldable pub convert_unit_position : List Value → Cast EntityState
unfolding to_arma_coord vehicle_field as_natural
convert_unit_position frame = do
  at ← as_numbers (elem frame 0)
  position ← to_arma_coord at
  direction ← as_number (coalesce (elem frame 1) (number 0))
  alive ← as_natural (coalesce (elem frame 2) (number 1))
  vehicle ← vehicle_field (elem frame 3)
  cast (record {
    position = position;
    direction = direction;
    alive = alive_of alive;
    name = non_empty_option (text_if (elem frame 4));
    crew_ids = none;
    vehicle_id = if vehicle == 0 then none else some vehicle;
    is_in_vehicle = some (not (vehicle == 0));
    is_player = some (is_one (elem frame 5));
    group_name = non_empty_option (text_if (elem frame 7));
    side = raw_side (text_if (elem frame 8));
  })

-- `Array.isArray(frame[3]) ? frame[3] : undefined`.
unfoldable pub crew_field : Value → Cast (Option (List ℕ))
unfolding as_naturals
crew_field (arr vs) = as_naturals (arr vs) >>= λ ids. cast (some ids)
crew_field _ = cast none

unfoldable pub convert_vehicle_position : List Value → Cast EntityState
unfolding to_arma_coord crew_field as_natural
convert_vehicle_position frame = do
  at ← as_numbers (elem frame 0)
  position ← to_arma_coord at
  direction ← as_number (coalesce (elem frame 1) (number 0))
  alive ← as_natural (coalesce (elem frame 2) (number 1))
  crew ← crew_field (elem frame 3)
  cast (record {
    position = position;
    direction = direction;
    alive = alive_of alive;
    name = none;
    crew_ids = crew;
    vehicle_id = none;
    is_in_vehicle = none;
    is_player = none;
    group_name = none;
    side = none;
  })

-- The frame range of a vehicle's entry, if it has one.
pub record Run : Type 0 where
  pub state : EntityState
  pub range : Option (ℕ × ℕ)

unfoldable pub range_of : Value → Cast (Option (ℕ × ℕ))
unfolding as_natural
range_of (arr vs) =
    if ltb (length (to_list vs)) 2
    then cast none
    else (as_natural (elem (to_list vs) 0) >>= λ a.
        as_natural (elem (to_list vs) 1) >>= λ b. cast (some (a, b)))
range_of _ = cast none

unfoldable pub run_of : List Value → Cast Run
unfolding convert_vehicle_position range_of
run_of frame = do
  state ← convert_vehicle_position frame
  range ← range_of (elem frame 4)
  cast (record { state = state; range = range })

abbrev pub copies {ℓ} : {A : Type ℓ} → ℕ → A → List A
copies zero a = []
copies (suc n) a = a ∷ copies n a

-- The rounds of `for (let f = rangeStart; f <= rangeEnd; f++)`, or the single frame.
abbrev pub round_count : Option (ℕ × ℕ) → ℕ
round_count none = 1
round_count (some (a, b)) = b + 1 - a

unfoldable pub expand : List Run → List EntityState
expand [] = []
expand (r ∷ rs) = copies (round_count r.range) r.state ++ expand rs

-- An entity of the file.
pub record RawJsonEntity : Type 0 where
  pub id : ℕ
  pub type : String
  pub name : String
  pub side : String
  pub group : Option String
  pub is_player : Option Number
  pub start_frame_num : Option ℕ
  pub role : Option String
  pub class : Option String
  pub positions : Option (List (List Value))
  pub frames_fired : Option (List (ℕ × List Number))

-- `value ?? default`.
abbrev pub or_default {ℓ} : {A : Type ℓ} → Option A → A → A
or_default none d = d
or_default (some a) d = a

abbrev pub is_unit_type : RawJsonEntity → Bool
is_unit_type raw = str_eq raw.type "unit"

unfoldable pub states_of : Bool → List (List Value) → Cast (List EntityState)
unfolding convert_unit_position run_of expand
states_of true frames = cast_all convert_unit_position frames
states_of false frames = cast_all run_of frames >>= λ runs. cast (expand runs)

-- The first two coordinates of a shot.
unfoldable pub shot_of : ℕ × List Number → Cast (ℕ × ArmaCoord)
shot_of (frame, x ∷ y ∷ ns) = cast (frame, xy x y)
shot_of (frame, _) = outside

unfoldable pub shots_of : Option (List (ℕ × List Number)) → Cast (Option (List (ℕ × ArmaCoord)))
unfolding shot_of
shots_of none = cast none
shots_of (some []) = cast none
shots_of (some (f ∷ fs)) = cast_all shot_of (f ∷ fs) >>= λ shots. cast (some shots)

abbrev pub start_of : RawJsonEntity → ℕ
start_of raw = or_default raw.start_frame_num 0

abbrev pub is_player_of : Option Number → Bool
is_player_of none = false
is_player_of (some n) = number_eq n (whole 1)

abbrev pub entity_def :
    RawJsonEntity → ℤ → Option (List EntityState) → Option (List (ℕ × ArmaCoord)) → EntityDef
entity_def raw end_frame positions shots = record {
  id = raw.id;
  type = map_entity_type (if is_unit_type raw then raw.type else or_default raw.class raw.type);
  name = raw.name;
  side = side_of raw.side;
  group_name = or_default raw.group "";
  is_player = is_player_of raw.is_player;
  start_frame = start_of raw;
  end_frame = end_frame;
  role = raw.role;
  frames_fired = shots;
  positions = positions;
}

unfoldable pub convert_entity : RawJsonEntity → Cast EntityDef
unfolding states_of shots_of
convert_entity raw = elim raw.positions [
  | none ↦ shots_of raw.frames_fired >>= λ shots. cast (entity_def raw (pos 0) none shots)
  | some [] ↦ shots_of raw.frames_fired >>= λ shots. cast (entity_def raw (pos 0) none shots)
  | some (f ∷ fs) ↦ states_of (is_unit_type raw) (f ∷ fs) >>= λ states.
      shots_of raw.frames_fired >>= λ shots.
      cast (entity_def raw (sub_ℕ (start_of raw + length states) 1) (some states) shots)
]
