-- ===== src/Decoders.antt =====
-- ui/src/data/decoders: what turns a recording's bytes into a manifest and its chunks.
pub mod Messages
pub mod Protobuf
pub mod Json
use Prim.Native.String.{String}
use text.Mathlib.Text.{◌==◌ as str_eq}
use ocap2_web.Base.{ℕ, Bool, true, false, not, ◌==◌, Option, none, some, if◌then◌else◌}
use ocap2_web.Base.Int.{pos, eqb_ℤ}
use ocap2_web.Types.{
  Number, Side, west, east, guer, civ, EntityType, car, tank, apc, truck, ship, heli, plane,
  parachute, static_weapon, static_mortar, unknown, Shape, icon, ellipse, rectangle, polyline,
  cast_shape, AliveState, dead, alive, unconscious, cast_alive,
}

-- `text || undefined`.
abbrev pub non_empty_text : String → Option String
non_empty_text s = if str_eq s "" then none else some s

-- `text || default`.
abbrev pub text_or : String → String → String
text_or s default = if str_eq s "" then default else s

-- A number that is neither 0 nor not a number is true as a condition.
abbrev pub is_nonzero : Number → Bool
is_nonzero n = not (eqb_ℤ n.mantissa (pos 0))

-- `value || undefined`, for a number.
abbrev pub nonzero_number : Number → Option Number
nonzero_number n = if is_nonzero n then some n else none

-- The shape's name, which the code casts.
unfoldable pub shape_of : String → Shape
shape_of s =
    if str_eq s "ICON"
    then icon
    else (if str_eq s "ELLIPSE"
        then ellipse
        else (if str_eq s "RECTANGLE"
            then rectangle
            else (if str_eq s "POLYLINE" then polyline else cast_shape s)))

unfoldable pub alive_of : ℕ → AliveState
alive_of n =
    if n == 0
    then dead
    else (if n == 1 then alive else (if n == 2 then unconscious else cast_alive n))

-- The side that a raw text stands for.
unfoldable pub side_of : String → Side
side_of raw =
    if str_eq raw "WEST"
    then west
    else (if str_eq raw "EAST"
        then east
        else (if str_eq raw "GUER" then guer else (if str_eq raw "INDEPENDENT" then guer else civ)))

unfoldable pub vehicle_class_of : String → EntityType
vehicle_class_of c =
    if str_eq c "car"
    then car
    else (if str_eq c "tank"
        then tank
        else (if str_eq c "apc"
            then apc
            else (if str_eq c "truck"
                then truck
                else (if str_eq c "sea"
                    then ship
                    else (if str_eq c "heli"
                        then heli
                        else (if str_eq c "plane"
                            then plane
                            else (if str_eq c "parachute"
                                then parachute
                                else (if str_eq c "static-weapon"
                                    then static_weapon
                                    else (if str_eq c "static-mortar"
                                        then static_mortar
                                        else unknown)))))))))
