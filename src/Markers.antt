-- ===== src/Markers.antt =====
-- ui/src/playback/markerManager.ts: the class MarkerManager. What it calls of the renderer
-- (ui/src/renderers/renderer.interface.ts) is a list of calls, newest first, with a number for each
-- handle that `createBriefingMarker` returns.
pub mod Labels
pub mod Position
pub mod Keyframe
pub mod Parse
pub mod Visible
pub mod Handles
pub mod Total
pub mod Settled
pub mod Counts
mod Tests
use Prim.Native.String
use Prim.Native.String.{String}
use text.Mathlib.Text.{◌==◌ as str_eq, find?}
use mathlib.Core.Option
use ocap2_web.Base.{
  ℕ, zero, suc, ◌+◌, ◌-◌, Bool, true, false, not, ◌&&◌, ◌||◌, Option, none, some, List, [], ◌∷◌,
  ◌++◌, ◌==◌, leb, ltb, length, get_elem?, any, if◌then◌else◌,
}
use ocap2_web.Base.Int.{ℤ, pos, negsuc, eqb_ℤ, sub_ℕ}
use ocap2_web.Types.{
  bool, Number, number_eq, Value, undefined, null, num, str, arr, cons, nil, MarkerDef,
  PositionEntry, Shape, icon,
}
use ocap2_web.Markers.Position.{find_position_index, Lookup, at_index, type_error, out_of_fuel}
use ocap2_web.Markers.Parse.{
  Arithmetic, Parsed, parse_marker_position, lerp_marker_position, number, index,
}
unfoldable pub use ocap2_web.Markers.Labels.*

abbrev pub value_of_text : Option String → Value
value_of_text none = undefined
value_of_text (some s) = str s

abbrev pub value_of_size : Option (Number × Number) → Value
value_of_size none = undefined
value_of_size (some (w, h)) = arr (cons (num w) (cons (num h) nil))

unfoldable pub matches_side_filter : Option String → String → Bool
matches_side_filter none side = true
matches_side_filter (some f) side = str_eq side f || str_eq side "GLOBAL"

unfoldable pub is_blacklisted : List ℤ → ℤ → Bool
is_blacklisted players player =
    if eqb_ℤ player no_player then false else any (λ p. eqb_ℤ p player) players

unfoldable pub hide_handle : Option ℕ → TrackedMarker → Renderer → TrackedMarker × Renderer
hide_handle none t r = (t, r)
hide_handle (some h) t r = (
  record t { handle = none; last_pos_index = negsuc 0; last_interp_frame = negsuc 0 },
  record r { calls = remove h ∷ r.calls },
)

-- The handle is removed and the marker is reset, if it is shown.
unfoldable pub hide : TrackedMarker → Renderer → TrackedMarker × Renderer
unfolding hide_handle
hide t r = hide_handle t.handle t r

-- A loop over the markers that hides those of a test.
unfoldable pub hide_if :
    (TrackedMarker → Bool) → List TrackedMarker → Renderer → List TrackedMarker × Renderer
hide_if test [] r = ([], r)
hide_if test (t ∷ ts) r =
    let (t', r') = if test t then hide t r else (t, r) in
    let (ts', r'') = hide_if test ts r' in (t' ∷ ts', r'')

abbrev pub same_filter : Option String → Option String → Bool
same_filter none none = true
same_filter (some a) (some b) = str_eq a b
same_filter _ _ = false

abbrev pub with_markers : List TrackedMarker × Renderer → MarkerManager → MarkerManager
with_markers (ts, r) m = record m { markers = ts; renderer = r }

unfoldable pub set_side_filter : Option String → MarkerManager → MarkerManager
unfolding hide_if matches_side_filter
set_side_filter side m =
    if same_filter m.side_filter side
    then m
    else with_markers
        (hide_if (λ t. not (matches_side_filter side t.def.side)) m.markers m.renderer)
        (record m { side_filter = side })

unfoldable pub set_blacklist : List ℤ → MarkerManager → MarkerManager
unfolding hide_if is_blacklisted
set_blacklist players m =
    with_markers (hide_if (λ t. is_blacklisted players t.def.player) m.markers m.renderer)
      (record m { blacklisted = players })

-- `clear` removes every handle.
unfoldable pub remove_all : List TrackedMarker → Renderer → Renderer
remove_all [] r = r
remove_all (t ∷ ts) r = elim t.handle [
  | none ↦ remove_all ts r
  | some h ↦ remove_all ts (record r { calls = remove h ∷ r.calls })
]

unfoldable pub clear : MarkerManager → MarkerManager
unfolding remove_all
clear m = record m { markers = []; renderer = remove_all m.markers m.renderer }

-- Marker types that are not drawn; an Empty marker with a text is a label.
unfoldable pub is_skipped : MarkerDef → Bool
is_skipped def =
    includes def.type "zoneTrigger"
    || (includes def.type "Empty" && str_eq (text_or_empty def.text) "")

unfoldable pub track : MarkerDef → (ℤ → Option String) → TrackedMarker
unfolding build_marker_popup_text classify_marker_layer
track def lookup = record {
  def = def;
  popup_text = build_marker_popup_text def lookup;
  layer = classify_marker_layer def;
  handle = none;
  last_pos_index = negsuc 0;
  last_interp_frame = negsuc 0;
  active_type = str def.type;
  active_color = str def.color;
  active_brush = value_of_text def.brush;
  active_size = value_of_size def.size;
}

unfoldable pub track_all : List MarkerDef → (ℤ → Option String) → List TrackedMarker
unfolding is_skipped track
track_all [] lookup = []
track_all (def ∷ defs) lookup =
    let rest = track_all defs lookup in if is_skipped def then rest else track def lookup ∷ rest

unfoldable pub load_markers : List MarkerDef → (ℤ → Option String) → MarkerManager → MarkerManager
unfolding clear track_all
load_markers defs lookup m = record (clear m) { markers = track_all defs lookup }

-- `counts.set(player, (counts.get(player) ?? 0) + 1)`.
unfoldable pub count_player : ℤ → List (ℤ × ℕ) → List (ℤ × ℕ)
count_player p [] = (p, 1) ∷ []
count_player p ((q, n) ∷ counts) =
    if eqb_ℤ q p then (q, n + 1) ∷ counts else (q, n) ∷ count_player p counts

unfoldable pub count_players : List TrackedMarker → List (ℤ × ℕ) → List (ℤ × ℕ)
unfolding count_player
count_players [] counts = counts
count_players (t ∷ ts) counts =
    count_players ts
      (if eqb_ℤ t.def.player no_player then counts else count_player t.def.player counts)

unfoldable pub get_marker_counts_by_player : MarkerManager → List (ℤ × ℕ)
unfolding count_players
get_marker_counts_by_player m = count_players m.markers []

abbrev pub is_projectile : Layer → Bool
is_projectile projectile_markers = true
is_projectile _ = false

abbrev pub truthy : Value → Bool
truthy undefined = false
truthy null = false
truthy (bool b) = b
truthy (num n) = not (eqb_ℤ n.mantissa (pos 0))
truthy (str s) = not (str_eq s "")
truthy (arr vs) = true

-- `===` on the values that a style has; two arrays are different objects.
abbrev pub strict_eq : Value → Value → Bool
strict_eq undefined undefined = true
strict_eq null null = true
strict_eq (num a) (num b) = number_eq a b
strict_eq (str s) (str t) = str_eq s t
strict_eq (bool a) (bool b) = if a then b else not b
strict_eq _ _ = false

abbrev pub changes : Value → Value → Bool
changes new old = truthy new && not (strict_eq new old)

abbrev pub changes_size : Value → Value → Bool
changes_size new old =
    truthy new
    && (not (strict_eq (index new 0) (index old 0)) || not (strict_eq (index new 1) (index old 1)))

abbrev pub override : Value → Value → Value
override new old = if truthy new then new else old

unfoldable pub style_changes : Parsed → TrackedMarker → Bool
style_changes p t =
    changes p.type t.active_type
    || (changes p.color t.active_color
        || (changes p.brush t.active_brush || changes_size p.size t.active_size))

abbrev pub restyle : Parsed → TrackedMarker → TrackedMarker
restyle p t = record t {
  active_type = override p.type t.active_type;
  active_color = override p.color t.active_color;
  active_brush = override p.brush t.active_brush;
  active_size = override p.size t.active_size;
}

-- The handle alone is given back.
unfoldable pub drop_handle : Option ℕ → TrackedMarker → Renderer → TrackedMarker × Renderer
drop_handle none t r = (t, r)
drop_handle (some h) t r = (record t { handle = none }, record r { calls = remove h ∷ r.calls })

-- The style overrides; a shown marker is removed, to be created again with the new style.
unfoldable pub apply_style : Parsed → TrackedMarker → Renderer → TrackedMarker × Renderer
unfolding style_changes drop_handle
apply_style p t r = if style_changes p t then drop_handle t.handle (restyle p t) r else (t, r)

abbrev pub popup_or_undefined : String → Option String
popup_or_undefined s = if str_eq s "" then none else some s

abbrev pub briefing_def : TrackedMarker → BriefingMarkerDef
briefing_def t = record {
  shape = t.def.shape;
  type = t.active_type;
  color = t.active_color;
  text = popup_or_undefined t.popup_text;
  side = t.def.side;
  size = t.active_size;
  brush = t.active_brush;
  layer = t.layer;
}

unfoldable pub show_handle : Option ℕ → Parsed → TrackedMarker → Renderer → TrackedMarker × Renderer
show_handle none p t r = (
  record t { handle = some r.next_handle },
  record {
    calls = update r.next_handle p ∷ create r.next_handle (briefing_def t) ∷ r.calls;
    next_handle = suc r.next_handle;
  },
)
show_handle (some h) p t r = (t, record r { calls = update h p ∷ r.calls })

-- `createBriefingMarker` where the marker has no handle, and `updateBriefingMarker`.
unfoldable pub show : Parsed → TrackedMarker → Renderer → TrackedMarker × Renderer
unfolding show_handle
show p t r = show_handle t.handle p t r

abbrev pub noted : ℕ → ℕ → TrackedMarker × Renderer → TrackedMarker × Renderer
noted i frame (t, r) = (record t { last_pos_index = pos i; last_interp_frame = pos frame }, r)

unfoldable pub draw : ℕ → ℕ → Parsed → TrackedMarker → Renderer → TrackedMarker × Renderer
unfolding apply_style show
draw i frame p t r = let (t', r') = apply_style p t r in noted i frame (show p t' r')

-- `frame - a.frameNum`, over the span if that is positive, and between 0 and 1.
unfoldable pub progress : Arithmetic → ℕ → Parsed → Parsed → Value
progress ar frame a b = ar.min (number 1) (
    ar.max (number 0) (
      if ltb a.frame_num b.frame_num
      then ar.div (num (record { mantissa = sub_ℕ frame a.frame_num; places = 0 }))
          (number (b.frame_num - a.frame_num))
      else number 1))

-- The position to draw at the keyframe `i`; `none` where the array has no such element.
unfoldable pub current_position : Arithmetic → ℕ → ℕ → TrackedMarker → Option Parsed
unfolding progress
current_position ar i frame t = elim (get_elem? t.def.positions i) [
  | none ↦ none
  | some p ↦
      if is_projectile t.layer
      then (elim (get_elem? t.def.positions (suc i)) [
        | none ↦ some (parse_marker_position p)
        | some q ↦ some (
            lerp_marker_position ar (parse_marker_position p) (parse_marker_position q)
              (progress ar frame (parse_marker_position p) (parse_marker_position q)))
      ])
      else some (parse_marker_position p)
]

abbrev pub is_shown : TrackedMarker → Bool
is_shown t = elim t.handle [ none ↦ false | some h ↦ true ]

-- Nothing to send: the same keyframe, and no interpolation, or the same frame.
unfoldable pub is_unchanged : ℕ → ℕ → TrackedMarker → Bool
is_unchanged i frame t =
    is_shown t
    && (eqb_ℤ (pos i) t.last_pos_index
        && (not (is_projectile t.layer)
            || (not (ltb (suc i) (length t.def.positions))
                || eqb_ℤ (pos frame) t.last_interp_frame)))

-- The body of the loop of `updateFrame`; `none` where it throws.
unfoldable pub update_marker :
    Arithmetic
    → ℕ
    → Option String
    → List ℤ
    → TrackedMarker
    → Renderer
    → Option (TrackedMarker × Renderer)
unfolding is_unchanged is_blacklisted matches_side_filter
update_marker ar frame side players t r =
    elim (find_position_index t.def.positions frame t.def.start_frame t.def.end_frame) [
      | type_error ↦ none
      | out_of_fuel ↦ none
      | at_index (negsuc _) ↦ some (hide t r)
      | at_index (pos i) ↦
          if is_blacklisted players t.def.player
          then some (hide t r)
          else (if not (matches_side_filter side t.def.side)
              then some (hide t r)
              else (if is_unchanged i frame t
                  then some (t, r)
                  else Option.map (λ p. draw i frame p t r) (current_position ar i frame t)))
    ]

unfoldable pub update_markers :
    Arithmetic
    → ℕ
    → Option String
    → List ℤ
    → List TrackedMarker
    → Renderer
    → Option (List TrackedMarker × Renderer)
update_markers ar frame side players [] r = some ([], r)
update_markers ar frame side players (t ∷ ts) r = elim (update_marker ar frame side players t r) [
  | none ↦ none
  | some (t', r') ↦ elim (update_markers ar frame side players ts r') [
    | none ↦ none
    | some (ts', r'') ↦ some (t' ∷ ts', r'')
  ]
]

-- `none` where the loop throws; the markers before the one that throws keep their changes in the
-- source, and the caller does not go on.
unfoldable pub update_frame : Arithmetic → ℕ → MarkerManager → Option MarkerManager
update_frame ar frame m =
    Option.map (λ out. with_markers out m)
      (update_markers ar frame m.side_filter m.blacklisted m.markers m.renderer)
