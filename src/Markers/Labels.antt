-- ===== src/Markers/Labels.antt =====
-- The records of ui/src/playback/markerManager.ts, and the layer and the popup text of a marker. What the
-- class calls of the renderer (ui/src/renderers/renderer.interface.ts) is a list of calls, newest first,
-- with a number for each handle that `createBriefingMarker` returns.
use Prim.Native.String
use Prim.Native.String.{String}
use text.Mathlib.Text.{◌==◌ as str_eq, find?}
use ocap2_web.Base.{
  ℕ, Bool, true, false, not, ◌&&◌, ◌||◌, Option, none, some, List, [], ◌∷◌, any, if◌then◌else◌,
}
use ocap2_web.Base.Int.{ℤ, negsuc, eqb_ℤ}
use ocap2_web.Types.{Value, MarkerDef, Shape, icon}
use ocap2_web.Markers.Parse.{Parsed}

pub data Layer : Type 0 where
  briefing_markers system_markers projectile_markers : Layer

pub record TrackedMarker : Type 0 where
  pub def : MarkerDef
  pub popup_text : String
  pub layer : Layer
  pub handle : Option ℕ
  pub last_pos_index : ℤ
  pub last_interp_frame : ℤ
  pub active_type : Value
  pub active_color : Value
  pub active_brush : Value
  pub active_size : Value

pub record BriefingMarkerDef : Type 0 where
  pub shape : Shape
  pub type : Value
  pub color : Value
  pub text : Option String
  pub side : String
  pub size : Value
  pub brush : Value
  pub layer : Layer

pub data RendererCall : Type 0 where
  create : ℕ → BriefingMarkerDef → RendererCall
  update : ℕ → Parsed → RendererCall
  remove : ℕ → RendererCall

pub record Renderer : Type 0 where
  pub calls : List RendererCall
  pub next_handle : ℕ

pub record MarkerManager : Type 0 where
  pub markers : List TrackedMarker
  pub renderer : Renderer
  pub side_filter : Option String
  pub blacklisted : List ℤ

-- `String.prototype.includes`.
abbrev pub includes : String → String → Bool
includes s t = elim (find? s t) [ none ↦ false | some i ↦ true ]

abbrev pub one_of : List String → String → Bool
one_of names s = any (λ n. str_eq n s) names

abbrev pub system_marker_types : List String
system_marker_types = "ObjectMarker" ∷ "moduleCoverMap" ∷ "safeStart" ∷ []

abbrev pub projectile_types : List String
projectile_types = "Minefield" ∷ "mil_triangle" ∷ []

-- The player id -1 of a marker that no player placed.
abbrev pub no_player : ℤ
no_player = negsuc 0

abbrev pub is_icon : Shape → Bool
is_icon icon = true
is_icon _ = false

abbrev pub is_projectile_type : String → Bool
is_projectile_type type = includes type "magIcons" || one_of projectile_types type

unfoldable pub classify_marker_layer : MarkerDef → Layer
classify_marker_layer def =
    if not (is_icon def.shape)
    then briefing_markers
    else (if eqb_ℤ def.player no_player && one_of system_marker_types def.type
        then system_markers
        else (if is_projectile_type def.type && str_eq def.side "GLOBAL"
            then projectile_markers
            else briefing_markers))

abbrev pub text_or_empty : Option String → String
text_or_empty none = ""
text_or_empty (some s) = s

-- `filter(Boolean).join(" ")`.
unfoldable pub join_non_empty : List String → String
join_non_empty [] = ""
join_non_empty (s ∷ ss) =
    let rest = join_non_empty ss in
    if str_eq s ""
    then rest
    else (if str_eq rest "" then s else String.◌++◌ s (String.◌++◌ " " rest))

unfoldable pub build_marker_popup_text : MarkerDef → (ℤ → Option String) → String
unfolding join_non_empty
build_marker_popup_text def get_entity_name =
    let text = text_or_empty def.text in
    let player_name = text_or_empty (get_entity_name def.player) in
    if not (is_icon def.shape)
    then ""
    else (if eqb_ℤ def.player no_player
        then text
        else (if includes text "Terminal" || includes text "Sector"
            then text
            else (if str_eq def.side "GLOBAL"
                then (if one_of system_marker_types def.type
                    then ""
                    else (if is_projectile_type def.type
                        then join_non_empty (player_name ∷ text ∷ [])
                        else text))
                else join_non_empty (def.side ∷ player_name ∷ text ∷ []))))
