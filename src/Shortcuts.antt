-- ===== src/Shortcuts.antt =====
-- ui/src/pages/recording-playback/shortcuts.ts: the keyboard shortcuts of the playback page.
--
-- The signals and the variables of the module are the fields of `Panel`. An engine object and a callback
-- are known by a number; `called` are the calls of the callbacks, newest first. A registered handler is
-- an object with its engine, and `listeners` are the handlers that the document calls at a key.
pub mod Bound
pub mod Kills
pub mod Step
pub mod Handlers
mod Tests
use Prim.Native.String.{String}
use mathlib.Core.Option
use text.Mathlib.Text.{◌==◌ as str_eq}
use ocap2_web.Base.{
  ℕ, zero, suc, ◌+◌, ◌-◌, ◌/◌, Bool, true, false, not, Option, none, some, List, [], ◌∷◌, ◌++◌,
  ◌==◌, leb, ltb, length, get_elem?, if◌then◌else◌,
}
use ocap2_web.Base.Int.{ℤ, pos, negsuc, sub_ℕ}
use ocap2_web.Types.{Side, west}
use ocap2_web.Events.{GameEvent, kill_of}
use ocap2_web.Sort.{sort_by}
use ocap2_web.Engine.{Engine, pause, seek_to, toggle_play_pause}

pub record FocusCallbacks : Type 0 where
  pub on_set_in : Option ℕ
  pub on_set_out : Option ℕ
  pub on_cancel : Option ℕ

abbrev pub no_callbacks : FocusCallbacks
no_callbacks = record { on_set_in = none; on_set_out = none; on_cancel = none }

pub record Handler : Type 0 where
  pub id : ℕ
  pub engine : ℕ

pub record Panel : Type 0 where
  pub left_panel_visible : Bool
  pub active_panel_tab : String
  pub active_side : Side
  pub editing_focus : Bool
  pub focus_callbacks : FocusCallbacks
  pub handler : Option Handler
  pub kill_frames : Option (List ℕ)
  pub kill_frames_engine : Option ℕ
  pub called : List ℕ
  pub listeners : List Handler
  pub next_handler : ℕ

abbrev pub new_panel : Panel
new_panel = record {
  left_panel_visible = true;
  active_panel_tab = "units";
  active_side = west;
  editing_focus = false;
  focus_callbacks = no_callbacks;
  handler = none;
  kill_frames = none;
  kill_frames_engine = none;
  called = [];
  listeners = [];
  next_handler = 0;
}

abbrev pub set_focus_shortcut_callbacks : FocusCallbacks → Panel → Panel
set_focus_shortcut_callbacks cbs p = record p { focus_callbacks = cbs }

-- The frames of the kills, in the order of the events.
unfoldable pub kill_frames_of : List GameEvent → List ℕ
kill_frames_of [] = []
kill_frames_of (e ∷ es) = elim (kill_of e) [
  | none ↦ kill_frames_of es
  | some h ↦ e.frame_num ∷ kill_frames_of es
]

-- `sort((a, b) => a - b)`.
abbrev pub sort_frames : List ℕ → List ℕ
sort_frames = sort_by (λ f. f)

-- `killFramesEngine !== engine`, negated.
abbrev pub same_engine : Option ℕ → ℕ → Bool
same_engine none id = false
same_engine (some j) id = j == id

abbrev pub build_kill_frames : ℕ → Engine → Panel → List ℕ × Panel
build_kill_frames id e p =
    let frames = sort_frames (kill_frames_of e.event_manager.events) in
    (frames, record p { kill_frames = some frames; kill_frames_engine = some id })

unfoldable pub get_kill_frames : ℕ → Engine → Panel → List ℕ × Panel
get_kill_frames id e p = elim p.kill_frames [
  | none ↦ build_kill_frames id e p
  | some frames ↦
      if same_engine p.kill_frames_engine id then (frames, p) else build_kill_frames id e p
]

abbrev pub invalidate_kill_frames : Panel → Panel
invalidate_kill_frames p = record p { kill_frames = none }

-- `low + Math.floor((high - low) / 2)`.
abbrev pub midpoint : ℕ → ℕ → ℕ
midpoint low high = low + (high - low) / 2

-- The loop of `findFirst`, on fuel; `none` is a read outside of the array, or the end of the fuel.
unfoldable pub find_first_from : ℕ → List ℕ → (ℕ → Bool) → ℕ → ℕ → Option ℕ
find_first_from zero arr predicate low high = none
find_first_from (suc fuel) arr predicate low high = elim (ltb low high) [
  | false ↦ some low
  | true ↦ elim (get_elem? arr (midpoint low high)) [
    | none ↦ none
    | some el ↦ elim (predicate el) [
      | true ↦ find_first_from fuel arr predicate low (midpoint low high)
      | false ↦ find_first_from fuel arr predicate (midpoint low high + 1) high
    ]
  ]
]

unfoldable pub find_first : List ℕ → (ℕ → Bool) → Option ℕ
unfolding find_first_from
find_first arr predicate = find_first_from (suc (length arr)) arr predicate 0 (length arr)

-- The read of an index that is -1 where there is none.
abbrev pub before_index : List ℕ → ℕ → Option ℕ
before_index frames zero = none
before_index frames (suc i) = get_elem? frames i

-- The engine goes to the frame, if there is one.
abbrev pub seek_to_frame : Option ℕ → Engine → Option Engine
seek_to_frame none e = some e
seek_to_frame (some frame) e = seek_to (pos frame) e

abbrev pub with_panel : Panel → Engine → Panel × Engine
with_panel p e = (p, e)

-- `seekToPrevKill` and `seekToNextKill`, with the frames and the panel that `getKillFrames` gave.
unfoldable pub prev_from : Engine → List ℕ → Panel → Option (Panel × Engine)
prev_from e frames p = elim (find_first frames (λ f. leb e.current_frame f)) [
  | none ↦ none
  | some index ↦ Option.map (with_panel p) (seek_to_frame (before_index frames index) e)
]

unfoldable pub next_from : Engine → List ℕ → Panel → Option (Panel × Engine)
next_from e frames p = elim (find_first frames (λ f. ltb e.current_frame f)) [
  | none ↦ none
  | some index ↦ Option.map (with_panel p) (seek_to_frame (get_elem? frames index) e)
]

unfoldable pub seek_to_prev_kill : ℕ → Engine → Panel → Option (Panel × Engine)
seek_to_prev_kill id e p = prev_from e (get_kill_frames id e p).0 (get_kill_frames id e p).1

unfoldable pub seek_to_next_kill : ℕ → Engine → Panel → Option (Panel × Engine)
seek_to_next_kill id e p = next_from e (get_kill_frames id e p).0 (get_kill_frames id e p).1

unfoldable pub step_back : ℕ → Engine → Option Engine
unfolding pause
step_back n e = seek_to (sub_ℕ (pause e).current_frame n) (pause e)

unfoldable pub step_forward : ℕ → Engine → Option Engine
unfolding pause
step_forward n e = seek_to (pos ((pause e).current_frame + n)) (pause e)

-- What the handler reads of a KeyboardEvent: the tag name of the target in lower case, if it has one.
pub record KeyEvent : Type 0 where
  pub tag : Option String
  pub key : String
  pub shift_key : Bool

unfoldable pub is_form_tag : Option String → Bool
is_form_tag none = false
is_form_tag (some t) =
    if str_eq t "input" then true else (if str_eq t "textarea" then true else str_eq t "select")

-- `callback?.()`, while the focus is edited.
abbrev pub call_focus : Option ℕ → Panel → Panel
call_focus none p = p
call_focus (some cb) p = record p { called = cb ∷ p.called }

abbrev pub when_editing : Option ℕ → Panel → Panel
when_editing cb p = if p.editing_focus then call_focus cb p else p

abbrev pub stride : KeyEvent → ℕ
stride ev = if ev.shift_key then 10 else 1

-- The keys of the switch.
pub data Key : Type 0 where
  set_in set_out cancel play_pause toggle_panel back forward prev_kill next_kill other : Key

unfoldable pub key_of : String → Key
key_of k =
    if str_eq k "i"
    then set_in
    else (if str_eq k "o"
        then set_out
        else (if str_eq k "Escape"
            then cancel
            else (if str_eq k " "
                then play_pause
                else (if str_eq k "e"
                    then toggle_panel
                    else (if str_eq k "ArrowLeft"
                        then back
                        else (if str_eq k "ArrowRight"
                            then forward
                            else (if str_eq k ","
                                then prev_kill
                                else (if str_eq k "." then next_kill else other))))))))

unfoldable pub press : Key → ℕ → ℕ → ℕ → Engine → Panel → Option (Panel × Engine)
unfolding seek_to_prev_kill seek_to_next_kill step_back step_forward
press set_in n id now e p = some (when_editing p.focus_callbacks.on_set_in p, e)
press set_out n id now e p = some (when_editing p.focus_callbacks.on_set_out p, e)
press cancel n id now e p = some (when_editing p.focus_callbacks.on_cancel p, e)
press play_pause n id now e p = some (p, toggle_play_pause now e)
press toggle_panel n id now e p =
    some (record p { left_panel_visible = not p.left_panel_visible }, e)
press back n id now e p = Option.map (with_panel p) (step_back n e)
press forward n id now e p = Option.map (with_panel p) (step_forward n e)
press prev_kill n id now e p = seek_to_prev_kill id e p
press next_kill n id now e p = seek_to_next_kill id e p
press other n id now e p = some (p, e)

-- The handler, at the time `now`, for the engine with the number `id`; `none` where a call throws.
unfoldable pub handle_key : KeyEvent → ℕ → ℕ → Engine → Panel → Option (Panel × Engine)
unfolding press
handle_key ev id now e p =
    if is_form_tag ev.tag then some (p, e) else press (key_of ev.key) (stride ev) id now e p

-- `removeEventListener`.
unfoldable pub remove_listener : ℕ → List Handler → List Handler
remove_listener id [] = []
remove_listener id (h ∷ hs) = if h.id == id then hs else h ∷ remove_listener id hs

unfoldable pub unregister_shortcuts : Panel → Panel
unregister_shortcuts p = elim p.handler [
  | none ↦ p
  | some h ↦ record p { handler = none; listeners = remove_listener h.id p.listeners }
]

abbrev pub add_handler : Handler → Panel → Panel
add_handler h p = record p {
  handler = some h;
  listeners = p.listeners ++ h ∷ [];
  next_handler = suc p.next_handler;
}

unfoldable pub register_shortcuts : ℕ → Panel → Panel
unfolding unregister_shortcuts
register_shortcuts id p =
    let q = invalidate_kill_frames (unregister_shortcuts p) in
    add_handler (record { id = q.next_handler; engine = id }) q
