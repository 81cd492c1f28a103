-- ===== src/Counter.antt =====
-- ui/src/playback/events/counterEvent.ts, and `buildCounterState` of ui/src/playback/engine.ts.
-- The keys `String(i)` of a counter's values and sides stand as the number `i`.
pub mod Latest
mod Tests
use mathlib.Core.Option
use ocap2_web.Base.{
  ℕ, suc, ◌+◌, Bool, true, false, Option, none, some, List, [], ◌∷◌, ◌++◌, length, get_elem?,
  contains, if◌then◌else◌,
}
use ocap2_web.Base.Int.{ℤ, pos, negsuc, sub_ℕ}
use ocap2_web.Base.Map
use ocap2_web.Base.Map.{Map}
use ocap2_web.Types.{Number, EventDef, EventBody, CounterKind, counter}
use ocap2_web.Search.{search}
use ocap2_web.Sort.{sort_by}

pub record CounterEvent : Type 0 where
  pub frame_num : ℕ
  pub values : Map Number

pub record CounterState : Type 0 where
  pub active : Bool
  pub type : CounterKind
  pub sides : List ℕ
  pub events : List CounterEvent

abbrev pub counter_frame : CounterEvent → ℕ
counter_frame e = e.frame_num

-- `events[idx].values`, at the index that the search found; -1 means no event.
unfoldable pub values_at : List CounterEvent → ℤ → Option (Option (Map Number))
values_at events (negsuc _) = some none
values_at events (pos i) = Option.map (λ e. some e.values) (get_elem? events i)

-- The result is `none` where the code would throw.
unfoldable pub values_at_frame : List CounterEvent → ℕ → Option (Option (Map Number))
values_at_frame [] frame = some none
values_at_frame (e ∷ es) frame =
    elim (search counter_frame (e ∷ es) frame (suc (length (e ∷ es))) 0 (sub_ℕ (length (e ∷ es)) 1)
      (negsuc 0)) [ none ↦ none | some idx ↦ values_at (e ∷ es) idx ]

unfoldable pub get_counter_state_at_frame : CounterState → ℕ → Option (Option (Map Number))
unfolding values_at_frame
get_counter_state_at_frame state frame = values_at_frame state.events frame

-- The loop over one event's data, from index `i`: the values, and the sides seen so far.
unfoldable pub index_values : ℕ → List Number → Map Number → Map Number
index_values i [] values = values
index_values i (v ∷ data_) values = index_values (i + 1) data_ (Map.put i v values)

-- `Set.prototype.add`.
abbrev pub add_to_set : ℕ → List ℕ → List ℕ
add_to_set i sides = if contains i sides then sides else sides ++ i ∷ []

unfoldable pub index_sides : ℕ → List Number → List ℕ → List ℕ
index_sides i [] sides = sides
index_sides i (v ∷ data_) sides = index_sides (i + 1) data_ (add_to_set i sides)

pub record CounterDef : Type 0 where
  pub frame_num : ℕ
  pub kind : CounterKind
  pub values : List Number

-- The filter for counter events.
unfoldable pub counter_defs : List EventDef → List CounterDef
counter_defs [] = []
counter_defs (d ∷ ds) = elim d.body [
  | counter kind values ↦
      record { frame_num = d.frame_num; kind = kind; values = values } ∷ counter_defs ds
  | _ ↦ counter_defs ds
]

unfoldable pub counter_events : List CounterDef → List CounterEvent
counter_events [] = []
counter_events (d ∷ ds) =
    record { frame_num = d.frame_num; values = index_values 0 d.values [] } ∷ counter_events ds

unfoldable pub counter_sides : List CounterDef → List ℕ → List ℕ
counter_sides [] sides = sides
counter_sides (d ∷ ds) sides = counter_sides ds (index_sides 0 d.values sides)

unfoldable pub build_counter_state : List EventDef → Option CounterState
build_counter_state defs = elim (counter_defs defs) [
  | [] ↦ none
  | d ∷ ds ↦ some (record {
    active = true;
    type = d.kind;
    sides = counter_sides (d ∷ ds) [];
    events = sort_by counter_frame (counter_events (d ∷ ds));
  })
]
