-- ===== src/Counter/Tests.antt =====
-- Concrete runs of the counter state of ui/src/playback/events/counterEvent.ts and of its construction.
use ocap2_web.Base.{◌≡◌, true, some, List, [], ◌∷◌, arith}
use ocap2_web.Types.{EventDef, whole, counter, general, counter_init, counter_set}
use ocap2_web.Search.{SortedBy}
use ocap2_web.Counter.{CounterState, counter_frame, get_counter_state_at_frame}
use ocap2_web.Counter.Latest.{latest_values, get_counter_state_at_frame-latest}

abbrev two_values : CounterState
two_values = record {
  active = true;
  type = counter_init;
  sides = 0 ∷ [];
  events =
      record { frame_num = 10; values = (0, whole 5) ∷ [] }
      ∷ record { frame_num = 20; values = (0, whole 4) ∷ [] }
      ∷ [];
}

two_values-SortedBy : SortedBy counter_frame two_values.events
two_values-SortedBy = ((omega arith, tt), (tt, tt))

get_counter_state_at_frame-latest_example :
    get_counter_state_at_frame two_values 15 ≡ some (latest_values two_values.events 15)
get_counter_state_at_frame-latest_example =
    get_counter_state_at_frame-latest two_values 15 two_values-SortedBy (omega arith)

abbrev mixed_defs : List EventDef
mixed_defs =
    record { frame_num = 20; body = counter counter_set (whole 3 ∷ whole 4 ∷ []) }
    ∷ record { frame_num = 5; body = general "start" }
    ∷ record { frame_num = 0; body = counter counter_init (whole 9 ∷ whole 9 ∷ []) }
    ∷ []
