-- ===== src/Counter/Latest.antt =====
-- The counter's values at a frame are those of the latest counter event at or before it.
use mathlib.Core.Option
use ocap2_web.Base.{
  ℕ, zero, suc, ◌^◌, ◌≤◌, ◌≡◌, refl, sym, ◌∙◌, Option, some, List, [], ◌∷◌, length, get_elem?_total,
  keep, leb, ap,
}
use ocap2_web.Base.Int.{negsuc}
use ocap2_web.Base.Map.{Map}
use ocap2_web.Types.{Number}
use ocap2_web.Search.{SortedBy}
use ocap2_web.Search.Correct.{last_of, last?, pred_elem?, search-IsSplit, last?-keep}
use ocap2_web.Counter.{
  CounterEvent, CounterState, counter_frame, values_at, get_counter_state_at_frame, values_at_frame,
}

-- The values of the last event at or before the frame, by a scan of all events.
abbrev pub latest_values : List CounterEvent → ℕ → Option (Map Number)
latest_values events frame =
    Option.map (λ (e : CounterEvent). e.values)
      (last? (keep (λ e. leb (counter_frame e) frame) events))

values_at-pred_elem? :
    (events : List CounterEvent) (c : ℕ)
    → c ≤ length events
    → values_at events (last_of (negsuc 0) c)
      ≡ some (Option.map (λ (e : CounterEvent). e.values) (pred_elem? events c))
unfolding values_at
values_at-pred_elem? events zero h = refl
values_at-pred_elem? events (suc c) h = let (e, found) = get_elem?_total events c h in rw found

values_at_frame-latest :
    (events : List CounterEvent) (frame : ℕ)
    → SortedBy counter_frame events
    → length events ≤ 2 ^ 31
    → values_at_frame events frame ≡ some (latest_values events frame)
unfolding values_at_frame
values_at_frame-latest [] frame s h = refl
values_at_frame-latest (e ∷ es) frame s h =
    let (c, found, split) = search-IsSplit counter_frame (e ∷ es) frame s h (negsuc 0) in
    let latest = last?-keep counter_frame frame (e ∷ es) c split in
    rw (found, values_at_frame)
      (values_at-pred_elem? (e ∷ es) c split.within
        ∙ sym (ap (λ o. some (Option.map (λ (v : CounterEvent). v.values) o)) latest))

-- In a state with sorted events, at most 2 ^ 31 of them, the lookup does not throw, and it gives the
-- values of the last event at or before the frame: null exactly where there is no such event.
pub get_counter_state_at_frame-latest :
    (state : CounterState) (frame : ℕ)
    → SortedBy counter_frame state.events
    → length state.events ≤ 2 ^ 31
    → get_counter_state_at_frame state frame ≡ some (latest_values state.events frame)
unfolding get_counter_state_at_frame
get_counter_state_at_frame-latest state frame s h = values_at_frame-latest state.events frame s h
