-- ===== src/Events/Active.antt =====
-- The event log of ui/src/playback/eventManager.ts: `getActiveEvents`.
use ocap2_web.Base.{ℕ, ◌≡◌, ◌∙◌, List, [], ◌∷◌, ◌==◌, keep, leb, if◌then◌else◌, arith}
use ocap2_web.Search.{SortedBy}
use ocap2_web.Sort.{sort_by-SortedBy, keep-sort_by}
use ocap2_web.Events.{GameEvent, EventManager, event_frame, get_active_events}

keep-keep :
    (frame f : ℕ) (es : List GameEvent)
    → keep (λ e. event_frame e == f) (keep (λ e. leb e.frame_num frame) es)
      ≡ (if leb f frame then keep (λ e. e.frame_num == f) es else [])
keep-keep frame f [] = ground arith
keep-keep frame f (e ∷ es) = ground (arith, keep-keep frame f es)

-- The log at a frame is sorted by frame. It holds the events of every frame up to that frame, each as
-- often as it was added and in the order of addition within one frame, and no event of a later frame.
pub get_active_events-log :
    (m : EventManager) (frame : ℕ)
    → SortedBy event_frame (get_active_events frame m)
      × ((f : ℕ)
          → keep (λ e. event_frame e == f) (get_active_events frame m)
            ≡ (if leb f frame then keep (λ e. e.frame_num == f) m.events else []))
unfolding get_active_events
get_active_events-log m frame = (
  sort_by-SortedBy event_frame (keep (λ e. leb e.frame_num frame) m.events),
  λ f.
      keep-sort_by event_frame f (keep (λ e. leb e.frame_num frame) m.events)
      ∙ keep-keep frame f m.events,
)
