-- ===== src/Shortcuts/Handlers.antt =====
-- `registerShortcuts`, `unregisterShortcuts` and the handler of
-- ui/src/pages/recording-playback/shortcuts.ts.
use mathlib.Core.Option
use ocap2_web.Base.{
  ℕ, ◌≡◌, refl, ap, ◌∙◌, sym, subst, some_inj, leb, Bool, not, Option, none, some, List, [], ◌∷◌,
  by_test, Option-cases, inl, inr, ==_refl,
}
use ocap2_web.Base.Int.{pos}
use ocap2_web.Events.{EventManager}
use ocap2_web.Engine.{Engine, play, pause, toggle_play_pause, ◌>>=◌}
use ocap2_web.Engine.Total.{HasManifest}
use ocap2_web.Shortcuts.Kills.{
  IsCached, IsSoughtTo, seek_to_prev_kill-IsPrevious, seek_to_next_kill-IsNext,
}
use ocap2_web.Shortcuts.Step.{
  step_forward-IsSteppedTo, step_back-IsSteppedTo, IsSteppedTo, seek_to-IsAt,
}
use ocap2_web.Shortcuts.{
  Handler, Panel, FocusCallbacks, KeyEvent, Key, set_in, set_out, cancel, play_pause, toggle_panel,
  back, forward, prev_kill, next_kill, other, press, handle_key, is_form_tag, key_of, stride,
  call_focus, when_editing, remove_listener, unregister_shortcuts, register_shortcuts,
  set_focus_shortcut_callbacks, step_back, step_forward, sort_frames, with_panel, seek_to_prev_kill,
  seek_to_next_kill, kill_frames_of, invalidate_kill_frames,
}

-- The calls that reach the module from the page, besides the keys.
pub data PanelCall : Type 0 where
  register : ℕ → PanelCall
  unregister invalidate : PanelCall
  set_callbacks : FocusCallbacks → PanelCall
  set_editing : Bool → PanelCall

abbrev pub perform_call : PanelCall → Panel → Panel
perform_call (register id) p = register_shortcuts id p
perform_call unregister p = unregister_shortcuts p
perform_call invalidate p = invalidate_kill_frames p
perform_call (set_callbacks cbs) p = set_focus_shortcut_callbacks cbs p
perform_call (set_editing b) p = record p { editing_focus = b }

abbrev pub run_calls : List PanelCall → Panel → Panel
run_calls [] p = p
run_calls (c ∷ cs) p = run_calls cs (perform_call c p)

abbrev pub handler_list : Option Handler → List Handler
handler_list none = []
handler_list (some h) = h ∷ []

-- The document calls the module's handler and no other.
abbrev pub IsSingle : Panel → Type 0
IsSingle p = p.listeners ≡ handler_list p.handler

remove_only : (h : Handler) → remove_listener h.id (h ∷ []) ≡ []
unfolding remove_listener
remove_only h = rw (==_refl h.id) refl

unregister_shortcuts-IsSingle :
    (p : Panel)
    → IsSingle p
    → ((unregister_shortcuts p).listeners ≡ []) × ((unregister_shortcuts p).handler ≡ none)
unfolding unregister_shortcuts
unregister_shortcuts-IsSingle p s = elim (Option-cases p.handler) [
  | inl n ↦ rw (n, unregister_shortcuts) (rw n at s, n)
  | inr (h, y) ↦
      rw (y, unregister_shortcuts) (ap (remove_listener h.id) (rw y at s) ∙ remove_only h, refl)
]

perform_call-IsSingle : (c : PanelCall) (p : Panel) → IsSingle p → IsSingle (perform_call c p)
unfolding register_shortcuts
perform_call-IsSingle (register id) p s =
    rw ((unregister_shortcuts-IsSingle p s).0, register_shortcuts) refl
perform_call-IsSingle unregister p s =
    let gone = unregister_shortcuts-IsSingle p s in gone.0 ∙ sym (ap handler_list gone.1)
perform_call-IsSingle invalidate p s = s
perform_call-IsSingle (set_callbacks cbs) p s = s
perform_call-IsSingle (set_editing b) p s = s

-- If the document calls the module's handler and no other, then it still does so behind every sequence of
-- calls of the page, however often the shortcuts are registered again or taken away twice.
pub run_calls-IsSingle : (cs : List PanelCall) (p : Panel) → IsSingle p → IsSingle (run_calls cs p)
run_calls-IsSingle [] p s = s
run_calls-IsSingle (c ∷ cs) p s =
    run_calls-IsSingle cs (perform_call c p) (perform_call-IsSingle c p s)

-- What a key leaves behind: the call returned, the cached kills are up to date for the engine, and its
-- chunk manager, where there is one, has its manifest.
abbrev pub IsHandled : ℕ → Option (Panel × Engine) → Type 0
IsHandled id r =
    (p' : Panel) × (e' : Engine) × (r ≡ some (p', e'))
    × IsCached id e' p'
    × HasManifest e'.chunk_manager

sought-IsHandled :
    (id : ℕ) (target : Option ℕ) (e : Engine) (r : Option (Panel × Engine))
    → HasManifest e.chunk_manager
    → IsSoughtTo id target e r
    → IsHandled id r
sought-IsHandled id none e r h (p', e', runs, sought, cached) =
    (p', e', runs, cached, subst (λ (x : Engine). HasManifest x.chunk_manager) (some_inj sought) h)
sought-IsHandled id (some frame) e r h (p', e', runs, sought, cached) =
    let (x, found, at) = seek_to-IsAt (pos frame) e h in
    (
      p',
      e',
      runs,
      cached,
      subst (λ (y : Engine). HasManifest y.chunk_manager) (some_inj (sym found ∙ sought))
          at.chunk_manager,
    )

module _ (id : ℕ) (e : Engine) (p : Panel) (h : HasManifest e.chunk_manager)
    (cached : IsCached id e p) where
  when_editing-IsHandled : (cb : Option ℕ) → IsHandled id (some (when_editing cb p, e))
  when_editing-IsHandled none =
      by_test (λ q. IsHandled id (some (q, e))) p.editing_focus p p (λ t. (p, e, refl, cached, h))
        (λ t. (p, e, refl, cached, h))
  when_editing-IsHandled (some cb) =
      by_test (λ q. IsHandled id (some (q, e))) p.editing_focus (call_focus (some cb) p) p
        (λ t. (call_focus (some cb) p, e, refl, cached, h)) (λ t. (p, e, refl, cached, h))

  kept-IsCached : (e' : Engine) → e'.event_manager ≡ e.event_manager → IsCached id e' p
  kept-IsCached e' same = λ frames q s.
      cached frames q s
      ∙ sym (ap (λ (m : EventManager). sort_frames (kill_frames_of m.events)) same)

  stepped-IsHandled :
      (frame : ℕ) (r : Option Engine) (e' : Engine)
      → r ≡ some e'
      → IsSteppedTo frame e e'
      → IsHandled id (Option.map (with_panel p) r)
  stepped-IsHandled frame r e' runs at = (
    p,
    e',
    ap (Option.map (with_panel p)) runs,
    kept-IsCached e' at.event_manager,
    at.chunk_manager,
  )

  toggled-IsHandled : (now : ℕ) → IsHandled id (some (p, toggle_play_pause now e))
  unfolding toggle_play_pause play pause
  toggled-IsHandled now =
      let kept : IsHandled id (some (p, e)) = (p, e, refl, cached, h) in
      by_test (λ x. IsHandled id (some (p, x))) e.is_playing (pause e) (play now e)
        (λ t.
          by_test (λ x. IsHandled id (some (p, x))) e.is_playing _ _ (λ u. (p, _, refl, cached, h))
            (λ u. kept))
        (λ t.
          by_test (λ x. IsHandled id (some (p, x))) e.is_playing _ _ (λ u. kept)
            (λ u.
              by_test (λ x. IsHandled id (some (p, x))) (leb e.end_frame e.current_frame) _ _
                (λ w. kept) (λ w. (p, _, refl, cached, h))))

  press-IsHandled : (k : Key) (n now : ℕ) → IsHandled id (press k n id now e p)
  unfolding press
  press-IsHandled set_in n now = when_editing-IsHandled p.focus_callbacks.on_set_in
  press-IsHandled set_out n now = when_editing-IsHandled p.focus_callbacks.on_set_out
  press-IsHandled cancel n now = when_editing-IsHandled p.focus_callbacks.on_cancel
  press-IsHandled play_pause n now = toggled-IsHandled now
  press-IsHandled toggle_panel n now =
      (record p { left_panel_visible = not p.left_panel_visible }, e, refl, cached, h)
  press-IsHandled back n now =
      let (e', runs, at) = step_back-IsSteppedTo n e h in
      stepped-IsHandled _ (step_back n e) e' runs at
  press-IsHandled forward n now =
      let (e', runs, at) = step_forward-IsSteppedTo n e h in
      stepped-IsHandled _ (step_forward n e) e' runs at
  press-IsHandled prev_kill n now =
      let (target, which, sought) = seek_to_prev_kill-IsPrevious id e p h cached in
      sought-IsHandled id target e (seek_to_prev_kill id e p) h sought
  press-IsHandled next_kill n now =
      let (target, which, sought) = seek_to_next_kill-IsNext id e p h cached in
      sought-IsHandled id target e (seek_to_next_kill id e p) h sought
  press-IsHandled other n now = (p, e, refl, cached, h)

  handle_key-IsHandled : (ev : KeyEvent) (now : ℕ) → IsHandled id (handle_key ev id now e p)
  unfolding handle_key
  handle_key-IsHandled ev now =
      by_test (IsHandled id) (is_form_tag ev.tag) (some (p, e))
        (press (key_of ev.key) (stride ev) id now e p) (λ t. (p, e, refl, cached, h))
        (λ t. press-IsHandled (key_of ev.key) (stride ev) now)

-- The keys that reach the handler, each with its time.
abbrev pub run_keys : ℕ → List (KeyEvent × ℕ) → Panel × Engine → Option (Panel × Engine)
run_keys id [] s = some s
run_keys id ((ev, now) ∷ evs) s = handle_key ev id now s.1 s.0 >>= run_keys id evs

-- Every sequence of keys runs without a throw, if the chunk manager, where there is one, has its manifest
-- and the cached list of kills is up to date where it is there; both hold behind it again.
pub run_keys-IsHandled :
    (id : ℕ) (evs : List (KeyEvent × ℕ)) (p : Panel) (e : Engine)
    → HasManifest e.chunk_manager
    → IsCached id e p
    → IsHandled id (run_keys id evs (p, e))
run_keys-IsHandled id [] p e h cached = (p, e, refl, cached, h)
run_keys-IsHandled id ((ev, now) ∷ evs) p e h cached =
    let (p', e', runs, cached', h') = handle_key-IsHandled id e p h cached ev now in
    rw runs (run_keys-IsHandled id evs p' e' h' cached')
