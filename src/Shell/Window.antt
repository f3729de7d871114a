-- ===== src/Shell/Window.antt =====
-- `window_event` of `GwbApplication` in renderer/src/ui.rs: what it does before and after the inner
-- application handles the event. `y`, the scale and the window's height are the bits of an `f64`, and
-- the new size those of an `f32`.
use wasibrowser.Prelude.{ℕ, Bool, true, false, if◌then◌else◌}
use wasibrowser.Abi.Events.{EventOut, window_resize, theme_change}
use wasibrowser.Shell.{Env, Moment, Browser}
use wasibrowser.Shell.Guests.{notify_window_event}
use wasibrowser.Shell.Driver.{Screen}
use wasibrowser.Shell.Ticks.{poll}
use wasibrowser.Shell.Divider.{
  clamp_console_to_window, drag_console_to, end_console_drag, clamp_console_to_window-Keeps,
  drag_console_to-Keeps, end_console_drag-Keeps,
}
use wasibrowser.Shell.Frames.{Keeps, Keeps-refl, Keeps-trans, notify_window_event-Keeps}
use wasibrowser.Shell.Polls.{poll-Keeps}

pub data WindowEvent : Type 0 where
  pointer_moved : (y : ℕ) → WindowEvent
  button_released : WindowEvent
  surface_resized : (width height : ℕ) → WindowEvent
  theme_changed : (dark : Bool) → WindowEvent
  other_event : WindowEvent

-- The bits of `1.0` as an `f32`.
abbrev pub unit_scale : ℕ
unit_scale = 0x3f80_0000

module _ (E : Env) (X : Screen E) (now : Moment E) (instant scale win_h : ℕ) where
  abbrev polled : Browser E → Browser E
  polled s = (poll E X now instant s).1

  -- Whether the event is consumed, and the browser: a drag goes on until the button is released.
  unfoldable pub track_drag : WindowEvent → Browser E → Bool × Browser E
  unfolding drag_console_to end_console_drag
  track_drag (pointer_moved y) s =
      if s.console_drag
      then (true, polled (drag_console_to E X now scale win_h y s))
      else (false, s)
  track_drag button_released s = (false, if s.console_drag then end_console_drag E X s else s)
  track_drag _ s = (false, s)

  -- The active guest is told what it may listen to.
  unfoldable pub notify : WindowEvent → Browser E → Browser E
  unfolding clamp_console_to_window notify_window_event
  notify (surface_resized width height) s = polled (
      notify_window_event E (window_resize width height unit_scale) now.clock
        (clamp_console_to_window E X scale win_h s))
  notify (theme_changed dark) s = polled (notify_window_event E (theme_change dark) now.clock s)
  notify _ s = s

  consumed-Keeps :
      (drag : Bool) (s t : Browser E)
      → Keeps E s t
      → Keeps E s (if◌then◌else◌ {A = Bool × Browser E} drag (true, t) (false, s)).1
  consumed-Keeps true s t k = k
  consumed-Keeps false s t k = Keeps-refl E s

  passed-Keeps : (drag : Bool) (s t : Browser E) → Keeps E s t → Keeps E s (if drag then t else s)
  passed-Keeps true s t k = k
  passed-Keeps false s t k = Keeps-refl E s

  told-Keeps :
      (event : EventOut) (s : Browser E)
      → Keeps E s (polled (notify_window_event E event now.clock s))
  told-Keeps event s =
      let s' = notify_window_event E event now.clock s in
      Keeps-trans E s s' _ (notify_window_event-Keeps E event now.clock s)
        (poll-Keeps E now X instant s')

  pub track_drag-Keeps : (event : WindowEvent) (s : Browser E) → Keeps E s (track_drag event s).1
  unfolding track_drag
  track_drag-Keeps (pointer_moved y) s =
      let s' = drag_console_to E X now scale win_h y s in
      consumed-Keeps s.console_drag s (polled s') (
        Keeps-trans E s s' _ (drag_console_to-Keeps E X now scale win_h y s)
          (poll-Keeps E now X instant s'))
  track_drag-Keeps button_released s =
      passed-Keeps s.console_drag s (end_console_drag E X s) (end_console_drag-Keeps E X s)
  track_drag-Keeps (surface_resized width height) s = Keeps-refl E s
  track_drag-Keeps (theme_changed dark) s = Keeps-refl E s
  track_drag-Keeps other_event s = Keeps-refl E s

  pub notify-Keeps : (event : WindowEvent) (s : Browser E) → Keeps E s (notify event s)
  unfolding notify
  notify-Keeps (surface_resized width height) s =
      let s' = clamp_console_to_window E X scale win_h s in
      Keeps-trans E s s' _ (clamp_console_to_window-Keeps E X scale win_h s)
        (told-Keeps (window_resize width height unit_scale) s')
  notify-Keeps (theme_changed dark) s = told-Keeps (theme_change dark) s
  notify-Keeps (pointer_moved y) s = Keeps-refl E s
  notify-Keeps button_released s = Keeps-refl E s
  notify-Keeps other_event s = Keeps-refl E s
