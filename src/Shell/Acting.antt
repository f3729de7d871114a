-- ===== src/Shell/Acting.antt =====
-- What the actions of the user on the chrome do to the tab strip.
use wasibrowser.Prelude.{
  ℕ, ◌+◌, ◌^◌, ◌<◌, refl, Bool, true, false, List, [], ◌∷◌, get_elem?, not, if◌then◌else◌,
  Option-cases, Bool-cases, inl, inr, arith, length-map,
}
use wasibrowser.Bytes.{Bytes}
use wasibrowser.Abi.Events.{EventOut, theme_change}
use wasibrowser.Shell.{Env, Moment, Browser}
use wasibrowser.Shell.Chrome.{
  is_empty, refresh_bookmark_star, set_menu_open, set_bookmarks_panel_open, set_console_visible,
}
use wasibrowser.Shell.Guests.{notify_window_event}
use wasibrowser.Shell.Navigation.{navigate_active}
use wasibrowser.Shell.Bookmarks.{
  take_bookmark, bookmarks_changed, add_bookmark, create_bookmark_row, drop_bookmark,
  refresh_bookmarks_empty_state, save_bookmarks, toggle_bookmark, remove_bookmark, open_bookmark,
}
use wasibrowser.Shell.Console.{rebuild_log}
use wasibrowser.Shell.Actions.{
  clear_log, ChromeAction, toggle_console, clear_console, toggle_theme, toggle_tabs_side,
  divider_down, nav_back_action, nav_forward_action, nav_reload_action, address_input,
  address_submit, new_tab_action, close_tab_action, switch_tab_action, toggle_menu,
  toggle_bookmark_action, toggle_bookmarks_panel, open_bookmark_action, remove_bookmark_action,
  toggle_theme_view, toggle_tabs_view, process_chrome_action, process_chrome_actions,
}
use wasibrowser.Shell.Frames.{key, Keeps, Keeps-refl, Keeps-trans, notify_window_event-Keeps}
use wasibrowser.Shell.Strip.{IsWellFormed, Steps-IsWellFormed}
use wasibrowser.Shell.Steps.{strip, Goes, Goes-trans, Goes-Keeps, navigate-Goes}
use wasibrowser.Shell.Moves.{nav_back-Goes, nav_forward-Goes, nav_reload-Goes}
use wasibrowser.Shell.Openings.{new_tab-Goes, switch_tab-Goes, close_tab-Goes}

module _ (E : Env) where
  set_menu_open-Keeps : (o : Bool) (s : Browser E) → Keeps E s (set_menu_open E o s)
  unfolding set_menu_open
  set_menu_open-Keeps o s = elim (Bool-cases (if s.menu_open then o else not o)) [
    | inl same ↦ rw (same, set_menu_open) (Keeps-refl E s)
    | inr other ↦
        rw (other, set_menu_open)
          (record { keys = refl; active = refl; next = refl; calm = λ h. h })
  ]

  set_bookmarks_panel_open-Keeps :
      (o : Bool) (s : Browser E) → Keeps E s (set_bookmarks_panel_open E o s)
  unfolding set_bookmarks_panel_open
  set_bookmarks_panel_open-Keeps o s =
      elim (Bool-cases (if s.bookmarks_panel_open then o else not o)) [
        | inl same ↦ rw (same, set_bookmarks_panel_open) (Keeps-refl E s)
        | inr other ↦
            rw (other, set_bookmarks_panel_open)
              (record { keys = refl; active = refl; next = refl; calm = λ h. h })
      ]

  menu_after : (o : Bool) (s s' : Browser E) → Keeps E s s' → Keeps E s (set_menu_open E o s')
  menu_after o s s' k = Keeps-trans E s s' _ k (set_menu_open-Keeps o s')

  notify_after :
      (eo : EventOut) (ts : ℕ) (s s' : Browser E)
      → Keeps E s s'
      → Keeps E s (notify_window_event E eo ts s')
  notify_after eo ts s s' k = Keeps-trans E s s' _ k (notify_window_event-Keeps E eo ts s')

module _ (E : Env) (now : Moment E) where
  bookmarks_changed-Keeps :
      (s s' : Browser E) → Keeps E s s' → Keeps E s (bookmarks_changed E now s')
  unfolding bookmarks_changed refresh_bookmark_star refresh_bookmarks_empty_state save_bookmarks
  bookmarks_changed-Keeps s s' k = record {
    keys = k.keys;
    active = k.active;
    next = k.next;
    calm = k.calm;
  }

  toggle_bookmark-Keeps : (s : Browser E) → Keeps E s (toggle_bookmark E now s)
  unfolding toggle_bookmark add_bookmark create_bookmark_row
  toggle_bookmark-Keeps s = elim (Option-cases (get_elem? s.tabs s.active_idx)) [
    | inl e ↦ rw (e, toggle_bookmark) (Keeps-refl E s)
    | inr (tab, e) ↦ elim (Bool-cases (is_empty tab.target)) [
      | inl blank ↦ rw (e, toggle_bookmark, blank) (Keeps-refl E s)
      | inr shown ↦ elim (Option-cases (take_bookmark s.bookmarks tab.target)) [
        | inl e' ↦
            rw (e, toggle_bookmark, shown, e')
              (bookmarks_changed-Keeps s (add_bookmark E tab.title tab.target s)
                (record { keys = refl; active = refl; next = refl; calm = λ h. h }))
        | inr (b, e') ↦
            rw (e, toggle_bookmark, shown, e')
              (bookmarks_changed-Keeps s (drop_bookmark E b.0 b.1 s)
                (record { keys = refl; active = refl; next = refl; calm = λ h. h }))
      ]
    ]
  ]

  remove_bookmark-Keeps :
      (target : Bytes) (s : Browser E) → Keeps E s (remove_bookmark E now target s)
  unfolding remove_bookmark
  remove_bookmark-Keeps target s = elim (Option-cases (take_bookmark s.bookmarks target)) [
    | inl e ↦ rw (e, remove_bookmark) (Keeps-refl E s)
    | inr (b, e) ↦
        rw (e, remove_bookmark)
          (bookmarks_changed-Keeps s (drop_bookmark E b.0 b.1 s)
            (record { keys = refl; active = refl; next = refl; calm = λ h. h }))
  ]

  pub navigate_active-Goes :
      (target : Bytes) (s : Browser E)
      → IsWellFormed (strip E s)
      → Goes E s (navigate_active E now target s).1
  unfolding navigate_active
  navigate_active-Goes target s w =
      navigate-Goes E now s.active_idx target true s
        (omega (arith, w.active, length-map (key E) s.tabs))

  pub process_chrome_action-Goes :
      (a : ChromeAction) (s : Browser E)
      → IsWellFormed (strip E s)
      → s.next_tab_id + 1 < 2 ^ 32
      → Goes E s (process_chrome_action E now a s)
  unfolding process_chrome_action clear_log rebuild_log toggle_theme_view toggle_tabs_view
      open_bookmark set_console_visible
  process_chrome_action-Goes toggle_console s w room =
      Goes-Keeps E s _
        (menu_after E false s _ (record { keys = refl; active = refl; next = refl; calm = λ h. h }))
  process_chrome_action-Goes clear_console s w room =
      Goes-Keeps E s _
        (menu_after E false s _ (record { keys = refl; active = refl; next = refl; calm = λ h. h }))
  process_chrome_action-Goes toggle_theme s w room = Goes-Keeps E s _ (
      menu_after E false s _ (
        notify_after E (theme_change (not s.theme_dark)) now.clock s _
          (record { keys = refl; active = refl; next = refl; calm = λ h. h })))
  process_chrome_action-Goes toggle_tabs_side s w room =
      Goes-Keeps E s _
        (menu_after E false s _ (record { keys = refl; active = refl; next = refl; calm = λ h. h }))
  process_chrome_action-Goes divider_down s w room =
      Goes-Keeps E s _ (record { keys = refl; active = refl; next = refl; calm = λ h. h })
  process_chrome_action-Goes nav_back_action s w room = nav_back-Goes E now s w
  process_chrome_action-Goes nav_forward_action s w room = nav_forward-Goes E now s
  process_chrome_action-Goes nav_reload_action s w room = nav_reload-Goes E now s w
  process_chrome_action-Goes (address_input text) s w room =
      Goes-Keeps E s _ (record { keys = refl; active = refl; next = refl; calm = λ h. h })
  process_chrome_action-Goes address_submit s w room = navigate_active-Goes s.addr_draft s w
  process_chrome_action-Goes new_tab_action s w room = new_tab-Goes E s room
  process_chrome_action-Goes (close_tab_action id) s w room = close_tab-Goes E id s w
  process_chrome_action-Goes (switch_tab_action id) s w room = switch_tab-Goes E id s
  process_chrome_action-Goes toggle_menu s w room =
      let s' = set_menu_open E (not s.menu_open) s in
      Goes-Keeps E s _ (
        Keeps-trans E s s' _ (set_menu_open-Keeps E (not s.menu_open) s)
          (set_bookmarks_panel_open-Keeps E false s'))
  process_chrome_action-Goes toggle_bookmark_action s w room =
      Goes-Keeps E s _ (toggle_bookmark-Keeps s)
  process_chrome_action-Goes toggle_bookmarks_panel s w room =
      Goes-Keeps E s _
        (menu_after E false s _ (set_bookmarks_panel_open-Keeps E (not s.bookmarks_panel_open) s))
  process_chrome_action-Goes (open_bookmark_action target) s w room =
      let s' = (navigate_active E now target s).1 in
      Goes-trans E s s' _ (navigate_active-Goes target s w)
        (Goes-Keeps E s' _ (set_bookmarks_panel_open-Keeps E false s'))
  process_chrome_action-Goes (remove_bookmark_action target) s w room =
      Goes-Keeps E s _ (remove_bookmark-Keeps target s)

  -- There are ids for the tabs that the actions may open.
  abbrev pub ActionsHaveRoom : List ChromeAction → Browser E → Type 0
  ActionsHaveRoom [] s = Unit
  ActionsHaveRoom (a ∷ actions) s =
      (s.next_tab_id + 1 < 2 ^ 32) × ActionsHaveRoom actions (process_chrome_action E now a s)

  pub process_chrome_actions-Goes :
      (actions : List ChromeAction) (s : Browser E)
      → IsWellFormed (strip E s)
      → ActionsHaveRoom actions s
      → Goes E s (process_chrome_actions E now actions s)
  unfolding process_chrome_actions
  process_chrome_actions-Goes [] s w room = Goes-Keeps E s s (Keeps-refl E s)
  process_chrome_actions-Goes (a ∷ actions) s w (room, rooms) =
      let g = process_chrome_action-Goes a s w room in
      let s' = process_chrome_action E now a s in
      Goes-trans E s s' _ g (
        process_chrome_actions-Goes actions s'
          (Steps-IsWellFormed (strip E s) (strip E s') g.steps w) rooms)
