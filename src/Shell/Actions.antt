-- ===== src/Shell/Actions.antt =====
-- `ChromeAction` and `process_chrome_actions` of renderer/src/ui.rs.
use wasibrowser.Prelude.{ℕ, true, false, List, [], ◌∷◌, not, if◌then◌else◌, codes}
use wasibrowser.Bytes.{Bytes}
use wasibrowser.Abi.Events.{theme_change}
use wasibrowser.Shell.{Env, Moment, Browser}
use wasibrowser.Shell.Chrome.{
  set_class, set_menu_open, set_bookmarks_panel_open, set_console_visible,
}
use wasibrowser.Shell.Console.{rebuild_log}
use wasibrowser.Shell.Guests.{notify_window_event}
use wasibrowser.Shell.Navigation.{nav_back, nav_forward, nav_reload, navigate_active}
use wasibrowser.Shell.Tabs.{new_tab, close_tab, switch_tab}
use wasibrowser.Shell.Bookmarks.{toggle_bookmark, open_bookmark, remove_bookmark}

pub data ChromeAction : Type 0 where
  toggle_console : ChromeAction
  clear_console : ChromeAction
  toggle_theme : ChromeAction
  toggle_tabs_side : ChromeAction
  divider_down : ChromeAction
  nav_back_action : ChromeAction
  nav_forward_action : ChromeAction
  nav_reload_action : ChromeAction
  address_input : (text : Bytes) → ChromeAction
  address_submit : ChromeAction
  new_tab_action : ChromeAction
  close_tab_action : (id : ℕ) → ChromeAction
  switch_tab_action : (id : ℕ) → ChromeAction
  toggle_menu : ChromeAction
  toggle_bookmark_action : ChromeAction
  toggle_bookmarks_panel : ChromeAction
  open_bookmark_action : (target : Bytes) → ChromeAction
  remove_bookmark_action : (target : Bytes) → ChromeAction

module _ (E : Env) (now : Moment E) where
  unfoldable pub toggle_theme_view : Browser E → Browser E
  toggle_theme_view s =
      let dark = not s.theme_dark in
      let label = if dark then codes "light mode" else codes "dark mode" in
      let s' = record s {
        theme_dark = dark;
        doc = E.document.set_inner_html s.chrome.tb_theme label s.doc;
        dirty = true;
      } in
      set_menu_open E false (notify_window_event E (theme_change dark) now.clock s')

  unfoldable pub toggle_tabs_view : Browser E → Browser E
  toggle_tabs_view s =
      let side = not s.tabs_side in
      let class = if side then codes "layout-side" else codes "layout-top" in
      let label = if side then codes "tabs: side" else codes "tabs: top" in
      set_menu_open E false (record s {
        tabs_side = side;
        doc =
            E.document.set_inner_html s.chrome.tb_tabpos label
              (set_class E s.chrome.shell class s.doc);
        dirty = true;
      })

  unfoldable pub clear_log : Browser E → Browser E
  clear_log s = rebuild_log E (record s { lines = []; partial_out = []; partial_err = [] })

  unfoldable pub process_chrome_action : ChromeAction → Browser E → Browser E
  unfolding toggle_theme_view toggle_tabs_view clear_log
  process_chrome_action toggle_console s =
      set_menu_open E false (set_console_visible E (not s.console_visible) s)
  process_chrome_action clear_console s = set_menu_open E false (clear_log s)
  process_chrome_action toggle_theme s = toggle_theme_view s
  process_chrome_action toggle_tabs_side s = toggle_tabs_view s
  process_chrome_action divider_down s = record s { console_drag = true }
  process_chrome_action nav_back_action s = nav_back E now s
  process_chrome_action nav_forward_action s = nav_forward E now s
  process_chrome_action nav_reload_action s = nav_reload E now s
  process_chrome_action (address_input text) s = record s { addr_draft = text }
  process_chrome_action address_submit s = (navigate_active E now s.addr_draft s).1
  process_chrome_action new_tab_action s = new_tab E s
  process_chrome_action (close_tab_action id) s = close_tab E id s
  process_chrome_action (switch_tab_action id) s = switch_tab E id s
  process_chrome_action toggle_menu s =
      set_bookmarks_panel_open E false (set_menu_open E (not s.menu_open) s)
  process_chrome_action toggle_bookmark_action s = toggle_bookmark E now s
  process_chrome_action toggle_bookmarks_panel s =
      set_menu_open E false (set_bookmarks_panel_open E (not s.bookmarks_panel_open) s)
  process_chrome_action (open_bookmark_action target) s = open_bookmark E now target s
  process_chrome_action (remove_bookmark_action target) s = remove_bookmark E now target s

  unfoldable pub process_chrome_actions : List ChromeAction → Browser E → Browser E
  unfolding process_chrome_action
  process_chrome_actions [] s = s
  process_chrome_actions (a ∷ actions) s =
      process_chrome_actions actions (process_chrome_action a s)
