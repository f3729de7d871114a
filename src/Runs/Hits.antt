-- ===== src/Runs/Hits.antt =====
-- Events on a page and on the host's own chrome.
use wasibrowser.Prelude.{ℕ, ◌≡◌, ◌⊎◌, refl, true, some, List, [], ◌∷◌, codes}
use wasibrowser.Bytes.{Bytes}
use wasibrowser.Map.{contains}
use wasibrowser.Map.Keys.{nat_key}
use wasibrowser.Abi.DomEvents
use wasibrowser.Abi.DomEvents.{Floats, PointerEvent}
use wasibrowser.Abi.Apply.{NodeMaps}
use wasibrowser.Guest.{untouched}
use wasibrowser.Shell.{ChromeNodes}
use wasibrowser.Shell.Actions.{ChromeAction}
use wasibrowser.Shell.Hits.{handle_event, to_guest}
use wasibrowser.Shell.Hits.Origin.{From, handle_event-From, handle_event-to_guest}
use wasibrowser.Shell.{Browser}
use wasibrowser.Guest.{Verdict}
use wasibrowser.Shell.Hits.{bookmark_chrome_of, tab_chrome_of}
use wasibrowser.Shell.Hits.Active.{route_event, route_event-From}
use wasibrowser.Runs.Shells.{world, browser}
use wasibrowser.Prelude.{◌≢◌, get_elem?}
use wasibrowser.Runs.Engine.{mounted}
use wasibrowser.Runs.Guests.{asker, resting}

abbrev chrome : ChromeNodes
chrome = record {
  shell = 20;
  btn_newtab = 21;
  app_root = 22;
  console = 23;
  divider = 24;
  tb_console = 25;
  tb_clear = 26;
  tb_theme = 27;
  tb_tabpos = 28;
  ab_back = 29;
  ab_fwd = 30;
  ab_reload = 31;
  ab_input = 32;
  ab_go = 33;
  ab_bookmark = 34;
  tb_menu = 35;
  toolbar_menu = 36;
  tb_bookmarks = 37;
  bookmarks_panel = 38;
  bookmarks_empty = 39;
}

abbrev marks : List (Bytes × ℕ × ℕ)
marks = (codes "shop.wasm", 40, 41) ∷ []

abbrev chips : List (ℕ × ℕ × ℕ)
chips = (0, 42, 43) ∷ []

abbrev pub floats : Floats
floats = record { as_f32 = λ x. 0; times_40 = λ x. 0 }

abbrev click : DomEvents.DomEvent
click = DomEvents.click (record { page_x = 1; page_y = 2; buttons = 1; mods = 0 })

abbrev page : NodeMaps
page = record mounted { listeners = (1, 4) ∷ [] }

-- The close button of a tab, in its chip.
abbrev on_close : List ℕ
on_close = 43 ∷ 42 ∷ 20 ∷ []

handle_event-From_example :
    let routed =
      handle_event chrome marks chips on_close asker floats click 43 true 0
        (some (resting, page)) in
    (routed.0 ≡ [])
    ⊎ ((a : ChromeAction) × (n : ℕ) × (routed ≡ (a ∷ [], untouched, some (resting, page), []))
        × From chrome marks chips a n
        × (contains on_close n ≡ true))
handle_event-From_example =
    handle_event-From on_close chrome marks chips asker floats click 43 true 0
      (some (resting, page))

handle_event-to_guest_example :
    handle_event chrome marks chips (5 ∷ 3 ∷ []) asker floats click 5 true 0 (some (resting, page))
    ≡ to_guest chrome marks chips (5 ∷ 3 ∷ []) asker floats click 5 true 0 (some (resting, page))
unfolding contains
handle_event-to_guest_example =
    handle_event-to_guest (5 ∷ 3 ∷ []) chrome marks chips asker floats click 5 true 0
      (some (resting, page))
      (
        (refl, (refl, (refl, (refl, (refl, (refl, (refl, tt))))))),
        (refl, (refl, (refl, (refl, (refl, tt))))),
        ((refl, refl), tt),
        ((refl, refl), tt),
        refl,
        refl,
      )

abbrev shown : Browser world
shown = record browser { chrome = chrome }

-- A click on the button that shows and hides the console.
abbrev on_console : List ℕ
on_console = 25 ∷ 20 ∷ []

abbrev after_click : List ChromeAction × Verdict × Browser world
after_click = route_event world floats click on_console 25 true 0 shown

route_event-From_example :
    ((j : ℕ) → j ≢ 1 → get_elem? after_click.2.tabs j ≡ get_elem? shown.tabs j)
    × ((after_click.0 ≡ [])
        ⊎ ((a : ChromeAction) × (n : ℕ) × (after_click.0 ≡ a ∷ [])
            × (after_click.2 ≡ shown)
            × From chrome (bookmark_chrome_of shown.bookmarks) (tab_chrome_of world shown.tabs) a n
            × (contains on_console n ≡ true)))
route_event-From_example = route_event-From world floats click on_console 25 true 0 shown
