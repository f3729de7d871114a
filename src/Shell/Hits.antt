-- ===== src/Shell/Hits.antt =====
-- `ShellEventHandler` of renderer/src/ui.rs: the host's chrome first, then the guest of the active tab.
pub mod Origin
pub mod Active
use wasibrowser.Prelude.{
  ℕ, Bool, true, false, Option, none, some, List, [], ◌∷◌, ◌++◌, map, if◌then◌else◌, get_elem?,
}
use wasibrowser.Bytes.{Bytes}
use wasibrowser.Map.{contains}
use wasibrowser.Map.Keys.{nat_key}
use wasibrowser.Abi.Apply.{NodeMaps}
use wasibrowser.Abi.DomEvents
use wasibrowser.Abi.DomEvents.{DomEvent, Floats, map_dom_event}
use wasibrowser.Abi.Imports.{Effect}
use wasibrowser.Guest.{Wasm, GuestRuntime, Verdict, untouched, handle_guest_event}
use wasibrowser.Shell.{Env, Moment, Browser, TabState, Guest, ChromeNodes, Bookmark, put_tab, send}
use wasibrowser.Shell.Actions
use wasibrowser.Shell.Actions.{ChromeAction}

-- The buttons that are tested before the bookmarks, and those between the bookmarks and the tabs.
abbrev pub toolbar : ChromeNodes → List (ℕ × ChromeAction)
toolbar c =
    (c.tb_console, Actions.toggle_console)
    ∷ (c.tb_clear, Actions.clear_console)
    ∷ (c.tb_theme, Actions.toggle_theme)
    ∷ (c.tb_tabpos, Actions.toggle_tabs_side)
    ∷ (c.tb_menu, Actions.toggle_menu)
    ∷ (c.ab_bookmark, Actions.toggle_bookmark_action)
    ∷ (c.tb_bookmarks, Actions.toggle_bookmarks_panel)
    ∷ []

abbrev pub address_bar : ChromeNodes → List (ℕ × ChromeAction)
address_bar c =
    (c.btn_newtab, Actions.new_tab_action)
    ∷ (c.ab_go, Actions.address_submit)
    ∷ (c.ab_back, Actions.nav_back_action)
    ∷ (c.ab_fwd, Actions.nav_forward_action)
    ∷ (c.ab_reload, Actions.nav_reload_action)
    ∷ []

-- `if chain.contains(&node) { push(action); return; }` for each button in order.
unfoldable pub hit_button : List (ℕ × ChromeAction) → List ℕ → Option ChromeAction
hit_button [] chain = none
hit_button ((node, action) ∷ buttons) chain =
    let rest = hit_button buttons chain in if contains chain node then some action else rest

-- (target, row_node, remove_node) for every bookmark
unfoldable pub hit_bookmark : List (Bytes × ℕ × ℕ) → List ℕ → Option ChromeAction
hit_bookmark [] chain = none
hit_bookmark ((target, row, remove) ∷ bookmarks) chain =
    let rest = hit_bookmark bookmarks chain in
    if contains chain remove
    then some (Actions.remove_bookmark_action target)
    else if contains chain row
    then some (Actions.open_bookmark_action target)
    else rest

-- (tab_id, chip_node, close_node) for every tab
unfoldable pub hit_tab : List (ℕ × ℕ × ℕ) → List ℕ → Option ChromeAction
hit_tab [] chain = none
hit_tab ((tab_id, chip, close) ∷ tabs) chain =
    let rest = hit_tab tabs chain in
    if contains chain close
    then some (Actions.close_tab_action tab_id)
    else if contains chain chip
    then some (Actions.switch_tab_action tab_id)
    else rest

abbrev pub or_else : Option ChromeAction → Option ChromeAction → Option ChromeAction
or_else (some action) later = some action
or_else none later = later

-- What the chrome makes of an event: an action, a return without one, or nothing.
pub data Hit : Type 0 where
  acts : (action : ChromeAction) → Hit
  swallows : Hit
  passes : Hit

abbrev pub of_option : Option ChromeAction → Hit
of_option none = passes
of_option (some action) = acts action

-- The guest of the active tab.
abbrev pub ActiveGuest : Wasm → Type 0 → Type 0 → Type 0
ActiveGuest W Q K = Option (GuestRuntime W.Instance Q K × NodeMaps)

-- The actions that are pushed, what the engine is told, the guest, and its effects.
abbrev pub Routed : Wasm → Type 0 → Type 0 → Type 0
Routed W Q K = List ChromeAction × Verdict × ActiveGuest W Q K × List Effect

module _ (c : ChromeNodes) (bookmark_chrome : List (Bytes × ℕ × ℕ)) (tab_chrome : List (ℕ × ℕ × ℕ))
    (chain : List ℕ) where
  unfoldable pub hit_click : Option ChromeAction
  unfolding hit_button hit_bookmark hit_tab
  hit_click = or_else (hit_button (toolbar c) chain) (
      or_else (hit_bookmark bookmark_chrome chain)
        (or_else (hit_button (address_bar c) chain) (hit_tab tab_chrome chain)))

  -- `match &event.data { .. }`
  unfoldable pub hit : DomEvent → Hit
  unfolding hit_click
  hit (DomEvents.click p) = of_option hit_click
  hit (DomEvents.pointer_down p) =
      if contains chain c.divider then acts Actions.divider_down else passes
  hit (DomEvents.input value) =
      if contains chain c.ab_input then acts (Actions.address_input value) else passes
  hit (DomEvents.key_down k) =
      if contains chain c.ab_input
      then (if k.is_enter then acts Actions.address_submit else swallows)
      else passes
  hit _ = passes

  module _ (W : Wasm) (F : Floats) {Q K : Type 0} where
    -- The part behind the chrome.
    unfoldable pub to_guest : DomEvent → ℕ → Bool → ℕ → ActiveGuest W Q K → Routed W Q K
    unfolding map_dom_event handle_guest_event
    to_guest event target cancelable ts none = ([], untouched, none, [])
    to_guest event target cancelable ts (some (rt, maps)) = elim (map_dom_event F event) [
      | none ↦ ([], untouched, some (rt, maps), [])
      | some eo ↦
          let (v, rt', out) = handle_guest_event W maps chain target cancelable eo ts rt in
          ([], v, some (rt', maps), out)
    ]

    unfoldable pub handle_event : DomEvent → ℕ → Bool → ℕ → ActiveGuest W Q K → Routed W Q K
    unfolding hit to_guest
    handle_event event target cancelable ts guest = elim (hit event) [
      | acts action ↦ (action ∷ [], untouched, guest, [])
      | swallows ↦ ([], untouched, guest, [])
      | passes ↦ to_guest event target cancelable ts guest
    ]

-- The lists that `dispatch_with_shell_handler` makes.
abbrev pub bookmark_chrome_of : List Bookmark → List (Bytes × ℕ × ℕ)
bookmark_chrome_of bookmarks = map (λ b. (b.target, b.row_node, b.remove_node)) bookmarks

module _ (E : Env) where
  abbrev pub tab_chrome_of : List (TabState E) → List (ℕ × ℕ × ℕ)
  tab_chrome_of tabs = map (λ t. (t.id, t.chip_node, t.close_node)) tabs
