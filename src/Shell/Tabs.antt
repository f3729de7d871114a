-- ===== src/Shell/Tabs.antt =====
-- Opening, activating and closing tabs in renderer/src/ui.rs, `deliver_nav_request`, and the calls
-- of the script driver.
use wasibrowser.Prelude.{
  ℕ, ◌%◌, ◌^◌, zero, suc, ◌+◌, ◌-◌, ◌==◌, true, none, some, List, [], ◌∷◌, ◌++◌, if◌then◌else◌, ltb,
  get_elem?, length, codes,
}
use wasibrowser.Bytes.{Bytes}
use wasibrowser.Abi.Shared.{NavRequest}
use wasibrowser.Shell.{Env, Moment, Browser, TabState, mount_maps, no_tab}
use wasibrowser.Shell.Chrome.{
  set_class, set_display, set_value, create_tab_chip, refresh_address_bar, is_empty,
}
use wasibrowser.Shell.Guests.{position}
use wasibrowser.Shell.Navigation.{navigate, navigate_active}

-- `tabs.remove(idx)`
unfoldable pub remove_at : {A : Type 0} → ℕ → List A → List A
remove_at n [] = []
remove_at zero (x ∷ xs) = xs
remove_at (suc n) (x ∷ xs) = x ∷ remove_at n xs

module _ (E : Env) where
  unfoldable pub open_new_tab : Browser E → ℕ × Browser E
  unfolding create_tab_chip
  open_new_tab s =
      let ((chip, label, close), s') =
        create_tab_chip E (codes "New Tab")
          (record s { next_tab_id = (s.next_tab_id + 1) % 2 ^ 32 }) in
      let (mount, d) = E.document.create_element (E.document.html_name (codes "div")) s'.doc in
      let d = set_class E mount (codes "mount") d in
      let d = set_display E mount (codes "none") d in
      let d = E.document.append_children s.chrome.app_root (mount ∷ []) d in
      let tab : TabState E = record {
        id = s.next_tab_id;
        guest = none;
        maps = mount_maps mount;
        mount_node = mount;
        chip_node = chip;
        label_node = label;
        close_node = close;
        title = codes "New Tab";
        target = [];
        history = [];
        history_idx = 0;
      } in
      (length s.tabs, record s' { doc = d; tabs = s'.tabs ++ (tab ∷ []) })

  -- The old tab's page is hidden, if there is one.
  unfoldable pub hide_tab : ℕ → Browser E → Browser E
  hide_tab idx s = elim (get_elem? s.tabs idx) [
    | none ↦ s
    | some old ↦ record s {
      doc =
          set_class E old.chip_node (codes "tab-chip")
            (set_display E old.mount_node (codes "none") s.doc);
    }
  ]

  unfoldable pub activate_tab : ℕ → Browser E → Browser E
  unfolding hide_tab
  activate_tab idx s = if idx == s.active_idx then s else (elim (get_elem? s.tabs idx) [
    | none ↦ s
    | some tab ↦
        let s' = hide_tab s.active_idx s in
        refresh_address_bar E (record s' {
          doc =
              set_class E tab.chip_node (codes "tab-chip active")
                (set_display E tab.mount_node (codes "flex") s'.doc);
          active_idx = idx;
          dirty = true;
        })
  ])

  unfoldable pub new_tab : Browser E → Browser E
  unfolding open_new_tab activate_tab
  new_tab s =
      let (idx, s1) = open_new_tab s in
      let s2 = activate_tab idx s1 in
      record s2 {
        addr_draft = [];
        doc = E.document.set_focus_to s2.chrome.ab_input (set_value E s2.chrome.ab_input [] s2.doc);
      }

  -- Behind the guard for the last tab. If the active tab was closed, the one before it becomes
  -- active, or the next one if there is none before.
  unfoldable pub drop_tab : ℕ → TabState E → Browser E → Browser E
  unfolding remove_at activate_tab
  drop_tab idx tab s =
      let s' = record s {
        doc =
            E.document.remove_and_drop_node tab.chip_node
              (E.document.remove_and_drop_node tab.mount_node s.doc);
        tabs = remove_at idx s.tabs;
      } in
      if s.active_idx == idx
      then activate_tab (idx - 1) (record s' { active_idx = no_tab })
      else if ltb idx s.active_idx
      then record s' { active_idx = s.active_idx - 1 }
      else s'

  unfoldable pub close_tab : ℕ → Browser E → Browser E
  unfolding drop_tab
  close_tab tab_id s = elim (position E s.tabs tab_id) [
    | none ↦ s
    | some idx ↦
        if length s.tabs == 1
        then record s { close_window_requested = true }
        else (elim (get_elem? s.tabs idx) [ none ↦ s | some tab ↦ drop_tab idx tab s ])
  ]

  unfoldable pub switch_tab : ℕ → Browser E → Browser E
  unfolding activate_tab
  switch_tab tab_id s = elim (position E s.tabs tab_id) [ none ↦ s | some idx ↦ activate_tab idx s ]

  unfoldable pub close_active_tab_script : Browser E → Browser E
  unfolding close_tab
  close_active_tab_script s = elim (get_elem? s.tabs s.active_idx) [
    | none ↦ s
    | some tab ↦ close_tab tab.id s
  ]

module _ (E : Env) (now : Moment E) where
  -- A guest's request that passed the gates of the import.
  unfoldable pub deliver_nav_request : NavRequest → Browser E → Browser E
  unfolding open_new_tab activate_tab
  deliver_nav_request r s = elim (position E s.tabs r.tab_id) [
    | none ↦ s
    | some idx ↦
        if r.new_tab
        then (let (new_idx, s') = open_new_tab E s in
            (navigate E now new_idx r.target true (activate_tab E new_idx s')).1)
        else (navigate E now idx r.target true s).1
  ]

  unfoldable pub new_tab_script : Bytes → Browser E → Browser E
  unfolding new_tab
  new_tab_script target s =
      let s' = new_tab E s in if is_empty target then s' else (navigate_active E now target s').1
