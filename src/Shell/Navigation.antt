-- ===== src/Shell/Navigation.antt =====
-- `navigate`, `nav_back`, `nav_forward` and `nav_reload` of renderer/src/ui.rs.
use wasibrowser.Prelude.{
  ℕ, ◌+◌, ◌-◌, ◌==◌, Bool, true, false, Option, none, some, [], ◌∷◌, ◌++◌, if◌then◌else◌, leb,
  get_elem?, length, take, codes,
}
use wasibrowser.Bytes.{Bytes, ok, err, panic}
use wasibrowser.Text.{trim}
use wasibrowser.Abi.Imports.{crash, host_line}
use wasibrowser.Abi.Events.{bit, page_load}
use wasibrowser.Guest.{Ran, Loaded, try_load, start, failed, not_gwb, loaded}
use wasibrowser.Manifest.{ResolvedApp, resolve}
use wasibrowser.Shell.{Env, Moment, Browser, TabState, Guest, put_tab, send, mount_maps}
use wasibrowser.Shell.Chrome.{is_empty, update_tab_label, refresh_address_bar}
use wasibrowser.Shell.Guests.{apply_guest_batches_for, notify_window_event}

module _ (E : Env) (now : Moment E) where
  -- An index out of bounds.
  abbrev pub panics : Browser E → Browser E
  panics s = send E s (crash ∷ [])

  -- `f(&mut self.tabs[idx])`
  abbrev pub change_tab : ℕ → (TabState E → TabState E) → Browser E → Browser E
  change_tab idx f s = elim (get_elem? s.tabs idx) [
    | none ↦ panics s
    | some tab ↦ put_tab E s idx (f tab)
  ]

  -- A guest that started is put into its tab; what it submitted is applied, and the active one is told
  -- that its page is there.
  unfoldable pub mount_guest : ℕ → Guest E → Browser E → Browser E
  unfolding apply_guest_batches_for notify_window_event
  mount_guest idx rt s =
      let (w, h, scale) = now.viewport in
      let (applied, s') =
        apply_guest_batches_for E idx (change_tab idx (λ t. record t { guest = some rt }) s) in
      let s'' = record s' { dirty = true } in
      if idx == s.active_idx then notify_window_event E (page_load w h scale) now.clock s'' else s''

  -- After `gwb_start`: whether a guest runs now.
  unfoldable pub started :
      ℕ → Ran E.wasm.Instance E.document.QualName E.Key → Browser E → Bool × Browser E
  unfolding mount_guest
  started idx (none, rt, out) s = (false, send E s out)
  started idx (some flags, rt, out) s = (true, mount_guest idx rt (send E s out))

  abbrev pub with_window : Option ℕ → Guest E → Guest E
  with_window none rt = rt
  with_window (some id) rt = record rt { shared = record rt.shared { window_id = some id } }

  unfoldable pub begun :
      ℕ → Loaded E.wasm.Instance E.document.QualName E.Key → Browser E → Bool × Browser E
  unfolding started
  begun idx failed s = (
    false,
    send E s
        (host_line (codes "[host] guest load FAILED: " ++ (now.load_error ++ codes "\n")) ∷ []),
  )
  begun idx not_gwb s = (false, s)
  begun idx (loaded rt) s =
      let (w, h, scale) = now.viewport in
      started idx (start E.wasm w h scale (bit s.theme_dark) (with_window s.window_id rt)) s

  unfoldable pub load_guest : ℕ → ℕ → ResolvedApp → Browser E → Bool × Browser E
  unfolding begun
  load_guest idx tab_id app s =
      let (result, out) =
        try_load E.wasm now.app_key now.app_key_b64 app.bundle_path tab_id app.services app.links in
      begun idx result (send E s out)

  -- `history.truncate(history_idx + 1); history.push(target); history_idx = history.len() - 1`
  unfoldable pub push_history : Bytes → TabState E → TabState E
  push_history target t =
      let history = take (t.history_idx + 1) t.history ++ (target ∷ []) in
      record t { history = history; history_idx = length history - 1 }

  -- The resolved app is loaded into its tab, whose title and target it gives.
  unfoldable pub show_app : ℕ → TabState E → ResolvedApp → Bytes → Browser E → Bool × Browser E
  unfolding load_guest
  show_app idx tab app target s =
      let cleared =
        put_tab E s idx (record tab { guest = none; maps = mount_maps tab.mount_node }) in
      let bare = record cleared {
        doc = E.document.remove_and_drop_all_children tab.mount_node cleared.doc;
      } in
      let (done, s') = load_guest idx tab.id app bare in
      (
        done,
        update_tab_label E
            (change_tab idx (λ t. record t { title = app.title; target = target }) s') idx,
      )

  -- `if push_history { .. }`
  unfoldable pub log_visit : ℕ → Bytes → Bool → Browser E → Browser E
  unfolding push_history
  log_visit idx target push s = if push then change_tab idx (push_history target) s else s

  -- The address bar shows the active tab.
  unfoldable pub show_address : ℕ → Browser E → Browser E
  show_address idx s = if idx == s.active_idx then refresh_address_bar E s else s

  unfoldable pub navigate : ℕ → Bytes → Bool → Browser E → Bool × Browser E
  unfolding show_app log_visit show_address
  navigate idx address push s =
      let target = trim address in
      if is_empty target
      then (false, s)
      else (elim (resolve E.json now.read now.endpoint target s.manifest_root) [
        | err e ↦ (false, s)
        | panic ↦ (false, panics s)
        | ok app ↦ elim (get_elem? s.tabs idx) [
          | none ↦ (false, panics s)
          | some tab ↦
              let (done, s') = show_app idx tab app target s in
              (done, show_address idx (log_visit idx target push s'))
        ]
      ])

  -- The entry `i` of the history of the active tab is loaded, and becomes the current one.
  unfoldable pub visit : ℕ → TabState E → Browser E → Browser E
  unfolding navigate
  visit i tab s =
      let s' = put_tab E s s.active_idx (record tab { history_idx = i }) in
      elim (get_elem? tab.history i) [
        | none ↦ panics s'
        | some target ↦ (navigate s.active_idx target false s').1
      ]

  unfoldable pub nav_back : Browser E → Browser E
  unfolding visit
  nav_back s = elim (get_elem? s.tabs s.active_idx) [
    | none ↦ s
    | some tab ↦ if tab.history_idx == 0 then s else visit (tab.history_idx - 1) tab s
  ]

  unfoldable pub nav_forward : Browser E → Browser E
  unfolding visit
  nav_forward s = elim (get_elem? s.tabs s.active_idx) [
    | none ↦ s
    | some tab ↦
        if leb (length tab.history) (tab.history_idx + 1)
        then s
        else visit (tab.history_idx + 1) tab s
  ]

  unfoldable pub nav_reload : Browser E → Browser E
  unfolding visit
  nav_reload s = elim (get_elem? s.tabs s.active_idx) [
    | none ↦ s
    | some tab ↦ if is_empty tab.history then s else visit tab.history_idx tab s
  ]

  unfoldable pub navigate_active : Bytes → Browser E → Bool × Browser E
  unfolding navigate
  navigate_active target s = navigate s.active_idx target true s
