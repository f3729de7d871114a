-- ===== src/Shell/Pages.antt =====
-- A navigation changes no more than the history of its tab, and never panics.
use wasibrowser.Prelude.{
  ℕ, ◌<◌, ◌≡◌, refl, true, none, some, map-set_same, get_elem?, get_elem?-some, get_elem?-in_range,
  Option-cases, Bool-cases, inl, inr, arith, ◌==◌, length,
}
use wasibrowser.Bytes.{Bytes}
use wasibrowser.Map.Keys.{bytes_key}
use wasibrowser.Abi.Events.{bit}
use wasibrowser.Guest.{Loaded, Ran, try_load, start, failed, not_gwb, loaded}
use wasibrowser.Guest.Gestures.{Within, try_load-Within, start-Within}
use wasibrowser.Manifest.{ResolvedApp}
use wasibrowser.Shell.{Env, Moment, Browser, TabState, Guest, put_tab, send, mount_maps}
use wasibrowser.Shell.Chrome.{refresh_bookmark_star, update_tab_label, refresh_address_bar}
use wasibrowser.Shell.Guests.{apply_guest_batches_for}
use wasibrowser.Shell.Navigation.{change_tab, started, begun, with_window, mount_guest, load_guest}
use wasibrowser.Guest.{new_shared}
use wasibrowser.Shell.Navigation.{show_app}
use wasibrowser.Shell.Frames.{
  Permitted-IsCalm, key, Keeps, Keeps-refl, Keeps-trans, Keeps-length, put_tab-Keeps, send-Keeps,
  apply_guest_batches_for-Keeps, notify_window_event-Keeps,
}

module _ (E : Env) where
  change_tab-Keeps :
      (now : Moment E) (idx : ℕ) (f : TabState E → TabState E) (s : Browser E)
      → idx < length s.tabs
      → ((t : TabState E) → key E (f t) ≡ key E t)
      → Keeps E s (change_tab E now idx f s)
  change_tab-Keeps now idx f s h same =
      let (tab, e) = get_elem?-some s.tabs idx h in
      rw (e, change_tab) (put_tab-Keeps E s idx tab (f tab) e (same tab))

  pub update_tab_label-Keeps : (s : Browser E) (idx : ℕ) → Keeps E s (update_tab_label E s idx)
  unfolding update_tab_label
  update_tab_label-Keeps s idx = elim (Option-cases (get_elem? s.tabs idx)) [
    | inl e ↦ rw (e, update_tab_label) (Keeps-refl E s)
    | inr (tab, e) ↦
        rw (e, update_tab_label) (record { keys = refl; active = refl; next = refl; calm = λ h. h })
  ]

  pub refresh_address_bar-Keeps : (s : Browser E) → Keeps E s (refresh_address_bar E s)
  unfolding refresh_address_bar
  refresh_address_bar-Keeps s =
      unfold refresh_bookmark_star in
      record { keys = refl; active = refl; next = refl; calm = λ h. h }

  mount_guest-Keeps :
      (now : Moment E) (idx : ℕ) (rt : Guest E) (s : Browser E)
      → idx < length s.tabs
      → Keeps E s (mount_guest E now idx rt s)
  unfolding mount_guest
  mount_guest-Keeps now idx rt s h =
      let s1 = change_tab E now idx (λ t. record t { guest = some rt }) s in
      let s2 = (apply_guest_batches_for E idx s1).1 in
      let k1 = change_tab-Keeps now idx (λ t. record t { guest = some rt }) s h (λ t. refl) in
      let k2 = Keeps-trans E s s1 s2 k1 (apply_guest_batches_for-Keeps E idx s1) in
      let s3 = record s2 { dirty = true } in
      let k3 : Keeps E s s3 = record {
        keys = k2.keys;
        active = k2.active;
        next = k2.next;
        calm = k2.calm;
      } in
      elim (Bool-cases (idx == s.active_idx)) [
        | inl here ↦
            rw (here, mount_guest)
              (Keeps-trans E s s3 _ k3 (notify_window_event-Keeps E _ now.clock s3))
        | inr elsewhere ↦ rw (elsewhere, mount_guest) k3
      ]

  started-Keeps :
      (now : Moment E) (idx : ℕ) (rt : Guest E) (r : Ran E.wasm.Instance E.document.QualName E.Key)
      (s : Browser E)
      → idx < length s.tabs
      → Within rt.shared r
      → Keeps E s (started E now idx r s).1
  unfolding started
  started-Keeps now idx rt (none, rt', out) s h (rights, sent) =
      send-Keeps E s out (Permitted-IsCalm rt.shared out sent)
  started-Keeps now idx rt (some flags, rt', out) s h (rights, sent) =
      let s' = send E s out in
      Keeps-trans E s s' _ (send-Keeps E s out (Permitted-IsCalm rt.shared out sent))
        (mount_guest-Keeps now idx rt' s' h)

  begun-Keeps :
      (now : Moment E) (idx : ℕ) (r : Loaded E.wasm.Instance E.document.QualName E.Key)
      (s : Browser E)
      → idx < length s.tabs
      → Keeps E s (begun E now idx r s).1
  unfolding begun
  begun-Keeps now idx failed s h = send-Keeps E s _ (tt, tt)
  begun-Keeps now idx not_gwb s h = Keeps-refl E s
  begun-Keeps now idx (loaded rt) s h =
      let (w, height, scale) = now.viewport in
      let rt' = with_window E now s.window_id rt in
      started-Keeps now idx rt' (start E.wasm w height scale (bit s.theme_dark) rt') s h
        (start-Within E.wasm w height scale (bit s.theme_dark) rt')

  load_guest-Keeps :
      (now : Moment E) (idx tab_id : ℕ) (app : ResolvedApp) (s : Browser E)
      → idx < length s.tabs
      → Keeps E s (load_guest E now idx tab_id app s).1
  unfolding load_guest
  load_guest-Keeps now idx tab_id app s h =
      let r =
        try_load E.wasm {Q = E.document.QualName} now.app_key now.app_key_b64 app.bundle_path tab_id
          app.services app.links in
      let within =
        try_load-Within E.wasm E.document.QualName E.Key now.app_key now.app_key_b64 app.bundle_path
          tab_id app.services app.links in
      let s' = send E s r.1 in
      Keeps-trans E s s' _
        (send-Keeps E s r.1 (
          Permitted-IsCalm
            (new_shared E.wasm {Q = E.document.QualName} now.app_key now.app_key_b64 tab_id
              app.services app.links)
            r.1 within.1))
        (begun-Keeps now idx r.0 s' h)

  pub show_app-Keeps :
      (now : Moment E) (idx : ℕ) (tab : TabState E) (app : ResolvedApp) (target : Bytes)
      (s : Browser E)
      → get_elem? s.tabs idx ≡ some tab
      → Keeps E s (show_app E now idx tab app target s).1
  unfolding show_app
  show_app-Keeps now idx tab app target s at =
      let bare =
        record (put_tab E s idx (record tab { guest = none; maps = mount_maps tab.mount_node })) {
          doc = E.document.remove_and_drop_all_children tab.mount_node s.doc;
        } in
      let k0 : Keeps E s bare = record {
        keys = map-set_same (key E) s.tabs idx tab _ at refl;
        active = refl;
        next = refl;
        calm = λ h. h;
      } in
      let in_range = get_elem?-in_range s.tabs idx tab at in
      let s1 = (load_guest E now idx tab.id app bare).1 in
      let k1 = Keeps-trans E s bare s1 k0 (
        load_guest-Keeps now idx tab.id app bare
          (omega (arith, Keeps-length E s bare k0, in_range))) in
      let s2 = change_tab E now idx (λ t. record t { title = app.title; target = target }) s1 in
      let k2 = Keeps-trans E s s1 s2 k1 (
        change_tab-Keeps now idx _ s1 (omega (arith, Keeps-length E s s1 k1, in_range))
          (λ t. refl)) in
      Keeps-trans E s s2 _ k2 (update_tab_label-Keeps s2 idx)
