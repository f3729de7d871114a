-- ===== src/Shell/Dispatches.antt =====
-- What a run of the engine's event driver keeps of the tabs.
use wasibrowser.Prelude.{
  ℕ, ◌≡◌, refl, Bool, true, none, some, List, All, get_elem?, Option-cases, Bool-cases, inl, inr,
}
use wasibrowser.Abi.Apply.{NodeMaps}
use wasibrowser.Abi.DomEvents.{DomEvent, Floats, map_dom_event}
use wasibrowser.Abi.Events.{EventOut}
use wasibrowser.Bytes.{Bytes}
use wasibrowser.Guest.{
  Wasm, GuestRuntime, dispatch, handle_guest_event, is_gesture, with_gesture, find_listener,
}
use wasibrowser.Guest.Gestures.{deliver_event-Within}
use wasibrowser.Shell.{Env, Moment, Browser, TabState, ChromeNodes}
use wasibrowser.Shell.Hits.{
  ActiveGuest, Hit, acts, swallows, passes, hit, to_guest, handle_event, bookmark_chrome_of,
  tab_chrome_of,
}
use wasibrowser.Shell.Hits.Active.{guest_of, put_back, route_event}
use wasibrowser.Shell.Driver.{Screen, Dispatch, finishes, handles, drive}
use wasibrowser.Shell.Frames.{IsCalm, Permitted-IsCalm, key, Keeps, Keeps-refl, Keeps-trans}
use wasibrowser.Shell.Polls.{tab_after-Keeps}

module _ (W : Wasm) {Q K : Type 0} where
  dispatch-IsCalm :
      (eo : EventOut) (flags target listener ts : ℕ) (rt : GuestRuntime W.Instance Q K)
      → All IsCalm (dispatch W eo flags target listener ts rt).2
  unfolding dispatch
  dispatch-IsCalm eo flags target listener ts rt = elim (Bool-cases (is_gesture eo.kind)) [
    | inl gesture ↦
        let up = with_gesture true rt in
        rw gesture
          (Permitted-IsCalm up.shared _ (deliver_event-Within W eo flags target listener ts up).1)
    | inr other ↦
        rw other
          (Permitted-IsCalm rt.shared _ (deliver_event-Within W eo flags target listener ts rt).1)
  ]

  handle_guest_event-IsCalm :
      (maps : NodeMaps) (chain : List ℕ) (event_target : ℕ) (cancelable : Bool) (eo : EventOut)
      (ts : ℕ) (rt : GuestRuntime W.Instance Q K)
      → All IsCalm (handle_guest_event W maps chain event_target cancelable eo ts rt).2
  unfolding handle_guest_event
  handle_guest_event-IsCalm maps chain event_target cancelable eo ts rt =
      elim (Option-cases (find_listener maps eo.kind chain)) [
        | inl e ↦ rw (e, handle_guest_event) tt
        | inr (listener, e) ↦ rw (e, handle_guest_event) (dispatch-IsCalm eo _ _ listener ts rt)
      ]

module _ (c : ChromeNodes) (bookmarks : List (Bytes × ℕ × ℕ)) (tabs : List (ℕ × ℕ × ℕ))
    (chain : List ℕ) (W : Wasm) (F : Floats) {Q K : Type 0} where
  to_guest-IsCalm :
      (event : DomEvent) (target : ℕ) (cancelable : Bool) (ts : ℕ) (guest : ActiveGuest W Q K)
      → All IsCalm (to_guest c bookmarks tabs chain W F event target cancelable ts guest).3
  unfolding to_guest
  to_guest-IsCalm event target cancelable ts none = tt
  to_guest-IsCalm event target cancelable ts (some (rt, maps)) =
      elim (Option-cases (map_dom_event F event)) [
        | inl ignored ↦ rw (to_guest, ignored) tt
        | inr (eo, told) ↦
            rw (to_guest, told) (handle_guest_event-IsCalm W maps chain target cancelable eo ts rt)
      ]

  handle_event-IsCalm :
      (event : DomEvent) (target : ℕ) (cancelable : Bool) (ts : ℕ) (guest : ActiveGuest W Q K)
      → All IsCalm (handle_event c bookmarks tabs chain W F event target cancelable ts guest).3
  unfolding handle_event
  handle_event-IsCalm event target cancelable ts guest = go (hit c bookmarks tabs chain event) refl
    where
      go :
          (taken : Hit)
          → hit c bookmarks tabs chain event ≡ taken
          → All IsCalm (handle_event c bookmarks tabs chain W F event target cancelable ts guest).3
      go (acts a) e = rw (handle_event, e) tt
      go swallows e = rw (handle_event, e) tt
      go passes e = rw (handle_event, e) (to_guest-IsCalm event target cancelable ts guest)

module _ (E : Env) (X : Screen E) (now : Moment E) where
  put_back-key :
      (tab : TabState E) (guest : ActiveGuest E.wasm E.document.QualName E.Key)
      → key E (put_back E X.floats tab guest) ≡ key E tab
  put_back-key tab none = refl
  put_back-key tab (some (rt, maps)) = refl

  route_event-Keeps :
      (event : DomEvent) (chain : List ℕ) (target : ℕ) (cancelable : Bool) (s : Browser E)
      → Keeps E s (route_event E X.floats event chain target cancelable now.clock s).2
  unfolding route_event
  route_event-Keeps event chain target cancelable s =
      elim (Option-cases (get_elem? s.tabs s.active_idx)) [
        | inl e ↦ rw (route_event, e) (Keeps-refl E s)
        | inr (tab, e) ↦
            rw (route_event, e)
              (tab_after-Keeps E s s.active_idx tab _ _ e (put_back-key tab _) (
                handle_event-IsCalm s.chrome (bookmark_chrome_of s.bookmarks)
                  (tab_chrome_of E s.tabs) chain E.wasm X.floats event target cancelable now.clock
                  (guest_of E X.floats tab)))
      ]

  pub drive-Keeps :
      (run : Dispatch E.document.Doc) (s : Browser E) → Keeps E s (drive E X now run s).1
  unfolding drive
  drive-Keeps (finishes doc) s = record { keys = refl; active = refl; next = refl; calm = λ h. h }
  drive-Keeps (handles event chain target cancelable next) s =
      let (actions, v, s') = route_event E X.floats event chain target cancelable now.clock s in
      Keeps-trans E s s' _ (route_event-Keeps event chain target cancelable s)
        (drive-Keeps (next v) s')
