-- ===== src/Guest/Gestures.antt =====
-- When a guest can navigate.
use wasibrowser.Prelude.{
  some, none, ◌/◌, ◌^◌, ◌&&◌, ◌==◌, ℕ, ◌+◌, ◌≡◌, refl, sym, Bool, true, false, List, All,
  All-append, Bool-cases, Option-cases, inl, inr, ltb, length,
}
use wasibrowser.Abi.Shared.{Shared}
use wasibrowser.Abi.Imports.{host_call}
use wasibrowser.Abi.Imports.Gates.{
  Permitted, SameRights, same, SameRights-trans, all-SameRights, host_call-Allows,
}
use wasibrowser.Abi.Apply.{NodeMaps}
use wasibrowser.Abi.Events.{EventOut, padded, text_of, event_record}
use wasibrowser.Map.{Map, Set}
use wasibrowser.Bytes.{Bytes}
use wasibrowser.Abi.Shared.{ServiceEntry}
use wasibrowser.Guest.{
  Loading, unreadable, foreign, begins, Loaded, failed, not_gwb, loaded, checked, load_module,
  try_load, start, new_shared, Run, returns, traps, asks, Wasm, GuestRuntime, Ran, exec,
  deliver_event, deliver_frame, is_gesture, with_gesture, find_listener, dispatch,
  handle_guest_event,
}

module _ {Q K : Type 0} where
  -- The rights of `g` bound what a run did, and are still the guest's.
  abbrev pub Within : {I : Type 0} → Shared Q K → Ran I Q K → Type 0
  Within g (answer, rt, out) = SameRights g rt.shared × All (Permitted g) out

  -- Whatever a guest does in a call, the host does not panic, each effect is one that its rights
  -- before the call permit, and afterwards its gesture flag, links, services and tab are what they
  -- were: no import widens what later ones may do.
  pub exec-Within : {I : Type 0} (run : Run I) (g : Shared Q K) → Within g (exec run g)
  unfolding exec
  exec-Within (returns value inst) g = (same g, tt)
  exec-Within (traps inst) g = (same g, tt)
  exec-Within (asks mem call next) g =
      let first = host_call-Allows mem call g in
      let (rights, later) = exec-Within (next (host_call mem call g).0) (host_call mem call g).1 in
      (
        SameRights-trans g _ _ first.0 rights,
        All-append (Permitted g) _ _ first.1 (all-SameRights g _ _ first.0 later),
      )

module _ (W : Wasm) {Q K : Type 0} where
  pub deliver_event-Within :
      (eo : EventOut) (flags target listener ts : ℕ) (rt : GuestRuntime W.Instance Q K)
      → Within rt.shared (deliver_event W eo flags target listener ts rt)
  unfolding deliver_event
  deliver_event-Within eo flags target listener ts rt =
      elim (Bool-cases (ltb rt.shared.event_region.1 (40 + padded (length (text_of eo))))) [
        | inl small ↦ rw (small, deliver_event) (same rt.shared, tt)
        | inr big ↦
            elim (Option-cases (
              W.write rt.shared.event_region.0 (event_record eo flags target listener ts)
                rt.inst)) [
                  | inl e ↦ rw (big, e) (same rt.shared, tt)
                  | inr (inst, e) ↦ rw (big, e) (exec-Within (W.events 1 inst) rt.shared)
                ]
      ]

  pub deliver_frame-Within :
      (dt_ms : ℕ) (rt : GuestRuntime W.Instance Q K) → Within rt.shared (deliver_frame W dt_ms rt)
  unfolding deliver_frame
  deliver_frame-Within dt_ms rt = elim (Bool-cases (W.has_frame rt.inst)) [
    | inl has ↦ rw has (exec-Within (W.frame dt_ms rt.inst) rt.shared)
    | inr lacks ↦ rw lacks (same rt.shared, tt)
  ]

  dispatch-Within :
      (eo : EventOut) (flags target listener ts : ℕ) (rt : GuestRuntime W.Instance Q K)
      → rt.shared.gesture_active ≡ false
      → SameRights rt.shared (dispatch W eo flags target listener ts rt).1.shared
        × All
            (Permitted (with_gesture (is_gesture eo.kind) rt).shared)
            (dispatch W eo flags target listener ts rt).2
  unfolding dispatch
  dispatch-Within eo flags target listener ts rt down = elim (Bool-cases (is_gesture eo.kind)) [
    | inl gesture ↦
        let (rights, sent) =
          deliver_event-Within eo flags target listener ts (with_gesture true rt) in
        rw gesture (
          record {
            gesture = sym down;
            links = rights.links;
            tab = rights.tab;
            services = rights.services;
          },
          sent,
        )
    | inr other ↦
        let (rights, sent) = deliver_event-Within eo flags target listener ts rt in
        rw other (
          rights,
          all-SameRights (with_gesture false rt).shared rt.shared _
              (record { gesture = down; links = refl; tab = refl; services = refl }) sent,
        )
  ]

  -- Between events the gesture flag of a guest is down. While it answers an event, what it sends is
  -- within its rights with the flag up if the event is a click or a key press, and down otherwise,
  -- so that it cannot navigate in answer to any other event; and afterwards the flag is down again.
  pub handle_guest_event-Within :
      (maps : NodeMaps) (chain : List ℕ) (event_target : ℕ) (cancelable : Bool) (eo : EventOut)
      (ts : ℕ) (rt : GuestRuntime W.Instance Q K)
      → rt.shared.gesture_active ≡ false
      → SameRights rt.shared
          (handle_guest_event W maps chain event_target cancelable eo ts rt).1.shared
        × All
            (Permitted (with_gesture (is_gesture eo.kind) rt).shared)
            (handle_guest_event W maps chain event_target cancelable eo ts rt).2
  unfolding handle_guest_event
  handle_guest_event-Within maps chain event_target cancelable eo ts rt down =
      elim (Option-cases (find_listener maps eo.kind chain)) [
        | inl e ↦ rw (e, handle_guest_event) (same rt.shared, tt)
        | inr (listener, e) ↦
            rw (e, handle_guest_event) (dispatch-Within eo _ _ listener ts rt down)
      ]

  -- A guest that was loaded has the rights that it was to get.
  abbrev pub HasRights : Shared Q K → Loaded W.Instance Q K → Type 0
  HasRights g failed = Unit
  HasRights g not_gwb = Unit
  HasRights g (loaded rt) = SameRights g rt.shared

  checked-Within :
      (g : Shared Q K) (r : Ran W.Instance Q K)
      → Within g r
      → HasRights g (checked W r).0 × All (Permitted g) (checked W r).1
  unfolding checked
  checked-Within g (none, rt, out) (rights, sent) = (tt, sent)
  checked-Within g (some version, rt, out) (rights, sent) =
      elim (Bool-cases (version / 2 ^ 16 == 1 && W.has_exports rt.inst)) [
        | inl fits ↦ rw (fits, checked) (rights, sent)
        | inr unfit ↦ rw (unfit, checked) (tt, sent)
      ]

  load_module-Within :
      (l : Loading W.Instance) (g : Shared Q K)
      → HasRights g (load_module W l g).0 × All (Permitted g) (load_module W l g).1
  unfolding load_module
  load_module-Within unreadable g = (tt, tt)
  load_module-Within foreign g = (tt, tt)
  load_module-Within (begins run) g = checked-Within g (exec run g) (exec-Within run g)

  pub start-Within :
      (w h scale flags : ℕ) (rt : GuestRuntime W.Instance Q K)
      → Within rt.shared (start W w h scale flags rt)
  unfolding start
  start-Within w h scale flags rt = exec-Within (W.start w h scale flags rt.inst) rt.shared

module _ (W : Wasm) (Q K : Type 0) where
  -- A module that is loaded can do, from its own start on, what the services and links it was
  -- resolved with allow, in its own tab and without a gesture; and these are its rights afterwards.
  pub try_load-Within :
      (app_key : K) (app_key_b64 path : Bytes) (tab_id : ℕ) (services : Map Bytes ServiceEntry)
      (links : Set Bytes)
      → HasRights W
          (new_shared W {Q = Q} app_key app_key_b64 tab_id services links)
          (try_load W {Q = Q} app_key app_key_b64 path tab_id services links).0
        × All
            (Permitted (new_shared W {Q = Q} app_key app_key_b64 tab_id services links))
            (try_load W {Q = Q} app_key app_key_b64 path tab_id services links).1
  unfolding try_load
  try_load-Within app_key app_key_b64 path tab_id services links =
      load_module-Within W (W.load path) (new_shared W app_key app_key_b64 tab_id services links)
