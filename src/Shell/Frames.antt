-- ===== src/Shell/Frames.antt =====
-- What most operations of the browser leave as it is: the tabs' ids and histories, and which tab is
-- active.
use wasibrowser.Prelude.{
  ℕ, ◌≡◌, refl, ap, ◌∙◌, Option, none, some, List, [], ◌∷◌, map, map-set_same, length, length-map,
  All, All-append, get_elem?, Option-cases, Bool-cases, inl, inr, ltb, arith,
}
use wasibrowser.Bytes.{Bytes}
use wasibrowser.Map.{contains}
use wasibrowser.Map.Keys.{pair_key}
use wasibrowser.Abi.Shared.{Shared}
use wasibrowser.Abi.Apply.{apply_batches}
use wasibrowser.Abi.Events.{EventOut}
use wasibrowser.Abi.Imports.{Effect, crash, console, http_get, rpc_post, nav_request, host_line}
use wasibrowser.Abi.Imports.Gates.{Permitted}
use wasibrowser.Guest.{deliver_event}
use wasibrowser.Guest.Gestures.{deliver_event-Within}
use wasibrowser.Shell.{Env, Browser, TabState, Guest, put_tab, send}
use wasibrowser.Shell.Guests.{
  fix_caret, apply_guest_batches_for, apply_and_mark, deliver_to, notify_window_event,
  deliver_result, position,
}

-- The host did not panic.
abbrev pub IsCalm : Effect → Type 0
IsCalm crash = ⊥
IsCalm _ = Unit

pub Permitted-IsCalm :
    {Q K : Type 0} (g : Shared Q K) (out : List Effect) → All (Permitted g) out → All IsCalm out
Permitted-IsCalm g [] h = tt
Permitted-IsCalm g (console is_error text ∷ out) (p, h) = (tt, Permitted-IsCalm g out h)
Permitted-IsCalm g (http_get id url ∷ out) (p, h) = (tt, Permitted-IsCalm g out h)
Permitted-IsCalm g (rpc_post id url request session ∷ out) (p, h) = (tt, Permitted-IsCalm g out h)
Permitted-IsCalm g (nav_request r ∷ out) (p, h) = (tt, Permitted-IsCalm g out h)
Permitted-IsCalm g (crash ∷ out) (p, h) = (p, Permitted-IsCalm g out h)
Permitted-IsCalm g (host_line text ∷ out) (p, h) = (tt, Permitted-IsCalm g out h)

module _ (E : Env) where
  -- The id, the history and the current entry of a tab.
  abbrev pub key : TabState E → ℕ × List Bytes × ℕ
  key t = (t.id, t.history, t.history_idx)

  pub record Keeps (s s' : Browser E) : Type 0 where
    pub keys : map key s'.tabs ≡ map key s.tabs
    pub active : s'.active_idx ≡ s.active_idx
    pub next : s'.next_tab_id ≡ s.next_tab_id
    pub calm : All IsCalm s.sent → All IsCalm s'.sent

  pub Keeps-refl : (s : Browser E) → Keeps s s
  Keeps-refl s = record { keys = refl; active = refl; next = refl; calm = λ h. h }

  pub Keeps-trans : (a b c : Browser E) → Keeps a b → Keeps b c → Keeps a c
  Keeps-trans a b c k l = record {
    keys = l.keys ∙ k.keys;
    active = l.active ∙ k.active;
    next = l.next ∙ k.next;
    calm = λ h. l.calm (k.calm h);
  }

  pub Keeps-length : (s s' : Browser E) → Keeps s s' → length s'.tabs ≡ length s.tabs
  Keeps-length s s' k =
      omega (arith, ap length k.keys, length-map key s'.tabs, length-map key s.tabs)

  pub put_tab-Keeps :
      (s : Browser E) (idx : ℕ) (tab tab' : TabState E)
      → get_elem? s.tabs idx ≡ some tab
      → key tab' ≡ key tab
      → Keeps s (put_tab E s idx tab')
  put_tab-Keeps s idx tab tab' h e = record {
    keys = map-set_same key s.tabs idx tab tab' h e;
    active = refl;
    next = refl;
    calm = λ h. h;
  }

  pub send-Keeps : (s : Browser E) (out : List Effect) → All IsCalm out → Keeps s (send E s out)
  send-Keeps s out calm = record {
    keys = refl;
    active = refl;
    next = refl;
    calm = λ h. All-append IsCalm s.sent out h calm;
  }

  fix_caret-Keeps : (focused : Option ℕ) (s : Browser E) → Keeps s (fix_caret E focused s)
  fix_caret-Keeps none s = Keeps-refl s
  fix_caret-Keeps (some n) s = record { keys = refl; active = refl; next = refl; calm = λ h. h }

  pub apply_guest_batches_for-Keeps :
      (idx : ℕ) (s : Browser E) → Keeps s (apply_guest_batches_for E idx s).1
  unfolding apply_guest_batches_for
  apply_guest_batches_for-Keeps idx s = elim (Option-cases (get_elem? s.tabs idx)) [
    | inl e ↦ rw (e, apply_guest_batches_for) (Keeps-refl s)
    | inr (tab, e) ↦ elim (Option-cases tab.guest) [
      | inl e' ↦ rw (e, apply_guest_batches_for, e') (Keeps-refl s)
      | inr (rt, e') ↦
          rw (e, apply_guest_batches_for, e')
            (Keeps-trans s _ _
              (record {
                keys = map-set_same (key) s.tabs idx tab _ e refl;
                active = refl;
                next = refl;
                calm = λ h. h;
              })
              (fix_caret-Keeps (apply_batches E.document s.doc tab.maps rt.shared).0.1 _))
    ]
  ]

  apply_and_mark-Keeps : (idx : ℕ) (s : Browser E) → Keeps s (apply_and_mark E idx s)
  unfolding apply_and_mark
  apply_and_mark-Keeps idx s =
      let k = apply_guest_batches_for-Keeps idx s in
      elim (Bool-cases (ltb 0 (apply_guest_batches_for E idx s).0)) [
        | inl some_ops ↦
            rw (some_ops, apply_and_mark)
              (record { keys = k.keys; active = k.active; next = k.next; calm = k.calm })
        | inr no_ops ↦ rw (no_ops, apply_and_mark) k
      ]

  pub deliver_to-Keeps :
      (idx : ℕ) (tab : TabState E) (rt : Guest E) (eo : EventOut) (target listener ts : ℕ)
      (s : Browser E)
      → get_elem? s.tabs idx ≡ some tab
      → Keeps s (deliver_to E idx tab rt eo target listener ts s)
  unfolding deliver_to
  deliver_to-Keeps idx tab rt eo target listener ts s at =
      let r = deliver_event E.wasm eo 0 target listener ts rt in
      let ran = deliver_event-Within E.wasm eo 0 target listener ts rt in
      let s1 = put_tab E s idx (record tab { guest = some r.1 }) in
      let s2 = send E s1 r.2 in
      let k =
        Keeps-trans s s1 s2 (put_tab-Keeps s idx tab _ at refl)
          (send-Keeps s1 r.2 (Permitted-IsCalm rt.shared r.2 ran.1)) in
      elim (Option-cases r.0) [
        | inl e ↦ rw (e, deliver_to) k
        | inr (flags, e) ↦ rw (e, deliver_to) (Keeps-trans s s2 _ k (apply_and_mark-Keeps idx s2))
      ]

  pub notify_window_event-Keeps :
      (eo : EventOut) (ts : ℕ) (s : Browser E) → Keeps s (notify_window_event E eo ts s)
  unfolding notify_window_event
  notify_window_event-Keeps eo ts s = elim (Option-cases (get_elem? s.tabs s.active_idx)) [
    | inl e ↦ rw (e, notify_window_event) (Keeps-refl s)
    | inr (tab, e) ↦ elim (Option-cases tab.guest) [
      | inl e' ↦ rw (e, notify_window_event, e') (Keeps-refl s)
      | inr (rt, e') ↦ elim (Bool-cases (contains tab.maps.listeners (1, eo.kind))) [
        | inl listens ↦
            rw (e, notify_window_event, e', listens)
              (deliver_to-Keeps s.active_idx tab rt eo 1 1 ts s e)
        | inr deaf ↦ rw (e, notify_window_event, e', deaf) (Keeps-refl s)
      ]
    ]
  ]

  -- A result of the network changes no tab's place or history, and none at all if its tab is closed.
  pub deliver_result-Keeps :
      (tab_id : ℕ) (event : ℕ → EventOut) (target ts : ℕ) (s : Browser E)
      → Keeps s (deliver_result E tab_id event target ts s)
  unfolding deliver_result
  deliver_result-Keeps tab_id event target ts s = elim (Option-cases (position E s.tabs tab_id)) [
    | inl e ↦ rw (e, deliver_result) (Keeps-refl s)
    | inr (idx, p) ↦ elim (Option-cases (get_elem? s.tabs idx)) [
      | inl e ↦ rw (p, deliver_result, e) (Keeps-refl s)
      | inr (tab, e) ↦ elim (Option-cases tab.guest) [
        | inl e' ↦ rw (p, deliver_result, e, e') (Keeps-refl s)
        | inr (rt, e') ↦
            rw (p, deliver_result, e, e')
              (deliver_to-Keeps idx tab rt (event rt.shared.event_region.1) target 0 ts s e)
      ]
    ]
  ]
