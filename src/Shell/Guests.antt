-- ===== src/Shell/Guests.antt =====
-- The guests of the tabs: `apply_guest_batches_for`, `notify_window_event`, `deliver_net_result` and
-- `deliver_rpc_result` of renderer/src/ui.rs.
use wasibrowser.Prelude.{
  ℕ, zero, suc, ◌+◌, ◌-◌, ◌==◌, true, Option, none, some, List, [], ◌∷◌, if◌then◌else◌, ltb,
  get_elem?, length, take,
}
use wasibrowser.Bytes.{Bytes}
use wasibrowser.Utf8.{is_char_boundary}
use wasibrowser.Map.{contains}
use wasibrowser.Map.Keys.{pair_key}
use wasibrowser.Abi.Shared.{NetResult, RpcResult}
use wasibrowser.Abi.Apply.{apply_batches}
use wasibrowser.Abi.Events.{EventOut, net_result, rpc_result}
use wasibrowser.Guest.{deliver_event}
use wasibrowser.Shell.{Env, Browser, TabState, Guest, put_tab, send}

-- `while cut > 0 && !body.is_char_boundary(cut) { cut -= 1; }`
unfoldable pub boundary_below : Bytes → ℕ → ℕ
unfolding is_char_boundary
boundary_below body zero = zero
boundary_below body (suc n) =
    let lower = boundary_below body n in if is_char_boundary body (suc n) then suc n else lower

-- The body as it fits an event region of `cap` bytes.
unfoldable pub fit_body : ℕ → Bytes → Bytes
unfolding boundary_below
fit_body cap body =
    if ltb (cap - 64) (length body) then take (boundary_below body (cap - 64)) body else body

module _ (E : Env) where
  -- `self.tabs.iter().position(|t| t.id == tab_id)`
  unfoldable pub position : List (TabState E) → ℕ → Option ℕ
  position [] tab_id = none
  position (t ∷ tabs) tab_id = elim (position tabs tab_id) [
    | none ↦ if t.id == tab_id then some 0 else none
    | some i ↦ if t.id == tab_id then some 0 else some (i + 1)
  ]

  abbrev pub fix_caret : Option ℕ → Browser E → Browser E
  fix_caret none s = s
  fix_caret (some n) s = record s { doc = E.document.caret_to_end n s.doc }

  unfoldable pub apply_guest_batches_for : ℕ → Browser E → ℕ × Browser E
  apply_guest_batches_for idx s = elim (get_elem? s.tabs idx) [
    | none ↦ (0, s)
    | some tab ↦ elim tab.guest [
      | none ↦ (0, s)
      | some rt ↦
          let ((applied, focused), doc, maps, shared) =
            apply_batches E.document s.doc tab.maps rt.shared in
          let tab' = record tab { maps = maps; guest = some (record rt { shared = shared }) } in
          (applied, fix_caret focused (put_tab E (record s { doc = doc }) idx tab'))
    ]
  ]

  -- `if self.apply_guest_batches_for(idx) > 0 { self.dirty = true; }`
  unfoldable pub apply_and_mark : ℕ → Browser E → Browser E
  unfolding apply_guest_batches_for
  apply_and_mark idx s =
      let (applied, s') = apply_guest_batches_for idx s in
      if ltb 0 applied then record s' { dirty = true } else s'

  -- The call of the guest of tab `idx`; if it answers, what it submitted is applied.
  unfoldable pub deliver_to :
      ℕ → TabState E → Guest E → EventOut → ℕ → ℕ → ℕ → Browser E → Browser E
  unfolding apply_and_mark
  deliver_to idx tab rt eo target listener ts s =
      let (answer, rt', out) = deliver_event E.wasm eo 0 target listener ts rt in
      let s' = send E (put_tab E s idx (record tab { guest = some rt' })) out in
      elim answer [ none ↦ s' | some flags ↦ apply_and_mark idx s' ]

  unfoldable pub notify_window_event : EventOut → ℕ → Browser E → Browser E
  unfolding deliver_to
  notify_window_event eo ts s = elim (get_elem? s.tabs s.active_idx) [
    | none ↦ s
    | some tab ↦ elim tab.guest [
      | none ↦ s
      | some rt ↦
          if contains tab.maps.listeners (1, eo.kind)
          then deliver_to s.active_idx tab rt eo 1 1 ts s
          else s
    ]
  ]

  -- A result of the network goes to the tab that asked for it, if that is still open.
  unfoldable pub deliver_result : ℕ → (ℕ → EventOut) → ℕ → ℕ → Browser E → Browser E
  unfolding deliver_to
  deliver_result tab_id event target ts s = elim (position s.tabs tab_id) [
    | none ↦ s
    | some idx ↦ elim (get_elem? s.tabs idx) [
      | none ↦ s
      | some tab ↦ elim tab.guest [
        | none ↦ s
        | some rt ↦ deliver_to idx tab rt (event rt.shared.event_region.1) target 0 ts s
      ]
    ]
  ]

  unfoldable pub deliver_net_result : NetResult → ℕ → Browser E → Browser E
  unfolding deliver_result
  deliver_net_result r ts s =
      deliver_result r.tab_id (λ cap. net_result r.status r.success (fit_body cap r.body)) r.id ts s

  unfoldable pub deliver_rpc_result : RpcResult → ℕ → Browser E → Browser E
  unfolding deliver_result
  deliver_rpc_result r ts s =
      deliver_result r.tab_id
        (λ cap. rpc_result r.req_id r.status r.success r.err_class (fit_body cap r.body)) 0 ts s
