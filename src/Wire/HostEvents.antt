-- ===== src/Wire/HostEvents.antt =====
-- The events that the host sends, as `map_dom_event` and `EventOut` write them, and as the guest's
-- `decode_events` reads them.
use wasibrowser.Prelude.{
  ℕ, ◌^◌, ◌<◌, ◌≡◌, refl, Bool, true, false, none, some, Option, ◌++◌, arith, length,
}
use wasibrowser.Bytes.{Bytes, ok, u16_to_le, u32_to_le}
use wasibrowser.Abi.Events
use wasibrowser.Abi.Events.{
  EventOut, bit, event_record, u64_to_le, text_of, padded, put, new, with_text,
}
use wasibrowser.Abi.DomEvents.{
  Floats, DomEvent, PointerEvent, KeyEvent, low_16, delta_of, map_dom_event, pointer, key,
}
use wasibrowser.Abi.Kind
use wasibrowser.Sdk.Events.{read_pointer, Event, read_payload}
use wasibrowser.Wire.Front.{front, event}
use wasibrowser.Wire.Payloads.{
  pointer_bytes, read_pointer-front, read_wheel-front, read_key-front, read_scroll-front,
  read_size-front, read_theme-front, read_net-front, read_rpc-front, read_layout-front,
}

-- What the host delivers to a guest.
pub data HostEvent : Type 0 where
  dom : DomEvent → HostEvent
  layout_rect : (x y w h : ℕ) → HostEvent
  window_resize : (w h scale : ℕ) → HostEvent
  theme_change : (dark : Bool) → HostEvent
  page_load : (w h scale : ℕ) → HostEvent
  net_result : (status : ℕ) (success : Bool) (body : Bytes) → HostEvent
  rpc_result : (req_id status : ℕ) (success : Bool) (err_class : ℕ) (body : Bytes) → HostEvent

abbrev pub with_pointer : PointerEvent → Event → Event
with_pointer p e = record e {
  x = p.page_x;
  y = p.page_y;
  buttons = low_16 p.buttons;
  mods = low_16 p.mods;
}

abbrev pub with_key : KeyEvent → Bool → Event → Event
with_key k pressed e = record e { mods = low_16 k.modifiers; pressed = pressed }

abbrev pub PointRange : PointerEvent → Type 0
PointRange p = (p.page_x < 2 ^ 32) × (p.page_y < 2 ^ 32)

module _ (F : Floats) where
  abbrev pub sent : HostEvent → Option EventOut
  sent (dom d) = map_dom_event F d
  sent (layout_rect x y w h) = some (Events.layout_rect x y w h)
  sent (window_resize w h scale) = some (Events.window_resize w h scale)
  sent (theme_change dark) = some (Events.theme_change dark)
  sent (page_load w h scale) = some (Events.page_load w h scale)
  sent (net_result status success body) = some (Events.net_result status success body)
  sent (rpc_result req_id status success err_class body) =
      some (Events.rpc_result req_id status success err_class body)

  -- What docs/ABI.md has a guest learn of it, beside the head of the record and the text.
  abbrev pub seen : HostEvent → Event → Event
  seen (dom (DomEvent.pointer_down p)) e = with_pointer p e
  seen (dom (DomEvent.pointer_up p)) e = with_pointer p e
  seen (dom (DomEvent.pointer_move p)) e = with_pointer p e
  seen (dom (DomEvent.pointer_enter p)) e = with_pointer p e
  seen (dom (DomEvent.pointer_leave p)) e = with_pointer p e
  seen (dom (DomEvent.click p)) e = with_pointer p e
  seen (dom (DomEvent.double_click p)) e = with_pointer p e
  seen (dom (DomEvent.context_menu p)) e = with_pointer p e
  seen (dom (DomEvent.pointer_cancel p)) e = with_pointer p e
  seen (dom (DomEvent.wheel delta mods)) e = record e {
    dx = (delta_of F delta).0;
    dy = (delta_of F delta).1;
    mods = low_16 mods;
  }
  seen (dom (DomEvent.key_down k)) e = with_key k k.is_pressed e
  seen (dom (DomEvent.key_up k)) e = with_key k k.is_pressed e
  seen (dom (DomEvent.key_press k)) e = with_key k false e
  seen (dom (DomEvent.input value)) e = e
  seen (dom DomEvent.focus) e = e
  seen (dom DomEvent.blur) e = e
  seen (dom (DomEvent.scroll left top)) e = record e { x = F.as_f32 left; y = F.as_f32 top }
  seen (dom DomEvent.other) e = e
  seen (layout_rect x y w h) e = record e { x = x; y = y; w = w; h = h }
  seen (window_resize w h scale) e = record e { w = w; h = h; scale = scale }
  seen (theme_change dark) e = record e { dark = dark }
  seen (page_load w h scale) e = record e { w = w; h = h; scale = scale }
  seen (net_result status success body) e = record e { net_status = status; net_ok = success }
  seen (rpc_result req_id status success err_class body) e = record e {
    rpc_status = status;
    rpc_ok = success;
    rpc_err_class = err_class;
    rpc_req_id = req_id;
  }

  -- Whether the guest's decoder reads the payload of this kind of event.
  abbrev pub is_decoded : HostEvent → Bool
  is_decoded (dom (DomEvent.context_menu p)) = false
  is_decoded (dom (DomEvent.pointer_cancel p)) = false
  is_decoded _ = true

  -- What the guest's decoder reads: of these two kinds, only the head of the record.
  abbrev pub heard : HostEvent → Event → Event
  heard (dom (DomEvent.context_menu p)) e = e
  heard (dom (DomEvent.pointer_cancel p)) e = e
  heard h e = seen h e

  -- The words of the event have their widths.
  abbrev pub HasRange : HostEvent → Type 0
  HasRange (dom (DomEvent.pointer_down p)) = PointRange p
  HasRange (dom (DomEvent.pointer_up p)) = PointRange p
  HasRange (dom (DomEvent.pointer_move p)) = PointRange p
  HasRange (dom (DomEvent.pointer_enter p)) = PointRange p
  HasRange (dom (DomEvent.pointer_leave p)) = PointRange p
  HasRange (dom (DomEvent.click p)) = PointRange p
  HasRange (dom (DomEvent.double_click p)) = PointRange p
  HasRange (dom (DomEvent.wheel delta mods)) =
      ((delta_of F delta).0 < 2 ^ 32) × ((delta_of F delta).1 < 2 ^ 32)
  HasRange (dom (DomEvent.scroll left top)) = (F.as_f32 left < 2 ^ 32) × (F.as_f32 top < 2 ^ 32)
  HasRange (layout_rect x y w h) = (x < 2 ^ 32) × (y < 2 ^ 32) × (w < 2 ^ 32) × (h < 2 ^ 32)
  HasRange (window_resize w h scale) = (w < 2 ^ 32) × (h < 2 ^ 32) × (scale < 2 ^ 32)
  HasRange (page_load w h scale) = (w < 2 ^ 32) × (h < 2 ^ 32) × (scale < 2 ^ 32)
  HasRange (net_result status success body) = status < 2 ^ 16
  HasRange (rpc_result req_id status success err_class body) = (status < 2 ^ 16) × (req_id < 2 ^ 32)
  HasRange _ = Unit

  module _ (flags target listener ts : ℕ) (rest : Bytes) where
    -- The record of `eo` is read as the event `h`.
    abbrev pub Carries : HostEvent → Option EventOut → Type 0
    Carries h none = Unit
    Carries h (some eo) =
        read_payload (front eo.kind flags target listener ts (eo.payload ++ rest))
          (event eo.kind flags target listener ts)
        ≡ ok (heard h (event eo.kind flags target listener ts))

    point :
        (kind : ℕ) (p : PointerEvent) (e : Event)
        → PointRange p
        → read_pointer
            (front kind flags target listener ts
              (pointer_bytes p.page_x p.page_y (low_16 p.buttons) (low_16 p.mods) rest))
            e
          ≡ ok (with_pointer p e)
    point kind p e r =
        read_pointer-front kind flags target listener ts e p.page_x p.page_y (low_16 p.buttons)
          (low_16 p.mods) rest r.0 r.1 (omega arith) (omega arith)

    pub sent-Carries : (h : HostEvent) → HasRange h → Carries h (sent h)
    unfolding map_dom_event read_payload new put Events.f32_at Events.u16_at Events.u8_at
        Events.u32_at with_text Events.layout_rect Events.window_resize Events.theme_change
        Events.page_load Events.net_result Events.rpc_result pointer key u32_to_le u16_to_le
    sent-Carries (dom (DomEvent.pointer_down p)) r =
        point Kind.pointer_down p (event Kind.pointer_down flags target listener ts) r
    sent-Carries (dom (DomEvent.pointer_up p)) r =
        point Kind.pointer_up p (event Kind.pointer_up flags target listener ts) r
    sent-Carries (dom (DomEvent.pointer_move p)) r =
        point Kind.pointer_move p (event Kind.pointer_move flags target listener ts) r
    sent-Carries (dom (DomEvent.pointer_enter p)) r =
        point Kind.pointer_enter p (event Kind.pointer_enter flags target listener ts) r
    sent-Carries (dom (DomEvent.pointer_leave p)) r =
        point Kind.pointer_leave p (event Kind.pointer_leave flags target listener ts) r
    sent-Carries (dom (DomEvent.click p)) r =
        point Kind.click p (event Kind.click flags target listener ts) r
    sent-Carries (dom (DomEvent.double_click p)) r =
        point Kind.dblclick p (event Kind.dblclick flags target listener ts) r
    sent-Carries (dom (DomEvent.context_menu p)) r = refl
    sent-Carries (dom (DomEvent.pointer_cancel p)) r = refl
    sent-Carries (dom (DomEvent.input value)) r = refl
    sent-Carries (dom DomEvent.focus) r = refl
    sent-Carries (dom DomEvent.blur) r = refl
    sent-Carries (dom DomEvent.other) r = tt
    sent-Carries (dom (DomEvent.wheel delta mods)) r =
        read_wheel-front Kind.wheel flags target listener ts
          (event Kind.wheel flags target listener ts) (delta_of F delta).0 (delta_of F delta).1
          (low_16 mods) rest r.0 r.1 (omega arith)
    sent-Carries (dom (DomEvent.key_down k)) r =
        read_key-front Kind.key_down flags target listener ts
          (event Kind.key_down flags target listener ts) (low_16 k.modifiers) k.is_pressed rest
          (omega arith)
    sent-Carries (dom (DomEvent.key_up k)) r =
        read_key-front Kind.key_up flags target listener ts
          (event Kind.key_up flags target listener ts) (low_16 k.modifiers) k.is_pressed rest
          (omega arith)
    sent-Carries (dom (DomEvent.key_press k)) r =
        read_key-front Kind.text_input flags target listener ts
          (event Kind.text_input flags target listener ts) (low_16 k.modifiers) false rest
          (omega arith)
    sent-Carries (dom (DomEvent.scroll left top)) r =
        read_scroll-front Kind.scroll flags target listener ts
          (event Kind.scroll flags target listener ts) (F.as_f32 left) (F.as_f32 top) rest r.0 r.1
    sent-Carries (layout_rect x y w h) r =
        read_layout-front Kind.observed_layout flags target listener ts
          (event Kind.observed_layout flags target listener ts) x y w h rest r.0 r.1 r.2 r.3
    sent-Carries (window_resize w h scale) r =
        read_size-front Kind.window_resize flags target listener ts
          (event Kind.window_resize flags target listener ts) w h scale rest r.0 r.1 r.2
    sent-Carries (page_load w h scale) r =
        read_size-front Kind.page_load flags target listener ts
          (event Kind.page_load flags target listener ts) w h scale rest r.0 r.1 r.2
    sent-Carries (theme_change dark) r =
        read_theme-front Kind.theme_change flags target listener ts
          (event Kind.theme_change flags target listener ts) dark rest
    sent-Carries (net_result status success body) r =
        read_net-front Kind.net_result flags target listener ts
          (event Kind.net_result flags target listener ts) status success rest r
    sent-Carries (rpc_result req_id status success err_class body) r =
        read_rpc-front Kind.rpc_result flags target listener ts
          (event Kind.rpc_result flags target listener ts) req_id status success err_class rest r.0
          r.1

  abbrev pub Fits : Option EventOut → Type 0
  Fits none = Unit
  Fits (some eo) = (eo.kind < 2 ^ 16) × (length eo.payload ≡ 16)

  pub sent-Fits : (h : HostEvent) → Fits (sent h)
  unfolding map_dom_event new put Events.f32_at Events.u16_at Events.u8_at Events.u32_at with_text
      Events.layout_rect Events.window_resize Events.theme_change Events.page_load Events.net_result
      Events.rpc_result pointer key u32_to_le u16_to_le
  sent-Fits (dom (DomEvent.pointer_down p)) = (omega arith, refl)
  sent-Fits (dom DomEvent.other) = tt
  sent-Fits _ = (omega arith, refl)

  pub heard-text : (h : HostEvent) (e : Event) → (heard h e).text ≡ e.text
  heard-text (dom (DomEvent.pointer_down p)) e = refl
  heard-text _ e = refl

  pub heard-seen : (h : HostEvent) (e : Event) → is_decoded h ≡ true → heard h e ≡ seen h e
  heard-seen (dom (DomEvent.context_menu p)) e h = absurd (cc h)
  heard-seen (dom (DomEvent.pointer_cancel p)) e h = absurd (cc h)
  heard-seen _ e h = refl

  -- The event as it was sent, and what the guest's decoder makes of it.
  abbrev pub arrives : HostEvent → Bytes → Event → Event
  arrives h text e = record (seen h e) { text = text }

  abbrev pub read_as : HostEvent → Bytes → Event → Event
  read_as h text e = record (heard h e) { text = text }
