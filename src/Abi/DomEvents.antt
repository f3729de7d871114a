-- ===== src/Abi/DomEvents.antt =====
-- `map_dom_event` of renderer/src/abi.rs. The engine's events are the data that the function matches
-- on; a float is its bits, and the arithmetic on floats is a parameter.
use wasibrowser.Prelude.{ℕ, ◌%◌, ◌^◌, Bool, Option, none, some}
use wasibrowser.Bytes.{Bytes}
use wasibrowser.Abi.Kind
use wasibrowser.Abi.Events.{EventOut, new, f32_at, u16_at, u8_at, with_text, bit}

pub record Floats : Type 0 where
  -- `x as f32`
  pub as_f32 : ℕ → ℕ
  -- `x * 40.0`
  pub times_40 : ℕ → ℕ

pub record PointerEvent : Type 0 where
  pub page_x : ℕ
  pub page_y : ℕ
  pub buttons : ℕ
  pub mods : ℕ

pub data WheelDelta : Type 0 where
  pixels : (x y : ℕ) → WheelDelta
  lines : (x y : ℕ) → WheelDelta

-- `key` is `k.key.to_string()`, and `is_enter` tells whether `k.key` is `Key::Enter`.
pub record KeyEvent : Type 0 where
  pub text : Option Bytes
  pub key : Bytes
  pub is_enter : Bool
  pub modifiers : ℕ
  pub is_pressed : Bool

pub data DomEvent : Type 0 where
  pointer_down : PointerEvent → DomEvent
  pointer_up : PointerEvent → DomEvent
  pointer_move : PointerEvent → DomEvent
  pointer_enter : PointerEvent → DomEvent
  pointer_leave : PointerEvent → DomEvent
  click : PointerEvent → DomEvent
  double_click : PointerEvent → DomEvent
  context_menu : PointerEvent → DomEvent
  pointer_cancel : PointerEvent → DomEvent
  wheel : (delta : WheelDelta) (mods : ℕ) → DomEvent
  key_down : KeyEvent → DomEvent
  key_up : KeyEvent → DomEvent
  key_press : KeyEvent → DomEvent
  input : (value : Bytes) → DomEvent
  focus : DomEvent
  blur : DomEvent
  scroll : (scroll_left scroll_top : ℕ) → DomEvent
  other : DomEvent

-- `(bits & 0xFFFF) as u16`
abbrev pub low_16 : ℕ → ℕ
low_16 bits = bits % 2 ^ 16

unfoldable pub pointer : ℕ → PointerEvent → EventOut
unfolding new f32_at u16_at
pointer kind p =
    u16_at (u16_at (f32_at (f32_at (new kind) 0 p.page_x) 4 p.page_y) 8 (low_16 p.buttons)) 10
      (low_16 p.mods)

abbrev pub key_text : KeyEvent → Bytes
key_text k = elim k.text [ none ↦ k.key | some t ↦ t ]

unfoldable pub key : ℕ → KeyEvent → EventOut
unfolding new u16_at u8_at with_text
key kind k =
    with_text (u8_at (u16_at (new kind) 2 (low_16 k.modifiers)) 4 (bit k.is_pressed)) (key_text k)

module _ (F : Floats) where
  abbrev pub delta_of : WheelDelta → ℕ × ℕ
  delta_of (pixels x y) = (F.as_f32 x, F.as_f32 y)
  delta_of (lines x y) = (F.times_40 (F.as_f32 x), F.times_40 (F.as_f32 y))

  unfoldable pub map_dom_event : DomEvent → Option EventOut
  unfolding pointer key new f32_at u16_at with_text
  map_dom_event (pointer_down p) = some (pointer Kind.pointer_down p)
  map_dom_event (pointer_up p) = some (pointer Kind.pointer_up p)
  map_dom_event (pointer_move p) = some (pointer Kind.pointer_move p)
  map_dom_event (pointer_enter p) = some (pointer Kind.pointer_enter p)
  map_dom_event (pointer_leave p) = some (pointer Kind.pointer_leave p)
  map_dom_event (click p) = some (pointer Kind.click p)
  map_dom_event (double_click p) = some (pointer Kind.dblclick p)
  map_dom_event (context_menu p) = some (pointer Kind.context_menu p)
  map_dom_event (pointer_cancel p) = some (pointer Kind.pointer_cancel p)
  map_dom_event (wheel delta mods) =
      let (dx, dy) = delta_of delta in
      some (u16_at (f32_at (f32_at (new Kind.wheel) 0 dx) 4 dy) 8 (low_16 mods))
  map_dom_event (key_down k) = some (key Kind.key_down k)
  map_dom_event (key_up k) = some (key Kind.key_up k)
  map_dom_event (key_press k) =
      some (with_text (u16_at (new Kind.text_input) 2 (low_16 k.modifiers)) (key_text k))
  map_dom_event (input value) = some (with_text (new Kind.input) value)
  map_dom_event focus = some (new Kind.focus)
  map_dom_event blur = some (new Kind.blur)
  map_dom_event (scroll scroll_left scroll_top) =
      some (f32_at (f32_at (new Kind.scroll) 0 (F.as_f32 scroll_left)) 4 (F.as_f32 scroll_top))
  map_dom_event other = none
