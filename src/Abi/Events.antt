-- ===== src/Abi/Events.antt =====
-- `EventOut` of renderer/src/abi.rs and the record that `deliver_event` writes. A float is its bits:
-- an `f32` has 4 bytes, the `f64` of the time has 8.
use wasibrowser.Prelude.{
  ℕ, ◌+◌, ◌-◌, ◌/◌, ◌%◌, ◌^◌, Bool, Option, none, some, [], ◌∷◌, ◌++◌, if◌then◌else◌, length, take,
  drop, replicate,
}
use wasibrowser.Abi.Kind
use wasibrowser.Bytes.{Bytes, u16_to_le, u32_to_le}

pub record EventOut : Type 0 where
  pub kind : ℕ
  pub payload : Bytes
  pub text : Option Bytes

abbrev pub bit : Bool → ℕ
bit b = if b then 1 else 0

unfoldable pub new : ℕ → EventOut
new kind = record { kind = kind; payload = replicate 16 0; text = none }

-- `self.payload[off..off + n].copy_from_slice(bytes)`, at an offset where `bytes` fit.
unfoldable pub put : EventOut → ℕ → Bytes → EventOut
put self off bytes = record self {
  payload = take off self.payload ++ (bytes ++ drop (off + length bytes) self.payload);
}

unfoldable pub f32_at : EventOut → ℕ → ℕ → EventOut
unfolding put
f32_at self off v = put self off (u32_to_le v)

unfoldable pub u16_at : EventOut → ℕ → ℕ → EventOut
unfolding put
u16_at self off v = put self off (u16_to_le v)

unfoldable pub u8_at : EventOut → ℕ → ℕ → EventOut
unfolding put
u8_at self off v = put self off (v ∷ [])

unfoldable pub u32_at : EventOut → ℕ → ℕ → EventOut
unfolding put
u32_at self off v = put self off (u32_to_le v)

unfoldable pub with_text : EventOut → Bytes → EventOut
with_text self s = record self { text = some s }

unfoldable pub layout_rect : ℕ → ℕ → ℕ → ℕ → EventOut
unfolding new f32_at
layout_rect x y w h = f32_at (f32_at (f32_at (f32_at (new Kind.observed_layout) 0 x) 4 y) 8 w) 12 h

unfoldable pub window_resize : ℕ → ℕ → ℕ → EventOut
unfolding new f32_at
window_resize w h scale = f32_at (f32_at (f32_at (new Kind.window_resize) 0 w) 4 h) 8 scale

unfoldable pub theme_change : Bool → EventOut
unfolding new u32_at
theme_change dark = u32_at (new Kind.theme_change) 0 (bit dark)

unfoldable pub page_load : ℕ → ℕ → ℕ → EventOut
unfolding new f32_at
page_load w h scale = f32_at (f32_at (f32_at (new Kind.page_load) 0 w) 4 h) 8 scale

unfoldable pub net_result : ℕ → Bool → Bytes → EventOut
unfolding new u16_at u8_at with_text
net_result status success body =
    with_text (u8_at (u16_at (new Kind.net_result) 0 status) 2 (bit success)) body

unfoldable pub rpc_result : ℕ → ℕ → Bool → ℕ → Bytes → EventOut
unfolding new u16_at u8_at u32_at with_text
rpc_result req_id status success err_class body =
    with_text
      (u32_at (u8_at (u8_at (u16_at (new Kind.rpc_result) 0 status) 2 (bit success)) 3 err_class) 4
        req_id)
      body

-- `eo.text.as_deref().unwrap_or("")`
abbrev pub text_of : EventOut → Bytes
text_of eo = elim eo.text [ none ↦ [] | some s ↦ s ]

-- `(len + 3) & !3`
abbrev pub padded : ℕ → ℕ
padded len = len + 3 - (len + 3) % 4

unfoldable pub u64_to_le : ℕ → Bytes
unfolding u32_to_le
u64_to_le n = u32_to_le (n % 2 ^ 32) ++ u32_to_le (n / 2 ^ 32)

-- The record of `deliver_event`; `ts` is the time since the guest was loaded.
unfoldable pub event_record : EventOut → ℕ → ℕ → ℕ → ℕ → Bytes
unfolding u64_to_le
event_record eo flags target listener ts =
    let text = text_of eo in
    u16_to_le eo.kind
    ++ (u16_to_le flags
        ++ (u32_to_le target
            ++ (u32_to_le listener
                ++ (u64_to_le ts
                    ++ (eo.payload
                        ++ (u32_to_le (length text)
                            ++ (text ++ replicate (padded (length text) - length text) 0)))))))
