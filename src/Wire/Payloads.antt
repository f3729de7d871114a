-- ===== src/Wire/Payloads.antt =====
-- The payload of an event record, as the guest's `decode_events` reads each layout of it.
use wasibrowser.Prelude.{
  ℕ, ◌+◌, ◌^◌, ◌<◌, ◌≡◌, refl, Bool, true, false, not, [], ◌∷◌, ◌++◌, arith, length, ◌==◌,
}
use wasibrowser.Bytes.{Bytes, ok, u16_at, u32_at, index, u16_to_le, u32_to_le}
use wasibrowser.Abi.Events.{bit}
use wasibrowser.Sdk.Events.{
  Event, read_pointer, read_wheel, read_key, read_scroll, read_size, read_theme, read_net, read_rpc,
  read_layout,
}
use wasibrowser.Wire.Front.{front, u32_read, u16_read, byte_read}

pub not_zero-bit : (b : Bool) → not (bit b == 0) ≡ b
not_zero-bit true = refl
not_zero-bit false = refl

abbrev pub zeros_4 : Bytes → Bytes
zeros_4 rest = 0 ∷ 0 ∷ 0 ∷ 0 ∷ rest

abbrev pub pointer_bytes : ℕ → ℕ → ℕ → ℕ → Bytes → Bytes
pointer_bytes x y b m rest =
    u32_to_le x ++ (u32_to_le y ++ (u16_to_le b ++ (u16_to_le m ++ zeros_4 rest)))

abbrev pub wheel_bytes : ℕ → ℕ → ℕ → Bytes → Bytes
wheel_bytes x y m rest = u32_to_le x ++ (u32_to_le y ++ (u16_to_le m ++ (0 ∷ 0 ∷ zeros_4 rest)))

abbrev pub scroll_bytes : ℕ → ℕ → Bytes → Bytes
scroll_bytes x y rest = u32_to_le x ++ (u32_to_le y ++ zeros_4 (zeros_4 rest))

abbrev pub size_bytes : ℕ → ℕ → ℕ → Bytes → Bytes
size_bytes w h s rest = u32_to_le w ++ (u32_to_le h ++ (u32_to_le s ++ zeros_4 rest))

abbrev pub layout_bytes : ℕ → ℕ → ℕ → ℕ → Bytes → Bytes
layout_bytes x y w h rest = u32_to_le x ++ (u32_to_le y ++ (u32_to_le w ++ (u32_to_le h ++ rest)))

abbrev pub key_bytes : ℕ → Bool → Bytes → Bytes
key_bytes m pressed rest =
    0 ∷ 0 ∷ (u16_to_le m ++ (bit pressed ∷ 0 ∷ 0 ∷ 0 ∷ zeros_4 (zeros_4 rest)))

abbrev pub theme_bytes : Bool → Bytes → Bytes
theme_bytes dark rest = u32_to_le (bit dark) ++ zeros_4 (zeros_4 (zeros_4 rest))

abbrev pub net_bytes : ℕ → Bool → Bytes → Bytes
net_bytes status success rest =
    u16_to_le status ++ (bit success ∷ 0 ∷ zeros_4 (zeros_4 (zeros_4 rest)))

abbrev pub rpc_bytes : ℕ → ℕ → Bool → ℕ → Bytes → Bytes
rpc_bytes req_id status success err_class rest =
    u16_to_le status ++ (bit success ∷ err_class ∷ (u32_to_le req_id ++ zeros_4 (zeros_4 rest)))

bit-lt : (b : Bool) → bit b < 2 ^ 32
bit-lt true = omega arith
bit-lt false = omega arith

module _ (kind flags target listener ts : ℕ) (e : Event) where
  abbrev F : Bytes → Bytes
  F = front kind flags target listener ts

  module _ (pre : Bytes) (n off : ℕ) (rest : Bytes) (h : off ≡ 20 + length pre) where
    at32 : n < 2 ^ 32 → u32_at {E = ⊥} (F (pre ++ (u32_to_le n ++ rest))) off ≡ ok n
    at32 = u32_read kind flags target listener ts pre n off rest h

    at16 : n < 2 ^ 16 → u16_at {E = ⊥} (F (pre ++ (u16_to_le n ++ rest))) off ≡ ok n
    at16 = u16_read kind flags target listener ts pre n off rest h

    at8 : index {E = ⊥} (F (pre ++ (n ∷ rest))) off ≡ ok n
    at8 = byte_read kind flags target listener ts pre n off rest h

  pub read_pointer-front :
      (x y b m : ℕ) (rest : Bytes)
      → x < 2 ^ 32
      → y < 2 ^ 32
      → b < 2 ^ 16
      → m < 2 ^ 16
      → read_pointer (F (pointer_bytes x y b m rest)) e
        ≡ ok (record e { x = x; y = y; buttons = b; mods = m })
  unfolding read_pointer u32_to_le u16_to_le
  read_pointer-front x y b m rest hx hy hb hm =
      rw
        (
          at32 ([]) x 20 _ refl hx,
          at32 (u32_to_le x) y 24 _ refl hy,
          at16 (u32_to_le x ++ u32_to_le y) b 28 _ refl hb,
          at16 (u32_to_le x ++ (u32_to_le y ++ u16_to_le b)) m 30 _ refl hm,
        )
        refl

  pub read_wheel-front :
      (x y m : ℕ) (rest : Bytes)
      → x < 2 ^ 32
      → y < 2 ^ 32
      → m < 2 ^ 16
      → read_wheel (F (wheel_bytes x y m rest)) e ≡ ok (record e { dx = x; dy = y; mods = m })
  unfolding read_wheel u32_to_le u16_to_le
  read_wheel-front x y m rest hx hy hm =
      rw
        (
          at32 ([]) x 20 _ refl hx,
          at32 (u32_to_le x) y 24 _ refl hy,
          at16 (u32_to_le x ++ u32_to_le y) m 28 _ refl hm,
        )
        refl

  pub read_scroll-front :
      (x y : ℕ) (rest : Bytes)
      → x < 2 ^ 32
      → y < 2 ^ 32
      → read_scroll (F (scroll_bytes x y rest)) e ≡ ok (record e { x = x; y = y })
  unfolding read_scroll u32_to_le u16_to_le
  read_scroll-front x y rest hx hy =
      rw (at32 ([]) x 20 _ refl hx, at32 (u32_to_le x) y 24 _ refl hy) refl

  pub read_size-front :
      (w h s : ℕ) (rest : Bytes)
      → w < 2 ^ 32
      → h < 2 ^ 32
      → s < 2 ^ 32
      → read_size (F (size_bytes w h s rest)) e ≡ ok (record e { w = w; h = h; scale = s })
  unfolding read_size u32_to_le u16_to_le
  read_size-front w h s rest hw hh hs =
      rw
        (
          at32 ([]) w 20 _ refl hw,
          at32 (u32_to_le w) h 24 _ refl hh,
          at32 (u32_to_le w ++ u32_to_le h) s 28 _ refl hs,
        )
        refl

  pub read_layout-front :
      (x y w h : ℕ) (rest : Bytes)
      → x < 2 ^ 32
      → y < 2 ^ 32
      → w < 2 ^ 32
      → h < 2 ^ 32
      → read_layout (F (layout_bytes x y w h rest)) e ≡ ok (record e { x = x; y = y; w = w; h = h })
  unfolding read_layout u32_to_le u16_to_le
  read_layout-front x y w h rest hx hy hw hh =
      rw
        (
          at32 ([]) x 20 _ refl hx,
          at32 (u32_to_le x) y 24 _ refl hy,
          at32 (u32_to_le x ++ u32_to_le y) w 28 _ refl hw,
          at32 (u32_to_le x ++ (u32_to_le y ++ u32_to_le w)) h 32 _ refl hh,
        )
        refl

  pub read_key-front :
      (m : ℕ) (pressed : Bool) (rest : Bytes)
      → m < 2 ^ 16
      → read_key (F (key_bytes m pressed rest)) e ≡ ok (record e { mods = m; pressed = pressed })
  unfolding read_key u16_to_le
  read_key-front m pressed rest hm =
      rw
        (
          at16 (0 ∷ 0 ∷ []) m 22 _ refl hm,
          at8 (0 ∷ 0 ∷ u16_to_le m) (bit pressed) 24 _ refl,
          not_zero-bit pressed,
        )
        refl

  pub read_theme-front :
      (dark : Bool) (rest : Bytes)
      → read_theme (F (theme_bytes dark rest)) e ≡ ok (record e { dark = dark })
  unfolding read_theme u32_to_le
  read_theme-front dark rest =
      rw (at32 [] (bit dark) 20 _ refl (bit-lt dark), not_zero-bit dark) refl

  pub read_net-front :
      (status : ℕ) (success : Bool) (rest : Bytes)
      → status < 2 ^ 16
      → read_net (F (net_bytes status success rest)) e
        ≡ ok (record e { net_status = status; net_ok = success })
  unfolding read_net u16_to_le
  read_net-front status success rest hs =
      rw
        (
          at16 [] status 20 _ refl hs,
          at8 (u16_to_le status) (bit success) 22 _ refl,
          not_zero-bit success,
        )
        refl

  pub read_rpc-front :
      (req_id status : ℕ) (success : Bool) (err_class : ℕ) (rest : Bytes)
      → status < 2 ^ 16
      → req_id < 2 ^ 32
      → read_rpc (F (rpc_bytes req_id status success err_class rest)) e
        ≡ ok (record e {
          rpc_status = status;
          rpc_ok = success;
          rpc_err_class = err_class;
          rpc_req_id = req_id;
        })
  unfolding read_rpc u16_to_le u32_to_le
  read_rpc-front req_id status success err_class rest hs hr =
      rw
        (
          at16 [] status 20 _ refl hs,
          at8 (u16_to_le status) (bit success) 22 _ refl,
          at8 (u16_to_le status ++ (bit success ∷ [])) err_class 23 _ refl,
          at32 (u16_to_le status ++ (bit success ∷ err_class ∷ [])) req_id 24 _ refl hr,
          not_zero-bit success,
        )
        refl
