-- ===== src/Sdk/Events.antt =====
-- `Event` and `decode_events` of sdk-rust/src/lib.rs. A float is its bits. A `usize` of the guest has
-- 32 bits, and sums wrap around.
use Prim.Native.Nat.{bit_or}
use wasibrowser.Prelude.{
  ℕ, zero, suc, ◌+◌, ◌-◌, ◌*◌, ◌%◌, ◌^◌, Bool, false, [], ◌&&◌, ◌||◌, if◌then◌else◌, ◌==◌, leb, ltb,
  not, length, drop,
}
use wasibrowser.Bytes.{Bytes, Res, ok, ◌>>=◌, slice, index, u16_at, u32_at}
use wasibrowser.Utf8.{from_utf8_lossy}
use wasibrowser.Sdk.Kind

pub record Event : Type 0 where
  pub kind : ℕ
  pub flags : ℕ
  pub target : ℕ
  pub listener : ℕ
  pub time_ms : ℕ
  pub x : ℕ
  pub y : ℕ
  pub w : ℕ
  pub h : ℕ
  pub dx : ℕ
  pub dy : ℕ
  pub scale : ℕ
  pub buttons : ℕ
  pub mods : ℕ
  pub pressed : Bool
  pub dark : Bool
  pub net_status : ℕ
  pub net_ok : Bool
  pub rpc_status : ℕ
  pub rpc_ok : Bool
  pub rpc_err_class : ℕ
  pub rpc_req_id : ℕ
  pub text : Bytes

-- `Event::default()`
abbrev pub default : Event
default = record {
  kind = 0;
  flags = 0;
  target = 0;
  listener = 0;
  time_ms = 0;
  x = 0;
  y = 0;
  w = 0;
  h = 0;
  dx = 0;
  dy = 0;
  scale = 0;
  buttons = 0;
  mods = 0;
  pressed = false;
  dark = false;
  net_status = 0;
  net_ok = false;
  rpc_status = 0;
  rpc_ok = false;
  rpc_err_class = 0;
  rpc_req_id = 0;
  text = [];
}

-- The guest can only return or panic.
abbrev pub Returned : Type 0 → Type 0
Returned A = Res ⊥ A

-- `f64::from_le_bytes(r[off..off + 8].try_into().unwrap())`
unfoldable pub u64_at : Bytes → ℕ → Returned ℕ
u64_at r off = do low ← u32_at r off; high ← u32_at r (off + 4); ok (low + high * 2 ^ 32)

abbrev pub is_pointer : ℕ → Bool
is_pointer kind =
    kind == Kind.pointer_down
    || kind == Kind.pointer_up
    || kind == Kind.pointer_move
    || kind == Kind.click
    || kind == Kind.dblclick
    || kind == Kind.pointer_enter
    || kind == Kind.pointer_leave

module _ (r : Bytes) (e : Event) where
  unfoldable pub read_pointer : Returned Event
  read_pointer = do
    x ← u32_at r 20
    y ← u32_at r 24
    buttons ← u16_at r 28
    mods ← u16_at r 30
    ok (record e { x = x; y = y; buttons = buttons; mods = mods })

  unfoldable pub read_wheel : Returned Event
  read_wheel = do
    dx ← u32_at r 20
    dy ← u32_at r 24
    mods ← u16_at r 28
    ok (record e { dx = dx; dy = dy; mods = mods })

  unfoldable pub read_key : Returned Event
  read_key = do
    mods ← u16_at r 22
    pressed ← index r 24
    ok (record e { mods = mods; pressed = not (pressed == 0) })

  unfoldable pub read_scroll : Returned Event
  read_scroll = do x ← u32_at r 20; y ← u32_at r 24; ok (record e { x = x; y = y })

  unfoldable pub read_size : Returned Event
  read_size = do
    w ← u32_at r 20
    h ← u32_at r 24
    scale ← u32_at r 28
    ok (record e { w = w; h = h; scale = scale })

  unfoldable pub read_theme : Returned Event
  read_theme = do dark ← u32_at r 20; ok (record e { dark = not (dark == 0) })

  unfoldable pub read_net : Returned Event
  read_net = do
    status ← u16_at r 20
    success ← index r 22
    ok (record e { net_status = status; net_ok = not (success == 0) })

  unfoldable pub read_rpc : Returned Event
  read_rpc = do
    status ← u16_at r 20
    success ← index r 22
    err_class ← index r 23
    req_id ← u32_at r 24
    ok (record e {
      rpc_status = status;
      rpc_ok = not (success == 0);
      rpc_err_class = err_class;
      rpc_req_id = req_id;
    })

  unfoldable pub read_layout : Returned Event
  read_layout = do
    x ← u32_at r 20
    y ← u32_at r 24
    w ← u32_at r 28
    h ← u32_at r 32
    ok (record e { x = x; y = y; w = w; h = h })

  -- `match e.kind { .. }`
  unfoldable pub read_payload : Returned Event
  unfolding read_pointer read_wheel read_key read_scroll read_size read_theme read_net read_rpc
      read_layout
  read_payload =
      if is_pointer e.kind
      then read_pointer
      else if e.kind == Kind.wheel
      then read_wheel
      else if e.kind == Kind.key_down || e.kind == Kind.key_up || e.kind == Kind.text_input
      then read_key
      else if e.kind == Kind.scroll
      then read_scroll
      else if e.kind == Kind.window_resize || e.kind == Kind.page_load
      then read_size
      else if e.kind == Kind.theme_change
      then read_theme
      else if e.kind == Kind.net_result
      then read_net
      else if e.kind == Kind.rpc_result
      then read_rpc
      else if e.kind == Kind.observed_layout
      then read_layout
      else ok e

unfoldable pub read_header : Bytes → Returned Event
unfolding u64_at
read_header r = do
  kind ← u16_at r 0
  flags ← u16_at r 2
  target ← u32_at r 4
  listener ← u32_at r 8
  time_ms ← u64_at r 12
  ok (record default {
    kind = kind;
    flags = flags;
    target = target;
    listener = listener;
    time_ms = time_ms;
  })

-- The text behind the record at `off`, and where the next record begins.
unfoldable pub read_text : Bytes → ℕ → ℕ → Event → Returned (Event × ℕ)
read_text buf off str_len e =
    let next = off + 40 in
    if ltb 0 str_len && leb ((next + str_len) % 2 ^ 32) (length buf)
    then (do
      text ← slice buf next ((next + str_len) % 2 ^ 32)
      let end = (next + str_len + 3) % 2 ^ 32
      ok (record e { text = from_utf8_lossy text }, end - end % 4))
    else ok (e, next)

-- One round of the loop, up to the call of `f`.
unfoldable pub decode_event : Bytes → ℕ → Returned (Event × ℕ)
unfolding read_header read_payload read_text
decode_event buf off = do
  let r = drop off buf
  e ← read_header r
  e ← read_payload r e
  str_len ← u32_at r 36
  read_text buf off str_len e

module _ {S : Type 0} (f : Event → S → Returned (ℕ × S)) (buf : Bytes) where
  -- `for _ in 0..count`; `f` is `FnMut`, a step of its state, and may panic.
  unfoldable pub decode_loop : ℕ → ℕ → ℕ → S → Returned (ℕ × S)
  unfolding decode_event
  decode_loop zero off ret s = ok (ret, s)
  decode_loop (suc count) off ret s =
      let round = (do
        (e, next) ← decode_event buf off
        (r, s') ← f e s
        decode_loop count next (bit_or ret r) s') in
      if ltb (length buf) (off + 40) then ok (ret, s) else round

  unfoldable pub decode_events : ℕ → S → Returned (ℕ × S)
  unfolding decode_loop
  decode_events count s = decode_loop count 0 0 s
