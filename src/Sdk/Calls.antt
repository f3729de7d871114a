-- ===== src/Sdk/Calls.antt =====
-- The calls of sdk-rust/src/lib.rs that pass their arguments on to the host's imports. `ptr` is where
-- the bytes that a call hands over stand in the guest's memory.
use wasibrowser.Prelude.{ℕ, length}
use wasibrowser.Bytes.{Bytes}
use wasibrowser.Abi.Imports
use wasibrowser.Abi.Imports.{HostCall}
use wasibrowser.Sdk.Batch.{as_u32}
use wasibrowser.Sdk.Rpc.{rpc_buffer}

abbrev pub rpc_f_cbor : ℕ
rpc_f_cbor = 1

abbrev pub rpc_f_session : ℕ
rpc_f_session = 2

abbrev pub event_buf_size : ℕ
event_buf_size = 8192

unfoldable pub request_animation_frame : HostCall
request_animation_frame = Imports.request_frame

unfoldable pub clear_session : HostCall
clear_session = Imports.session_clear

module _ (ptr : ℕ) where
  unfoldable pub log_line : ℕ → Bytes → HostCall
  log_line level msg = Imports.log level ptr (as_u32 (length msg))

  unfoldable pub fetch_url : Bytes → HostCall
  fetch_url url = Imports.fetch ptr (as_u32 (length url))

  unfoldable pub rpc : Bytes → Bytes → Bytes → Bytes → ℕ → HostCall
  rpc service iface method payload flags =
      Imports.rpc_call ptr (as_u32 (length (rpc_buffer service iface method payload flags)))

  unfoldable pub set_session : Bytes → HostCall
  set_session token = Imports.session_set ptr (as_u32 (length token))

  unfoldable pub navigate : Bytes → ℕ → HostCall
  navigate target flags = Imports.navigate ptr (as_u32 (length target)) flags

  unfoldable pub register_event_region : HostCall
  register_event_region = Imports.event_region ptr event_buf_size
