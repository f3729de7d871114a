-- ===== src/Abi/Imports.antt =====
-- The host imports that `try_load` of renderer/src/abi.rs defines. What a call sends out of the
-- guest's world is an effect; the threads that carry it out, and the log lines, are left out.
pub mod Gates
use Prim.Native.Nat.{bit_and}
use wasibrowser.Prelude.{
  ℕ, ◌+◌, ◌-◌, ◌%◌, ◌^◌, Bool, true, false, Option, none, some, List, [], ◌∷◌, ◌++◌, if◌then◌else◌,
  ◌==◌, ltb, leb, not, length, take, drop, codes,
}
use wasibrowser.Bytes.{Bytes, Res, ok, err, panic}
use wasibrowser.Utf8.{from_utf8_lossy}
use wasibrowser.Text.{trim_start_matches}
use wasibrowser.Map.{get, contains}
use wasibrowser.Map.Keys.{bytes_key}
use wasibrowser.Abi.Decode.{decode_batch}
use wasibrowser.Abi.Shared.{Shared, ServiceEntry, NavRequest}
use wasibrowser.Abi.Rpc.{RpcRequest, parse_request, rpc_url}

pub data Effect : Type 0 where
  console : (is_error : Bool) (text : Bytes) → Effect
  http_get : (id : ℕ) (url : Bytes) → Effect
  rpc_post : (req_id : ℕ) (url : Bytes) (request : RpcRequest) (session : Option Bytes) → Effect
  nav_request : NavRequest → Effect
  host_line : (text : Bytes) → Effect
  crash : Effect

pub data HostCall : Type 0 where
  submit : (ptr len : ℕ) → HostCall
  event_region : (ptr len : ℕ) → HostCall
  log : (level ptr len : ℕ) → HostCall
  fetch : (ptr len : ℕ) → HostCall
  rpc_call : (ptr len : ℕ) → HostCall
  session_set : (ptr len : ℕ) → HostCall
  session_clear : HostCall
  request_frame : HostCall
  navigate : (ptr len flags : ℕ) → HostCall

-- The bytes at `ptr` of the guest's memory, if it exports one and they lie within it.
unfoldable pub guest_bytes : Option Bytes → ℕ → ℕ → Option Bytes
guest_bytes none ptr len = none
guest_bytes (some bytes) ptr len =
    if ltb (length bytes) (ptr + len) then none else some (take len (drop ptr bytes))

-- The value returned to the guest (0 for none), the state, and the effects. A panic of the host is
-- the effect `crash`.
abbrev pub Outcome : Type 0 → Type 0 → Type 0
Outcome Q K = ℕ × Shared Q K × List Effect

module _ {Q K : Type 0} where
  abbrev pub returns : ℕ → Shared Q K → Outcome Q K
  returns value g = (value, g, [])

  unfoldable pub submit_import : Option Bytes → ℕ → ℕ → Shared Q K → Outcome Q K
  submit_import mem ptr len g = elim (guest_bytes mem ptr len) [
    | none ↦ returns (2 ^ 32 - 1) g
    | some bytes ↦ elim (decode_batch bytes) [
      | ok ops ↦ returns 0 (record g { batches = g.batches ++ (ops ∷ []) })
      | err e ↦ returns 1 g
      | panic ↦ (0, g, crash ∷ [])
    ]
  ]

  unfoldable pub log_import : Option Bytes → ℕ → ℕ → ℕ → Shared Q K → Outcome Q K
  log_import mem level ptr len g = elim (guest_bytes mem ptr len) [
    | none ↦ returns 0 g
    | some bytes ↦ (0, g, console (leb 2 level) (from_utf8_lossy bytes) ∷ [])
  ]

  unfoldable pub fetch_import : Option Bytes → ℕ → ℕ → Shared Q K → Outcome Q K
  fetch_import mem ptr len g = elim (guest_bytes mem ptr len) [
    | none ↦ returns 0 g
    | some bytes ↦
        let id = (g.next_fetch_id + 1) % 2 ^ 32 in
        (id, record g { next_fetch_id = id }, http_get id (from_utf8_lossy bytes) ∷ [])
  ]

  -- The call of a service that the manifest declares; any other never reaches the network.
  unfoldable pub call_service : RpcRequest → Shared Q K → Outcome Q K
  call_service request g = elim (get g.services request.service) [
    | none ↦ returns 0 g
    | some entry ↦
        let id = (g.next_rpc_id + 1) % 2 ^ 32 in
        let session = if request.want_session then g.session_token else none in
        let url = rpc_url entry.endpoint request.iface request.method in
        (id, record g { next_rpc_id = id }, rpc_post id url request session ∷ [])
  ]

  unfoldable pub rpc_import : Option Bytes → ℕ → ℕ → Shared Q K → Outcome Q K
  unfolding call_service
  rpc_import mem ptr len g = elim (guest_bytes mem ptr len) [
    | none ↦ returns 0 g
    | some buf ↦ elim (parse_request buf) [
      | ok request ↦ call_service request g
      | err e ↦ returns 0 g
      | panic ↦ (0, g, crash ∷ [])
    ]
  ]

  unfoldable pub session_set_import : Option Bytes → ℕ → ℕ → Shared Q K → Outcome Q K
  session_set_import mem ptr len g = elim (guest_bytes mem ptr len) [
    | none ↦ returns 0 g
    | some bytes ↦ returns 0 (record g { session_token = some (from_utf8_lossy bytes) })
  ]

  -- Both gates stand before the request: a gesture of the user, and the declared link.
  unfoldable pub request_navigation : Bytes → ℕ → Shared Q K → Outcome Q K
  request_navigation target flags g =
      let bare = trim_start_matches (codes "web://") target in
      if not g.gesture_active
      then returns 2 g
      else if not (contains g.links bare)
      then returns 1 g
      else (
        0,
        g,
        nav_request
              (record { tab_id = g.tab_id; target = target; new_tab = not (bit_and flags 1 == 0) })
            ∷ [],
      )

  unfoldable pub navigate_import : Option Bytes → ℕ → ℕ → ℕ → Shared Q K → Outcome Q K
  unfolding request_navigation
  navigate_import mem ptr len flags g = elim (guest_bytes mem ptr len) [
    | none ↦ returns 1 g
    | some bytes ↦ request_navigation (from_utf8_lossy bytes) flags g
  ]

  unfoldable pub host_call : Option Bytes → HostCall → Shared Q K → Outcome Q K
  unfolding submit_import log_import fetch_import rpc_import session_set_import navigate_import
  host_call mem (submit ptr len) g = submit_import mem ptr len g
  host_call mem (event_region ptr len) g = returns 0 (record g { event_region = (ptr, len) })
  host_call mem (log level ptr len) g = log_import mem level ptr len g
  host_call mem (fetch ptr len) g = fetch_import mem ptr len g
  host_call mem (rpc_call ptr len) g = rpc_import mem ptr len g
  host_call mem (session_set ptr len) g = session_set_import mem ptr len g
  host_call mem session_clear g = returns 0 (record g { session_token = none })
  host_call mem request_frame g = returns 0 (record g { frame_requested = true })
  host_call mem (navigate ptr len flags) g = navigate_import mem ptr len flags g
