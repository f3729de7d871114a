-- ===== src/Abi/Shared.antt =====
-- The state that a guest's host imports and the event loop share (`Shared`, `ServiceEntry`), and
-- the messages to the UI thread, of renderer/src/abi.rs.
use wasibrowser.Prelude.{ℕ, Option, Bool, List}
use wasibrowser.Bytes.{Bytes}
use wasibrowser.Map.{Map, Set}
use wasibrowser.Abi.{Op}
use wasibrowser.Abi.Atoms.{Atoms}

pub record ServiceEntry : Type 0 where
  pub endpoint : Bytes
  pub iface : Bytes
  pub server_key : Bytes

pub record NetResult : Type 0 where
  pub id : ℕ
  pub tab_id : ℕ
  pub status : ℕ
  pub success : Bool
  pub body : Bytes

pub record RpcResult : Type 0 where
  pub req_id : ℕ
  pub tab_id : ℕ
  pub status : ℕ
  pub success : Bool
  pub err_class : ℕ
  pub body : Bytes

pub record NavRequest : Type 0 where
  pub tab_id : ℕ
  pub target : Bytes
  pub new_tab : Bool

-- `Q` is the engine's `QualName` and `K` the signing key of ed25519-dalek.
pub record Shared (Q K : Type 0) : Type 0 where
  pub atoms : Atoms Q
  pub batches : List (List Op)
  pub event_region : ℕ × ℕ
  pub next_fetch_id : ℕ
  pub frame_requested : Bool
  pub window_id : Option ℕ
  pub services : Map Bytes ServiceEntry
  pub next_rpc_id : ℕ
  pub session_token : Option Bytes
  pub app_key : K
  pub app_key_b64 : Bytes
  pub links : Set Bytes
  pub gesture_active : Bool
  pub tab_id : ℕ
