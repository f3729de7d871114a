-- ===== src/Runs/Calls.antt =====
-- Calls of a service with a session.
use wasibrowser.Prelude.{◌≡◌, refl, none, some, [], arith, codes}
use wasibrowser.Bytes.{Bytes, u16_to_le}
use wasibrowser.Map.{get}
use wasibrowser.Map.Keys.{bytes_eq}
use wasibrowser.Abi.Shared.{ServiceEntry}
use wasibrowser.Abi.Imports.{host_call}
use wasibrowser.Sdk.Calls.{rpc, set_session, clear_session}
use wasibrowser.Sdk.Rpc.{rpc_buffer}
use wasibrowser.Utf8.{is_utf8, first_char}
use wasibrowser.Wire.Calls.{memory, posted, rpc-session}
use wasibrowser.Runs.Engine.{guest}

abbrev text : Bytes
text = codes "web://shop"

-- The service that the guest may call.
abbrev service : Bytes
service = codes "search"

abbrev entry : ServiceEntry
entry = record { endpoint = codes "http://h/"; iface = codes "s"; server_key = [] }

rpc-session_example :
    let call = rpc 0 service (codes "i") (codes "m") [] 2 in
    let mem = memory [] [] (rpc_buffer service (codes "i") (codes "m") [] 2) in
    let signed_in =
      (host_call (memory [] [] (codes "tok")) (set_session 0 (codes "tok")) guest).1 in
    let signed_out = (host_call none clear_session signed_in).1 in
    (host_call mem call signed_in
      ≡ posted service (codes "i") (codes "m") [] 2 entry (some (codes "tok")) signed_in)
    × (host_call mem call signed_out
        ≡ posted service (codes "i") (codes "m") [] 2 entry none signed_out)
unfolding is_utf8 first_char get bytes_eq rpc_buffer u16_to_le
rpc-session_example =
    rpc-session service (codes "i") (codes "m") [] 2 (refl, refl, refl)
      (omega arith, omega arith, omega arith, omega arith) [] [] (codes "tok") [] [] guest entry
      refl (omega arith) refl (omega arith)
