-- ===== src/Abi/Rpc.antt =====
-- The request buffer of `rpc_call` in renderer/src/abi.rs, and what its thread sends and reports.
use Prim.Native.Nat.{bit_and}
use wasibrowser.Prelude.{
  ℕ, ◌+◌, Option, Bool, true, false, ◌∷◌, ◌++◌, if◌then◌else◌, ◌==◌, ltb, not, length, codes,
}
use wasibrowser.Bytes.{Bytes, Res, ok, err, ◌>>=◌, slice, u16_at}
use wasibrowser.Utf8.{from_utf8_lossy}
use wasibrowser.Text.{trim_end_matches, decimal, decimal_u128}

-- The call returns 0 and does nothing.
pub data Refused : Type 0 where
  refused : Refused

pub record RpcRequest : Type 0 where
  pub service : Bytes
  pub iface : Bytes
  pub method : Bytes
  pub payload : Bytes
  pub want_session : Bool

unfoldable pub parse_request : Bytes → Res Refused RpcRequest
parse_request buf = if ltb (length buf) 8 then err refused else do
  service_len ← u16_at buf 0
  iface_len ← u16_at buf 2
  method_len ← u16_at buf 4
  flags ← u16_at buf 6
  let head : ℕ = 8
  if ltb (length buf) (head + service_len + iface_len + method_len) then err refused else do
    service ← slice buf head (head + service_len)
    iface ← slice buf (head + service_len) (head + service_len + iface_len)
    let mstart : ℕ = head + service_len + iface_len
    method ← slice buf mstart (mstart + method_len)
    payload ← slice buf (mstart + method_len) (length buf)
    ok (record {
      service = from_utf8_lossy service;
      iface = from_utf8_lossy iface;
      method = from_utf8_lossy method;
      payload = payload;
      want_session = not (bit_and flags 2 == 0);
    })

-- `{endpoint}/rpc/{iface}/{method}`
unfoldable pub rpc_url : Bytes → Bytes → Bytes → Bytes
rpc_url endpoint iface method =
    trim_end_matches b'/' endpoint ++ (codes "/rpc/" ++ (iface ++ (codes "/" ++ method)))

-- The bytes that the app key signs; `ts` is the time and `body_hash` the hex digest of the body.
unfoldable pub canonical : Bytes → Bytes → ℕ → Bytes → Bytes → Bytes
canonical iface method req_id ts body_hash =
    iface ++ (10 ∷ (method ++ (10 ∷ (decimal req_id ++ (10 ∷ (ts ++ (10 ∷ body_hash)))))))

-- What the HTTP client answers: a response, an HTTP error status, or no answer at all.
pub data HttpResult : Type 0 where
  response : (status : ℕ) (body : Bytes) → HttpResult
  http_error : (code : ℕ) (body : Bytes) → HttpResult
  transport : (message : Bytes) → HttpResult

unfoldable pub err_class : ℕ → ℕ
err_class code =
    if code == 401
    then 2
    else if code == 403
    then 3
    else if code == 404
    then 4
    else if code == 400
    then 5
    else 6

-- `(ok, status, err_class, body)`
unfoldable pub rpc_outcome : HttpResult → Bool × ℕ × ℕ × Bytes
unfolding err_class
rpc_outcome (response status body) = (true, status, 0, body)
rpc_outcome (http_error code body) = (false, code, err_class code, body)
rpc_outcome (transport message) = (false, 0, 1, message)

-- `(ok, status, body)` of the thread of `fetch`.
unfoldable pub fetch_outcome : HttpResult → Bool × ℕ × Bytes
fetch_outcome (response status body) = (true, status, body)
fetch_outcome (http_error code body) = (false, code, body)
fetch_outcome (transport message) = (false, 0, message)

-- The headers and the body of the request that the thread of `rpc_call` posts.
pub record RpcPost : Type 0 where
  pub url : Bytes
  pub req_id : Bytes
  pub iface : Bytes
  pub app_key : Bytes
  pub sig : Bytes
  pub ts : Bytes
  pub session : Option Bytes
  pub body : Bytes

-- `sign` is ed25519, `encode` the standard base64, `sha256_hex` the hex digest; `millis` is the time.
module _ {K : Type 0} (sign : K → Bytes → Bytes) (encode sha256_hex : Bytes → Bytes) where
  unfoldable pub signed_post : K → Bytes → ℕ → ℕ → Bytes → RpcRequest → Option Bytes → RpcPost
  signed_post app_key app_key_b64 millis req_id url request session =
      let ts = decimal_u128 millis in
      let message = canonical request.iface request.method req_id ts (sha256_hex request.payload) in
      record {
        url = url;
        req_id = decimal req_id;
        iface = request.iface;
        app_key = app_key_b64;
        sig = encode (sign app_key message);
        ts = ts;
        session = session;
        body = request.payload;
      }
