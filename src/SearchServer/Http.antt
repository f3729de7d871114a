-- ===== src/SearchServer/Http.antt =====
-- `handle` of search-server/src/main.rs.
pub mod Answers
pub mod Interop
use wasibrowser.Prelude.{
  ℕ, Bool, true, false, Option, none, some, List, [], ◌∷◌, ◌++◌, not, ◌&&◌, ◌||◌, ◌==◌,
  if◌then◌else◌, codes,
}
use wasibrowser.Bytes.{Bytes, Res, ok, err, panic, ◌>>=◌}
use wasibrowser.Map.Keys.{bytes_eq}
use wasibrowser.Text.{trim_start_matches}
use wasibrowser.SearchServer.{Verifier, Tables}
use wasibrowser.SearchServer.Channel.{RpcError, verify_channel}
use wasibrowser.SearchServer.Query.{Doc, SearchResp, search}

pub data Method : Type 0 where
  post : Method
  other : Method

pub record Response : Type 0 where
  pub status : ℕ
  pub body : Bytes

abbrev pub json_response : ℕ → Bytes → Response
json_response status body = record { status = status; body = body }

-- `{"error":"..."}`
abbrev pub error_body : Bytes → Bytes
error_body what = codes "{\"error\":\"" ++ (what ++ codes "\"}")

-- The first part of a text that is split at `c`, and the others.
unfoldable pub split_at : ℕ → Bytes → Bytes × List Bytes
split_at c [] = ([], [])
split_at c (b ∷ s) =
    let (part, parts) = split_at c s in if b == c then ([], part ∷ parts) else (b ∷ part, parts)

-- `s.split(c).collect()`
unfoldable pub split : ℕ → Bytes → List Bytes
unfolding split_at
split c s = let (part, parts) = split_at c s in part ∷ parts

-- The service and method of a path `rpc/{iface}/{method}`.
unfoldable pub route : List Bytes → Option (Bytes × Bytes)
route (rpc ∷ iface ∷ meth ∷ []) = if bytes_eq rpc (codes "rpc") then some (iface, meth) else none
route _ = none

pub record Request : Type 0 where
  pub method : Method
  pub url : Bytes
  pub req_id : Bytes
  pub app_key : Bytes
  pub sig : Bytes
  pub ts : Bytes
  pub body : Bytes

-- `parse` reads the body as JSON, `print` writes the answer.
module _ (V : Verifier) (T : Tables) (parse : Bytes → Option Bytes) (print : SearchResp → Bytes)
    (corpus : List Doc) (took_ms now_ms : ℕ) where
  unfoldable pub answer : Bytes → Res ⊥ Response
  unfolding search
  answer body = elim (parse body) [
    | none ↦ ok (json_response 400 (error_body (codes "bad request body")))
    | some q ↦ do resp ← search T corpus took_ms q; ok (json_response 200 (print resp))
  ]

  -- The call of a method, with the channel verified first.
  unfoldable pub serve : Bool → Request → Bytes → Bytes → Res ⊥ Response
  serve require_channel r iface meth =
      elim (verify_channel V now_ms iface meth r.req_id r.app_key r.sig r.ts r.body
        require_channel) [
          | err e ↦ ok (json_response e.status (error_body e.body))
          | panic ↦ panic
          | ok _ ↦ answer r.body
        ]

  unfoldable pub dispatch : Bool → Request → Option (Bytes × Bytes) → Res ⊥ Response
  dispatch require_channel r none = ok (json_response 404 (error_body (codes "not found")))
  dispatch require_channel r (some (iface, meth)) =
      if not (bytes_eq iface (codes "search.query.v1")) || not (bytes_eq meth (codes "search"))
      then ok (json_response 404 (error_body (codes "unknown method")))
      else serve require_channel r iface meth

  unfoldable pub handle_method : Method → Bool → Request → Res ⊥ Response
  handle_method other require_channel r = ok (json_response 404 (error_body (codes "not found")))
  handle_method post require_channel r =
      dispatch require_channel r (route (split b'/' (trim_start_matches (codes "/") r.url)))

  unfoldable pub handle : Bool → Request → Res ⊥ Response
  unfolding handle_method
  handle require_channel r = handle_method r.method require_channel r
