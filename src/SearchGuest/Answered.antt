-- ===== src/SearchGuest/Answered.antt =====
-- A search on its way from search-rs by the host of renderer/src/abi.rs to search-server/src/main.rs.
use wasibrowser.Prelude.{
  ℕ, ◌+◌, ◌%◌, ◌^◌, ◌<◌, ◌≤◌, ◌≡◌, refl, ◌∙◌, Option, none, some, true, false, List, [], ◌∷◌, ◌++◌,
  length, codes, arith, ◌==◌,
}
use wasibrowser.Bytes.{Bytes, ok}
use wasibrowser.Utf8.{is_utf8, first_char}
use wasibrowser.Text.{trim}
use wasibrowser.Map.{get}
use wasibrowser.Map.Keys.{bytes_key}
use wasibrowser.Abi.Shared.{Shared, ServiceEntry}
use wasibrowser.Abi.Rpc.{RpcRequest, parse_request, rpc_url}
use wasibrowser.Abi.Imports.{Effect, rpc_import, call_service, navigate_import, submit_import}
use wasibrowser.Sdk.Rpc.{rpc_buffer}
use wasibrowser.Wire.Submission.{guest_bytes-within}
use wasibrowser.Wire.Requests.{parse_request-rpc_buffer}
use wasibrowser.SearchServer.{Verifier, Tables}
use wasibrowser.SearchServer.Query
use wasibrowser.SearchServer.Query.{search}
use wasibrowser.SearchServer.Corpus.{corpus}
use wasibrowser.SearchServer.Http.{json_response, answer, handle}
use wasibrowser.SearchServer.Http.Answers.{search-ok}
use wasibrowser.SearchServer.Http.Interop.{Library, received, posted, handle-posted}
use wasibrowser.SearchGuest.{App, Json}
use wasibrowser.SearchGuest.Handle.{Imports, ask, submit_query, submit_search}

-- The host's imports as a guest's calls reach them: the bytes stand in the guest's memory behind
-- `front` and before `back`. The host's state, and the effects in order.
abbrev memory : Bytes → Bytes → Bytes → Option Bytes
memory front back bytes = some (front ++ (bytes ++ back))

module _ {Q K : Type 0} (front back : Bytes) where
  abbrev pub host : Imports (Shared Q K × List Effect)
  host = record {
    rpc_call = λ buf s.
        let r = rpc_import (memory front back buf) (length front) (length buf) s.0 in
        (r.0, (r.1, s.1 ++ r.2));
    navigate = λ target flags s.
        let r =
          navigate_import (memory front back target) (length front) (length target) flags s.0 in
        (r.0, (r.1, s.1 ++ r.2));
    submit = λ buf s.
        let r = submit_import (memory front back buf) (length front) (length buf) s.0 in
        (r.0, (r.1, s.1 ++ r.2));
  }

-- The request for a query.
abbrev pub request_of : Json → Bytes → RpcRequest
request_of json q = record {
  service = codes "search";
  iface = codes "search.query.v1";
  method = codes "search";
  payload = json.to_vec q;
  want_session = false;
}

parse_request-query :
    (json : Json) (q : Bytes)
    → parse_request
        (rpc_buffer (codes "search") (codes "search.query.v1") (codes "search") (json.to_vec q) 0)
      ≡ ok (request_of json q)
unfolding is_utf8 first_char
parse_request-query json q =
    parse_request-rpc_buffer (codes "search") (codes "search.query.v1") (codes "search")
      (json.to_vec q) 0 (refl, refl, refl) (omega arith, omega arith, omega arith, omega arith)

abbrev pub url_of : ServiceEntry → Bytes
url_of entry = rpc_url entry.endpoint (codes "search.query.v1") (codes "search")

-- The server's answer to the request that the host's thread signs for a query.
answer-query :
    (V : Verifier) (json : Json) (T : Tables) (parse : Bytes → Option Bytes)
    (print : Query.SearchResp → Bytes) (took_ms now : ℕ) (q : Bytes)
    → parse (json.to_vec q) ≡ some q
    → (results : Query.SearchResp) × (search T corpus took_ms q ≡ ok results)
      × (answer V T parse print corpus took_ms now (json.to_vec q)
          ≡ ok (json_response 200 (print results)))
unfolding answer
answer-query V json T parse print took_ms now q same =
    let (results, found) = search-ok T took_ms q in (results, found, rw (answer, same, found) refl)

module _ {Q : Type 0} (V : Verifier) (L : Library V) (json : Json) (front back : Bytes) where
  -- The call in the host.
  rpc_import-query :
      (q : Bytes) (g : Shared Q L.K) (entry : ServiceEntry)
      → get g.services (codes "search") ≡ some entry
      → g.next_rpc_id + 1 < 2 ^ 32
      → let buf =
          rpc_buffer
            (codes "search")
            (codes "search.query.v1")
            (codes "search")
            (json.to_vec q)
            0 in
        rpc_import (memory front back buf) (length front) (length buf) g ≡ (
          g.next_rpc_id + 1,
          record g { next_rpc_id = g.next_rpc_id + 1 },
          Effect.rpc_post
                (g.next_rpc_id + 1)
                (rpc_url entry.endpoint (codes "search.query.v1") (codes "search"))
                (request_of json q)
                none
              ∷ [],
        )
  unfolding rpc_import call_service
  rpc_import-query q g entry declared room =
      let buf : Bytes =
        rpc_buffer (codes "search") (codes "search.query.v1") (codes "search") (json.to_vec q) 0 in
      let id : (g.next_rpc_id + 1) % 2 ^ 32 ≡ g.next_rpc_id + 1 = omega arith in
      rw
        (
          rpc_import,
          guest_bytes-within front buf back,
          parse_request-query json q,
          call_service,
          declared,
          id,
        )
        refl

  abbrev pub id_of : Shared Q L.K → ℕ
  id_of g = g.next_rpc_id + 1

  ask-posts :
      (q : Bytes) (app : App) (g : Shared Q L.K) (effects : List Effect) (entry : ServiceEntry)
      → get g.services (codes "search") ≡ some entry
      → g.next_rpc_id + 1 < 2 ^ 32
      → let (app', s) = ask (host front back) json q app (g, effects) in
        (app'.pending_req_id ≡ some (id_of g))
        × (s.1
            ≡ effects ++ (Effect.rpc_post (id_of g) (url_of entry) (request_of json q) none ∷ []))
  unfolding ask
  ask-posts q app g effects entry declared room =
      let called = rpc_import-query q g entry declared room in
      let busy : (g.next_rpc_id + 1 == 0) ≡ false = ground arith in rw (called, busy) (refl, refl)

  submit_search-posts :
      (c : ℕ) (q : Bytes) (app : App) (g : Shared Q L.K) (effects : List Effect)
      (entry : ServiceEntry)
      → trim app.query_value ≡ c ∷ q
      → get g.services (codes "search") ≡ some entry
      → g.next_rpc_id + 1 < 2 ^ 32
      → let (app', s) = submit_search (host front back) json app (g, effects) in
        (app'.pending_req_id ≡ some (id_of g))
        × (s.1
            ≡ effects
              ++ (Effect.rpc_post (id_of g) (url_of entry) (request_of json (c ∷ q)) none ∷ []))
  unfolding submit_search submit_query
  submit_search-posts c q app g effects entry typed declared room =
      rw typed (ask-posts (c ∷ q) app g effects entry declared room)

  -- A query that is not blank is searched: if the manifest declares the service `search`, the guest
  -- waits for the id of the request that the host posts to it, and the server, which gets it as the
  -- host signs it, answers 200 with the results of the search for the trimmed query. The server reads
  -- the query that the guest wrote as JSON, the two clocks are at most a minute apart, and neither
  -- they nor the counter of requests overflow.
  pub submit_search-answered :
      (T : Tables) (parse : Bytes → Option Bytes) (print : Query.SearchResp → Bytes)
      (took_ms millis now c : ℕ) (q : Bytes) (app : App) (g : Shared Q L.K) (effects : List Effect)
      (entry : ServiceEntry)
      → trim app.query_value ≡ c ∷ q
      → get g.services (codes "search") ≡ some entry
      → g.next_rpc_id + 1 < 2 ^ 32
      → parse (json.to_vec (c ∷ q)) ≡ some (c ∷ q)
      → millis < 2 ^ 62
      → now < 2 ^ 62
      → now ≤ millis + 60_000
      → millis ≤ now + 60_000
      → let (app', s) = submit_search (host front back) json app (g, effects) in
        (request : RpcRequest) × (results : Query.SearchResp) × (app'.pending_req_id
          ≡ some (id_of g))
        × (s.1 ≡ effects ++ (Effect.rpc_post (id_of g) (url_of entry) request none ∷ []))
        × (search T corpus took_ms (c ∷ q) ≡ ok results)
        × (handle V T parse print corpus took_ms now true (
              received V L request
                (posted V L g.app_key millis now (id_of g) (url_of entry) request none))
            ≡ ok (json_response 200 (print results)))
  submit_search-answered T parse print took_ms millis now c q app g effects entry typed declared
        room same small now_small late early =
      let (waits, posts) = submit_search-posts c q app g effects entry typed declared room in
      let (results, found, answered) = answer-query V json T parse print took_ms now (c ∷ q) same in
      (
        request_of json (c ∷ q),
        results,
        waits,
        posts,
        found,
        handle-posted V L g.app_key millis now (id_of g) (url_of entry) (request_of json (c ∷ q))
              none T parse print corpus took_ms refl refl small now_small late early
            ∙ answered,
      )
