-- ===== src/SearchServer/Http/Answers.antt =====
-- What `handle` of search-server/src/main.rs answers, and to whom.
use wasibrowser.Prelude.{
  ℕ, ◌^◌, ◌<◌, ◌≡◌, ◌⊎◌, inl, inr, refl, sym, ap, ◌∙◌, Bool, true, Option, none, some, not, ◌||◌,
  codes, Bool-cases, Option-cases,
}
use wasibrowser.Bytes.{Bytes, Res, ok, err, panic}
use wasibrowser.Bytes.Completes.{Completes, ok-Completes, bind-Completes}
use wasibrowser.Map.Keys.{bytes_eq, bytes_eq_iff}
use wasibrowser.Text.{trim_start_matches}
use wasibrowser.Utf8.{is_char_boundary, is_continuation}
use wasibrowser.SearchServer.{Verifier, Tables}
use wasibrowser.SearchServer.Channel.{RpcError, verify_channel}
use wasibrowser.SearchServer.Channel.Window.{
  Authentic, Refuses, passes, refuses, verify_channel-Refuses, verify_channel-Authentic,
}
use wasibrowser.SearchServer.Query.{SearchResp, search}
use wasibrowser.SearchServer.Query.Order.{are_cuttable, hits_of-Completes}
use wasibrowser.SearchServer.Corpus.{corpus}
use wasibrowser.SearchServer.Http.{
  json_response, error_body, handle_method, Method, Request, Response, post, other, answer, serve,
  dispatch, handle, route, split,
}

corpus_cuttable : are_cuttable corpus ≡ true
unfolding are_cuttable is_char_boundary corpus is_continuation
corpus_cuttable = refl

of_Completes : {A : Type 0} (r : Res ⊥ A) → Completes r → (a : A) × (r ≡ ok a)
of_Completes (ok a) h = (a, refl)
of_Completes (err e) h = absurd e
of_Completes panic h = absurd (h refl)

abbrev status_of : Res ⊥ Response → ℕ
status_of (ok resp) = resp.status
status_of (err e) = 0
status_of panic = 0

search-Completes :
    (T : Tables) (took_ms : ℕ) (query : Bytes) → Completes (search T corpus took_ms query)
unfolding search
search-Completes T took_ms query =
    bind-Completes _ _ (hits_of-Completes T _ corpus corpus_cuttable) λ hits e. ok-Completes _

-- Every search of the corpus ends with results.
pub search-ok :
    (T : Tables) (took_ms : ℕ) (query : Bytes)
    → (results : SearchResp) × (search T corpus took_ms query ≡ ok results)
search-ok T took_ms query = of_Completes _ (search-Completes T took_ms query)

module _ (V : Verifier) (T : Tables) (parse : Bytes → Option Bytes) (print : SearchResp → Bytes)
    (took_ms now_ms : ℕ) where
  -- What the server can answer.
  pub data Answers (r : Request) : Response → Type 0 where
    not_found : {resp : Response} → resp.status ≡ 404 → Answers r resp
    unauthorised : {resp : Response} → resp.status ≡ 401 → Answers r resp
    bad_request : {resp : Response} → resp.status ≡ 400 → parse r.body ≡ none → Answers r resp
    found :
        {resp : Response} (q : Bytes) (results : SearchResp)
        → resp.status ≡ 200
        → parse r.body ≡ some q
        → search T corpus took_ms q ≡ ok results
        → resp.body ≡ print results
        → Answers r resp

  answer-Answers :
      (r : Request)
      → (resp : Response) × (answer V T parse print corpus took_ms now_ms r.body ≡ ok resp)
        × Answers r resp
  unfolding answer
  answer-Answers r = elim (Option-cases (parse r.body)) [
    | inl e ↦ (
      json_response 400 (error_body (codes "bad request body")),
      rw (answer, e) refl,
      bad_request refl e,
    )
    | inr (q, e) ↦
        let (results, done) = search-ok T took_ms q in
        (
          json_response 200 (print results),
          rw (answer, e, done) refl,
          found q results refl e done refl,
        )
  ]

  serve-Answers :
      (required : Bool) (r : Request) (iface meth : Bytes)
      → (resp : Response) × (serve V T parse print corpus took_ms now_ms required r iface meth
          ≡ ok resp)
        × Answers r resp
  unfolding serve
  serve-Answers required r iface meth =
      go _
        (verify_channel-Refuses V now_ms iface meth r.req_id r.app_key r.sig r.ts r.body required)
        refl
    where
      go :
          (m : Res RpcError (Unit {0}))
          → Refuses m
          → verify_channel V now_ms iface meth r.req_id r.app_key r.sig r.ts r.body required ≡ m
          → (resp : Response) × (serve V T parse print corpus took_ms now_ms required r iface meth
              ≡ ok resp)
            × Answers r resp
      go m (passes a) e =
          let (resp, done, answers) = answer-Answers r in (resp, rw (serve, e) done, answers)
      go m (refuses x h) e =
          (json_response x.status (error_body x.body), rw (serve, e) refl, unauthorised h)

  dispatch-Answers :
      (required : Bool) (r : Request) (o : Option (Bytes × Bytes))
      → (resp : Response) × (dispatch V T parse print corpus took_ms now_ms required r o ≡ ok resp)
        × Answers r resp
  unfolding dispatch
  dispatch-Answers required r none =
      (json_response 404 (error_body (codes "not found")), refl, not_found refl)
  dispatch-Answers required r (some (iface, meth)) =
      elim (Bool-cases
        (not (bytes_eq iface (codes "search.query.v1")) || not (bytes_eq meth (codes "search")))) [
          | inl unknown ↦ (
            json_response 404 (error_body (codes "unknown method")),
            rw unknown refl,
            not_found refl,
          )
          | inr known ↦
              let (resp, done, answers) = serve-Answers required r iface meth in
              (resp, rw known done, answers)
        ]

  handle_method-Answers :
      (m : Method) (required : Bool) (r : Request)
      → (resp : Response) × (handle_method V T parse print corpus took_ms now_ms m required r
          ≡ ok resp)
        × Answers r resp
  unfolding handle_method
  handle_method-Answers other required r =
      (json_response 404 (error_body (codes "not found")), refl, not_found refl)
  handle_method-Answers post required r =
      dispatch-Answers required r (route (split b'/' (trim_start_matches (codes "/") r.url)))

  -- Every request is answered: the server never panics, and its answer is a 404, a 401, a 400 for a
  -- body that does not parse, or a 200 with the results of the search for the query of the body.
  pub handle-Answers :
      (required : Bool) (r : Request)
      → (resp : Response) × (handle V T parse print corpus took_ms now_ms required r ≡ ok resp)
        × Answers r resp
  unfolding handle
  handle-Answers required r = handle_method-Answers r.method required r

  -- The request is authentic, for the one method that the server has.
  abbrev pub IsAuthentic : Request → Type 0
  IsAuthentic r =
      Authentic V now_ms (codes "search.query.v1") (codes "search") r.req_id r.app_key r.sig r.ts
        r.body

  serve-IsAuthentic :
      (r : Request) (resp : Response)
      → now_ms < 2 ^ 62
      → serve V T parse print corpus took_ms now_ms true r
          (codes "search.query.v1")
          (codes "search")
        ≡ ok resp
      → (resp.status ≡ 401) ⊎ IsAuthentic r
  unfolding serve
  serve-IsAuthentic r resp hn h =
      go _ (verify_channel-Refuses V now_ms _ _ r.req_id r.app_key r.sig r.ts r.body true) refl
    where
      go :
          (m : Res RpcError (Unit {0}))
          → Refuses m
          → verify_channel V now_ms
              (codes "search.query.v1")
              (codes "search")
              r.req_id
              r.app_key
              r.sig
              r.ts
              r.body
              true
            ≡ m
          → (resp.status ≡ 401) ⊎ IsAuthentic r
      go m (passes a) e =
          inr (verify_channel-Authentic V now_ms _ _ r.req_id r.app_key r.sig r.ts r.body hn e)
      go m (refuses x k) e =
          let same : ok (json_response x.status (error_body x.body)) ≡ ok resp =
            rw (serve, e) at h in
          inl (sym (ap status_of same) ∙ k)

  dispatch-IsAuthentic :
      (r : Request) (o : Option (Bytes × Bytes)) (resp : Response)
      → now_ms < 2 ^ 62
      → dispatch V T parse print corpus took_ms now_ms true r o ≡ ok resp
      → (resp.status ≡ 404) ⊎ ((resp.status ≡ 401) ⊎ IsAuthentic r)
  unfolding dispatch
  dispatch-IsAuthentic r none resp hn h = inl (sym (ap status_of h))
  dispatch-IsAuthentic r (some (iface, meth)) resp hn h =
      elim (Bool-cases (bytes_eq iface (codes "search.query.v1"))) [
        | inr other_iface ↦ inl (sym (ap status_of (rw other_iface at h)))
        | inl same_iface ↦ elim (Bool-cases (bytes_eq meth (codes "search"))) [
          | inr other_meth ↦ inl (sym (ap status_of (rw (same_iface, other_meth) at h)))
          | inl same_meth ↦ inr (
              serve-IsAuthentic r resp hn (
                rw
                  (
                    (bytes_eq_iff iface (codes "search.query.v1")).0 same_iface,
                    (bytes_eq_iff meth (codes "search")).0 same_meth,
                  )
                  at (rw (same_iface, same_meth) at h)))
        ]
      ]

  handle_method-IsAuthentic :
      (m : Method) (r : Request) (resp : Response)
      → now_ms < 2 ^ 62
      → handle_method V T parse print corpus took_ms now_ms m true r ≡ ok resp
      → (resp.status ≡ 404) ⊎ ((resp.status ≡ 401) ⊎ IsAuthentic r)
  unfolding handle_method
  handle_method-IsAuthentic other r resp hn h = inl (sym (ap status_of h))
  handle_method-IsAuthentic post r resp hn h = dispatch-IsAuthentic r _ resp hn h

  -- Where the channel is required, each answer but a 404 and a 401 is to a request whose key has
  -- signed the method, the id, the time and the body that it carries, at most a minute away from the
  -- server's clock, which is below 2 ^ 62.
  pub handle-IsAuthentic :
      (r : Request) (resp : Response)
      → now_ms < 2 ^ 62
      → handle V T parse print corpus took_ms now_ms true r ≡ ok resp
      → (resp.status ≡ 404) ⊎ ((resp.status ≡ 401) ⊎ IsAuthentic r)
  unfolding handle
  handle-IsAuthentic r resp hn h = handle_method-IsAuthentic r.method r resp hn h
