-- ===== src/SearchGuest/Handle.antt =====
-- `submit_search`, `render_results`, `on_event` and `gwb_events` of examples/search-rs/src/lib.rs.
use wasibrowser.Prelude.{
  ℕ, ◌⊎◌, inl, inr, ◌+◌, Option, none, some, Bool, false, List, [], ◌∷◌, ◌++◌, ◌==◌, ltb, not, ◌&&◌,
  if◌then◌else◌, length, codes,
}
use wasibrowser.Bytes.{Bytes, ok, ◌>>=◌}
use wasibrowser.Map.Keys.{bytes_eq}
use wasibrowser.Text.{decimal, decimal_u128, trim}
use wasibrowser.Sdk.Atom
use wasibrowser.Sdk.Kind
use wasibrowser.Sdk.Batch
use wasibrowser.Sdk.Rpc.{rpc_buffer}
use wasibrowser.Sdk.Events.{Event, Returned, decode_events}
use wasibrowser.SearchGuest.{App, Json, SearchHit, SearchResp, write, el, text_el}

-- The imports of the host that the app calls, each a step of the host's state: `gwb.rpc_call` on a
-- buffer, `gwb.navigate` on a target and flags, and `gwb.submit` on a buffer.
pub record Imports (H : Type 0) : Type 0 where
  pub rpc_call : Bytes → H → ℕ × H
  pub navigate : Bytes → ℕ → H → ℕ × H
  pub submit : Bytes → H → ℕ × H

-- `gwb::NAV_F_NEW_TAB`
abbrev pub nav_f_new_tab : ℕ
nav_f_new_tab = 1

unfoldable pub set_status : Bytes → App → App
set_status text app = write app (λ b. Batch.set_text b app.status_text text)

-- `format!("{:02}", n)`
unfoldable pub two_digits : ℕ → Bytes
two_digits n = if ltb n 10 then codes "0" ++ decimal n else decimal n

-- `if n == 1 { "" } else { "s" }`
abbrev pub plural : ℕ → Bytes
plural n = if n == 1 then [] else codes "s"

-- `{} result{} for "{}" in {}ms`
unfoldable pub summary : SearchResp → Bytes
summary resp =
    decimal (length resp.results)
    ++ (codes " result"
        ++ (plural (length resp.results)
            ++ (codes " for \""
                ++ (resp.query ++ (codes "\" in " ++ (decimal_u128 resp.took_ms ++ codes "ms"))))))

-- `{}  ·  relevance {}`
unfoldable pub meta_text : SearchHit → Bytes
meta_text hit = hit.url ++ (codes "  " ++ (194 ∷ 183 ∷ (codes "  relevance " ++ decimal hit.score)))

abbrev append : ℕ → ℕ → App → App
append parent child app = write app (λ b. Batch.append_child b parent child)

-- One result, the one with the number `i + 1`.
unfoldable pub render_hit : ℕ → SearchHit → App → App
unfolding el text_el two_digits meta_text
render_hit i hit app =
    let (row, app) = el Atom.div (codes "ws-rec") app in
    let app = append app.results row app in
    let (rank, _, app) =
      text_el Atom.span (codes "ws-rank") (codes "[" ++ (two_digits (i + 1) ++ codes "]")) app in
    let app = append row rank app in
    let (body, app) = el Atom.div (codes "ws-body") app in
    let app = append row body app in
    let (title, _, app) = text_el Atom.h3 (codes "ws-rtitle") hit.title app in
    let app = append body title app in
    let (meta, _, app) = text_el Atom.span (codes "ws-rmeta") (meta_text hit) app in
    let app = append body meta app in
    let (snip, _, app) = text_el Atom.p (codes "ws-rsnip") hit.snippet app in append body snip app

unfoldable pub render_hits : ℕ → List SearchHit → App → App
unfolding render_hit
render_hits i [] app = app
render_hits i (hit ∷ hits) app = render_hits (i + 1) hits (render_hit i hit app)

-- `if resp.results.is_empty() { .. }`
unfoldable pub render_empty : List SearchHit → App → App
unfolding text_el
render_empty [] app =
    let (empty, _, app) =
      text_el Atom.p (codes "ws-empty")
        (codes "No matches. Try \"wasm\", \"rpc\", \"capabilities\", or \"dom\".") app in
    append app.results empty app
render_empty (hit ∷ hits) app = app

unfoldable pub render_results : SearchResp → App → App
unfolding set_status summary render_hits render_empty
render_results resp app =
    let app = write app (λ b. Batch.clear b app.results) in
    let app = set_status (summary resp) app in
    render_empty resp.results (render_hits 0 resp.results app)

-- `Some(id) == pending`
unfoldable pub is_pending : ℕ → Option ℕ → Bool
is_pending id none = false
is_pending id (some pending) = id == pending

-- `match serde_json::from_str(&e.text) { .. }`
unfoldable pub show_parsed : SearchResp ⊎ Bytes → App → App
unfolding render_results set_status
show_parsed (inl resp) app = render_results resp app
show_parsed (inr message) app = set_status (codes "bad response: " ++ message) app

-- What is shown of an answer that was waited for.
unfoldable pub show_reply : Json → Event → App → App
unfolding show_parsed set_status
show_reply J e app =
    let app = record app { pending_req_id = none } in
    if not e.rpc_ok
    then set_status (codes "search failed (err_class=" ++ (decimal e.rpc_err_class ++ codes ")"))
        app
    else show_parsed (J.from_str e.text) app

module _ {H : Type 0} (I : Imports H) (J : Json) where
  -- The call of the service for a query that is not empty.
  unfoldable pub ask : Bytes → App → H → App × H
  unfolding set_status rpc_buffer
  ask q app h =
      let app = set_status (codes "searching...") app in
      let (req_id, h) =
        I.rpc_call
          (rpc_buffer (codes "search") (codes "search.query.v1") (codes "search") (J.to_vec q) 0)
          h in
      if req_id == 0
      then (set_status (codes "search unavailable (service undeclared)") app, h)
      else (record app { pending_req_id = some req_id }, h)

  unfoldable pub submit_query : Bytes → App → H → App × H
  unfolding ask
  submit_query [] app h = (app, h)
  submit_query (c ∷ q) app h = ask (c ∷ q) app h

  unfoldable pub submit_search : App → H → App × H
  unfolding submit_query trim
  submit_search app h = submit_query (trim app.query_value) app h

  unfoldable pub follow_link : Bytes → ℕ → App → H → App × H
  unfolding set_status
  follow_link target flags app h =
      let (code, h) = I.navigate target flags h in
      if code == 0
      then (app, h)
      else (set_status (codes "navigate blocked (code " ++ (decimal code ++ codes ")")) app, h)

  -- The arms of the `match` on a click.
  unfoldable pub clicked : ℕ → App → H → App × H
  unfolding submit_search follow_link
  clicked listener app h =
      if listener == app.go_btn
      then submit_search app h
      else if listener == app.link_shop
      then follow_link (codes "web://shop.local") 0 app h
      else if listener == app.link_retailer
      then follow_link (codes "web://retailer.local") nav_f_new_tab app h
      else (app, h)

  -- `match e.kind { .. }`
  unfoldable pub handled : Event → App → H → App × H
  unfolding submit_search clicked is_pending show_reply
  handled e app h =
      if e.kind == Kind.input && e.listener == app.input
      then (record app { query_value = e.text }, h)
      else if e.kind == Kind.key_down
          && (e.listener == app.input && (e.pressed && bytes_eq e.text (codes "Enter")))
      then submit_search app h
      else if e.kind == Kind.click
      then clicked e.listener app h
      else if e.kind == Kind.rpc_result && is_pending e.rpc_req_id app.pending_req_id
      then (show_reply J e app, h)
      else (app, h)

  -- The answer is always 0.
  unfoldable pub on_event : Event → App × H → Returned (ℕ × (App × H))
  unfolding handled
  on_event e (app, h) = ok (0, (handled e app h))

  -- `region` is what stands in the event region.
  unfoldable pub gwb_events : Bytes → ℕ → App → H → Returned (ℕ × App × H)
  unfolding on_event
  gwb_events region count app h = do
    (ret, state) ← decode_events on_event region count (app, h)
    let (app, h) = state
    let (status, batch, h) = Batch.submit I.submit app.batch h
    ok (ret, record app { batch = batch }, h)
