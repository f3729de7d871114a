-- ===== src/SearchGuest/Start.antt =====
-- `App::start` and `gwb_start` of examples/search-rs/src/lib.rs.
use wasibrowser.Prelude.{ℕ, ◌∷◌, ◌++◌, [], codes}
use wasibrowser.Bytes.{Bytes}
use wasibrowser.Sdk.Atom
use wasibrowser.Sdk.Kind
use wasibrowser.Sdk.Batch
use wasibrowser.Todo.Start.{root}
use wasibrowser.SearchGuest.{App, atom_style, write, fresh_id, el, text_el}
use wasibrowser.SearchGuest.Css.{css}

abbrev append : ℕ → ℕ → App → App
append parent child app = write app (λ b. Batch.append_child b parent child)

abbrev attr : ℕ → ℕ → Bytes → App → App
attr id name value app = write app (λ b. Batch.set_attr b id name value)

abbrev listen : ℕ → ℕ → App → App
listen id kind app = write app (λ b. Batch.listen b id kind)

abbrev pub about : Bytes
about =
    codes
      "A search engine's frontend, written entirely in Rust, talking to a Rust RPC backend on :8788. "
    ++ codes "Indexes a small corpus about how this browser works."

-- The style sheet and the card, which holds the rest.
unfoldable pub start_card : App → ℕ × App
unfolding el css
start_card app =
    let app = write app (λ b. Batch.define_atom b atom_style (codes "style")) in
    let (sheet, app) = el atom_style [] app in
    let app = write app (λ b. Batch.set_inner_html b sheet css) in
    let app = append root sheet app in
    let (card, app) = el Atom.div (codes "ws") app in
    let app = append root card app in
    let (wrap, app) = el Atom.div (codes "ws-wrap") app in (wrap, append card wrap app)

unfoldable pub start_head : ℕ → App → App
unfolding el text_el
start_head wrap app =
    let (head, app) = el Atom.div (codes "ws-head") app in
    let app = append wrap head app in
    let (title_span, _, app) = text_el Atom.span (codes "ws-title") (codes "wasm-search") app in
    let app = append head title_span app in
    let (cursor, _, app) = text_el Atom.span (codes "ws-cursor") (codes "_") app in
    let app = append head cursor app in
    let (sub, _, app) = text_el Atom.p (codes "ws-sub") about app in append wrap sub app

unfoldable pub start_bar : ℕ → App → App
unfolding el text_el
start_bar wrap app =
    let (bar, app) = el Atom.div (codes "ws-bar") app in
    let app = append wrap bar app in
    let (input, app) = el Atom.input (codes "ws-input") app in
    let app = record app { input = input } in
    let app = attr app.input Atom.attr_id (codes "q") app in
    let app = attr app.input Atom.attr_type (codes "text") app in
    let app = attr app.input Atom.attr_placeholder (codes "wasm, dom, rpc, capabilities...") app in
    let app = append bar app.input app in
    let app = listen app.input Kind.input app in
    let app = listen app.input Kind.key_down app in
    let (go, _, app) = text_el Atom.button (codes "ws-go") (codes "search") app in
    let app = record app { go_btn = go } in
    let app = attr app.go_btn Atom.attr_id (codes "search-btn") app in
    let app = append bar app.go_btn app in listen app.go_btn Kind.click app

unfoldable pub start_results : ℕ → App → App
unfolding el fresh_id
start_results wrap app =
    let (status, app) = el Atom.p (codes "ws-status") app in
    let (status_text, app) = fresh_id app in
    let app = record app { status_text = status_text } in
    let app = write app (λ b. Batch.create_text b app.status_text (codes "ready")) in
    let app = append status app.status_text app in
    let app = append wrap status app in
    let (results, app) = el Atom.div [] app in
    let app = record app { results = results } in append wrap app.results app

-- The texts begin with an arrow.
unfoldable pub start_links : ℕ → App → App
unfolding el text_el
start_links wrap app =
    let (links, app) = el Atom.div (codes "ws-links") app in
    let app = append wrap links app in
    let (shop_link, _, app) =
      text_el Atom.button (codes "ws-link")
        (226 ∷ 134 ∷ 146 ∷ codes " browse the Aurelia storefront") app in
    let app = record app { link_shop = shop_link } in
    let app = attr app.link_shop Atom.attr_id (codes "link-shop") app in
    let app = append links shop_link app in
    let app = listen app.link_shop Kind.click app in
    let (retailer_link, _, app) =
      text_el Atom.button (codes "ws-link")
        (226 ∷ 134 ∷ 146 ∷ codes " circuit. electronics (new tab)") app in
    let app = record app { link_retailer = retailer_link } in
    let app = attr app.link_retailer Atom.attr_id (codes "link-retailer") app in
    let app = append links retailer_link app in listen app.link_retailer Kind.click app

unfoldable pub start : App → App
unfolding start_card start_head start_bar start_results start_links
start app =
    let (wrap, app) = start_card app in
    start_links wrap (start_results wrap (start_bar wrap (start_head wrap app)))

-- `host` is the import `gwb.submit`. The region that is registered is the SDK's buffer.
unfoldable pub gwb_start : {H : Type 0} → (Bytes → H → ℕ × H) → App → H → App × H
unfolding start
gwb_start host app h =
    let app = start app in
    let (status, batch, h) = Batch.submit host app.batch h in (record app { batch = batch }, h)
