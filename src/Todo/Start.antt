-- ===== src/Todo/Start.antt =====
-- `App::start` and `gwb_start` of examples/todo-rs/src/lib.rs.
use wasibrowser.Prelude.{ℕ, ◌∷◌, ◌++◌, codes}
use wasibrowser.Bytes.{Bytes}
use wasibrowser.Sdk.Atom
use wasibrowser.Sdk.Kind
use wasibrowser.Sdk.Batch
use wasibrowser.Todo.{App, atom_text_decoration, new_id, on_batch, text_element}

-- `gwb::ROOT`
abbrev pub root : ℕ
root = 1

abbrev pub heading_text : Bytes
heading_text = codes "Todos " ++ (226 ∷ 128 ∷ 148 ∷ codes " Rust")

abbrev style : ℕ → ℕ → Bytes → App → App
style id prop value app = on_batch app (λ b. Batch.set_style b id prop value)

abbrev append : ℕ → ℕ → App → App
append parent child app = on_batch app (λ b. Batch.append_child b parent child)

unfoldable pub start_card : App → ℕ × App
unfolding new_id
start_card app =
    let app =
      on_batch app (λ b. Batch.define_atom b atom_text_decoration (codes "text-decoration")) in
    let (card, app) = new_id app in
    let app = on_batch app (λ b. Batch.create_element b card Atom.div) in
    let app = style card Atom.style_padding (codes "20px") app in
    let app = style card Atom.style_background (codes "#26282c") app in
    let app = style card Atom.style_border_radius (codes "10px") app in
    let app = style card Atom.style_width (codes "420px") app in (card, append root card app)

unfoldable pub start_heading : ℕ → App → App
unfolding text_element
start_heading card app =
    let (heading, app) = text_element Atom.h2 heading_text app in
    let app = style heading Atom.style_margin (codes "0 0 12px 0") app in append card heading app

unfoldable pub start_controls : ℕ → App → App
unfolding new_id text_element
start_controls card app =
    let (row, app) = new_id app in
    let app = on_batch app (λ b. Batch.create_element b row Atom.div) in
    let app = style row Atom.style_display (codes "flex") app in
    let app = style row Atom.style_gap (codes "8px") app in
    let app = style row Atom.style_margin (codes "0 0 14px 0") app in
    let app = append card row app in
    let (input, app) = new_id app in
    let app = record app { input = input } in
    let app = on_batch app (λ b. Batch.create_element b app.input Atom.input) in
    let app = on_batch app (λ b. Batch.set_attr b app.input Atom.attr_type (codes "text")) in
    let app =
      on_batch app
        (λ b. Batch.set_attr b app.input Atom.attr_placeholder (codes "What needs doing?")) in
    let app = style app.input Atom.style_width (codes "240px") app in
    let app = append row app.input app in
    let app = on_batch app (λ b. Batch.listen b app.input Kind.input) in
    let (add_btn, app) = text_element Atom.button (codes "Add") app in
    let app = record app { add_btn = add_btn } in
    let app = append row app.add_btn app in
    let app = on_batch app (λ b. Batch.listen b app.add_btn Kind.click) in
    let (hundred_btn, app) = text_element Atom.button (codes "+100") app in
    let app = record app { hundred_btn = hundred_btn } in
    let app = append row app.hundred_btn app in
    on_batch app (λ b. Batch.listen b app.hundred_btn Kind.click)

unfoldable pub start_list : ℕ → App → App
unfolding new_id
start_list card app =
    let (list, app) = new_id app in
    let app = record app { list = list } in
    let app = on_batch app (λ b. Batch.create_element b app.list Atom.div) in
    let app = append card app.list app in
    let (status, app) = new_id app in
    let app = on_batch app (λ b. Batch.create_element b status Atom.p) in
    let (status_text, app) = new_id app in
    let app = record app { status_text = status_text } in
    let app = on_batch app (λ b. Batch.create_text b app.status_text (codes "0 items, 0 done")) in
    let app = append status app.status_text app in
    let app = style status Atom.style_margin (codes "10px 0 0 0") app in
    let app = style status Atom.style_font_size (codes "12px") app in
    let app = style status Atom.style_color (codes "#9a9fa6") app in append card status app

unfoldable pub start : App → App
unfolding start_card start_heading start_controls start_list
start app =
    let (card, app) = start_card app in
    start_list card (start_controls card (start_heading card app))

-- `host` is the import `gwb.submit`. The region that is registered is the SDK's buffer.
unfoldable pub gwb_start : {H : Type 0} → (Bytes → H → ℕ × H) → App → H → App × H
unfolding start
gwb_start host app h =
    let app = start app in
    let (status, batch, h) = Batch.submit host app.batch h in (record app { batch = batch }, h)
