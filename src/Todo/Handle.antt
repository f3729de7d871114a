-- ===== src/Todo/Handle.antt =====
-- The events of examples/todo-rs/src/lib.rs: `update_status`, `on_event` and `gwb_events`.
use wasibrowser.Prelude.{
  ℕ, ◌+◌, ◌-◌, ◌%◌, ◌^◌, none, some, [], ◌++◌, ◌&&◌, ◌==◌, not, if◌then◌else◌, length, codes,
}
use wasibrowser.Bytes.{Bytes, ok, panic, ◌>>=◌}
use wasibrowser.Text.{decimal}
use wasibrowser.Map.{get, insert, remove}
use wasibrowser.Map.Keys.{nat_key}
use wasibrowser.Sdk.Atom
use wasibrowser.Sdk.Kind
use wasibrowser.Sdk.Batch
use wasibrowser.Sdk.Events.{Event, Returned, decode_events}
use wasibrowser.Todo.{App, Todo, atom_text_decoration, on_batch, add_todo, add_todos}

-- `format!("{} items, {} done", ..)`
unfoldable pub status_line : App → Bytes
status_line app =
    decimal (length app.todos) ++ (codes " items, " ++ (decimal app.done_count ++ codes " done"))

unfoldable pub update_status : App → App
unfolding status_line
update_status app = on_batch app (λ b. Batch.set_text b app.status_text (status_line app))

-- `ev::CLICK` on the button "Add".
unfoldable pub add_clicked : App → App
add_clicked app =
    let value = app.input_value in
    let app = add_todo value (record app { input_value = [] }) in
    let app = on_batch app (λ b. Batch.set_attr b app.input Atom.attr_value []) in update_status app

-- A click on the label of the item `row`.
unfoldable pub toggle_item : ℕ → Todo → App → App
toggle_item row todo app =
    let todo = record todo { done = not todo.done } in
    let app = record app { todos = insert app.todos row todo } in
    let label = todo.label in
    if todo.done
    then (let app = record app { done_count = (app.done_count + 1) % 2 ^ 32 } in
        let app = on_batch app (λ b. Batch.set_style b label Atom.style_color (codes "#9a9fa6")) in
        let app =
          on_batch app (λ b. Batch.set_style b label atom_text_decoration (codes "line-through")) in
        update_status app)
    else (let app = record app { done_count = (app.done_count + 2 ^ 32 - 1) % 2 ^ 32 } in
        let app = on_batch app (λ b. Batch.set_style b label Atom.style_color (codes "#e8e8e8")) in
        let app = on_batch app (λ b. Batch.remove_style b label atom_text_decoration) in
        update_status app)

-- `self.todos.remove(&row)`, and what follows if there was an item.
unfoldable pub drop_item : ℕ → App → App
drop_item row app = elim (get app.todos row) [
  | none ↦ app
  | some todo ↦ record app {
    todos = remove app.todos row;
    done_count = if todo.done then (app.done_count + 2 ^ 32 - 1) % 2 ^ 32 else app.done_count;
    by_label = remove app.by_label todo.label;
  }
]

-- A click on the button "x", the node `listener`, of the item `row`.
unfoldable pub remove_item : ℕ → ℕ → App → App
remove_item listener row app =
    let app = drop_item row app in
    let app = record app { by_x = remove app.by_x listener } in
    let app = on_batch app (λ b. Batch.remove b row) in update_status app

-- A click elsewhere.
unfoldable pub item_clicked : ℕ → App → Returned App
item_clicked listener app = elim (get app.by_label listener) [
  | some row ↦ elim (get app.todos row) [ none ↦ panic | some todo ↦ ok (toggle_item row todo app) ]
  | none ↦ elim (get app.by_x listener) [
    | some row ↦ ok (remove_item listener row app)
    | none ↦ ok app
  ]
]

unfoldable pub handled : Event → App → Returned App
handled e app =
    if e.kind == Kind.input && e.listener == app.input
    then ok (record app { input_value = e.text })
    else if e.kind == Kind.click
    then (if e.listener == app.add_btn
        then ok (add_clicked app)
        else if e.listener == app.hundred_btn
        then ok (update_status (add_todos 100 app))
        else item_clicked e.listener app)
    else ok app

-- The answer is always 0.
unfoldable pub on_event : Event → App → Returned (ℕ × App)
on_event e app = do app ← handled e app; ok (0, app)

-- `host` is the import `gwb.submit`; `region` is what stands in the event region.
unfoldable pub gwb_events :
    {H : Type 0} → (Bytes → H → ℕ × H) → Bytes → ℕ → App → H → Returned (ℕ × App × H)
gwb_events host region count app h = do
  (ret, app) ← decode_events on_event region count app
  let (status, batch, h) = Batch.submit host app.batch h
  ok (ret, record app { batch = batch }, h)
