-- ===== src/Todo.antt =====
-- examples/todo-rs/src/lib.rs, a guest. It is built in release mode, where arithmetic on `u32` wraps.
-- The log line that reports the time of "+100" is left out.
pub mod Start
pub mod Handle
pub mod Items
pub mod Safety
pub mod Delivery
pub mod Clicks
use wasibrowser.Prelude.{ℕ, zero, suc, ◌+◌, ◌%◌, ◌^◌, Bool, false, [], ◌++◌, codes}
use wasibrowser.Bytes.{Bytes}
use wasibrowser.Text.{decimal}
use wasibrowser.Map.{Map, insert}
use wasibrowser.Map.Keys.{nat_key}
use wasibrowser.Sdk.Atom
use wasibrowser.Sdk.Kind
use wasibrowser.Sdk.Batch
use wasibrowser.Sdk.Batch.{Batch}

abbrev pub atom_text_decoration : ℕ
atom_text_decoration = 1024

pub record Todo : Type 0 where
  pub label : ℕ
  pub text : ℕ
  pub done : Bool

-- `next_id` is the counter `NEXT_ID` of the SDK, the number that it handed out last.
pub record App : Type 0 where
  pub batch : Batch
  pub todos : Map ℕ Todo
  pub by_label : Map ℕ ℕ
  pub by_x : Map ℕ ℕ
  pub list : ℕ
  pub status_text : ℕ
  pub input : ℕ
  pub add_btn : ℕ
  pub hundred_btn : ℕ
  pub input_value : Bytes
  pub created : ℕ
  pub done_count : ℕ
  pub next_id : ℕ

-- `App::default()`, with the counter as the SDK sets it up.
abbrev pub initial : App
initial = record {
  batch = Batch.empty;
  todos = [];
  by_label = [];
  by_x = [];
  list = 0;
  status_text = 0;
  input = 0;
  add_btn = 0;
  hundred_btn = 0;
  input_value = [];
  created = 0;
  done_count = 0;
  next_id = 1;
}

-- The SDK's `new_id`.
unfoldable pub new_id : App → ℕ × App
new_id app = let id = (app.next_id + 1) % 2 ^ 32 in (id, record app { next_id = id })

-- A call of a method of `self.batch`.
abbrev pub on_batch : App → (Batch → Batch) → App
on_batch app f = record app { batch = f app.batch }

unfoldable pub text_element : ℕ → Bytes → App → ℕ × App
unfolding new_id
text_element tag text app =
    let (el, app) = new_id app in
    let app = on_batch app (λ b. Batch.create_element b el tag) in
    let (t, app) = new_id app in
    let app = on_batch app (λ b. Batch.create_text b t text) in
    (el, on_batch app (λ b. Batch.append_child b el t))

-- `format!("Item {}", self.created)` for an empty text.
unfoldable pub item_text : Bytes → ℕ → Bytes
item_text [] created = codes "Item " ++ decimal created
item_text text created = text

unfoldable pub add_todo : Bytes → App → App
unfolding new_id text_element item_text
add_todo text app =
    let app = record app { created = (app.created + 1) % 2 ^ 32 } in
    let text = item_text text app.created in
    let (row, app) = new_id app in
    let app = on_batch app (λ b. Batch.create_element b row Atom.div) in
    let app = on_batch app (λ b. Batch.set_style b row Atom.style_display (codes "flex")) in
    let app = on_batch app (λ b. Batch.set_style b row Atom.style_gap (codes "8px")) in
    let app = on_batch app (λ b. Batch.set_style b row Atom.style_margin (codes "0 0 6px 0")) in
    let (label, app) = new_id app in
    let app = on_batch app (λ b. Batch.create_element b label Atom.span) in
    let app = on_batch app (λ b. Batch.set_style b label Atom.style_cursor (codes "pointer")) in
    let (label_text, app) = new_id app in
    let app = on_batch app (λ b. Batch.create_text b label_text text) in
    let app = on_batch app (λ b. Batch.append_child b label label_text) in
    let app = on_batch app (λ b. Batch.append_child b row label) in
    let (x, app) = text_element Atom.button (codes "x") app in
    let app = on_batch app (λ b. Batch.append_child b row x) in
    let app = on_batch app (λ b. Batch.append_child b app.list row) in
    let app = on_batch app (λ b. Batch.listen b label Kind.click) in
    let app = on_batch app (λ b. Batch.listen b x Kind.click) in
    let todo : Todo = record { label = label; text = label_text; done = false } in
    record app {
      todos = insert app.todos row todo;
      by_label = insert app.by_label label row;
      by_x = insert app.by_x x row;
    }

-- `for _ in 0..n { self.add_todo("") }`
unfoldable pub add_todos : ℕ → App → App
unfolding add_todo
add_todos zero app = app
add_todos (suc n) app = add_todos n (add_todo [] app)
