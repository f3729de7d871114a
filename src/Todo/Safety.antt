-- ===== src/Todo/Safety.antt =====
-- `on_event` of examples/todo-rs/src/lib.rs keeps its maps in step and never panics.
use wasibrowser.Prelude.{
  ℕ, zero, suc, ◌+◌, ◌*◌, ◌-◌, ◌%◌, ◌^◌, ◌<◌, ◌≤◌, ◌≡◌, refl, sym, ◌∙◌, subst, Bool, true, false,
  not, some, [], if◌then◌else◌, ◌==◌, ◌&&◌, Bool-cases, Option-cases, inl, inr, arith,
}
use wasibrowser.Bytes.{Bytes, ok}
use wasibrowser.Map.{get, insert, remove}
use wasibrowser.Map.Keys.{nat_key}
use wasibrowser.Map.Counts.{count_at, count-remove, count-le}
use wasibrowser.Sdk.Kind
use wasibrowser.Sdk.Events.{Event}
use wasibrowser.Todo.{App, Todo, add_todo, add_todos}
use wasibrowser.Todo.Handle.{
  update_status, add_clicked, toggle_item, drop_item, remove_item, item_clicked, handled,
}
use wasibrowser.Todo.Items.{if_true, if_false, Items, Items-add, is_done, is_there}
use wasibrowser.Todo.Items.Changes.{Items-toggle, Items-remove}

abbrev pub IsConsistent : App → Type 0
IsConsistent app = Items app.todos app.by_label app.by_x app.done_count app.next_id

pub add_todo-IsConsistent :
    (text : Bytes) (app : App)
    → IsConsistent app
    → app.next_id + 5 < 2 ^ 32
    → IsConsistent (add_todo text app) × ((add_todo text app).next_id ≡ app.next_id + 5)
unfolding add_todo
add_todo-IsConsistent text app h room = (
  Items-add h _ _ _ _ refl (omega arith) (omega arith) (omega arith) (omega arith) (omega arith)
      (omega arith),
  omega arith,
)

add_todos-IsConsistent :
    (n : ℕ) (app : App)
    → IsConsistent app
    → app.next_id + 5 * n < 2 ^ 32
    → IsConsistent (add_todos n app) × ((add_todos n app).next_id ≡ app.next_id + 5 * n)
unfolding add_todos
add_todos-IsConsistent zero app h room = (h, omega arith)
add_todos-IsConsistent (suc n) app h room =
    let (first, id) = add_todo-IsConsistent [] app h (omega arith) in
    let (rest, ids) = add_todos-IsConsistent n (add_todo [] app) first (omega arith) in
    (rest, omega arith)

-- There are no more items done than items, nor more of these than nodes.
done-le : (app : App) → IsConsistent app → app.done_count ≤ app.next_id
done-le app h = omega (arith, h.counted, h.few, count-le is_done is_there app.todos (λ t e. refl))

-- An item that is done is counted.
some_done :
    (row : ℕ) (todo : Todo) (app : App)
    → IsConsistent app
    → get app.todos row ≡ some todo
    → todo.done ≡ true
    → 0 < app.done_count
some_done row todo app h there done =
    let one : count_at is_done (get app.todos row) ≡ 1 = rw (there, done) refl in
    omega (arith, h.counted, one, count-remove is_done app.todos row h.distinct)

-- What an event leads to.
pub record Leads (app app' : App) : Type 0 where
  pub consistent : IsConsistent app'
  pub ids : app'.next_id ≤ app.next_id + 500

if-Leads :
    (b : Bool) (app x y : App)
    → (b ≡ true → Leads app x)
    → (b ≡ false → Leads app y)
    → Leads app (if b then x else y)
if-Leads true app x y hx hy = hx refl
if-Leads false app x y hx hy = hy refl

toggle_item-Leads :
    (row : ℕ) (todo : Todo) (app : App)
    → IsConsistent app
    → app.next_id + 500 < 2 ^ 32
    → get app.todos row ≡ some todo
    → Leads app (toggle_item row todo app)
unfolding toggle_item update_status
toggle_item-Leads row todo app h room there =
    if-Leads (not todo.done) app _ _
      (λ now_done.
        let was_open : todo.done ≡ false = ground arith in
        record {
          consistent =
              subst flipped (if_false _ _ was_open ∙ omega (arith, done-le app h))
                (Items-toggle h row todo there);
          ids = omega arith;
        })
      (λ now_open.
        let was_done : todo.done ≡ true = ground arith in
        record {
          consistent =
              subst flipped
                (if_true _ _ was_done
                  ∙ omega (arith, done-le app h, some_done row todo app h there was_done))
                (Items-toggle h row todo there);
          ids = omega arith;
        })
  where
    flipped : ℕ → Type 0
    flipped d =
        Items (insert app.todos row (record todo { done = not todo.done })) app.by_label app.by_x d
          app.next_id

remove_item-Leads :
    (x row : ℕ) (app : App)
    → IsConsistent app
    → app.next_id + 500 < 2 ^ 32
    → get app.by_x x ≡ some row
    → Leads app (remove_item x row app)
unfolding remove_item update_status drop_item
remove_item-Leads x row app h room button =
    let (todo, there) = h.rows x row button in
    rw (remove_item, drop_item, there)
      (record {
        consistent =
            subst
              (λ d.
                Items (remove app.todos row) (remove app.by_label todo.label) (remove app.by_x x) d
                  app.next_id)
              (left todo there) (Items-remove h row todo x there button);
        ids = omega arith;
      })
  where
    left :
        (todo : Todo)
        → get app.todos row ≡ some todo
        → (if todo.done then app.done_count - 1 else app.done_count)
          ≡ (if todo.done then (app.done_count + 2 ^ 32 - 1) % 2 ^ 32 else app.done_count)
    left todo there = elim (Bool-cases todo.done) [
      | inl done ↦
          if_true _ _ done
          ∙ (omega (arith, done-le app h, some_done row todo app h there done)
              ∙ sym (if_true _ _ done))
      | inr open_item ↦ if_false _ _ open_item ∙ sym (if_false _ _ open_item)
    ]

item_clicked-Leads :
    (x : ℕ) (app : App)
    → IsConsistent app
    → app.next_id + 500 < 2 ^ 32
    → (app' : App) × (item_clicked x app ≡ ok app') × Leads app app'
unfolding item_clicked
item_clicked-Leads x app h room = elim (Option-cases (get app.by_label x)) [
  | inr (row, labelled) ↦
      let (todo, there, label) = h.labels x row labelled in
      (
        toggle_item row todo app,
        rw (item_clicked, labelled, there) refl,
        toggle_item-Leads row todo app h room there,
      )
  | inl no_label ↦ elim (Option-cases (get app.by_x x)) [
    | inr (row, button) ↦ (
      remove_item x row app,
      rw (item_clicked, no_label, button) refl,
      remove_item-Leads x row app h room button,
    )
    | inl no_button ↦ (
      app,
      rw (item_clicked, no_label, no_button) refl,
      record { consistent = h; ids = omega arith },
    )
  ]
]

-- The app handles every event, without a panic, and is consistent again.
pub handled-Leads :
    (e : Event) (app : App)
    → IsConsistent app
    → app.next_id + 500 < 2 ^ 32
    → (app' : App) × (handled e app ≡ ok app') × Leads app app'
unfolding handled
handled-Leads e app h room = elim (Bool-cases (e.kind == Kind.input && e.listener == app.input)) [
  | inl typed ↦ (
    record app { input_value = e.text },
    rw typed refl,
    record { consistent = h; ids = omega arith },
  )
  | inr n1 ↦ elim (Bool-cases (e.kind == Kind.click)) [
    | inr n2 ↦ (app, rw (n1, n2) refl, record { consistent = h; ids = omega arith })
    | inl click ↦ elim (Bool-cases (e.listener == app.add_btn)) [
      | inl add ↦ (
        add_clicked app,
        rw (n1, click, add) refl,
        let (kept, ids) =
              add_todo-IsConsistent app.input_value (record app { input_value = [] }) h
                (omega arith) in
            unfold add_clicked update_status in record { consistent = kept; ids = omega arith },
      )
      | inr n3 ↦ elim (Bool-cases (e.listener == app.hundred_btn)) [
        | inl hundred ↦ (
          update_status (add_todos 100 app),
          rw (n1, click, n3, hundred) refl,
          let (kept, ids) = add_todos-IsConsistent 100 app h (omega arith) in
              unfold update_status in record { consistent = kept; ids = omega arith },
        )
        | inr n4 ↦
            let (app', same, leads) = item_clicked-Leads e.listener app h room in
            (app', rw (n1, click, n3, n4) same, leads)
      ]
    ]
  ]
]
