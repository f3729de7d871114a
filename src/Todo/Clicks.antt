-- ===== src/Todo/Clicks.antt =====
-- A click on an item of examples/todo-rs/src/lib.rs.
use wasibrowser.Prelude.{
  ℕ, ◌≡◌, ◌≢◌, refl, sym, ap, ◌∙◌, Bool, true, false, not, some, ◌==◌, ==_iff, Bool-cases, inl, inr,
  arith,
}
use wasibrowser.Bytes.{ok}
use wasibrowser.Map.{get, insert}
use wasibrowser.Map.Keys.{nat_key}
use wasibrowser.Map.Found.{get-insert_self, get-insert_ne}
use wasibrowser.Todo.{App, Todo}
use wasibrowser.Todo.Handle.{toggle_item, item_clicked, update_status}
use wasibrowser.Todo.Safety.{IsConsistent}

abbrev pub flipped : Todo → Todo
flipped todo = record todo { done = not todo.done }

toggle_item-maps :
    (row : ℕ) (todo : Todo) (app : App)
    → ((toggle_item row todo app).todos ≡ insert app.todos row (flipped todo))
      × ((toggle_item row todo app).by_label ≡ app.by_label)
unfolding toggle_item update_status
toggle_item-maps row todo app = elim (Bool-cases (not todo.done)) [
  | inl now_done ↦ rw now_done (refl, refl)
  | inr now_open ↦ rw now_open (refl, refl)
]

-- One item is flipped and the others stay.
abbrev pub Flips : ℕ → Todo → App → App → Type 0
Flips row todo app app' =
    (get app'.todos row ≡ some (flipped todo))
    × ((r : ℕ) → r ≢ row → get app'.todos r ≡ get app.todos r)

click-Flips :
    (row : ℕ) (todo : Todo) (app : App)
    → get app.by_label todo.label ≡ some row
    → get app.todos row ≡ some todo
    → (app' : App) × (item_clicked todo.label app ≡ ok app')
      × Flips row todo app app'
      × (app'.by_label ≡ app.by_label)
unfolding item_clicked
click-Flips row todo app label item =
    let (maps, labels) = toggle_item-maps row todo app in
    (
      toggle_item row todo app,
      rw (item_clicked, label, item) refl,
      (
        ap (λ m. get m row) maps ∙ get-insert_self app.todos row (flipped todo),
        λ r other. ap (λ m. get m r) maps ∙ get-insert_ne app.todos row r (flipped todo) other,
      ),
      labels,
    )

not-not : (b : Bool) → not (not b) ≡ b
not-not true = refl
not-not false = refl

twice :
    (row : ℕ) (todo : Todo) (app app' app'' : App)
    → get app.todos row ≡ some todo
    → Flips row todo app app'
    → Flips row (flipped todo) app' app''
    → (r : ℕ) → get app''.todos r ≡ get app.todos r
twice row todo app app' app'' item (at, others) (at', others') r = elim (Bool-cases (r == row)) [
  | inl same ↦
      let e = (==_iff r row).0 same in
      ap (get app''.todos) e
      ∙ at'
      ∙ ap (λ b. some (record todo { done = b })) (not-not todo.done)
      ∙ sym item
      ∙ ap (get app.todos) (sym e)
  | inr other ↦
      let ne : r ≢ row = λ e. absurd (ground (arith, other, (==_iff r row).1 e)) in
      others' r ne ∙ others r ne
]

-- In a consistent app a click on the label of an item flips this item and no other, without a panic,
-- and a second click gives every item back as it was.
pub item_clicked-Flips :
    (app : App) (row : ℕ) (todo : Todo)
    → IsConsistent app
    → get app.todos row ≡ some todo
    → (app' : App) × (app'' : App) × (item_clicked todo.label app ≡ ok app')
      × Flips row todo app app'
      × (item_clicked todo.label app' ≡ ok app'')
      × ((r : ℕ) → get app''.todos r ≡ get app.todos r)
item_clicked-Flips app row todo h item =
    let label = h.owners row todo item in
    let (app', first, flips, labels) = click-Flips row todo app label item in
    let (app'', second, back, labels') =
      click-Flips row (flipped todo) app' (ap (λ m. get m todo.label) labels ∙ label) flips.0 in
    (app', app'', first, flips, second, twice row todo app app' app'' item flips back)
