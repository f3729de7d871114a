-- ===== src/Todo/Items.antt =====
-- The three maps of `App` in examples/todo-rs/src/lib.rs, which refer to one another.
pub mod Changes
use wasibrowser.Prelude.{
  ℕ, ◌+◌, ◌-◌, ◌<◌, ◌≤◌, ◌≡◌, ◌≢◌, refl, sym, ap, ◌∙◌, Bool, true, false, not, none, some,
  if◌then◌else◌, ◌==◌, Bool-cases, Option-cases, inl, inr, arith,
}
use wasibrowser.Map.{Map, get, insert, remove}
use wasibrowser.Map.Keys.{nat_key}
use wasibrowser.Map.Counts.{
  Distinct, count, count_at, insert-Distinct, remove-Distinct, count-insert, count-remove,
}
use wasibrowser.Map.Found.{
  get-insert_self, get-insert_ne, found-insert, get-remove_ne, found-remove,
}
use wasibrowser.Todo.{Todo}

abbrev pub is_done : Todo → Bool
is_done t = t.done

abbrev pub is_there : Todo → Bool
is_there t = true

-- Labels and items refer to each other, every button "x" belongs to one item and every item has one,
-- the nodes are older than the counter, and `done_count` counts the items that are done.
pub record Items (todos : Map ℕ Todo) (by_label by_x : Map ℕ ℕ) (done_count next_id : ℕ)
    : Type 0 where
  pub labels :
      (l r : ℕ) → get by_label l ≡ some r → (t : Todo) × (get todos r ≡ some t) × (t.label ≡ l)
  pub owners : (r : ℕ) (t : Todo) → get todos r ≡ some t → get by_label t.label ≡ some r
  pub rows : (x r : ℕ) → get by_x x ≡ some r → (t : Todo) × (get todos r ≡ some t)
  pub buttons : (r : ℕ) (t : Todo) → get todos r ≡ some t → (x : ℕ) × (get by_x x ≡ some r)
  pub single : (x y r : ℕ) → get by_x x ≡ some r → get by_x y ≡ some r → x ≡ y
  pub old_rows : (r : ℕ) (t : Todo) → get todos r ≡ some t → r ≤ next_id
  pub old_labels : (r : ℕ) (t : Todo) → get todos r ≡ some t → t.label ≤ next_id
  pub old_buttons : (x r : ℕ) → get by_x x ≡ some r → x ≤ next_id
  pub distinct : Distinct todos
  pub counted : done_count ≡ count is_done todos
  pub few : count is_there todos ≤ next_id

pub some_inj : {A : Type 0} {a b : A} → some a ≡ some b → a ≡ b
some_inj h = cc

pub if_true : {b : Bool} (x y : ℕ) → b ≡ true → (if b then x else y) ≡ x
if_true x y h = rw h refl

pub if_false : {b : Bool} (x y : ℕ) → b ≡ false → (if b then x else y) ≡ y
if_false x y h = rw h refl

pub same_found :
    {V : Type 0} (m : Map ℕ V) (k j : ℕ) (v w : V)
    → k ≡ j
    → get m k ≡ some v
    → get m j ≡ some w
    → v ≡ w
same_found m k j v w q h h' = some_inj (sym h ∙ ap (get m) q ∙ h')

pub none-of :
    {V : Type 0} (m : Map ℕ V) (k n : ℕ)
    → ((v : V) → get m k ≡ some v → k ≤ n)
    → n < k
    → get m k ≡ none
none-of m k n old new = elim (Option-cases (get m k)) [
  | inl e ↦ e
  | inr (v, e) ↦ absurd (omega (arith, old v e))
]

module _ {todos : Map ℕ Todo} {by_label by_x : Map ℕ ℕ} {d n : ℕ}
    (I : Items todos by_label by_x d n) where
  -- A new item, whose nodes are younger than the counter was.
  pub Items-add :
      (row : ℕ) (todo : Todo) (x n' : ℕ)
      → todo.done ≡ false
      → n < row
      → row ≤ n'
      → n < todo.label
      → todo.label ≤ n'
      → n < x
      → x ≤ n'
      → Items (insert todos row todo) (insert by_label todo.label row) (insert by_x x row) d n'
  Items-add row todo x n' undone hr hr' hl hl' hx hx' = record {
    labels = λ l r h. elim (found-insert by_label todo.label l row r h) [
      | inl (here, same) ↦ (todo, rw same (get-insert_self todos row todo), sym here)
      | inr (other, old) ↦
          let (t, found, label) = I.labels l r old in
          let ne : r ≢ row = λ q. omega (arith, I.old_rows r t found) in
          (t, get-insert_ne todos row r todo ne ∙ found, label)
    ];
    owners = λ r t h. elim (found-insert todos row r todo t h) [
      | inl (here, same) ↦ rw (here, same) (get-insert_self by_label todo.label row)
      | inr (other, old) ↦
          let ne : t.label ≢ todo.label = λ q. omega (arith, I.old_labels r t old) in
          get-insert_ne by_label todo.label t.label row ne ∙ I.owners r t old
    ];
    rows = λ y r h. elim (found-insert by_x x y row r h) [
      | inl (here, same) ↦ (todo, rw same (get-insert_self todos row todo))
      | inr (other, old) ↦
          let (t, found) = I.rows y r old in
          let ne : r ≢ row = λ q. omega (arith, I.old_rows r t found) in
          (t, get-insert_ne todos row r todo ne ∙ found)
    ];
    buttons = λ r t h. elim (found-insert todos row r todo t h) [
      | inl (here, same) ↦ (x, rw here (get-insert_self by_x x row))
      | inr (other, old) ↦
          let (y, found) = I.buttons r t old in
          let ne : y ≢ x = λ q. omega (arith, I.old_buttons y r found) in
          (y, get-insert_ne by_x x y row ne ∙ found)
    ];
    single = λ y z r hy hz. elim (found-insert by_x x y row r hy) [
      | inl (y_here, y_same) ↦ elim (found-insert by_x x z row r hz) [
        | inl (z_here, z_same) ↦ y_here ∙ sym z_here
        | inr (z_other, z_old) ↦
            let (t, found) = I.rows z r z_old in absurd (omega (arith, I.old_rows r t found))
      ]
      | inr (y_other, y_old) ↦ elim (found-insert by_x x z row r hz) [
        | inl (z_here, z_same) ↦
            let (t, found) = I.rows y r y_old in absurd (omega (arith, I.old_rows r t found))
        | inr (z_other, z_old) ↦ I.single y z r y_old z_old
      ]
    ];
    old_rows = λ r t h. elim (found-insert todos row r todo t h) [
      | inl (here, same) ↦ omega arith
      | inr (other, old) ↦ omega (arith, I.old_rows r t old)
    ];
    old_labels = λ r t h. elim (found-insert todos row r todo t h) [
      | inl (here, same) ↦ omega (arith, ap (λ (s : Todo). s.label) same)
      | inr (other, old) ↦ omega (arith, I.old_labels r t old)
    ];
    old_buttons = λ y r h. elim (found-insert by_x x y row r h) [
      | inl (here, same) ↦ omega arith
      | inr (other, old) ↦ omega (arith, I.old_buttons y r old)
    ];
    distinct = insert-Distinct todos row todo I.distinct;
    counted =
        omega (arith, I.counted, count-insert is_done todos row todo I.distinct, absent, counts);
    few = omega (arith, I.few, count-insert is_there todos row todo I.distinct);
  }
    where
      absent : count_at is_done (get todos row) ≡ 0
      absent = rw (none-of todos row n (I.old_rows row) hr) refl

      counts : count_at is_done (some todo) ≡ 0
      counts = rw undone refl
