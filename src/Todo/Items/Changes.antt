-- ===== src/Todo/Items/Changes.antt =====
-- The maps of `App` in examples/todo-rs/src/lib.rs after a click on an item.
use wasibrowser.Prelude.{
  ℕ, ◌+◌, ◌-◌, ◌≡◌, ◌≢◌, refl, sym, ap, ◌∙◌, true, false, not, some, if◌then◌else◌, ◌==◌,
  Bool-cases, inl, inr, arith,
}
use wasibrowser.Map.{Map, get, insert, remove}
use wasibrowser.Map.Keys.{nat_key}
use wasibrowser.Map.Counts.{
  count, count_at, insert-Distinct, remove-Distinct, count-insert, count-remove,
}
use wasibrowser.Map.Found.{
  get-insert_self, get-insert_ne, found-insert, get-remove_ne, found-remove,
}
use wasibrowser.Todo.{Todo}
use wasibrowser.Todo.Items.{Items, is_done, is_there, some_inj, if_true, if_false, same_found}

module _ {todos : Map ℕ Todo} {by_label by_x : Map ℕ ℕ} {d n : ℕ}
    (I : Items todos by_label by_x d n) where
  -- The item of a row changes between done and not done.
  pub Items-toggle :
      (row : ℕ) (todo : Todo)
      → get todos row ≡ some todo
      → Items
          (insert todos row (record todo { done = not todo.done }))
          by_label
          by_x
          (if todo.done then d - 1 else d + 1)
          n
  Items-toggle row todo there = record {
    labels = λ l r h.
        let (t, found, label) = I.labels l r h in
        elim (Bool-cases (row == r)) [
          | inl here ↦
              let same : row ≡ r = ground arith in
              (
                flipped,
                rw (← same) (get-insert_self todos row flipped),
                ap (λ (t : Todo). t.label) (same_found todos row r todo t same there found) ∙ label,
              )
          | inr other ↦
              let ne : r ≢ row = λ q. ground arith in
              (t, get-insert_ne todos row r flipped ne ∙ found, label)
        ];
    owners = λ r t h. elim (found-insert todos row r flipped t h) [
      | inl (here, same) ↦ rw (here, same) (I.owners row todo there)
      | inr (other, old) ↦ I.owners r t old
    ];
    rows = λ y r h.
        let (t, found) = I.rows y r h in
        elim (Bool-cases (row == r)) [
          | inl here ↦
              let same : row ≡ r = ground arith in
              (flipped, rw (← same) (get-insert_self todos row flipped))
          | inr other ↦
              let ne : r ≢ row = λ q. ground arith in
              (t, get-insert_ne todos row r flipped ne ∙ found)
        ];
    buttons = λ r t h. elim (found-insert todos row r flipped t h) [
      | inl (here, same) ↦ rw here (I.buttons row todo there)
      | inr (other, old) ↦ I.buttons r t old
    ];
    single = I.single;
    old_rows = λ r t h. elim (found-insert todos row r flipped t h) [
      | inl (here, same) ↦ omega (arith, I.old_rows row todo there)
      | inr (other, old) ↦ I.old_rows r t old
    ];
    old_labels = λ r t h. elim (found-insert todos row r flipped t h) [
      | inl (here, same) ↦
          omega (arith, I.old_labels row todo there, ap (λ (s : Todo). s.label) same)
      | inr (other, old) ↦ I.old_labels r t old
    ];
    old_buttons = I.old_buttons;
    distinct = insert-Distinct todos row flipped I.distinct;
    counted = elim (Bool-cases todo.done) [
      | inl done ↦
          if_true _ _ done ∙ omega (arith, I.counted, changed, at_done done, at_flipped done)
      | inr open_item ↦
          if_false _ _ open_item
          ∙ omega (arith, I.counted, changed, at_open open_item, at_reopened open_item)
    ];
    few = omega (arith, I.few, count-insert is_there todos row flipped I.distinct, at_there);
  }
    where
      flipped : Todo
      flipped = record todo { done = not todo.done }

      at_there : count_at is_there (get todos row) ≡ 1
      at_there = rw there refl

      changed :
          count is_done (insert todos row flipped) + count_at is_done (get todos row)
          ≡ count_at is_done (some flipped) + count is_done todos
      changed = count-insert is_done todos row flipped I.distinct

      at_done : todo.done ≡ true → count_at is_done (get todos row) ≡ 1
      at_done e = rw (there, e) refl

      at_flipped : todo.done ≡ true → count_at is_done (some flipped) ≡ 0
      at_flipped e = rw e refl

      at_open : todo.done ≡ false → count_at is_done (get todos row) ≡ 0
      at_open e = rw (there, e) refl

      at_reopened : todo.done ≡ false → count_at is_done (some flipped) ≡ 1
      at_reopened e = rw e refl

  -- The item of a row goes, with its label and its button.
  pub Items-remove :
      (row : ℕ) (todo : Todo) (x : ℕ)
      → get todos row ≡ some todo
      → get by_x x ≡ some row
      → Items
          (remove todos row)
          (remove by_label todo.label)
          (remove by_x x)
          (if todo.done then d - 1 else d)
          n
  Items-remove row todo x there button = record {
    labels = λ l r h.
        let (other, old) = found-remove by_label todo.label l r h in
        let (t, found, label) = I.labels l r old in
        let ne : r ≢ row = λ q.
          other (
            sym label ∙ ap (λ (t : Todo). t.label) (same_found todos r row t todo q found there)) in
        (t, get-remove_ne todos row r ne ∙ found, label);
    owners = λ r t h.
        let (other, old) = found-remove todos row r t h in
        let ne : t.label ≢ todo.label = λ q.
          other
            (some_inj (sym (I.owners r t old) ∙ ap (get by_label) q ∙ I.owners row todo there)) in
        get-remove_ne by_label todo.label t.label ne ∙ I.owners r t old;
    rows = λ y r h.
        let (other, old) = found-remove by_x x y r h in
        let (t, found) = I.rows y r old in
        let ne : r ≢ row = λ q. other (I.single y x row (old ∙ ap some q) button) in
        (t, get-remove_ne todos row r ne ∙ found);
    buttons = λ r t h.
        let (other, old) = found-remove todos row r t h in
        let (y, found) = I.buttons r t old in
        let ne : y ≢ x = λ q. other (some_inj (sym found ∙ ap (get by_x) q ∙ button)) in
        (y, get-remove_ne by_x x y ne ∙ found);
    single =
        λ y z r hy hz. I.single y z r (found-remove by_x x y r hy).1 (found-remove by_x x z r hz).1;
    old_rows = λ r t h. I.old_rows r t (found-remove todos row r t h).1;
    old_labels = λ r t h. I.old_labels r t (found-remove todos row r t h).1;
    old_buttons = λ y r h. I.old_buttons y r (found-remove by_x x y r h).1;
    distinct = remove-Distinct todos row I.distinct;
    counted = elim (Bool-cases todo.done) [
      | inl done ↦ if_true _ _ done ∙ omega (arith, I.counted, changed, at_done done)
      | inr open_item ↦
          if_false _ _ open_item ∙ omega (arith, I.counted, changed, at_open open_item)
    ];
    few = omega (arith, I.few, count-remove is_there todos row I.distinct);
  }
    where
      changed :
          count is_done (remove todos row) + count_at is_done (get todos row) ≡ count is_done todos
      changed = count-remove is_done todos row I.distinct

      at_done : todo.done ≡ true → count_at is_done (get todos row) ≡ 1
      at_done e = rw (there, e) refl

      at_open : todo.done ≡ false → count_at is_done (get todos row) ≡ 0
      at_open e = rw (there, e) refl
