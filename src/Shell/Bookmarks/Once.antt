-- ===== src/Shell/Bookmarks/Once.antt =====
-- Which bookmarks the operations of Shell.Bookmarks, from renderer/src/ui.rs, leave.
use wasibrowser.Prelude.{
  codes, ◌≡◌, refl, subst, Bool, true, false, not, ◌||◌, some, none, Option, List, [], ◌∷◌, ◌++◌,
  get_elem?, Option-cases, Bool-cases, inl, inr, arith,
}
use wasibrowser.Bytes.{Bytes}
use wasibrowser.Map.Keys.{bytes_eq_iff}
use wasibrowser.Manifest.{str_at, or_default}
use wasibrowser.Shell.{Moment, Env, Browser, TabState, Bookmark}
use wasibrowser.Shell.Chrome.{same_text, is_bookmarked, is_empty, refresh_bookmark_star}
use wasibrowser.Shell.Bookmarks.{
  remove_bookmark, load_bookmarks, add_bookmarks, take_bookmark, toggle_bookmark, bookmarks_changed,
  add_bookmark, create_bookmark_row, save_bookmarks, drop_bookmark, refresh_bookmarks_empty_state,
  file_after,
}
use wasibrowser.Shell.Bookmarks.Saving.{Saved, file_after-Saved}

-- No two of the bookmarks have the same target.
unfoldable pub Once : List Bookmark → Type 0
Once [] = Unit
Once (b ∷ bookmarks) = (is_bookmarked bookmarks b.target ≡ false) × Once bookmarks

same_text-sym : (a b : Bytes) → same_text a b ≡ same_text b a
same_text-sym a b = ground (arith, bytes_eq_iff a b, bytes_eq_iff b a)

is_bookmarked-append :
    (bookmarks : List Bookmark) (b : Bookmark) (target : Bytes)
    → is_bookmarked (bookmarks ++ (b ∷ [])) target
      ≡ (is_bookmarked bookmarks target || same_text b.target target)
unfolding is_bookmarked
is_bookmarked-append [] b target = ground arith
is_bookmarked-append (c ∷ bookmarks) b target =
    ground (arith, is_bookmarked-append bookmarks b target)

Once-append :
    (bookmarks : List Bookmark) (b : Bookmark)
    → Once bookmarks
    → is_bookmarked bookmarks b.target ≡ false
    → Once (bookmarks ++ (b ∷ []))
unfolding Once is_bookmarked
Once-append [] b once new = (refl, tt)
Once-append (c ∷ bookmarks) b (alone, once) new = (
  rw (is_bookmarked-append bookmarks b c.target, same_text-sym b.target c.target) ground arith,
  Once-append bookmarks b once (ground arith),
)

-- What `take_bookmark` finds, and leaves.
unfoldable Taken : List Bookmark → Bytes → Option (Bookmark × List Bookmark) → Type 0
Taken bookmarks target none = is_bookmarked bookmarks target ≡ false
Taken bookmarks target (some (b, rest)) =
    (is_bookmarked bookmarks target ≡ true)
    × (is_bookmarked rest target ≡ false)
    × Once rest
    × ((t : Bytes) → is_bookmarked bookmarks t ≡ false → is_bookmarked rest t ≡ false)

-- The first bookmark is the one that was looked for.
Taken-here :
    (b : Bookmark) (bookmarks : List Bookmark) (target : Bytes)
    → Once (b ∷ bookmarks)
    → same_text b.target target ≡ true
    → Taken (b ∷ bookmarks) target (some (b, bookmarks))
unfolding Taken Once is_bookmarked
Taken-here b bookmarks target (alone, once) here = (
  ground arith,
  subst (λ t. is_bookmarked bookmarks t ≡ false) ((bytes_eq_iff b.target target).0 here) alone,
  once,
  λ t h. ground arith,
)

-- It is another.
Taken-behind :
    (b x : Bookmark) (bookmarks rest : List Bookmark) (target : Bytes)
    → Once (b ∷ bookmarks)
    → same_text b.target target ≡ false
    → Taken bookmarks target (some (x, rest))
    → Taken (b ∷ bookmarks) target (some (x, b ∷ rest))
unfolding Taken Once is_bookmarked
Taken-behind b x bookmarks rest target (alone, once) elsewhere (there, gone, left, kept) =
    (ground arith, ground arith, (kept b.target alone, left), λ t h. ground (arith, kept t))

take_bookmark-front :
    (b : Bookmark) (bookmarks : List Bookmark) (target : Bytes)
    → Once (b ∷ bookmarks)
    → (found : Option (Bookmark × List Bookmark)) → take_bookmark bookmarks target ≡ found
    → Taken bookmarks target found
    → Taken (b ∷ bookmarks) target (take_bookmark (b ∷ bookmarks) target)
unfolding take_bookmark
take_bookmark-front b bookmarks target once none e taken =
    elim (Bool-cases (same_text b.target target)) [
      | inl here ↦ rw (e, here) (Taken-here b bookmarks target once here)
      | inr elsewhere ↦ rw (e, elsewhere) (unfold Taken is_bookmarked in ground arith)
    ]
take_bookmark-front b bookmarks target once (some (x, rest)) e taken =
    elim (Bool-cases (same_text b.target target)) [
      | inl here ↦ rw (e, here) (Taken-here b bookmarks target once here)
      | inr elsewhere ↦
          rw (e, elsewhere) (Taken-behind b x bookmarks rest target once elsewhere taken)
    ]

take_bookmark-Taken :
    (bookmarks : List Bookmark) (target : Bytes)
    → Once bookmarks
    → Taken bookmarks target (take_bookmark bookmarks target)
unfolding take_bookmark Taken Once is_bookmarked
take_bookmark-Taken [] target once = refl
take_bookmark-Taken (b ∷ bookmarks) target (alone, once) =
    take_bookmark-front b bookmarks target (alone, once) _ refl
      (take_bookmark-Taken bookmarks target once)

append-marked :
    (bookmarks : List Bookmark) (b : Bookmark)
    → is_bookmarked (bookmarks ++ (b ∷ [])) b.target ≡ true
append-marked bookmarks b =
    rw (is_bookmarked-append bookmarks b b.target, (bytes_eq_iff b.target b.target).1 refl) ground
      arith

module _ (E : Env) where
  add_bookmark-Once :
      (title target : Bytes) (s : Browser E)
      → Once s.bookmarks
      → is_bookmarked s.bookmarks target ≡ false
      → (is_bookmarked (add_bookmark E title target s).bookmarks target ≡ true)
        × Once (add_bookmark E title target s).bookmarks
  unfolding add_bookmark create_bookmark_row
  add_bookmark-Once title target s once new =
      (append-marked s.bookmarks _, Once-append s.bookmarks _ once new)

  add_bookmarks-Once :
      (items : List E.json.Value) (s : Browser E)
      → Once s.bookmarks
      → Once (add_bookmarks E items s).bookmarks
  unfolding add_bookmarks
  add_bookmarks-Once [] s once = once
  add_bookmarks-Once (item ∷ items) s once =
      let title = or_default [] (str_at E.json item (codes "title")) in
      let target = or_default [] (str_at E.json item (codes "target")) in
      elim (Bool-cases (is_empty target || is_bookmarked s.bookmarks target)) [
        | inl passed ↦ rw (add_bookmarks, passed) (add_bookmarks-Once items s once)
        | inr taken ↦
            let new : is_bookmarked s.bookmarks target ≡ false = ground arith in
            rw (add_bookmarks, taken)
              (add_bookmarks-Once items (add_bookmark E title target s)
                (add_bookmark-Once title target s once new).1)
      ]

module _ (E : Env) (now : Moment E) where
  -- What a change leaves, by the list that it was given.
  changed-Once :
      (s : Browser E) (target : Bytes) (v : Bool) (before : Option Bytes)
      → s.bookmarks_file ≡ before
      → (is_bookmarked s.bookmarks target ≡ v) × Once s.bookmarks
      → (is_bookmarked (bookmarks_changed E now s).bookmarks target ≡ v)
        × Once (bookmarks_changed E now s).bookmarks
        × Saved E now
            (bookmarks_changed E now s).bookmarks
            before
            (bookmarks_changed E now s).bookmarks_file
  unfolding bookmarks_changed save_bookmarks refresh_bookmark_star refresh_bookmarks_empty_state
  changed-Once s target v before same (marked, once) = (
    marked,
    once,
    subst (λ b. Saved E now s.bookmarks b (file_after E now s.bookmarks s.bookmarks_file)) same
        (file_after-Saved E now s.bookmarks s.bookmarks_file),
  )

  -- If no target is bookmarked twice and the active tab has a target, the star takes it in, if it is
  -- not bookmarked, and out, if it is, and no target is bookmarked twice then, however saving ends.
  -- bookmarks.json holds the text of the new list if there is one and the write succeeds; without a
  -- text, or if the file cannot be opened, it is as before; a write that breaks off leaves its part.
  pub toggle_bookmark-flips :
      (s : Browser E) (tab : TabState E)
      → Once s.bookmarks
      → get_elem? s.tabs s.active_idx ≡ some tab
      → is_empty tab.target ≡ false
      → (is_bookmarked (toggle_bookmark E now s).bookmarks tab.target
          ≡ not (is_bookmarked s.bookmarks tab.target))
        × Once (toggle_bookmark E now s).bookmarks
        × Saved E now
            (toggle_bookmark E now s).bookmarks
            s.bookmarks_file
            (toggle_bookmark E now s).bookmarks_file
  unfolding toggle_bookmark
  toggle_bookmark-flips s tab once active named =
      let taken = take_bookmark-Taken s.bookmarks tab.target once in
      elim (Option-cases (take_bookmark s.bookmarks tab.target)) [
        | inl e ↦
            let new : is_bookmarked s.bookmarks tab.target ≡ false =
              unfold Taken in subst (Taken s.bookmarks tab.target) e taken in
            rw (toggle_bookmark, active, named, e, new)
              (changed-Once (add_bookmark E tab.title tab.target s) tab.target true s.bookmarks_file
                (unfold add_bookmark create_bookmark_row in refl)
                (add_bookmark-Once E tab.title tab.target s once new))
        | inr ((b, rest), e) ↦
            let (there, gone, left, kept) : (is_bookmarked s.bookmarks tab.target ≡ true)
                × (is_bookmarked rest tab.target ≡ false)
                × Once rest
                × ((t : Bytes)
                    → is_bookmarked s.bookmarks t ≡ false
                    → is_bookmarked rest t ≡ false) =
              unfold Taken in subst (Taken s.bookmarks tab.target) e taken in
            rw (toggle_bookmark, active, named, e, there)
              (changed-Once (drop_bookmark E b rest s) tab.target false s.bookmarks_file refl
                (gone, left))
      ]

  -- If no target is bookmarked twice, removing a target leaves it not bookmarked, and no target twice.
  pub remove_bookmark-removes :
      (s : Browser E) (target : Bytes)
      → Once s.bookmarks
      → (is_bookmarked (remove_bookmark E now target s).bookmarks target ≡ false)
        × Once (remove_bookmark E now target s).bookmarks
  unfolding remove_bookmark
  remove_bookmark-removes s target once =
      let taken = take_bookmark-Taken s.bookmarks target once in
      elim (Option-cases (take_bookmark s.bookmarks target)) [
        | inl e ↦
            let new : is_bookmarked s.bookmarks target ≡ false =
              unfold Taken in subst (Taken s.bookmarks target) e taken in
            rw (remove_bookmark, e) (new, once)
        | inr ((b, rest), e) ↦
            let (there, gone, left, kept) : (is_bookmarked s.bookmarks target ≡ true)
                × (is_bookmarked rest target ≡ false)
                × Once rest
                × ((t : Bytes)
                    → is_bookmarked s.bookmarks t ≡ false
                    → is_bookmarked rest t ≡ false) =
              unfold Taken in subst (Taken s.bookmarks target) e taken in
            let (marked, single, file) =
              changed-Once (drop_bookmark E b rest s) target false s.bookmarks_file refl
                (gone, left) in
            rw (remove_bookmark, e) (marked, single)
      ]

  -- If no target is bookmarked twice, none is after bookmarks.json is read, whatever it holds.
  pub load_bookmarks-Once :
      (s : Browser E) → Once s.bookmarks → Once (load_bookmarks E now s).bookmarks
  unfolding load_bookmarks refresh_bookmarks_empty_state
  load_bookmarks-Once s once = elim (Option-cases (now.read (codes "bookmarks.json"))) [
    | inl e ↦ rw (load_bookmarks, e) once
    | inr (v, e) ↦ elim (Option-cases (E.json.as_array v)) [
      | inl none_there ↦ rw (load_bookmarks, e, none_there) once
      | inr (items, there) ↦ rw (load_bookmarks, e, there) (add_bookmarks-Once E items s once)
    ]
  ]
