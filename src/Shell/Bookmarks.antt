-- ===== src/Shell/Bookmarks.antt =====
-- The bookmarks of renderer/src/ui.rs.
pub mod Saving
pub mod Once
use wasibrowser.Prelude.{
  ℕ, true, false, Option, none, some, List, [], ◌∷◌, ◌++◌, if◌then◌else◌, ◌||◌, get_elem?, codes,
  map,
}
use wasibrowser.Bytes.{Bytes}
use wasibrowser.Manifest.{str_at, or_default}
use wasibrowser.Shell.{Env, Moment, Browser, Bookmark, WriteResult, written, broken_off, unopened}
use wasibrowser.Shell.Titles.{truncate_title, escape_html}
use wasibrowser.Shell.Chrome.{
  same_text, is_bookmarked, is_empty, set_class, set_display, refresh_bookmark_star,
  set_bookmarks_panel_open,
}
use wasibrowser.Shell.Navigation.{navigate_active}

-- `bookmarks.iter().position(|b| b.target == target)`, with `bookmarks.remove` at it: the bookmark
-- and the others.
unfoldable pub take_bookmark : List Bookmark → Bytes → Option (Bookmark × List Bookmark)
take_bookmark [] target = none
take_bookmark (b ∷ bookmarks) target = elim (take_bookmark bookmarks target) [
  | none ↦ if same_text b.target target then some (b, bookmarks) else none
  | some (found, rest) ↦
      if same_text b.target target then some (b, bookmarks) else some (found, b ∷ rest)
]

module _ (E : Env) where
  unfoldable pub create_bookmark_row : Bytes → Bytes → Browser E → (ℕ × ℕ) × Browser E
  create_bookmark_row title target s =
      let (row, d) = E.document.create_element (E.document.html_name (codes "div")) s.doc in
      let d = set_class E row (codes "bm-row") d in
      let (title_el, d) = E.document.create_element (E.document.html_name (codes "span")) d in
      let d = set_class E title_el (codes "bm-title") d in
      let d = E.document.set_inner_html title_el (escape_html (truncate_title title)) d in
      let (url_el, d) = E.document.create_element (E.document.html_name (codes "span")) d in
      let d = set_class E url_el (codes "bm-url") d in
      let d = E.document.set_inner_html url_el (escape_html target) d in
      let (remove, d) = E.document.create_element (E.document.html_name (codes "button")) d in
      let d = set_class E remove (codes "bm-remove") d in
      let d = E.document.set_inner_html remove (codes "remove") d in
      let d = E.document.append_children row (title_el ∷ url_el ∷ remove ∷ []) d in
      let d = E.document.insert_nodes_before s.chrome.bookmarks_empty (row ∷ []) d in
      ((row, remove), record s { doc = d })

  unfoldable pub refresh_bookmarks_empty_state : Browser E → Browser E
  refresh_bookmarks_empty_state s =
      let display : Bytes = elim s.bookmarks [ [] ↦ codes "block" | b ∷ bs ↦ codes "none" ] in
      record s { doc = set_display E s.chrome.bookmarks_empty display s.doc; dirty = true }

  unfoldable pub add_bookmark : Bytes → Bytes → Browser E → Browser E
  unfolding create_bookmark_row
  add_bookmark title target s =
      let ((row, remove), s') = create_bookmark_row title target s in
      let b : Bookmark = record {
        title = title;
        target = target;
        row_node = row;
        remove_node = remove;
      } in
      record s' { bookmarks = s'.bookmarks ++ (b ∷ []) }

  abbrev pub drop_bookmark : Bookmark → List Bookmark → Browser E → Browser E
  drop_bookmark b rest s = record s {
    bookmarks = rest;
    doc = E.document.remove_and_drop_node b.row_node s.doc;
  }

  -- The loop of `load_bookmarks`: an entry without a target, or with one that is there, is passed
  -- over.
  unfoldable pub add_bookmarks : List E.json.Value → Browser E → Browser E
  unfolding add_bookmark
  add_bookmarks [] s = s
  add_bookmarks (item ∷ items) s =
      let title = or_default [] (str_at E.json item (codes "title")) in
      let target = or_default [] (str_at E.json item (codes "target")) in
      add_bookmarks items (
        if is_empty target || is_bookmarked s.bookmarks target
        then s
        else add_bookmark title target s)

  -- `json!({ "title": b.title, "target": b.target })`
  abbrev pub bookmark_json : Bookmark → E.json.Value
  bookmark_json b =
      E.json.object
        ((codes "title", E.json.string b.title) ∷ (codes "target", E.json.string b.target) ∷ [])

  abbrev pub file_text : List Bookmark → Option Bytes
  file_text bookmarks = E.json.to_string_pretty (E.json.array (map bookmark_json bookmarks))

-- What a write leaves in a file.
abbrev pub left_by : WriteResult → Bytes → Option Bytes → Option Bytes
left_by written text before = some text
left_by (broken_off left) text before = some left
left_by unopened text before = before

module _ (E : Env) (now : Moment E) where
  -- What is in bookmarks.json then: without a text there is no write.
  unfoldable pub file_after : List Bookmark → Option Bytes → Option Bytes
  file_after bookmarks before = elim (file_text E bookmarks) [
    | none ↦ before
    | some text ↦ left_by (now.write (codes "bookmarks.json") text) text before
  ]

  unfoldable pub save_bookmarks : Browser E → Browser E
  unfolding file_after
  save_bookmarks s = record s { bookmarks_file = file_after s.bookmarks s.bookmarks_file }

  -- What follows a change of the bookmarks.
  unfoldable pub bookmarks_changed : Browser E → Browser E
  unfolding refresh_bookmarks_empty_state save_bookmarks
  bookmarks_changed s =
      let s' = refresh_bookmark_star E (refresh_bookmarks_empty_state E s) in
      record (save_bookmarks s') { dirty = true }

  unfoldable pub toggle_bookmark : Browser E → Browser E
  unfolding take_bookmark add_bookmark bookmarks_changed
  toggle_bookmark s = elim (get_elem? s.tabs s.active_idx) [
    | none ↦ s
    | some tab ↦ if is_empty tab.target then s else (elim (take_bookmark s.bookmarks tab.target) [
      | none ↦ bookmarks_changed (add_bookmark E tab.title tab.target s)
      | some (b, rest) ↦ bookmarks_changed (drop_bookmark E b rest s)
    ])
  ]

  unfoldable pub remove_bookmark : Bytes → Browser E → Browser E
  unfolding take_bookmark bookmarks_changed
  remove_bookmark target s = elim (take_bookmark s.bookmarks target) [
    | none ↦ s
    | some (b, rest) ↦ bookmarks_changed (drop_bookmark E b rest s)
  ]

  unfoldable pub load_bookmarks : Browser E → Browser E
  unfolding add_bookmarks refresh_bookmarks_empty_state
  load_bookmarks s = elim (now.read (codes "bookmarks.json")) [
    | none ↦ s
    | some v ↦ elim (E.json.as_array v) [
      | none ↦ s
      | some items ↦ refresh_bookmarks_empty_state E (add_bookmarks E items s)
    ]
  ]

  unfoldable pub open_bookmark : Bytes → Browser E → Browser E
  open_bookmark target s = set_bookmarks_panel_open E false (navigate_active E now target s).1
