-- ===== src/Shell/Chrome.antt =====
-- The browser's own nodes: what `GwbDocument` of renderer/src/ui.rs shows around the pages.
use wasibrowser.Prelude.{
  ◌≡◌, ◌<◌, length, arith, ℕ, Bool, true, false, none, some, List, [], ◌∷◌, ◌++◌, not, ◌&&◌, ◌||◌,
  if◌then◌else◌, get_elem?, codes,
}
use wasibrowser.Bytes.{Bytes}
use wasibrowser.Map.Keys.{bytes_key}
use wasibrowser.Shell.{Env, Browser, Bookmark}
use wasibrowser.Shell.Titles.{truncate_title, escape_html}

abbrev pub same_text : Bytes → Bytes → Bool
same_text a b = bytes_key.beq a b

unfoldable pub is_bookmarked : List Bookmark → Bytes → Bool
is_bookmarked [] target = false
is_bookmarked (b ∷ bookmarks) target = same_text b.target target || is_bookmarked bookmarks target

abbrev pub is_empty : {A : Type 0} → List A → Bool
is_empty [] = true
is_empty (b ∷ s) = false

pub is_empty-false : {A : Type 0} (xs : List A) → is_empty xs ≡ false → 0 < length xs
is_empty-false [] h = absurd (cc h)
is_empty-false (x ∷ xs) h = omega arith

module _ (E : Env) where
  abbrev pub set_class : ℕ → Bytes → E.document.Doc → E.document.Doc
  set_class n class = E.document.set_attribute n (E.document.attr_name (codes "class")) class

  abbrev pub set_value : ℕ → Bytes → E.document.Doc → E.document.Doc
  set_value n value = E.document.set_attribute n (E.document.attr_name (codes "value")) value

  abbrev pub set_display : ℕ → Bytes → E.document.Doc → E.document.Doc
  set_display n display = E.document.set_style_property n (codes "display") display

  -- The target of the active tab, or nothing.
  abbrev pub active_target : Browser E → Bytes
  active_target s = elim (get_elem? s.tabs s.active_idx) [ none ↦ [] | some t ↦ t.target ]

  unfoldable pub refresh_bookmark_star : Browser E → Browser E
  refresh_bookmark_star s =
      let active =
        not (is_empty (active_target s)) && is_bookmarked s.bookmarks (active_target s) in
      record s {
        doc =
            E.document.set_attribute s.chrome.ab_bookmark (E.document.attr_name (codes "style"))
              (codes "color: " ++ (if active then codes "#ffb400" else codes "#9fa4ab")) s.doc;
        dirty = true;
      }

  unfoldable pub refresh_address_bar : Browser E → Browser E
  refresh_address_bar s =
      let text = active_target s in
      refresh_bookmark_star
        (record s { addr_draft = text; doc = set_value s.chrome.ab_input text s.doc; dirty = true })

  unfoldable pub update_tab_label : Browser E → ℕ → Browser E
  update_tab_label s idx = elim (get_elem? s.tabs idx) [
    | none ↦ s
    | some tab ↦ record s {
      doc = E.document.set_inner_html tab.label_node (escape_html (truncate_title tab.title)) s.doc;
      dirty = true;
    }
  ]

  -- The chip, its label and its close button, before the button for a new tab.
  unfoldable pub create_tab_chip : Bytes → Browser E → (ℕ × ℕ × ℕ) × Browser E
  create_tab_chip title s =
      let (chip, d) = E.document.create_element (E.document.html_name (codes "div")) s.doc in
      let d = set_class chip (codes "tab-chip") d in
      let (label, d) = E.document.create_element (E.document.html_name (codes "span")) d in
      let d = set_class label (codes "tab-label") d in
      let d = E.document.set_inner_html label (escape_html (truncate_title title)) d in
      let (close, d) = E.document.create_element (E.document.html_name (codes "span")) d in
      let d = set_class close (codes "tab-close") d in
      let d = E.document.set_inner_html close (codes "&times;") d in
      let d = E.document.append_children chip (label ∷ close ∷ []) d in
      let d = E.document.insert_nodes_before s.chrome.btn_newtab (chip ∷ []) d in
      ((chip, label, close), record s { doc = d })

  unfoldable pub set_bookmarks_panel_open : Bool → Browser E → Browser E
  set_bookmarks_panel_open opened s =
      if (if s.bookmarks_panel_open then opened else not opened) then s else record s {
        bookmarks_panel_open = opened;
        doc =
            set_display s.chrome.bookmarks_panel (if opened then codes "flex" else codes "none")
              s.doc;
        dirty = true;
      }

  unfoldable pub set_menu_open : Bool → Browser E → Browser E
  set_menu_open opened s = if (if s.menu_open then opened else not opened) then s else record s {
    menu_open = opened;
    doc = set_display s.chrome.toolbar_menu (if opened then codes "flex" else codes "none") s.doc;
    dirty = true;
  }

  unfoldable pub set_console_visible : Bool → Browser E → Browser E
  set_console_visible show s =
      let d = set_display s.chrome.console (if show then codes "flex" else codes "none") s.doc in
      let d = set_display s.chrome.divider (if show then codes "block" else codes "none") d in
      let label = if show then codes "hide console" else codes "show console" in
      record s {
        console_visible = show;
        doc = E.document.set_inner_html s.chrome.tb_console label d;
        dirty = true;
      }
