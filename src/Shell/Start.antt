-- ===== src/Shell/Start.antt =====
-- `GwbDocument::new` of renderer/src/ui.rs.
pub mod Begins
use wasibrowser.Prelude.{
  ℕ, ◌≡◌, refl, Bool, true, false, Option, none, some, List, [], ◌∷◌, ◌++◌, codes, All, ap, ◌∙◌,
  sym, subst, map, if◌then◌else◌, ◌||◌, Option-cases, Bool-cases, inl, inr, arith,
}
use wasibrowser.Bytes.{Bytes, Res, ok, panic, ◌>>=◌}
use wasibrowser.Manifest.{str_at, or_default}
use wasibrowser.Shell.{Env, Moment, Browser, ChromeNodes, no_tab}
use wasibrowser.Shell.Chrome.{
  set_console_visible, is_empty, is_bookmarked, create_tab_chip, refresh_address_bar,
  refresh_bookmark_star,
}
use wasibrowser.Shell.Tabs.{open_new_tab, activate_tab, hide_tab}
use wasibrowser.Shell.Bookmarks.{
  add_bookmark, add_bookmarks, create_bookmark_row, load_bookmarks, refresh_bookmarks_empty_state,
}
use wasibrowser.Shell.Driver.{Screen}
use wasibrowser.Shell.Frames.{IsCalm, key, Keeps, Keeps-refl, Keeps-trans}
use wasibrowser.Shell.Pages.{refresh_address_bar-Keeps}
use wasibrowser.Shell.Strip.{Strip, Steps, IsWellFormed}
use wasibrowser.Shell.Steps.{strip, strip-Keeps}
use wasibrowser.Shell.Safety.{Sent, handle_all, HasRoom, handle_all-Goes}

-- What can only be built or panic.
abbrev pub Built : Type 0 → Type 0
Built A = Res ⊥ A

module _ (E : Env) (X : Screen E) where
  -- `doc.query_selector(s)` with a panic if there is no such node.
  unfoldable pub sel : E.document.Doc → Bytes → Built ℕ
  sel doc s = elim (X.query_selector s doc) [ none ↦ panic | some nid ↦ ok nid ]

  -- The nodes of the shell's HTML.
  unfoldable pub find_chrome : E.document.Doc → Built ChromeNodes
  unfolding sel
  find_chrome doc = do
    shell ← sel doc (codes "#shell")
    btn_newtab ← sel doc (codes "#btn-newtab")
    app_root ← sel doc (codes "#app")
    console ← sel doc (codes "#console")
    divider ← sel doc (codes "#divider")
    tb_console ← sel doc (codes "#tb-console")
    tb_clear ← sel doc (codes "#tb-clear")
    tb_theme ← sel doc (codes "#tb-theme")
    tb_tabpos ← sel doc (codes "#tb-tabpos")
    ab_back ← sel doc (codes "#ab-back")
    ab_fwd ← sel doc (codes "#ab-fwd")
    ab_reload ← sel doc (codes "#ab-reload")
    ab_input ← sel doc (codes "#ab-input")
    ab_go ← sel doc (codes "#ab-go")
    ab_bookmark ← sel doc (codes "#ab-bookmark")
    tb_menu ← sel doc (codes "#tb-menu")
    toolbar_menu ← sel doc (codes "#toolbar-menu")
    tb_bookmarks ← sel doc (codes "#tb-bookmarks")
    bookmarks_panel ← sel doc (codes "#bookmarks-panel")
    bookmarks_empty ← sel doc (codes "#bookmarks-empty")
    ok (record {
      shell = shell;
      btn_newtab = btn_newtab;
      app_root = app_root;
      console = console;
      divider = divider;
      tb_console = tb_console;
      tb_clear = tb_clear;
      tb_theme = tb_theme;
      tb_tabpos = tb_tabpos;
      ab_back = ab_back;
      ab_fwd = ab_fwd;
      ab_reload = ab_reload;
      ab_input = ab_input;
      ab_go = ab_go;
      ab_bookmark = ab_bookmark;
      tb_menu = tb_menu;
      toolbar_menu = toolbar_menu;
      tb_bookmarks = tb_bookmarks;
      bookmarks_panel = bookmarks_panel;
      bookmarks_empty = bookmarks_empty;
    })

module _ (E : Env) where
  -- The bits of `240.0` as an `f32`.
  abbrev pub first_height : ℕ
  first_height = 0x4370_0000

  -- Before the first tab.
  abbrev pub blank : E.document.Doc → Bytes → ℕ → ChromeNodes → Browser E
  blank doc manifest_root log_node chrome = record {
    doc = doc;
    log_node = log_node;
    lines = [];
    partial_out = [];
    partial_err = [];
    dirty = false;
    theme_dark = false;
    manifest_root = manifest_root;
    window_id = none;
    tabs = [];
    active_idx = no_tab;
    next_tab_id = 0;
    tabs_side = false;
    addr_draft = [];
    close_window_requested = false;
    last_frame = none;
    chrome = chrome;
    console_visible = true;
    console_height = first_height;
    console_drag = false;
    menu_open = false;
    bookmarks = [];
    bookmarks_panel_open = false;
    bookmarks_file = none;
    sent = [];
  }

  module _ (now : Moment E) where
    unfoldable pub furnish : Browser E → Browser E
    unfolding open_new_tab activate_tab set_console_visible load_bookmarks
    furnish s =
        let (idx, s') = open_new_tab E s in
        load_bookmarks E now (set_console_visible E false (activate_tab E idx s'))

    -- `doc` is what the engine makes of the shell's HTML; no browser is a panic.
    unfoldable pub new : Screen E → Bytes → E.document.Doc → Built (Browser E)
    unfolding sel find_chrome furnish
    new X manifest_root doc = do
      log_node ← sel E X doc (codes "#console-log")
      chrome ← find_chrome E X doc
      ok (furnish (blank doc manifest_root log_node chrome))
