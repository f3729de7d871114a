-- ===== src/Shell/Start/Begins.antt =====
-- What holds from the start of the browser on.
use wasibrowser.Prelude.{
  ℕ, ◌≡◌, refl, false, some, List, [], ◌∷◌, codes, All, ◌∙◌, sym, subst, ◌||◌, Option-cases,
  Bool-cases, inl, inr, arith,
}
use wasibrowser.Bytes.{Bytes, ok}
use wasibrowser.Manifest.{str_at, or_default}
use wasibrowser.Shell.{Env, Moment, Browser, ChromeNodes}
use wasibrowser.Shell.Chrome.{
  set_console_visible, is_empty, is_bookmarked, create_tab_chip, refresh_address_bar,
  refresh_bookmark_star,
}
use wasibrowser.Shell.Tabs.{open_new_tab, activate_tab, hide_tab}
use wasibrowser.Shell.Bookmarks.{
  add_bookmark, add_bookmarks, create_bookmark_row, load_bookmarks, refresh_bookmarks_empty_state,
}
use wasibrowser.Shell.Driver.{Screen}
use wasibrowser.Shell.Frames.{IsCalm, Keeps, Keeps-refl, Keeps-trans}
use wasibrowser.Shell.Strip.{Strip, Steps, IsWellFormed}
use wasibrowser.Shell.Steps.{strip, strip-Keeps}
use wasibrowser.Shell.Safety.{Sent, handle_all, HasRoom, handle_all-Goes}
use wasibrowser.Shell.Start.{sel, find_chrome, blank, furnish, new}

-- One tab without a page.
abbrev pub first_strip : Strip
first_strip = record { pages = (0, [], 0) ∷ []; active = 0; next = 1 }

first_strip-IsWellFormed : IsWellFormed first_strip
first_strip-IsWellFormed = record {
  active = omega arith;
  entries = (omega arith, tt);
  used = (omega arith, tt);
  distinct = (tt, tt);
  counted = omega arith;
  small = omega arith;
}

module _ (E : Env) where
  module _ (now : Moment E) where
    add_bookmarks-Keeps :
        (items : List E.json.Value) (s : Browser E) → Keeps E s (add_bookmarks E items s)
    unfolding add_bookmarks add_bookmark create_bookmark_row
    add_bookmarks-Keeps [] s = Keeps-refl E s
    add_bookmarks-Keeps (item ∷ items) s =
        let title = or_default [] (str_at E.json item (codes "title")) in
        let target = or_default [] (str_at E.json item (codes "target")) in
        elim (Bool-cases (is_empty target || is_bookmarked s.bookmarks target)) [
          | inl passed ↦ rw (passed, add_bookmarks) (add_bookmarks-Keeps items s)
          | inr fresh ↦
              let s' = add_bookmark E title target s in
              rw (fresh, add_bookmarks)
                (Keeps-trans E s s' _
                  (record { keys = refl; active = refl; next = refl; calm = λ h. h })
                  (add_bookmarks-Keeps items s'))
        ]

    load_bookmarks-Keeps : (s : Browser E) → Keeps E s (load_bookmarks E now s)
    unfolding load_bookmarks refresh_bookmarks_empty_state
    load_bookmarks-Keeps s = elim (Option-cases (now.read (codes "bookmarks.json"))) [
      | inl e ↦ rw (e, load_bookmarks) (Keeps-refl E s)
      | inr (v, e) ↦ elim (Option-cases (E.json.as_array v)) [
        | inl e' ↦ rw (e, load_bookmarks, e') (Keeps-refl E s)
        | inr (items, e') ↦
            let k = add_bookmarks-Keeps items s in
            rw (e, load_bookmarks, e')
              (record { keys = k.keys; active = k.active; next = k.next; calm = k.calm })
      ]
    ]

  -- The first tab, shown, with the console hidden.
  first_tab : E.document.Doc → Bytes → ℕ → ChromeNodes → Browser E
  unfolding set_console_visible activate_tab open_new_tab
  first_tab doc manifest_root log_node chrome =
      let (idx, s) = open_new_tab E (blank E doc manifest_root log_node chrome) in
      set_console_visible E false (activate_tab E idx s)

  first_tab-strip :
      (doc : E.document.Doc) (manifest_root : Bytes) (log_node : ℕ) (chrome : ChromeNodes)
      → let s = first_tab doc manifest_root log_node chrome in
        (strip E s ≡ first_strip) × (s.sent ≡ [])
  unfolding first_tab open_new_tab activate_tab hide_tab create_tab_chip set_console_visible
      refresh_address_bar refresh_bookmark_star
  first_tab-strip doc manifest_root log_node chrome = (refl, refl)

-- What `new` looks up.
abbrev ids : List Bytes
ids =
    codes "#console-log"
    ∷ codes "#shell"
    ∷ codes "#btn-newtab"
    ∷ codes "#app"
    ∷ codes "#console"
    ∷ codes "#divider"
    ∷ codes "#tb-console"
    ∷ codes "#tb-clear"
    ∷ codes "#tb-theme"
    ∷ codes "#tb-tabpos"
    ∷ codes "#ab-back"
    ∷ codes "#ab-fwd"
    ∷ codes "#ab-reload"
    ∷ codes "#ab-input"
    ∷ codes "#ab-go"
    ∷ codes "#ab-bookmark"
    ∷ codes "#tb-menu"
    ∷ codes "#toolbar-menu"
    ∷ codes "#tb-bookmarks"
    ∷ codes "#bookmarks-panel"
    ∷ codes "#bookmarks-empty"
    ∷ []

module _ (E : Env) (X : Screen E) (now : Moment E) (manifest_root : Bytes) (doc : E.document.Doc)
    (node : Bytes → ℕ) where
  -- The shell's HTML has the nodes that the browser looks up.
  abbrev pub HasNodes : Type 0
  HasNodes = All (λ id. X.query_selector id doc ≡ some (node id)) ids

  abbrev chrome_of : ChromeNodes
  chrome_of = record {
    shell = node (codes "#shell");
    btn_newtab = node (codes "#btn-newtab");
    app_root = node (codes "#app");
    console = node (codes "#console");
    divider = node (codes "#divider");
    tb_console = node (codes "#tb-console");
    tb_clear = node (codes "#tb-clear");
    tb_theme = node (codes "#tb-theme");
    tb_tabpos = node (codes "#tb-tabpos");
    ab_back = node (codes "#ab-back");
    ab_fwd = node (codes "#ab-fwd");
    ab_reload = node (codes "#ab-reload");
    ab_input = node (codes "#ab-input");
    ab_go = node (codes "#ab-go");
    ab_bookmark = node (codes "#ab-bookmark");
    tb_menu = node (codes "#tb-menu");
    toolbar_menu = node (codes "#toolbar-menu");
    tb_bookmarks = node (codes "#tb-bookmarks");
    bookmarks_panel = node (codes "#bookmarks-panel");
    bookmarks_empty = node (codes "#bookmarks-empty");
  }

  -- The browser that `new` builds.
  abbrev pub built : Browser E
  built = furnish E now (blank E doc manifest_root (node (codes "#console-log")) chrome_of)

  new-built : HasNodes → new E now X manifest_root doc ≡ ok built
  unfolding new find_chrome sel
  new-built
        (
          h0,
          (
            h1,
            (
              h2,
              (
                h3,
                (
                  h4,
                  (
                    h5,
                    (
                      h6,
                      (
                        h7,
                        (
                          h8,
                          (
                            h9,
                            (
                              h10,
                              (
                                h11,
                                (h12, (h13, (h14, (h15, (h16, (h17, (h18, (h19, (h20, end))))))))),
                              ),
                            ),
                          ),
                        ),
                      ),
                    ),
                  ),
                ),
              ),
            ),
          ),
        ) =
      rw
        (
          new, find_chrome, sel, h0, h1, h2, h3, h4, h5, h6, h7, h8, h9, h10, h11, h12, h13, h14,
          h15, h16, h17, h18, h19, h20,
        )
        refl

  built-first_strip : (strip E built ≡ first_strip) × All IsCalm built.sent
  unfolding furnish first_tab
  built-first_strip =
      let (e, sent) = first_tab-strip E doc manifest_root (node (codes "#console-log")) chrome_of in
      let s = first_tab E doc manifest_root (node (codes "#console-log")) chrome_of in
      let k = load_bookmarks-Keeps E now s in (strip-Keeps E s built k ∙ e, k.calm (rw sent tt))

  -- With the shell's nodes there the browser starts, and whatever happens from then on, as long as
  -- there are ids for new tabs, its tab strip goes by steps from the one first tab, stays
  -- well-formed, and the host does not panic.
  pub new-handle_all :
      (messages : List (Sent E X))
      → HasNodes
      → HasRoom E X messages built
      → (new E now X manifest_root doc ≡ ok built)
        × Steps first_strip (strip E (handle_all E X messages built))
        × IsWellFormed (strip E (handle_all E X messages built))
        × All IsCalm (handle_all E X messages built).sent
  new-handle_all messages nodes room =
      let (e, calm) = built-first_strip in
      let w = subst IsWellFormed (sym e) first_strip-IsWellFormed in
      let (steps, w', calm') = handle_all-Goes E X messages built w room calm in
      (
        new-built nodes,
        subst (λ t. Steps t (strip E (handle_all E X messages built))) e steps,
        w',
        calm',
      )
