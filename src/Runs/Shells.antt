-- ===== src/Runs/Shells.antt =====
-- The browser on the small engine, with guests that ask for a navigation at each event.
use wasibrowser.Prelude.{
  ℕ, ◌+◌, ◌≤◌, ◌≡◌, ◌⊎◌, refl, true, false, none, some, [], ◌∷◌, codes, All, arith, get_elem?,
  length, take, not,
}
use wasibrowser.Bytes.{Bytes}
use wasibrowser.Utf8.{is_char_boundary, from_utf8_lossy, first_char}
use wasibrowser.Map.{Set}
use wasibrowser.Abi.Events.{padded}
use wasibrowser.Abi.Imports.Gates.{Permitted}
use wasibrowser.Guest.{new_shared, try_load}
use wasibrowser.Guest.Gestures.{HasRights, try_load-Within}
use wasibrowser.Manifest.{Json}
use wasibrowser.Shell.{written, Env, Moment, Browser, TabState, mount_maps}
use wasibrowser.Shell.Guests.{fit_body}
use wasibrowser.Shell.Bodies.{fit_body-fits}
use wasibrowser.Shell.Tabs.{close_tab}
use wasibrowser.Shell.Closing.{close_tab-active}
use wasibrowser.Shell.Chrome.{is_bookmarked}
use wasibrowser.Shell.Bookmarks.{toggle_bookmark, load_bookmarks}
use wasibrowser.Shell.Bookmarks.Saving.{Saved}
use wasibrowser.Shell.Bookmarks.Once.{Once, toggle_bookmark-flips, load_bookmarks-Once}
use wasibrowser.Shell.{stdout, stderr, broken_off}
use wasibrowser.Shell.Console.{push_chunk, max_lines}
use wasibrowser.Shell.Console.Bounds.{push_chunk-bounded}
use wasibrowser.Shell.Console.Lines.{is_line, KeepsText, push_chunk-KeepsText}
use wasibrowser.Runs.Engine.{engine}
use wasibrowser.Runs.Guests.{asker}

-- Documents that are texts, each with itself as a member, and twice in a list.
abbrev pub json : Json
json = record {
  Value = Bytes;
  get = λ v key. some v;
  as_str = λ v. some v;
  as_object = λ v. none;
  as_array = λ v. some (v ∷ v ∷ []);
  string = λ v. v;
  object = λ fields. [];
  array = λ items. [];
  to_string_pretty = λ v. some v;
}

abbrev pub world : Env
world = record { document = engine; wasm = asker; json = json; Key = Unit }

abbrev pub now : Moment world
now = record {
  read = λ path. none;
  write = λ path text. written;
  endpoint = none;
  load_error = [];
  app_key = tt;
  app_key_b64 = [];
  viewport = (1100, 800, 1);
  clock = 0;
}

abbrev pub tab : ℕ → TabState world
tab id = record {
  id = id;
  guest = none;
  maps = mount_maps 3;
  mount_node = 3;
  chip_node = 4;
  label_node = 5;
  close_node = 6;
  title = [];
  target = [];
  history = [];
  history_idx = 0;
}

-- Two tabs, of which the second is active, and an address that was typed.
abbrev pub browser : Browser world
browser = record {
  doc = [];
  log_node = 0;
  lines = [];
  partial_out = [];
  partial_err = [];
  dirty = false;
  theme_dark = false;
  manifest_root = codes "apps";
  window_id = none;
  tabs = tab 0 ∷ tab 1 ∷ [];
  active_idx = 1;
  next_tab_id = 2;
  tabs_side = false;
  addr_draft = codes " shop.wasm ";
  close_window_requested = false;
  last_frame = none;
  chrome = record {
    shell = 0;
    btn_newtab = 0;
    app_root = 0;
    console = 0;
    divider = 0;
    tb_console = 0;
    tb_clear = 0;
    tb_theme = 0;
    tb_tabpos = 0;
    ab_back = 0;
    ab_fwd = 0;
    ab_reload = 0;
    ab_input = 0;
    ab_go = 0;
    ab_bookmark = 0;
    tb_menu = 0;
    toolbar_menu = 0;
    tb_bookmarks = 0;
    bookmarks_panel = 0;
    bookmarks_empty = 0;
  };
  console_visible = false;
  console_height = 0;
  console_drag = false;
  menu_open = false;
  bookmarks = [];
  bookmarks_panel_open = false;
  bookmarks_file = none;
  sent = [];
}

close_tab-active_example :
    get_elem? (close_tab world 0 browser).tabs (close_tab world 0 browser).active_idx ≡ some (tab 1)
close_tab-active_example = close_tab-active world 0 (tab 1) browser refl (omega arith)

abbrev links : Set Bytes
links = codes "shop" ∷ []

try_load-Within_example :
    HasRights asker
      (new_shared asker tt [] 1 [] links)
      (try_load asker {Q = Bytes} tt [] (codes "a.wasm") 1 [] links).0
    × All
        (Permitted (new_shared asker {Q = Bytes} tt [] 1 [] links))
        (try_load asker {Q = Bytes} tt [] (codes "a.wasm") 1 [] links).1
try_load-Within_example = try_load-Within asker Bytes Unit tt [] (codes "a.wasm") 1 [] links

fit_body-fits_example :
    (40 + padded (length (fit_body 64 (codes "body"))) ≤ 64)
    × ((fit_body 64 (codes "body") ≡ codes "body")
        ⊎ ((n : ℕ) × (fit_body 64 (codes "body") ≡ take n (codes "body"))
            × (is_char_boundary (codes "body") n ≡ true)))
fit_body-fits_example = fit_body-fits 64 (codes "body") (omega arith)

push_chunk-bounded_example :
    length (push_chunk world stdout (codes "a\nb") browser).lines ≤ max_lines
push_chunk-bounded_example = push_chunk-bounded world stdout (codes "a\nb") browser (omega arith)

push_chunk-KeepsText_example :
    let out = push_chunk world stdout (codes "a\nb") browser in
    let err = push_chunk world stderr (codes "a\nb") browser in
    KeepsText stdout (codes "a\nb") [] (out.partial_out, out.lines)
    × (out.partial_err ≡ [])
    × KeepsText stderr (codes "a\nb") [] (err.partial_err, err.lines)
    × (err.partial_out ≡ [])
unfolding is_line from_utf8_lossy first_char
push_chunk-KeepsText_example =
    push_chunk-KeepsText world (codes "a\nb") browser (omega arith) refl refl

-- The active tab shows an address, which is bookmarked.
abbrev shop_tab : TabState world
shop_tab = record (tab 1) { title = codes "Shop"; target = codes "shop.wasm" }

abbrev marked : Browser world
marked = record browser {
  tabs = tab 0 ∷ shop_tab ∷ [];
  bookmarks =
      record { title = codes "Shop"; target = codes "shop.wasm"; row_node = 8; remove_node = 9 }
      ∷ [];
}

marked-Once : Once marked.bookmarks
unfolding Once is_bookmarked
marked-Once = (refl, tt)

-- The disk is full.
abbrev full : Moment world
full = record now { write = λ path text. broken_off [] }

toggle_bookmark-flips_example :
    (is_bookmarked (toggle_bookmark world full marked).bookmarks (codes "shop.wasm")
      ≡ not (is_bookmarked marked.bookmarks (codes "shop.wasm")))
    × Once (toggle_bookmark world full marked).bookmarks
    × Saved world full
        (toggle_bookmark world full marked).bookmarks
        none
        (toggle_bookmark world full marked).bookmarks_file
toggle_bookmark-flips_example =
    toggle_bookmark-flips world full marked shop_tab marked-Once refl refl

-- The file names one new bookmark, twice.
abbrev reading : Moment world
reading = record now { read = λ path. some (codes "news.wasm") }

load_bookmarks-Once_example : Once (load_bookmarks world reading marked).bookmarks
load_bookmarks-Once_example = load_bookmarks-Once world reading marked marked-Once
