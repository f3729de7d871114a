-- ===== src/Shell.antt =====
-- The state of `GwbDocument` of renderer/src/ui.rs: the tabs with their guests, and the browser's
-- own chrome around them.
pub mod Titles
pub mod Chrome
pub mod Guests
pub mod Navigation
pub mod Tabs
pub mod Bookmarks
pub mod Console
pub mod Actions
pub mod Hits
pub mod Driver
pub mod Ticks
pub mod Polls
pub mod Dispatches
pub mod Script
pub mod Frames
pub mod Pages
pub mod Strip
pub mod Steps
pub mod Moves
pub mod Openings
pub mod Acting
pub mod Rounds
pub mod Divider
pub mod Window
pub mod Scripted
pub mod Commands
pub mod Lines
pub mod Safety
pub mod Start
pub mod Bodies
pub mod Closing
use wasibrowser.Prelude.{
  ℕ, ◌-◌, ◌^◌, Bool, true, false, Option, none, some, List, [], ◌∷◌, ◌++◌, get_elem?, set,
}
use wasibrowser.Bytes.{Bytes}
use wasibrowser.Abi.Document.{Document}
use wasibrowser.Abi.Apply.{NodeMaps, no_maps}
use wasibrowser.Abi.Imports.{Effect, crash}
use wasibrowser.Guest.{Wasm, GuestRuntime}
use wasibrowser.Manifest.{Json}

-- The libraries that the browser stands on.
pub record Env : Type 1 where
  pub document : Document
  pub wasm : Wasm
  pub json : Json
  pub Key : Type 0

-- How `std::fs::write` ends: all is written, or it fails with a part written, or before the file is
-- opened.
pub data WriteResult : Type 0 where
  written : WriteResult
  broken_off : (left : Bytes) → WriteResult
  unopened : WriteResult

-- What a call of the browser finds outside: the files, how a write of one ends, the variable `GWB_RPC_ENDPOINT`, the
-- text of the error if a guest cannot be loaded, the app
-- key, the size of the viewport in CSS pixels and its scale, and the time since a guest was loaded.
pub record Moment (E : Env) : Type 0 where
  pub read : Bytes → Option E.json.Value
  pub write : Bytes → Bytes → WriteResult
  pub endpoint : Option Bytes
  pub load_error : Bytes
  pub app_key : E.Key
  pub app_key_b64 : Bytes
  pub viewport : ℕ × ℕ × ℕ
  pub clock : ℕ

pub record ChromeNodes : Type 0 where
  pub shell : ℕ
  pub btn_newtab : ℕ
  pub app_root : ℕ
  pub console : ℕ
  pub divider : ℕ
  pub tb_console : ℕ
  pub tb_clear : ℕ
  pub tb_theme : ℕ
  pub tb_tabpos : ℕ
  pub ab_back : ℕ
  pub ab_fwd : ℕ
  pub ab_reload : ℕ
  pub ab_input : ℕ
  pub ab_go : ℕ
  pub ab_bookmark : ℕ
  pub tb_menu : ℕ
  pub toolbar_menu : ℕ
  pub tb_bookmarks : ℕ
  pub bookmarks_panel : ℕ
  pub bookmarks_empty : ℕ

pub record Bookmark : Type 0 where
  pub title : Bytes
  pub target : Bytes
  pub row_node : ℕ
  pub remove_node : ℕ

-- Where a line of the console comes from.
pub data Source : Type 0 where
  stdout : Source
  stderr : Source
  host : Source

module _ (E : Env) where
  abbrev pub Guest : Type 0
  Guest = GuestRuntime E.wasm.Instance E.document.QualName E.Key

  pub record TabState : Type 0 where
    pub id : ℕ
    pub guest : Option Guest
    pub maps : NodeMaps
    pub mount_node : ℕ
    pub chip_node : ℕ
    pub label_node : ℕ
    pub close_node : ℕ
    pub title : Bytes
    pub target : Bytes
    pub history : List Bytes
    pub history_idx : ℕ

  -- `last_frame` is an instant, and `console_height` the bits of an `f32`. `sent` are the effects so far, and `bookmarks_file` is the text that the program has left in bookmarks.json.
  pub record Browser : Type 0 where
    pub doc : E.document.Doc
    pub log_node : ℕ
    pub lines : List (Source × Bytes)
    pub partial_out : Bytes
    pub partial_err : Bytes
    pub dirty : Bool
    pub theme_dark : Bool
    pub manifest_root : Bytes
    pub window_id : Option ℕ
    pub tabs : List TabState
    pub active_idx : ℕ
    pub next_tab_id : ℕ
    pub tabs_side : Bool
    pub addr_draft : Bytes
    pub close_window_requested : Bool
    pub last_frame : Option ℕ
    pub chrome : ChromeNodes
    pub console_visible : Bool
    pub console_height : ℕ
    pub console_drag : Bool
    pub menu_open : Bool
    pub bookmarks : List Bookmark
    pub bookmarks_panel_open : Bool
    pub bookmarks_file : Option Bytes
    pub sent : List Effect

  -- `self.tabs[idx] = tab`
  abbrev pub put_tab : Browser → ℕ → TabState → Browser
  put_tab s idx tab = record s { tabs = set s.tabs idx tab }

  abbrev pub send : Browser → List Effect → Browser
  send s out = record s { sent = s.sent ++ out }

-- `usize::MAX`: there is no active tab.
abbrev pub no_tab : ℕ
no_tab = 2 ^ 64 - 1

-- The maps of a new page: the guest's id 1 is the mount node.
abbrev pub mount_maps : ℕ → NodeMaps
mount_maps mount = record no_maps { fwd = (1, mount) ∷ []; rev = (mount, 1) ∷ [] }
