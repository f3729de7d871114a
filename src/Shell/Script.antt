-- ===== src/Shell/Script.antt =====
-- The script driver of the browser: `ScriptCmd` of renderer/src/script.rs with `handle_script_cmd`
-- and the methods `script_*` of renderer/src/ui.rs. Dumps of the document are files, left out.
use wasibrowser.Prelude.{ℕ, Bool, true, false, ◌||◌, Option, none, some, if◌then◌else◌, codes}
use wasibrowser.Bytes.{Bytes}
use wasibrowser.Abi.DomEvents
use wasibrowser.Abi.DomEvents.{DomEvent, PointerEvent, pixels}
use wasibrowser.Shell.{Env, Moment, Browser}
use wasibrowser.Shell.Chrome.{same_text}
use wasibrowser.Shell.Navigation.{navigate_active, nav_back, nav_forward, nav_reload}
use wasibrowser.Shell.Tabs.{activate_tab, close_active_tab_script, new_tab_script}
use wasibrowser.Shell.Driver.{Screen, after_dispatch, handle_ui_event}
use wasibrowser.Shell.Ticks.{poll}

pub data ScriptCmd : Type 0 where
  click : (selector : Bytes) → ScriptCmd
  type_text : (text : Bytes) → ScriptCmd
  focus : (selector : Bytes) → ScriptCmd
  hover : (selector : Bytes) → ScriptCmd
  unhover : (selector : Bytes) → ScriptCmd
  r_click : (selector : Bytes) → ScriptCmd
  press : (name : Bytes) → ScriptCmd
  wheel : (selector : Bytes) (dy : ℕ) → ScriptCmd
  dump : (path : Bytes) → ScriptCmd
  dump_app : (path : Bytes) → ScriptCmd
  navigate : (target : Bytes) → ScriptCmd
  back : ScriptCmd
  forward : ScriptCmd
  reload : ScriptCmd
  new_tab : (target : Bytes) → ScriptCmd
  close_tab : ScriptCmd
  switch_tab : (idx : ℕ) → ScriptCmd
  quit : ScriptCmd

-- `matches!(&*el.name.local, "input" | "textarea")`
abbrev pub is_input : Option Bytes → Bool
is_input none = false
is_input (some name) = same_text name (codes "input") || same_text name (codes "textarea")

-- The keys that a script can press.
abbrev pub is_key : Bytes → Bool
is_key name =
    same_text name (codes "Enter")
    || same_text name (codes "Escape")
    || same_text name (codes "Tab")
    || same_text name (codes "End")
    || same_text name (codes "Home")

module _ (E : Env) (X : Screen E) (now : Moment E) where
  abbrev pub resolve_selector : Bytes → Browser E → Option ℕ
  resolve_selector selector s = X.query_selector selector s.doc

  unfoldable pub script_dispatch : ℕ → DomEvent → Browser E → Browser E
  unfolding after_dispatch
  script_dispatch nid event s = after_dispatch E X now (X.dom_event nid event s.doc) s

  -- What the pointer does to a text field: it is searched for again, since the guest may have put
  -- another in its place.
  unfoldable pub focus_field : Bytes → Browser E → Browser E
  unfolding script_dispatch
  focus_field selector s = elim (resolve_selector selector s) [
    | none ↦ s
    | some nid ↦
        script_dispatch nid DomEvents.focus
          (record s { doc = E.document.caret_to_end nid (E.document.set_focus_to nid s.doc) })
  ]

  unfoldable pub script_click : Bytes → Browser E → Bool × Browser E
  unfolding script_dispatch focus_field
  script_click selector s = elim (resolve_selector selector s) [
    | none ↦ (false, s)
    | some nid ↦ elim (X.synthetic_click nid s.doc) [
      | none ↦ (false, s)
      | some event ↦
          let s' = script_dispatch nid event s in
          (true, if is_input (X.element_name nid s.doc) then focus_field selector s' else s')
    ]
  ]

  unfoldable pub script_type : Bytes → Browser E → Browser E
  unfolding handle_ui_event
  script_type text s = handle_ui_event E X now (X.ime_commit text) s

  unfoldable pub script_focus : Bytes → Browser E → Bool × Browser E
  unfolding script_dispatch
  script_focus selector s = elim (resolve_selector selector s) [
    | none ↦ (false, s)
    | some nid ↦ (
      true,
      script_dispatch nid DomEvents.focus (record s { doc = E.document.set_focus_to nid s.doc }),
    )
  ]

  -- `let D::Click(pe) = event else { return false }`, with `wrap(pe)`
  abbrev pub rewrapped : (PointerEvent → DomEvent) → Option DomEvent → Option DomEvent
  rewrapped wrap (some (DomEvents.click pe)) = some (wrap pe)
  rewrapped wrap _ = none

  unfoldable pub script_pointer : Bytes → (PointerEvent → DomEvent) → Browser E → Bool × Browser E
  unfolding script_dispatch
  script_pointer selector wrap s = elim (resolve_selector selector s) [
    | none ↦ (false, s)
    | some nid ↦ elim (rewrapped wrap (X.synthetic_click nid s.doc)) [
      | none ↦ (false, s)
      | some event ↦ (true, script_dispatch nid event s)
    ]
  ]

  unfoldable pub script_wheel : Bytes → ℕ → Browser E → Bool × Browser E
  unfolding script_dispatch
  script_wheel selector dy s = elim (resolve_selector selector s) [
    | none ↦ (false, s)
    | some nid ↦ (true, script_dispatch nid (DomEvents.wheel (pixels 0 dy) 0) s)
  ]

  unfoldable pub script_key : Bytes → Browser E → Bool × Browser E
  unfolding handle_ui_event
  script_key name s =
      if is_key name then (true, handle_ui_event E X now (X.key_down name) s) else (false, s)

  -- A command but `quit`.
  unfoldable pub run_cmd : ScriptCmd → Browser E → Browser E
  unfolding script_click script_type script_focus script_pointer script_wheel script_key
  run_cmd (click selector) s = (script_click selector s).1
  run_cmd (type_text text) s = script_type text s
  run_cmd (focus selector) s = (script_focus selector s).1
  run_cmd (hover selector) s = (script_pointer selector DomEvents.pointer_enter s).1
  run_cmd (unhover selector) s = (script_pointer selector DomEvents.pointer_leave s).1
  run_cmd (r_click selector) s = (script_pointer selector DomEvents.context_menu s).1
  run_cmd (press name) s = (script_key name s).1
  run_cmd (wheel selector dy) s = (script_wheel selector dy s).1
  run_cmd (dump path) s = s
  run_cmd (dump_app path) s = s
  run_cmd (navigate target) s = (navigate_active E now target s).1
  run_cmd back s = nav_back E now s
  run_cmd forward s = nav_forward E now s
  run_cmd reload s = nav_reload E now s
  run_cmd (new_tab target) s = new_tab_script E now target s
  run_cmd close_tab s = close_active_tab_script E s
  run_cmd (switch_tab idx) s = activate_tab E idx s
  run_cmd quit s = s

  -- Whether the program ends, and the browser of a window, which is polled after a command.
  unfoldable pub handle_script_cmd : ℕ → ScriptCmd → Browser E → Bool × Browser E
  unfolding run_cmd
  handle_script_cmd instant quit s = (true, s)
  handle_script_cmd instant cmd s = (false, (poll E X now instant (run_cmd cmd s)).1)
