-- ===== src/Shell/Driver.antt =====
-- How renderer/src/ui.rs drives the engine: `dispatch_with_shell_handler`, `check_observations` and
-- `handle_ui_event`. What the engine lays out and whom it hands its events are parameters.
use Prim.Native.Nat.{bit_and}
use wasibrowser.Prelude.{
  ℕ, ◌≡◌, ◌==◌, Bool, true, false, Option, none, some, List, [], ◌∷◌, ◌++◌, if◌then◌else◌, ltb,
  get_elem?,
}
use wasibrowser.Bytes.{Bytes}
use wasibrowser.Map.{get, insert}
use wasibrowser.Map.Keys.{nat_key}
use wasibrowser.Abi.Apply.{NodeMaps, Rect}
use wasibrowser.Abi.DomEvents.{DomEvent, Floats}
use wasibrowser.Abi.Events.{layout_rect}
use wasibrowser.Guest.{Verdict, deliver_event}
use wasibrowser.Shell.{Env, Moment, Browser, put_tab, send}
use wasibrowser.Shell.Actions.{ChromeAction, process_chrome_actions}
use wasibrowser.Shell.Guests.{apply_guest_batches_for}
use wasibrowser.Shell.Hits.Active.{route_event}
use wasibrowser.Shell.Navigation.{panics}

-- A run of the engine's `EventDriver`: what it hands to the handler, one event after the other and
-- depending on what the handler told it, and the document that it leaves.
pub data Dispatch (Doc : Type 0) : Type 0 where
  finishes : (doc : Doc) → Dispatch Doc
  handles :
      (event : DomEvent) (chain : List ℕ) (target : ℕ) (cancelable : Bool)
      (next : Verdict → Dispatch Doc)
      → Dispatch Doc

-- The arithmetic on an `f32` and an `f64`, each as its bits: `x <= 0.0`, `(y / scale) as f32`, `a - b`,
-- `a.max(b)`, `a <= b`, `a < b`, `(a - b).abs() >= 1.0` and `format!("{}px", a.round())`. The larger one
-- of a number and 48 is at least 48.
pub record Lengths : Type 0 where
  pub is_nonpositive : ℕ → Bool
  pub css : ℕ → ℕ → ℕ
  pub sub : ℕ → ℕ → ℕ
  pub max : ℕ → ℕ → ℕ
  pub le : ℕ → ℕ → Bool
  pub lt : ℕ → ℕ → Bool
  pub are_apart : ℕ → ℕ → Bool
  pub px : ℕ → Bytes
  pub le_max : (a : ℕ) → le 0x4240_0000 (max a 0x4240_0000) ≡ true

-- The engine as the browser asks it: its event driver, the layout of a node that is there, the
-- comparison of rectangles, the milliseconds between two instants as the bits of an `f32`, the
-- search for a node, its name if it is an element, and its synthetic click, if the node is there. The
-- last two make the events of a committed text and of a named key.
pub record Screen (E : Env) : Type 1 where
  pub UiEvent : Type 0
  pub ui_event : UiEvent → E.document.Doc → Dispatch E.document.Doc
  pub dom_event : ℕ → DomEvent → E.document.Doc → Dispatch E.document.Doc
  pub floats : Floats
  pub lengths : Lengths
  pub layout : ℕ → E.document.Doc → Option Rect
  pub same_rect : Rect → Rect → Bool
  pub ms_between : ℕ → ℕ → ℕ
  pub query_selector : Bytes → E.document.Doc → Option ℕ
  pub element_name : ℕ → E.document.Doc → Option Bytes
  pub synthetic_click : ℕ → E.document.Doc → Option DomEvent
  pub ime_commit : Bytes → UiEvent
  pub key_down : Bytes → UiEvent

-- The flag `LAYOUT` of an observer.
abbrev pub obs_layout : ℕ
obs_layout = 1

module _ (E : Env) (X : Screen E) where
  -- `maps.last_rects.get(&gid) == Some(&rect)`
  abbrev pub is_known : NodeMaps → ℕ → Rect → Bool
  is_known maps gid rect = elim (get maps.last_rects gid) [
    | none ↦ false
    | some last ↦ X.same_rect last rect
  ]

  -- The loop that collects the rectangles that have changed, over the observers.
  unfoldable pub changed_rects : NodeMaps → E.document.Doc → List (ℕ × ℕ) → List (ℕ × Rect)
  changed_rects maps doc [] = []
  changed_rects maps doc ((gid, what) ∷ observers) =
      let rest = changed_rects maps doc observers in
      if bit_and what obs_layout == 0 then rest else (elim (get maps.fwd gid) [
        | none ↦ rest
        | some nid ↦ elim (X.layout nid doc) [
          | none ↦ rest
          | some rect ↦ if is_known maps gid rect then rest else (gid, rect) ∷ rest
        ]
      ])

module _ (E : Env) (now : Moment E) where
  -- One changed rectangle is noted and told to the guest.
  unfoldable pub deliver_rect : ℕ → ℕ × Rect → Browser E → Browser E
  deliver_rect idx (gid, rect) s = elim (get_elem? s.tabs idx) [
    | none ↦ panics E now s
    | some tab ↦
        let maps : NodeMaps = record tab.maps {
          last_rects = insert tab.maps.last_rects gid rect;
        } in
        elim tab.guest [
          | none ↦ put_tab E s idx (record tab { maps = maps })
          | some rt ↦
              let (x, y, w, h) = rect in
              let (answer, rt', out) =
                deliver_event E.wasm (layout_rect x y w h) 0 gid gid now.clock rt in
              send E (put_tab E s idx (record tab { maps = maps; guest = some rt' })) out
        ]
  ]

  unfoldable pub deliver_rects : ℕ → List (ℕ × Rect) → Browser E → Browser E
  unfolding deliver_rect
  deliver_rects idx [] s = s
  deliver_rects idx (change ∷ changes) s = deliver_rects idx changes (deliver_rect idx change s)

  -- What follows the collection: nothing if nothing has changed.
  unfoldable pub observe_changes : ℕ → List (ℕ × Rect) → Browser E → Bool × Browser E
  unfolding deliver_rects apply_guest_batches_for
  observe_changes idx [] s = (false, s)
  observe_changes idx (change ∷ changes) s =
      let (applied, s') = apply_guest_batches_for E idx (deliver_rects idx (change ∷ changes) s) in
      if ltb 0 applied then (true, record s' { dirty = true }) else (false, s')

module _ (E : Env) (X : Screen E) (now : Moment E) where
  -- Whether the guest has changed the document, and the browser.
  unfoldable pub check_observations : Browser E → Bool × Browser E
  unfolding changed_rects observe_changes
  check_observations s = elim (get_elem? s.tabs s.active_idx) [
    | none ↦ (false, s)
    | some tab ↦ elim tab.guest [
      | none ↦ (false, s)
      | some rt ↦
          observe_changes E now s.active_idx (changed_rects E X tab.maps s.doc tab.maps.observers) s
    ]
  ]

  -- The driver's run with the handler: the actions in the order in which they are pushed.
  unfoldable pub drive : Dispatch E.document.Doc → Browser E → List ChromeAction × Browser E
  unfolding route_event
  drive (finishes doc) s = ([], record s { doc = doc })
  drive (handles event chain target cancelable next) s =
      let (actions, v, s') = route_event E X.floats event chain target cancelable now.clock s in
      let (later, s'') = drive (next v) s' in (actions ++ later, s'')

  -- What the guest has submitted during the dispatch is applied when the driver is done.
  unfoldable pub settle : Browser E → Browser E
  unfolding apply_guest_batches_for check_observations
  settle s = elim (get_elem? s.tabs s.active_idx) [
    | none ↦ s
    | some tab ↦ elim tab.guest [
      | none ↦ s
      | some rt ↦
          let (applied, s') = apply_guest_batches_for E s.active_idx s in
          (check_observations (record s' { dirty = true })).1
    ]
  ]

  -- A dispatch with what follows it in `handle_ui_event` and `script_dispatch`.
  unfoldable pub after_dispatch : Dispatch E.document.Doc → Browser E → Browser E
  unfolding drive settle process_chrome_actions
  after_dispatch run s =
      let (actions, s') = drive run s in process_chrome_actions E now actions (settle s')

  unfoldable pub handle_ui_event : X.UiEvent → Browser E → Browser E
  unfolding after_dispatch
  handle_ui_event event s = after_dispatch (X.ui_event event s.doc) s
