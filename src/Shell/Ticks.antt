-- ===== src/Shell/Ticks.antt =====
-- `poll`, `frame_pending` and `set_window_id` of renderer/src/ui.rs.
use wasibrowser.Prelude.{
  ℕ, Bool, false, ◌||◌, Option, none, some, map, ltb, if◌then◌else◌, get_elem?,
}
use wasibrowser.Guest.{deliver_frame}
use wasibrowser.Shell.{Env, Moment, Browser, TabState, Guest, put_tab, send}
use wasibrowser.Shell.Guests.{apply_guest_batches_for}
use wasibrowser.Shell.Driver.{Screen, check_observations}

-- The bits of `16.6` as an `f32`, for the first frame.
abbrev pub first_dt : ℕ
first_dt = 0x4184_cccd

module _ (E : Env) where
  abbrev pub without_request : Guest E → Guest E
  without_request rt = record rt { shared = record rt.shared { frame_requested = false } }

  unfoldable pub frame_pending : Browser E → Bool
  frame_pending s = elim (get_elem? s.tabs s.active_idx) [
    | none ↦ false
    | some tab ↦ elim tab.guest [ none ↦ false | some rt ↦ rt.shared.frame_requested ]
  ]

  abbrev pub with_window : ℕ → TabState E → TabState E
  with_window id tab = elim tab.guest [
    | none ↦ tab
    | some rt ↦ record tab {
      guest = some (record rt { shared = record rt.shared { window_id = some id } });
    }
  ]

  unfoldable pub set_window_id : ℕ → Browser E → Browser E
  set_window_id id s = record s { window_id = some id; tabs = map (with_window id) s.tabs }

module _ (E : Env) (X : Screen E) where
  abbrev pub frame_dt : ℕ → Option ℕ → ℕ
  frame_dt instant none = first_dt
  frame_dt instant (some last) = X.ms_between last instant

  -- The frame of the active tab, at an instant: whether the document has changed, and the browser.
  -- The guest is taken with its request already withdrawn.
  unfoldable pub run_frame : ℕ → TabState E → Guest E → Browser E → Bool × Browser E
  unfolding deliver_frame apply_guest_batches_for
  run_frame instant tab rt s =
      let (answer, rt', out) = deliver_frame E.wasm (frame_dt instant s.last_frame) rt in
      let s1 = send E (put_tab E s s.active_idx (record tab { guest = some rt' })) out in
      let (applied, s2) =
        apply_guest_batches_for E s1.active_idx (record s1 { last_frame = some instant }) in
      (ltb 0 applied, s2)

  unfoldable pub tick_frame : ℕ → Browser E → Bool × Browser E
  unfolding run_frame
  tick_frame instant s = elim (get_elem? s.tabs s.active_idx) [
    | none ↦ (false, s)
    | some tab ↦ elim tab.guest [
      | none ↦ (false, s)
      | some rt ↦
          if rt.shared.frame_requested
          then run_frame instant tab (without_request E rt) s
          else (false, s)
    ]
  ]

  -- Whether the window is to be drawn again, and the browser.
  unfoldable pub poll : Moment E → ℕ → Browser E → Bool × Browser E
  unfolding tick_frame check_observations
  poll now instant s =
      let (framed, s1) = tick_frame instant (record s { dirty = false }) in
      let (observed, s2) = check_observations E X now s1 in (s.dirty || framed || observed, s2)
