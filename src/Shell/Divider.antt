-- ===== src/Shell/Divider.antt =====
-- The drag of the console's divider in renderer/src/ui.rs. `y`, the window's height and the scale are
-- the bits of an `f64`.
use wasibrowser.Prelude.{
  ℕ, Bool, ◌||◌, true, false, refl, codes, if◌then◌else◌, Bool-cases, inl, inr,
}
use wasibrowser.Shell.{Env, Moment, Browser}
use wasibrowser.Shell.Navigation.{panics}
use wasibrowser.Shell.Driver.{Screen}
use wasibrowser.Shell.Frames.{Keeps, Keeps-refl}

-- The bits of `48.0` and `120.0` as an `f32`.
abbrev pub least_height : ℕ
least_height = 0x4240_0000

abbrev pub app_height : ℕ
app_height = 0x42f0_0000

module _ (E : Env) (X : Screen E) where
  unfoldable pub apply_console_height : Browser E → Browser E
  apply_console_height s = record s {
    doc =
        E.document.set_style_property s.chrome.console (codes "height")
          (X.lengths.px s.console_height) s.doc;
    dirty = true;
  }

  -- The height that the console may have in a window.
  abbrev pub max_height : ℕ → ℕ
  max_height total_css = X.lengths.max (X.lengths.sub total_css app_height) least_height

  -- `x.clamp(lo, hi)` behind its assertion that `lo <= hi`.
  abbrev pub clamped : ℕ → ℕ → ℕ → ℕ
  clamped x lo hi =
      let x' = if X.lengths.lt x lo then lo else x in if X.lengths.lt hi x' then hi else x'

  abbrev pub has_no_size : ℕ → ℕ → Bool
  has_no_size scale win_h = X.lengths.is_nonpositive scale || X.lengths.is_nonpositive win_h

  unfoldable pub clamp_console_to_window : ℕ → ℕ → Browser E → Browser E
  unfolding apply_console_height
  clamp_console_to_window scale win_h s =
      let max_h = max_height (X.lengths.css win_h scale) in
      if has_no_size scale win_h
      then s
      else if X.lengths.lt max_h s.console_height
      then apply_console_height (record s { console_height = max_h })
      else s

  unfoldable pub end_console_drag : Browser E → Browser E
  end_console_drag s = record s { console_drag = false }

module _ (E : Env) (X : Screen E) (now : Moment E) where
  -- The console takes the space below the pointer.
  unfoldable pub drag_console_to : ℕ → ℕ → ℕ → Browser E → Browser E
  unfolding apply_console_height
  drag_console_to scale win_h phys_y s =
      let total_css = X.lengths.css win_h scale in
      let max_h = max_height E X total_css in
      let new_h =
        clamped E X (X.lengths.sub total_css (X.lengths.css phys_y scale)) least_height max_h in
      if has_no_size E X scale win_h
      then s
      else if X.lengths.le least_height max_h
      then (if X.lengths.are_apart new_h s.console_height
          then apply_console_height E X (record s { console_height = new_h })
          else s)
      else panics E now s

module _ (E : Env) where
  module _ (X : Screen E) where
    sized-Keeps :
        (h : ℕ) (s : Browser E)
        → Keeps E s (apply_console_height E X (record s { console_height = h }))
    unfolding apply_console_height
    sized-Keeps h s = record { keys = refl; active = refl; next = refl; calm = λ c. c }

    pub clamp_console_to_window-Keeps :
        (scale win_h : ℕ) (s : Browser E) → Keeps E s (clamp_console_to_window E X scale win_h s)
    unfolding clamp_console_to_window
    clamp_console_to_window-Keeps scale win_h s =
        let max_h = max_height E X (X.lengths.css win_h scale) in
        elim (Bool-cases (has_no_size E X scale win_h)) [
          | inl empty ↦ rw (empty, clamp_console_to_window) (Keeps-refl E s)
          | inr sized ↦ elim (Bool-cases (X.lengths.lt max_h s.console_height)) [
            | inl over ↦ rw (sized, clamp_console_to_window, over) (sized-Keeps max_h s)
            | inr fits ↦ rw (sized, clamp_console_to_window, fits) (Keeps-refl E s)
          ]
        ]

    pub end_console_drag-Keeps : (s : Browser E) → Keeps E s (end_console_drag E X s)
    unfolding end_console_drag
    end_console_drag-Keeps s = record { keys = refl; active = refl; next = refl; calm = λ c. c }

    -- The limits of the height are in order, so that the drag does not panic.
    pub drag_console_to-Keeps :
        (now : Moment E) (scale win_h phys_y : ℕ) (s : Browser E)
        → Keeps E s (drag_console_to E X now scale win_h phys_y s)
    unfolding drag_console_to
    drag_console_to-Keeps now scale win_h phys_y s =
        let total_css = X.lengths.css win_h scale in
        let max_h = max_height E X total_css in
        let new_h =
          clamped E X (X.lengths.sub total_css (X.lengths.css phys_y scale)) least_height max_h in
        let ordered = X.lengths.le_max (X.lengths.sub total_css app_height) in
        elim (Bool-cases (has_no_size E X scale win_h)) [
          | inl empty ↦ rw (empty, drag_console_to) (Keeps-refl E s)
          | inr sized ↦ elim (Bool-cases (X.lengths.are_apart new_h s.console_height)) [
            | inl apart ↦ rw (sized, drag_console_to, ordered, apart) (sized-Keeps new_h s)
            | inr near ↦ rw (sized, drag_console_to, ordered, near) (Keeps-refl E s)
          ]
        ]
