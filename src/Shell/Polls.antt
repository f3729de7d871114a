-- ===== src/Shell/Polls.antt =====
-- What the dispatch of events and the ticks keep of the tabs.
use wasibrowser.Prelude.{
  ℕ, ◌<◌, ◌≡◌, refl, true, false, some, List, [], ◌∷◌, All, get_elem?, get_elem?-some,
  get_elem?-in_range, map, length, Option-cases, Bool-cases, inl, inr, ltb, arith,
}
use wasibrowser.Abi.Apply.{Rect}
use wasibrowser.Abi.Events.{layout_rect}
use wasibrowser.Guest.{deliver_frame}
use wasibrowser.Guest.Gestures.{deliver_event-Within, deliver_frame-Within}
use wasibrowser.Shell.{Env, Moment, Browser, TabState, Guest, put_tab, send}
use wasibrowser.Shell.Guests.{apply_guest_batches_for}
use wasibrowser.Shell.Driver.{
  Screen, changed_rects, deliver_rect, deliver_rects, observe_changes, check_observations, settle,
}
use wasibrowser.Shell.Ticks.{
  run_frame, tick_frame, poll, without_request, with_window, set_window_id, frame_dt,
}
use wasibrowser.Shell.Frames.{
  IsCalm, Permitted-IsCalm, key, Keeps, Keeps-refl, Keeps-trans, Keeps-length, put_tab-Keeps,
  send-Keeps, apply_guest_batches_for-Keeps,
}

module _ (E : Env) where
  -- A tab with another guest, and the effects of the guest.
  pub tab_after-Keeps :
      (s : Browser E) (idx : ℕ) (tab tab' : TabState E) (out : List _)
      → get_elem? s.tabs idx ≡ some tab
      → key E tab' ≡ key E tab
      → All IsCalm out
      → Keeps E s (send E (put_tab E s idx tab') out)
  tab_after-Keeps s idx tab tab' out at same calm =
      Keeps-trans E s (put_tab E s idx tab') _ (put_tab-Keeps E s idx tab tab' at same)
        (send-Keeps E (put_tab E s idx tab') out calm)

  -- The browser is the same up to its page, its clocks and whether it is to be drawn.
  pub shown-Keeps :
      (s t s' : Browser E)
      → t.tabs ≡ s.tabs
      → t.active_idx ≡ s.active_idx
      → t.next_tab_id ≡ s.next_tab_id
      → t.sent ≡ s.sent
      → Keeps E t s'
      → Keeps E s s'
  shown-Keeps s t s' tabs active next sent k = record {
    keys = cc (k.keys, tabs);
    active = cc (k.active, active);
    next = cc (k.next, next);
    calm = λ h. k.calm (rw sent h);
  }

  module _ (now : Moment E) where
    deliver_rect-Keeps :
        (idx : ℕ) (change : ℕ × Rect) (s : Browser E)
        → idx < length s.tabs
        → Keeps E s (deliver_rect E now idx change s)
    unfolding deliver_rect
    deliver_rect-Keeps idx (gid, rect) s h =
        let (tab, at) = get_elem?-some s.tabs idx h in
        elim (Option-cases tab.guest) [
          | inl e ↦ rw (at, deliver_rect, e) (put_tab-Keeps E s idx tab _ at refl)
          | inr (rt, e) ↦
              let (x, y, w, h) = rect in
              let ran = deliver_event-Within E.wasm (layout_rect x y w h) 0 gid gid now.clock rt in
              rw (at, deliver_rect, e)
                (tab_after-Keeps s idx tab _ _ at refl (Permitted-IsCalm rt.shared _ ran.1))
        ]

    deliver_rects-Keeps :
        (idx : ℕ) (changes : List (ℕ × Rect)) (s : Browser E)
        → idx < length s.tabs
        → Keeps E s (deliver_rects E now idx changes s)
    unfolding deliver_rects
    deliver_rects-Keeps idx [] s h = Keeps-refl E s
    deliver_rects-Keeps idx (change ∷ changes) s h =
        let k = deliver_rect-Keeps idx change s h in
        let s' = deliver_rect E now idx change s in
        Keeps-trans E s s' _ k
          (deliver_rects-Keeps idx changes s' (omega (arith, Keeps-length E s s' k)))

    observe_changes-Keeps :
        (idx : ℕ) (changes : List (ℕ × Rect)) (s : Browser E)
        → idx < length s.tabs
        → Keeps E s (observe_changes E now idx changes s).1
    unfolding observe_changes
    observe_changes-Keeps idx [] s h = Keeps-refl E s
    observe_changes-Keeps idx (change ∷ changes) s h =
        let s1 = deliver_rects E now idx (change ∷ changes) s in
        let k =
          Keeps-trans E s s1 _ (deliver_rects-Keeps idx (change ∷ changes) s h)
            (apply_guest_batches_for-Keeps E idx s1) in
        elim (Bool-cases (ltb 0 (apply_guest_batches_for E idx s1).0)) [
          | inl some_ops ↦
              rw (some_ops, observe_changes)
                (record { keys = k.keys; active = k.active; next = k.next; calm = k.calm })
          | inr no_ops ↦ rw (no_ops, observe_changes) k
        ]

    module _ (X : Screen E) where
      pub check_observations-Keeps : (s : Browser E) → Keeps E s (check_observations E X now s).1
      unfolding check_observations
      check_observations-Keeps s = elim (Option-cases (get_elem? s.tabs s.active_idx)) [
        | inl e ↦ rw (e, check_observations) (Keeps-refl E s)
        | inr (tab, e) ↦ elim (Option-cases tab.guest) [
          | inl e' ↦ rw (e, check_observations, e') (Keeps-refl E s)
          | inr (rt, e') ↦
              rw (e, check_observations, e')
                (observe_changes-Keeps s.active_idx
                  (changed_rects E X tab.maps s.doc tab.maps.observers) s
                  (get_elem?-in_range s.tabs s.active_idx tab e))
        ]
      ]

      pub settle-Keeps : (s : Browser E) → Keeps E s (settle E X now s)
      unfolding settle
      settle-Keeps s = elim (Option-cases (get_elem? s.tabs s.active_idx)) [
        | inl e ↦ rw (e, settle) (Keeps-refl E s)
        | inr (tab, e) ↦ elim (Option-cases tab.guest) [
          | inl e' ↦ rw (e, settle, e') (Keeps-refl E s)
          | inr (rt, e') ↦
              let s1 = (apply_guest_batches_for E s.active_idx s).1 in
              let s2 = record s1 { dirty = true } in
              rw (e, settle, e')
                (Keeps-trans E s s1 (check_observations E X now s2).1
                  (apply_guest_batches_for-Keeps E s.active_idx s)
                  (shown-Keeps s1 s2 (check_observations E X now s2).1 refl refl refl refl
                    (check_observations-Keeps s2)))
        ]
      ]

      -- The frame of the active tab.
      run_frame-Keeps :
          (instant : ℕ) (tab : TabState E) (rt rt0 : Guest E) (s : Browser E)
          → get_elem? s.tabs s.active_idx ≡ some tab
          → Keeps E s (run_frame E X instant tab rt s).1
      unfolding run_frame
      run_frame-Keeps instant tab rt rt0 s at =
          let ran = deliver_frame-Within E.wasm (frame_dt E X instant s.last_frame) rt in
          let (answer, rt', out) = deliver_frame E.wasm (frame_dt E X instant s.last_frame) rt in
          let s1 = send E (put_tab E s s.active_idx (record tab { guest = some rt' })) out in
          let s2 = record s1 { last_frame = some instant } in
          Keeps-trans E s s1 _
            (tab_after-Keeps s s.active_idx tab _ out at refl
              (Permitted-IsCalm rt.shared out ran.1))
            (shown-Keeps s1 s2 _ refl refl refl refl
              (apply_guest_batches_for-Keeps E s1.active_idx s2))

      tick_frame-Keeps : (instant : ℕ) (s : Browser E) → Keeps E s (tick_frame E X instant s).1
      unfolding tick_frame
      tick_frame-Keeps instant s = elim (Option-cases (get_elem? s.tabs s.active_idx)) [
        | inl e ↦ rw (e, tick_frame) (Keeps-refl E s)
        | inr (tab, e) ↦ elim (Option-cases tab.guest) [
          | inl e' ↦ rw (e, tick_frame, e') (Keeps-refl E s)
          | inr (rt, e') ↦ elim (Bool-cases rt.shared.frame_requested) [
            | inl wanted ↦
                rw (e, tick_frame, e', wanted)
                  (run_frame-Keeps instant tab (without_request E rt) rt s e)
            | inr idle ↦ rw (e, tick_frame, e', idle) (Keeps-refl E s)
          ]
        ]
      ]

      pub poll-Keeps : (instant : ℕ) (s : Browser E) → Keeps E s (poll E X now instant s).1
      unfolding poll
      poll-Keeps instant s =
          let s0 = record s { dirty = false } in
          let s1 = (tick_frame E X instant s0).1 in
          shown-Keeps s s0 _ refl refl refl refl
            (Keeps-trans E s0 s1 _ (tick_frame-Keeps instant s0) (check_observations-Keeps s1))

  with_window-key : (id : ℕ) (tab : TabState E) → key E (with_window E id tab) ≡ key E tab
  with_window-key id tab = elim (Option-cases tab.guest) [
    | inl e ↦ rw e refl
    | inr (rt, e) ↦ rw e refl
  ]

  with_windows-keys :
      (id : ℕ) (tabs : List (TabState E))
      → map (key E) (map (with_window E id) tabs) ≡ map (key E) tabs
  with_windows-keys id [] = refl
  with_windows-keys id (tab ∷ tabs) = cc (with_window-key id tab, with_windows-keys id tabs)

  pub set_window_id-Keeps : (id : ℕ) (s : Browser E) → Keeps E s (set_window_id E id s)
  unfolding set_window_id
  set_window_id-Keeps id s = record {
    keys = with_windows-keys id s.tabs;
    active = refl;
    next = refl;
    calm = λ h. h;
  }
