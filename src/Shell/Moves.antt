-- ===== src/Shell/Moves.antt =====
-- Back, forward and reload as steps of the tab strip.
use wasibrowser.Prelude.{
  ℕ, ◌+◌, ◌-◌, ◌<◌, ◌≤◌, ◌≡◌, refl, ap, false, some, map, All-get_elem?, get_elem?, get_elem?-some,
  get_elem?-in_range, get_elem?-map, length, length-set, map-set-modify, Option-cases, Bool-cases,
  inl, inr, leb, ◌==◌, ==_iff, arith,
}
use wasibrowser.Shell.{Env, Moment, Browser, TabState, put_tab}
use wasibrowser.Shell.Chrome.{is_empty, is_empty-false}
use wasibrowser.Shell.Navigation.{visit, nav_back, nav_forward, nav_reload}
use wasibrowser.Shell.Frames.{key, Keeps-refl}
use wasibrowser.Shell.Strip.{visits, at_entry, HasEntry, IsWellFormed}
use wasibrowser.Shell.Steps.{strip, Goes, Goes-trans, Goes-Keeps, Goes-Step, navigate-Goes}

module _ (E : Env) (now : Moment E) where
  visit-Goes :
      (i : ℕ) (tab : TabState E) (s : Browser E)
      → get_elem? s.tabs s.active_idx ≡ some tab
      → i < length tab.history
      → Goes E s (visit E now i tab s)
  unfolding visit
  visit-Goes i tab s at h =
      let (target, e) = get_elem?-some tab.history i h in
      let s' = put_tab E s s.active_idx (record tab { history_idx = i }) in
      let moved : Goes E s s' =
        Goes-Step E s s' _
          (visits (strip E s) s.active_idx i (key E tab)
            (get_elem?-map (key E) s.tabs s.active_idx tab at) h)
          (ap (λ ps. record { pages = ps; active = s.active_idx; next = s.next_tab_id })
            (map-set-modify (key E) (at_entry i) s.tabs s.active_idx tab _ at refl))
          (λ k. k) in
      rw (e, visit)
        (Goes-trans E s s' _ moved (
          navigate-Goes E now s.active_idx target false s' (
            omega (
              arith,
              length-set s.tabs s.active_idx (record tab { history_idx = i }),
              get_elem?-in_range s.tabs s.active_idx tab at,
            ))))

  has_entry :
      (s : Browser E) (tab : TabState E)
      → IsWellFormed (strip E s)
      → get_elem? s.tabs s.active_idx ≡ some tab
      → tab.history_idx ≤ length tab.history - 1
  has_entry s tab w at =
      All-get_elem? HasEntry (map (key E) s.tabs) s.active_idx (key E tab) w.entries
        (get_elem?-map (key E) s.tabs s.active_idx tab at)

  pub nav_back-Goes : (s : Browser E) → IsWellFormed (strip E s) → Goes E s (nav_back E now s)
  unfolding nav_back
  nav_back-Goes s w = elim (Option-cases (get_elem? s.tabs s.active_idx)) [
    | inl e ↦ rw (e, nav_back) (Goes-Keeps E s s (Keeps-refl E s))
    | inr (tab, e) ↦ elim (Bool-cases (tab.history_idx == 0)) [
      | inl first ↦ rw (e, nav_back, first) (Goes-Keeps E s s (Keeps-refl E s))
      | inr later ↦
          rw (e, nav_back, later)
            (visit-Goes (tab.history_idx - 1) tab s e
              (ground (arith, has_entry s tab w e, ==_iff tab.history_idx 0)))
    ]
  ]

  pub nav_forward-Goes : (s : Browser E) → Goes E s (nav_forward E now s)
  unfolding nav_forward
  nav_forward-Goes s = elim (Option-cases (get_elem? s.tabs s.active_idx)) [
    | inl e ↦ rw (e, nav_forward) (Goes-Keeps E s s (Keeps-refl E s))
    | inr (tab, e) ↦ elim (Bool-cases (leb (length tab.history) (tab.history_idx + 1))) [
      | inl last ↦ rw (e, nav_forward, last) (Goes-Keeps E s s (Keeps-refl E s))
      | inr more ↦
          rw (e, nav_forward, more) (visit-Goes (tab.history_idx + 1) tab s e (ground arith))
    ]
  ]

  pub nav_reload-Goes : (s : Browser E) → IsWellFormed (strip E s) → Goes E s (nav_reload E now s)
  unfolding nav_reload
  nav_reload-Goes s w = elim (Option-cases (get_elem? s.tabs s.active_idx)) [
    | inl e ↦ rw (e, nav_reload) (Goes-Keeps E s s (Keeps-refl E s))
    | inr (tab, e) ↦ elim (Bool-cases (is_empty tab.history)) [
      | inl none_yet ↦ rw (e, nav_reload, none_yet) (Goes-Keeps E s s (Keeps-refl E s))
      | inr some_yet ↦
          rw (e, nav_reload, some_yet)
            (visit-Goes tab.history_idx tab s e
              (omega (arith, has_entry s tab w e, is_empty-false tab.history some_yet)))
    ]
  ]
