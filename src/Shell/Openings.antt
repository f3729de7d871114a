-- ===== src/Shell/Openings.antt =====
-- Opening, activating and closing tabs as steps of the tab strip.
use wasibrowser.Prelude.{
  codes, ℕ, ◌⊎◌, ◌+◌, ◌-◌, ◌%◌, ◌^◌, ◌<◌, ◌≡◌, ◌≢◌, refl, sym, ap, ◌∙◌, true, some, List, [], ◌∷◌,
  map, if◌then◌else◌, All, get_elem?, get_elem?-some, get_elem?-in_range, length, length-append,
  length-map, map-append, Option-cases, Bool-cases, inl, inr, ltb, ◌==◌, ==_iff, arith,
}
use wasibrowser.Abi.Shared.{NavRequest}
use wasibrowser.Shell.{Env, Moment, Browser, TabState, no_tab}
use wasibrowser.Shell.Chrome.{set_class, set_display, create_tab_chip}
use wasibrowser.Shell.Guests.{position}
use wasibrowser.Shell.Tabs.{
  remove_at, open_new_tab, hide_tab, activate_tab, new_tab, drop_tab, close_tab, switch_tab,
  deliver_nav_request,
}
use wasibrowser.Shell.Frames.{IsCalm, key, Keeps, Keeps-refl}
use wasibrowser.Shell.Pages.{refresh_address_bar-Keeps}
use wasibrowser.Shell.Strip.{
  opens, activates, closes_active, closes_other, map-remove_at, length-remove_at, IsWellFormed,
}
use wasibrowser.Shell.Steps.{strip, Goes, Goes-trans, Goes-Keeps, Goes-Step, navigate-Goes}

module _ (E : Env) where
  pub position-in_range :
      (tabs : List (TabState E)) (id idx : ℕ) → position E tabs id ≡ some idx → idx < length tabs
  unfolding position
  position-in_range [] id idx h = cc
  position-in_range (t ∷ tabs) id idx h = elim (Option-cases (position E tabs id)) [
    | inl e ↦ ground arith
    | inr (i, e) ↦ ground (arith, position-in_range tabs id i e)
  ]

  hide_tab-Keeps : (idx : ℕ) (s : Browser E) → Keeps E s (hide_tab E idx s)
  unfolding hide_tab
  hide_tab-Keeps idx s = elim (Option-cases (get_elem? s.tabs idx)) [
    | inl e ↦ rw (e, hide_tab) (Keeps-refl E s)
    | inr (t, e) ↦
        rw (e, hide_tab) (record { keys = refl; active = refl; next = refl; calm = λ h. h })
  ]

  -- A tab that is there becomes the active one; otherwise nothing happens.
  record Activates (idx : ℕ) (s s' : Browser E) : Type 0 where
    keys : map (key E) s'.tabs ≡ map (key E) s.tabs
    next : s'.next_tab_id ≡ s.next_tab_id
    calm : All IsCalm s.sent → All IsCalm s'.sent
    active : ((idx < length s.tabs) × (s'.active_idx ≡ idx)) ⊎ (s'.active_idx ≡ s.active_idx)
    inside : idx < length s.tabs → s'.active_idx ≡ idx

  activate_tab-Activates : (idx : ℕ) (s : Browser E) → Activates idx s (activate_tab E idx s)
  unfolding activate_tab
  activate_tab-Activates idx s = elim (Bool-cases (idx == s.active_idx)) [
    | inl here ↦
        rw (here, activate_tab)
          (record {
            keys = refl;
            next = refl;
            calm = λ h. h;
            active = inr refl;
            inside = λ h. sym ((==_iff idx s.active_idx).0 here);
          })
    | inr elsewhere ↦ elim (Option-cases (get_elem? s.tabs idx)) [
      | inl e ↦
          rw (elsewhere, activate_tab, e)
            (record {
              keys = refl;
              next = refl;
              calm = λ h. h;
              active = inr refl;
              inside = λ h. absurd (let (t, e') = get_elem?-some s.tabs idx h in cc (e, e'));
            })
      | inr (tab, e) ↦
          let s1 = hide_tab E s.active_idx s in
          let k = hide_tab-Keeps s.active_idx s in
          let s2 = record s1 {
            doc =
                set_class E tab.chip_node (codes "tab-chip active")
                  (set_display E tab.mount_node (codes "flex") s1.doc);
            active_idx = idx;
            dirty = true;
          } in
          let k' = refresh_address_bar-Keeps E s2 in
          rw (elsewhere, activate_tab, e)
            (record {
              keys = k'.keys ∙ k.keys;
              next = k'.next ∙ k.next;
              calm = λ h. k'.calm (k.calm h);
              active = inl (get_elem?-in_range s.tabs idx tab e, k'.active);
              inside = λ h. k'.active;
            })
    ]
  ]

  activate_tab-length :
      (idx : ℕ) (s : Browser E) → length (activate_tab E idx s).tabs ≡ length s.tabs
  activate_tab-length idx s =
      let a = activate_tab-Activates idx s in
      omega (
        arith,
        ap length a.keys,
        length-map (key E) s.tabs,
        length-map (key E) (activate_tab E idx s).tabs,
      )

  pub activate_tab-Goes : (idx : ℕ) (s : Browser E) → Goes E s (activate_tab E idx s)
  activate_tab-Goes idx s =
      let a = activate_tab-Activates idx s in
      elim a.active [
        | inl (h, e) ↦
            Goes-Step E s _ _ (activates (strip E s) idx (omega (arith, length-map (key E) s.tabs)))
              (cc (a.keys, a.next, e)) a.calm
        | inr e ↦
            Goes-Keeps E s _ (record { keys = a.keys; active = e; next = a.next; calm = a.calm })
      ]

  pub open_new_tab-Goes :
      (s : Browser E) → s.next_tab_id + 1 < 2 ^ 32 → Goes E s (open_new_tab E s).1
  unfolding open_new_tab create_tab_chip
  open_new_tab-Goes s room =
      let n : (s.next_tab_id + 1) % 2 ^ 32 ≡ s.next_tab_id + 1 = omega arith in
      Goes-Step E s _ _ (opens (strip E s) room) (cc (n, map-append (key E) s.tabs _)) (λ k. k)

  opened-length :
      (s : Browser E)
      → ((open_new_tab E s).0 ≡ length s.tabs)
        × (length (open_new_tab E s).1.tabs ≡ length s.tabs + 1)
  unfolding open_new_tab create_tab_chip
  opened-length s = (refl, omega (arith, length-append s.tabs _))

  pub new_tab-Goes : (s : Browser E) → s.next_tab_id + 1 < 2 ^ 32 → Goes E s (new_tab E s)
  unfolding new_tab
  new_tab-Goes s room =
      let (idx, s1) = open_new_tab E s in
      let s2 = activate_tab E idx s1 in
      Goes-trans E s s2 _
        (Goes-trans E s s1 s2 (open_new_tab-Goes s room) (activate_tab-Goes idx s1))
        (Goes-Keeps E s2 _ (record { keys = refl; active = refl; next = refl; calm = λ h. h }))

  pub switch_tab-Goes : (id : ℕ) (s : Browser E) → Goes E s (switch_tab E id s)
  unfolding switch_tab
  switch_tab-Goes id s = elim (Option-cases (position E s.tabs id)) [
    | inl e ↦ rw (e, switch_tab) (Goes-Keeps E s s (Keeps-refl E s))
    | inr (idx, e) ↦ rw (e, switch_tab) (activate_tab-Goes idx s)
  ]

  pub deliver_nav_request-Goes :
      (now : Moment E) (r : NavRequest) (s : Browser E)
      → s.next_tab_id + 1 < 2 ^ 32
      → Goes E s (deliver_nav_request E now r s)
  unfolding deliver_nav_request
  deliver_nav_request-Goes now r s room = elim (Option-cases (position E s.tabs r.tab_id)) [
    | inl e ↦ rw (e, deliver_nav_request) (Goes-Keeps E s s (Keeps-refl E s))
    | inr (idx, e) ↦ elim (Bool-cases r.new_tab) [
      | inl fresh ↦
          let (idx', s1) = open_new_tab E s in
          let s2 = activate_tab E idx' s1 in
          rw (e, deliver_nav_request, fresh)
            (Goes-trans E s s1 _ (open_new_tab-Goes s room) (
              Goes-trans E s1 s2 _ (activate_tab-Goes idx' s1) (
                navigate-Goes E now idx' r.target true s2
                  (omega (arith, activate_tab-length idx' s1, opened-length s)))))
      | inr here ↦
          rw (e, deliver_nav_request, here)
            (navigate-Goes E now idx r.target true s (position-in_range s.tabs r.tab_id idx e))
    ]
  ]

  drop_tab-Goes :
      (idx : ℕ) (tab : TabState E) (s : Browser E)
      → IsWellFormed (strip E s)
      → idx < length s.tabs
      → 1 < length s.tabs
      → Goes E s (drop_tab E idx tab s)
  unfolding drop_tab
  drop_tab-Goes idx tab s w h more = elim (Bool-cases (s.active_idx == idx)) [
    | inl here ↦
        let s0 = record s {
          doc =
              E.document.remove_and_drop_node tab.chip_node
                (E.document.remove_and_drop_node tab.mount_node s.doc);
          tabs = remove_at idx s.tabs;
          active_idx = no_tab;
        } in
        let a = activate_tab-Activates (idx - 1) s0 in
        let len = length-remove_at idx s.tabs h in
        rw (here, drop_tab)
          (Goes-Step E s _ _ (closes_active (strip E s) (omega (arith, length-map (key E) s.tabs)))
            (cc (
              a.keys,
              a.next,
              map-remove_at (key E) idx s.tabs,
              (==_iff s.active_idx idx).0 here,
              a.inside (omega (arith, len)),
            ))
            a.calm)
    | inr elsewhere ↦
        let long : idx < length (map (key E) s.tabs) = omega (arith, length-map (key E) s.tabs) in
        let ne : idx ≢ s.active_idx = ground (arith, ==_iff s.active_idx idx) in
        elim (Bool-cases (ltb idx s.active_idx)) [
          | inl before ↦
              rw (elsewhere, before)
                (let a : s.active_idx - 1
                      ≡ (if ltb idx s.active_idx then s.active_idx - 1 else s.active_idx) =
                    rw before refl in
                  Goes-Step E s _ _ (closes_other (strip E s) idx long ne)
                    (cc (map-remove_at (key E) idx s.tabs, a)) (λ k. k))
          | inr behind ↦
              rw (elsewhere, behind)
                (let a : s.active_idx
                      ≡ (if ltb idx s.active_idx then s.active_idx - 1 else s.active_idx) =
                    rw behind refl in
                  Goes-Step E s _ _ (closes_other (strip E s) idx long ne)
                    (cc (map-remove_at (key E) idx s.tabs, a)) (λ k. k))
        ]
  ]

  pub close_tab-Goes :
      (id : ℕ) (s : Browser E) → IsWellFormed (strip E s) → Goes E s (close_tab E id s)
  unfolding close_tab
  close_tab-Goes id s w = elim (Option-cases (position E s.tabs id)) [
    | inl e ↦ rw (e, close_tab) (Goes-Keeps E s s (Keeps-refl E s))
    | inr (idx, e) ↦
        let h = position-in_range s.tabs id idx e in
        let (tab, at) = get_elem?-some s.tabs idx h in
        elim (Bool-cases (length s.tabs == 1)) [
          | inl last ↦
              rw (e, close_tab, last)
                (Goes-Keeps E s _
                  (record { keys = refl; active = refl; next = refl; calm = λ k. k }))
          | inr more ↦
              rw (e, close_tab, more, at)
                (drop_tab-Goes idx tab s w h (ground (arith, ==_iff (length s.tabs) 1)))
        ]
  ]
