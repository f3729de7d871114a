-- ===== src/Shell/Steps.antt =====
-- The operations of the browser as steps of its tab strip.
use wasibrowser.Prelude.{
  ℕ, ◌<◌, ◌≡◌, refl, sym, ap, Bool, true, false, none, some, map, All, get_elem?, get_elem?-some,
  length, map-set-modify, Bool-cases, inl, inr, ◌==◌, arith, subst,
}
use wasibrowser.Bytes.{Bytes, Res, ok, err, panic}
use wasibrowser.Bytes.Completes.{Completes}
use wasibrowser.Text.{trim}
use wasibrowser.Manifest.{ResolvedApp, ManifestError, resolve}
use wasibrowser.Manifest.Safety.{resolve-Completes}
use wasibrowser.Shell.{Env, Moment, Browser, TabState, put_tab}
use wasibrowser.Shell.Chrome.{is_empty}
use wasibrowser.Shell.Navigation.{
  panics, change_tab, push_history, show_app, log_visit, show_address, navigate,
}
use wasibrowser.Shell.Frames.{IsCalm, key, Keeps, Keeps-refl, Keeps-length}
use wasibrowser.Shell.Pages.{show_app-Keeps, refresh_address_bar-Keeps}
use wasibrowser.Shell.Strip.{Strip, Step, Steps, done, step, pushes, push_page, Steps-trans}

module _ (E : Env) where
  abbrev pub strip : Browser E → Strip
  strip s = record { pages = map (key E) s.tabs; active = s.active_idx; next = s.next_tab_id }

  -- From `s` to `s'` the strip goes by steps, and the host does not panic.
  pub record Goes (s s' : Browser E) : Type 0 where
    pub steps : Steps (strip s) (strip s')
    pub calm : All IsCalm s.sent → All IsCalm s'.sent

  pub Goes-trans : (a b c : Browser E) → Goes a b → Goes b c → Goes a c
  Goes-trans a b c g h = record {
    steps = Steps-trans (strip a) (strip b) (strip c) g.steps h.steps;
    calm = λ k. h.calm (g.calm k);
  }

  pub strip-Keeps : (s s' : Browser E) → Keeps E s s' → strip s' ≡ strip s
  strip-Keeps s s' k = cc (k.keys, k.active, k.next)

  pub Goes-Keeps : (s s' : Browser E) → Keeps E s s' → Goes s s'
  Goes-Keeps s s' k = record {
    steps = subst (λ t. Steps (strip s) t) (sym (strip-Keeps s s' k)) (done (strip s));
    calm = k.calm;
  }

  pub Goes-Step :
      (s s' : Browser E) (t : Strip)
      → Step (strip s) t
      → strip s' ≡ t
      → (All IsCalm s.sent → All IsCalm s'.sent)
      → Goes s s'
  Goes-Step s s' t k e calm = record {
    steps = subst (λ u. Steps (strip s) u) (sym e) (step (strip s) t t k (done t));
    calm = calm;
  }

  module _ (now : Moment E) where
    log_visit-Goes :
        (idx : ℕ) (target : Bytes) (push : Bool) (s : Browser E)
        → idx < length s.tabs
        → Goes s (log_visit E now idx target push s)
    unfolding log_visit push_history
    log_visit-Goes idx target false s h = Goes-Keeps s s (Keeps-refl E s)
    log_visit-Goes idx target true s h =
        let (tab, at) = get_elem?-some s.tabs idx h in
        rw (at, change_tab)
          (Goes-Step s (put_tab E s idx (push_history E now target tab)) _
            (pushes (strip s) idx target)
            (ap (λ ps. record { pages = ps; active = s.active_idx; next = s.next_tab_id })
              (map-set-modify (key E) (push_page target) s.tabs idx tab _ at refl))
            (λ k. k))

    show_address-Keeps : (idx : ℕ) (s : Browser E) → Keeps E s (show_address E now idx s)
    unfolding show_address
    show_address-Keeps idx s = elim (Bool-cases (idx == s.active_idx)) [
      | inl here ↦ rw (here, show_address) (refresh_address_bar-Keeps E s)
      | inr elsewhere ↦ rw (elsewhere, show_address) (Keeps-refl E s)
    ]

    -- A navigation of an open tab.
    pub navigate-Goes :
        (idx : ℕ) (address : Bytes) (push : Bool) (s : Browser E)
        → idx < length s.tabs
        → Goes s (navigate E now idx address push s).1
    unfolding navigate
    navigate-Goes idx address push s h = elim (Bool-cases (is_empty (trim address))) [
      | inl blank ↦ rw (blank, navigate) (Goes-Keeps s s (Keeps-refl E s))
      | inr target ↦
          rw (target, navigate)
            (shown (resolve E.json now.read now.endpoint (trim address) s.manifest_root)
              (resolve-Completes E.json now.read now.endpoint (trim address) s.manifest_root))
    ]
      where
        tab : TabState E
        tab = (get_elem?-some s.tabs idx h).0

        at : get_elem? s.tabs idx ≡ some tab
        at = (get_elem?-some s.tabs idx h).1

        shown :
            (r : Res ManifestError ResolvedApp)
            → Completes r
            → Goes s
                (elim r as (λ x. Bool × Browser E) [
                  | err e ↦ (false, s)
                  | panic ↦ (false, panics E now s)
                  | ok app ↦ elim (get_elem? s.tabs idx) [
                    | none ↦ (false, panics E now s)
                    | some t ↦
                        let (d, s') = show_app E now idx t app (trim address) s in
                        (d, show_address E now idx (log_visit E now idx (trim address) push s'))
                  ]
                ]).1
        shown (err e) c = Goes-Keeps s s (Keeps-refl E s)
        shown panic c = absurd (c refl)
        shown (ok app) c = rw at (
            let s1 = (show_app E now idx tab app (trim address) s).1 in
            let k1 = show_app-Keeps E now idx tab app (trim address) s at in
            let s2 = log_visit E now idx (trim address) push s1 in
            Goes-trans s s1 _ (Goes-Keeps s s1 k1) (
              Goes-trans s1 s2 _
                (log_visit-Goes idx (trim address) push s1
                  (omega (arith, Keeps-length E s s1 k1, h)))
                (Goes-Keeps s2 _ (show_address-Keeps idx s2))))
