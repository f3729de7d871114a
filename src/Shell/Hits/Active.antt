-- ===== src/Shell/Hits/Active.antt =====
-- `dispatch_with_shell_handler` of renderer/src/ui.rs: the handler on the active tab.
use wasibrowser.Prelude.{
  ℕ, zero, suc, ◌≡◌, ◌≢◌, ◌⊎◌, inl, inr, refl, sym, ap, ◌∙◌, Bool, none, some, List, [], ◌∷◌, ◌++◌,
  append-nil, get_elem?, get_elem?-set_ne, set, true, Option-cases, arith,
}
use wasibrowser.Map.{contains}
use wasibrowser.Map.Keys.{nat_key}
use wasibrowser.Abi.DomEvents.{DomEvent, Floats}
use wasibrowser.Guest.{Verdict}
use wasibrowser.Shell.{Env, Browser, TabState, put_tab, send}
use wasibrowser.Shell.Actions.{ChromeAction}
use wasibrowser.Shell.Hits.{ActiveGuest, Routed, handle_event, bookmark_chrome_of, tab_chrome_of}
use wasibrowser.Shell.Hits.Origin.{From, handle_event-From}

set-same : {A : Type 0} (xs : List A) (i : ℕ) (x : A) → get_elem? xs i ≡ some x → set xs i x ≡ xs
set-same [] i x h = refl
set-same (y ∷ xs) zero x h = ap (λ z. z ∷ xs) (ground arith)
set-same (y ∷ xs) (suc i) x h = ap (λ zs. y ∷ zs) (set-same xs i x h)

module _ (E : Env) (F : Floats) where
  -- `tab.guest.as_mut().map(|rt| (rt, &mut tab.maps))`
  abbrev pub guest_of : TabState E → ActiveGuest E.wasm E.document.QualName E.Key
  guest_of tab = elim tab.guest [ none ↦ none | some rt ↦ some (rt, tab.maps) ]

  -- What the handler has left of the borrowed guest.
  abbrev pub put_back : TabState E → ActiveGuest E.wasm E.document.QualName E.Key → TabState E
  put_back tab none = tab
  put_back tab (some (rt, maps)) = record tab { guest = some rt; maps = maps }

  module _ (event : DomEvent) (chain : List ℕ) (target : ℕ) (cancelable : Bool) (ts : ℕ)
      (s : Browser E) where
    abbrev routed :
        ActiveGuest E.wasm E.document.QualName E.Key → Routed E.wasm E.document.QualName E.Key
    routed guest =
        handle_event s.chrome (bookmark_chrome_of s.bookmarks) (tab_chrome_of E s.tabs) chain E.wasm
          F event target cancelable ts guest

    -- The actions, what the engine is told, and the browser.
    unfoldable pub route_event : List ChromeAction × Verdict × Browser E
    unfolding handle_event
    route_event = elim (get_elem? s.tabs s.active_idx) [
      | none ↦ let (actions, v, guest, out) = routed none in (actions, v, s)
      | some tab ↦
          let (actions, v, guest, out) = routed (guest_of tab) in
          (actions, v, send E (put_tab E s s.active_idx (put_back tab guest)) out)
    ]

    put_back-guest_of : (tab : TabState E) → put_back tab (guest_of tab) ≡ tab
    put_back-guest_of tab = elim (Option-cases tab.guest) [
      | inl e ↦ rw e refl
      | inr (rt, e) ↦ rw e refl
    ]

    -- The browser after the handler has run on a tab.
    abbrev ended : TabState E → Routed E.wasm E.document.QualName E.Key → Browser E
    ended tab r = send E (put_tab E s s.active_idx (put_back tab r.2)) r.3

    route_event-none :
        get_elem? s.tabs s.active_idx ≡ none → route_event ≡ ((routed none).0, (routed none).1, s)
    unfolding route_event
    route_event-none e = rw (route_event, e) refl

    route_event-some :
        (tab : TabState E)
        → get_elem? s.tabs s.active_idx ≡ some tab
        → let r = routed (guest_of tab) in route_event ≡ (r.0, r.1, ended tab r)
    unfolding route_event
    route_event-some tab e = rw (route_event, e) refl

    ended-same :
        (tab : TabState E)
        → get_elem? s.tabs s.active_idx ≡ some tab
        → send E (put_tab E s s.active_idx (put_back tab (guest_of tab))) [] ≡ s
    ended-same tab e =
        let tabs : set s.tabs s.active_idx (put_back tab (guest_of tab)) ≡ s.tabs =
          ap (set s.tabs s.active_idx) (put_back-guest_of tab)
          ∙ set-same s.tabs s.active_idx tab e in
        ap (λ ts. record s { tabs = ts; sent = s.sent ++ [] }) tabs
        ∙ ap (λ out. record s { sent = out }) (append-nil s.sent)

    -- An event changes no tab but the active one. If it pushes an action of the chrome, it is one
    -- action, a node that stands for it is on the chain, and the event changes nothing at all.
    pub route_event-From :
        ((j : ℕ) → j ≢ s.active_idx → get_elem? route_event.2.tabs j ≡ get_elem? s.tabs j)
        × ((route_event.0 ≡ [])
            ⊎ ((a : ChromeAction) × (n : ℕ) × (route_event.0 ≡ a ∷ [])
                × (route_event.2 ≡ s)
                × From s.chrome (bookmark_chrome_of s.bookmarks) (tab_chrome_of E s.tabs) a n
                × (contains chain n ≡ true)))
    route_event-From = elim (Option-cases (get_elem? s.tabs s.active_idx)) [
      | inl e ↦
          let idle = route_event-none e in
          (
            λ j other. ap (λ r. get_elem? r.2.tabs j) idle,
            elim (handle_event-From chain s.chrome (bookmark_chrome_of s.bookmarks)
                (tab_chrome_of E s.tabs) E.wasm F event target cancelable ts none) [
                  | inl quiet ↦ inl (ap (λ r. r.0) idle ∙ quiet)
                  | inr (a, n, same, node, on) ↦
                      inr (
                        a,
                        n,
                        ap (λ r. r.0) idle ∙ ap (λ r. r.0) same,
                        ap (λ r. r.2) idle,
                        node,
                        on,
                      )
                ],
          )
      | inr (tab, e) ↦
          let done = route_event-some tab e in
          (
            λ j other.
                ap (λ r. get_elem? r.2.tabs j) done
                ∙ get_elem?-set_ne s.tabs s.active_idx j _ (λ same. other (sym same)),
            elim (handle_event-From chain s.chrome (bookmark_chrome_of s.bookmarks)
                (tab_chrome_of E s.tabs) E.wasm F event target cancelable ts (guest_of tab)) [
                  | inl quiet ↦ inl (ap (λ r. r.0) done ∙ quiet)
                  | inr (a, n, same, node, on) ↦ inr (
                    a,
                    n,
                    ap (λ r. r.0) done ∙ ap (λ r. r.0) same,
                    ap (λ r. r.2) done ∙ ap (ended tab) same ∙ ended-same tab e,
                    node,
                    on,
                  )
                ],
          )
    ]
