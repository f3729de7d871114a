-- ===== src/Shell/Hits/Origin.antt =====
-- Where the actions of `ShellEventHandler` come from.
use wasibrowser.Prelude.{
  ℕ, ◌≡◌, ◌⊎◌, inl, inr, refl, Bool, true, false, Option, none, some, List, [], ◌∷◌, All,
  Bool-cases, Option-cases, if◌then◌else◌, arith,
}
use wasibrowser.Bytes.{Bytes}
use wasibrowser.Map.{contains}
use wasibrowser.Map.Keys.{nat_key}
use wasibrowser.Abi.DomEvents
use wasibrowser.Abi.DomEvents.{DomEvent, Floats, map_dom_event}
use wasibrowser.Guest.{Wasm, untouched}
use wasibrowser.Shell.{ChromeNodes}
use wasibrowser.Shell.Actions
use wasibrowser.Shell.Actions.{ChromeAction}
use wasibrowser.Shell.Hits.{
  toolbar, address_bar, hit_button, hit_bookmark, hit_tab, or_else, Hit, acts, swallows, passes,
  of_option, hit_click, hit, to_guest, handle_event, ActiveGuest,
}

-- One of the entries of a list.
pub data Among {A : Type 0} (a : A) : List A → Type 0 where
  here : {rest : List A} → Among a (a ∷ rest)
  there : {b : A} {rest : List A} → Among a rest → Among a (b ∷ rest)

All-Among : {A : Type 0} (P : A → Type 0) {a : A} {l : List A} → Among a l → All P l → P a
All-Among P here (h, hs) = h
All-Among P (there m) (h, hs) = All-Among P m hs

-- An action, and a node of the chrome that stands for it.
pub data From (c : ChromeNodes) (bookmarks : List (Bytes × ℕ × ℕ)) (tabs : List (ℕ × ℕ × ℕ))
    : ChromeAction → ℕ → Type 0 where
  of_toolbar : {n : ℕ} {a : ChromeAction} → Among (n, a) (toolbar c) → From c bookmarks tabs a n
  of_address_bar :
      {n : ℕ} {a : ChromeAction} → Among (n, a) (address_bar c) → From c bookmarks tabs a n
  of_remove :
      {target : Bytes} {row remove : ℕ}
      → Among (target, row, remove) bookmarks
      → From c bookmarks tabs (Actions.remove_bookmark_action target) remove
  of_row :
      {target : Bytes} {row remove : ℕ}
      → Among (target, row, remove) bookmarks
      → From c bookmarks tabs (Actions.open_bookmark_action target) row
  of_close :
      {id chip close : ℕ}
      → Among (id, chip, close) tabs
      → From c bookmarks tabs (Actions.close_tab_action id) close
  of_chip :
      {id chip close : ℕ}
      → Among (id, chip, close) tabs
      → From c bookmarks tabs (Actions.switch_tab_action id) chip
  of_divider : From c bookmarks tabs Actions.divider_down c.divider
  of_input : {text : Bytes} → From c bookmarks tabs (Actions.address_input text) c.ab_input
  of_enter : From c bookmarks tabs Actions.address_submit c.ab_input

module _ (chain : List ℕ) where
  -- A result of a test is an action with a node on the chain.
  abbrev Sound : (ChromeAction → ℕ → Type 0) → Option ChromeAction → Type 0
  Sound P none = Unit
  Sound P (some a) = (n : ℕ) × P a n × (contains chain n ≡ true)

  test-Sound :
      (P : ChromeAction → ℕ → Type 0) (n : ℕ) (a : ChromeAction) (rest : Option ChromeAction)
      → P a n
      → Sound P rest
      → Sound P (if contains chain n then some a else rest)
  test-Sound P n a rest h k = elim (Bool-cases (contains chain n)) [
    | inl on ↦ rw on (n, h, on)
    | inr off ↦ rw off k
  ]

  or_else-Sound :
      (P : ChromeAction → ℕ → Type 0) (o later : Option ChromeAction)
      → Sound P o
      → Sound P later
      → Sound P (or_else o later)
  or_else-Sound P none later h k = k
  or_else-Sound P (some a) later h k = h

  hit_button-Sound :
      (P : ChromeAction → ℕ → Type 0) (buttons : List (ℕ × ChromeAction))
      → ((n : ℕ) (a : ChromeAction) → Among (n, a) buttons → P a n)
      → Sound P (hit_button buttons chain)
  unfolding hit_button
  hit_button-Sound P [] h = tt
  hit_button-Sound P ((node, action) ∷ buttons) h =
      test-Sound P node action _ (h node action here)
        (hit_button-Sound P buttons λ n a m. h n a (there m))

  hit_bookmark-Sound :
      (P : ChromeAction → ℕ → Type 0) (bookmarks : List (Bytes × ℕ × ℕ))
      → ((t : Bytes) (row remove : ℕ)
          → Among (t, row, remove) bookmarks
          → P (Actions.remove_bookmark_action t) remove × P (Actions.open_bookmark_action t) row)
      → Sound P (hit_bookmark bookmarks chain)
  unfolding hit_bookmark
  hit_bookmark-Sound P [] h = tt
  hit_bookmark-Sound P ((t, row, remove) ∷ bookmarks) h =
      let (removes, opens) = h t row remove here in
      test-Sound P remove _ _ removes (
        test-Sound P row _ _ opens
          (hit_bookmark-Sound P bookmarks λ t' r r' m. h t' r r' (there m)))

  hit_tab-Sound :
      (P : ChromeAction → ℕ → Type 0) (tabs : List (ℕ × ℕ × ℕ))
      → ((id chip close : ℕ)
          → Among (id, chip, close) tabs
          → P (Actions.close_tab_action id) close × P (Actions.switch_tab_action id) chip)
      → Sound P (hit_tab tabs chain)
  unfolding hit_tab
  hit_tab-Sound P [] h = tt
  hit_tab-Sound P ((id, chip, close) ∷ tabs) h =
      let (closes, switches) = h id chip close here in
      test-Sound P close _ _ closes
        (test-Sound P chip _ _ switches (hit_tab-Sound P tabs λ i c c' m. h i c c' (there m)))

  module _ (c : ChromeNodes) (bookmarks : List (Bytes × ℕ × ℕ)) (tabs : List (ℕ × ℕ × ℕ)) where
    hit_click-Sound : Sound (From c bookmarks tabs) (hit_click c bookmarks tabs chain)
    unfolding hit_click
    hit_click-Sound =
        let P = From c bookmarks tabs in
        or_else-Sound P _ _ (hit_button-Sound P (toolbar c) λ n a m. of_toolbar m) (
          or_else-Sound P _ _
            (hit_bookmark-Sound P bookmarks λ t row remove m. (of_remove m, of_row m))
            (or_else-Sound P _ _ (hit_button-Sound P (address_bar c) λ n a m. of_address_bar m)
              (hit_tab-Sound P tabs λ id chip close m. (of_close m, of_chip m))))

    -- No node of the chrome is on the chain.
    abbrev pub IsElsewhere : Type 0
    IsElsewhere =
        All (λ b. contains chain b.0 ≡ false) (toolbar c)
        × All (λ b. contains chain b.0 ≡ false) (address_bar c)
        × All (λ b. (contains chain b.1 ≡ false) × (contains chain b.2 ≡ false)) bookmarks
        × All (λ t. (contains chain t.1 ≡ false) × (contains chain t.2 ≡ false)) tabs
        × (contains chain c.divider ≡ false)
        × (contains chain c.ab_input ≡ false)

    From-off :
        (a : ChromeAction) (n : ℕ)
        → IsElsewhere
        → From c bookmarks tabs a n
        → contains chain n ≡ false
    From-off a n h (of_toolbar m) = All-Among (λ b. contains chain b.0 ≡ false) m h.0
    From-off a n h (of_address_bar m) = All-Among (λ b. contains chain b.0 ≡ false) m h.1
    From-off a n h (of_remove m) =
        (All-Among (λ b. (contains chain b.1 ≡ false) × (contains chain b.2 ≡ false)) m h.2).1
    From-off a n h (of_row m) =
        (All-Among (λ b. (contains chain b.1 ≡ false) × (contains chain b.2 ≡ false)) m h.2).0
    From-off a n h (of_close m) =
        (All-Among (λ t. (contains chain t.1 ≡ false) × (contains chain t.2 ≡ false)) m h.3).1
    From-off a n h (of_chip m) =
        (All-Among (λ t. (contains chain t.1 ≡ false) × (contains chain t.2 ≡ false)) m h.3).0
    From-off a n h of_divider = h.4
    From-off a n h of_input = h.5
    From-off a n h of_enter = h.5

    -- The chrome takes an event, by an action or without one, only for one of its nodes on the chain.
    abbrev Takes : Hit → Type 0
    Takes (acts a) = (n : ℕ) × From c bookmarks tabs a n × (contains chain n ≡ true)
    Takes swallows = contains chain c.ab_input ≡ true
    Takes passes = Unit

    of_option-Takes :
        (o : Option ChromeAction) → Sound (From c bookmarks tabs) o → Takes (of_option o)
    of_option-Takes none h = tt
    of_option-Takes (some a) h = h

    node-Takes :
        (n : ℕ) (taken : Hit)
        → ((contains chain n ≡ true) → Takes taken)
        → Takes (if contains chain n then taken else passes)
    node-Takes n taken h = elim (Bool-cases (contains chain n)) [
      | inl on ↦ rw on (h on)
      | inr off ↦ rw off tt
    ]

    enter-Takes :
        (enter : Bool)
        → contains chain c.ab_input ≡ true
        → Takes (if enter then acts Actions.address_submit else swallows)
    enter-Takes true on = (c.ab_input, of_enter, on)
    enter-Takes false on = on

    hit-Takes : (event : DomEvent) → Takes (hit c bookmarks tabs chain event)
    unfolding hit
    hit-Takes (DomEvents.click p) = of_option-Takes _ hit_click-Sound
    hit-Takes (DomEvents.pointer_down p) = node-Takes c.divider _ λ on. (c.divider, of_divider, on)
    hit-Takes (DomEvents.input value) = node-Takes c.ab_input _ λ on. (c.ab_input, of_input, on)
    hit-Takes (DomEvents.key_down k) = node-Takes c.ab_input _ (enter-Takes k.is_enter)
    hit-Takes _ = tt

    module _ (W : Wasm) (F : Floats) {Q K : Type 0} where
      to_guest-actions :
          (event : DomEvent) (target : ℕ) (cancelable : Bool) (ts : ℕ) (guest : ActiveGuest W Q K)
          → (to_guest c bookmarks tabs chain W F event target cancelable ts guest).0 ≡ []
      unfolding to_guest
      to_guest-actions event target cancelable ts none = refl
      to_guest-actions event target cancelable ts (some (rt, maps)) =
          elim (Option-cases (map_dom_event F event)) [
            | inl ignored ↦ rw (to_guest, ignored) refl
            | inr (eo, sent) ↦ rw (to_guest, sent) refl
          ]

      -- An event pushes no action of the chrome, or it pushes one: then a node that stands for this
      -- action, a button, a bookmark, a tab or a field of the host, is on the chain of the event, and
      -- neither the guest nor the engine hears of the event.
      pub handle_event-From :
          (event : DomEvent) (target : ℕ) (cancelable : Bool) (ts : ℕ) (guest : ActiveGuest W Q K)
          → let routed = handle_event c bookmarks tabs chain W F event target cancelable ts guest in
            (routed.0 ≡ [])
            ⊎ ((a : ChromeAction) × (n : ℕ) × (routed ≡ (a ∷ [], untouched, guest, []))
                × From c bookmarks tabs a n
                × (contains chain n ≡ true))
      unfolding handle_event
      handle_event-From event target cancelable ts guest =
          go (hit c bookmarks tabs chain event) refl (hit-Takes event)
        where
          go :
              (taken : Hit)
              → hit c bookmarks tabs chain event ≡ taken
              → Takes taken
              → let routed =
                  handle_event c bookmarks tabs chain W F event target cancelable ts guest in
                (routed.0 ≡ [])
                ⊎ ((a : ChromeAction) × (n : ℕ) × (routed ≡ (a ∷ [], untouched, guest, []))
                    × From c bookmarks tabs a n
                    × (contains chain n ≡ true))
          go (acts a) e (n, from, on) = inr (a, n, rw (handle_event, e) refl, from, on)
          go swallows e on = inl (rw (handle_event, e) refl)
          go passes e h =
              inl (rw (handle_event, e) (to_guest-actions event target cancelable ts guest))

      -- An event with none of the chrome's nodes on its chain is for the guest, which gets it as if
      -- there were no chrome.
      pub handle_event-to_guest :
          (event : DomEvent) (target : ℕ) (cancelable : Bool) (ts : ℕ) (guest : ActiveGuest W Q K)
          → IsElsewhere
          → handle_event c bookmarks tabs chain W F event target cancelable ts guest
            ≡ to_guest c bookmarks tabs chain W F event target cancelable ts guest
      unfolding handle_event
      handle_event-to_guest event target cancelable ts guest off =
          go (hit c bookmarks tabs chain event) refl (hit-Takes event)
        where
          go :
              (taken : Hit)
              → hit c bookmarks tabs chain event ≡ taken
              → Takes taken
              → handle_event c bookmarks tabs chain W F event target cancelable ts guest
                ≡ to_guest c bookmarks tabs chain W F event target cancelable ts guest
          go (acts a) e (n, from, on) = absurd (ground (arith, on, From-off a n off from))
          go swallows e on = absurd (ground (arith, on, From-off _ c.ab_input off of_enter))
          go passes e h = rw (handle_event, e) refl
