-- ===== src/Shell/Scripted.antt =====
-- What the commands of a script dispatch, as steps of the tab strip.
use wasibrowser.Prelude.{
  ℕ, ◌+◌, ◌^◌, ◌<◌, ◌≡◌, refl, subst, Option, none, some, Option-cases, Bool-cases, inl, inr,
}
use wasibrowser.Bytes.{Bytes}
use wasibrowser.Abi.DomEvents
use wasibrowser.Abi.DomEvents.{DomEvent, PointerEvent, pixels}
use wasibrowser.Shell.{Env, Moment, Browser}
use wasibrowser.Shell.Driver.{Screen, handle_ui_event}
use wasibrowser.Shell.Script.{
  ScriptCmd, click, type_text, focus, hover, unhover, r_click, press, wheel, new_tab as new_tab_cmd,
  is_input, is_key, resolve_selector, script_dispatch, focus_field, script_click, script_focus,
  rewrapped, script_pointer, script_wheel, script_key,
}
use wasibrowser.Shell.Frames.{Keeps-refl}
use wasibrowser.Shell.Strip.{IsWellFormed}
use wasibrowser.Shell.Steps.{strip, Goes, Goes-trans, Goes-Keeps}
use wasibrowser.Shell.Rounds.{DispatchFits, after_dispatch-Goes, Goes-IsWellFormed}

-- What holds of the value, if there is one.
abbrev pub ForSome : {A : Type 0} → Option A → (A → Type 0) → Type 0
ForSome none P = Unit
ForSome (some a) P = P a

for_some : {A : Type 0} (o : Option A) (P : A → Type 0) (a : A) → o ≡ some a → ForSome o P → P a
for_some none P a e h = absurd (cc e)
for_some (some b) P a e h = subst P (cc e) h

module _ (E : Env) (X : Screen E) (now : Moment E) where
  abbrev EventFits : ℕ → DomEvent → Browser E → Type 0
  EventFits nid event s = DispatchFits E X now (X.dom_event nid event s.doc) s

  -- The document with its focus on a node, and with the caret of a text field at its end.
  abbrev focused : ℕ → Browser E → Browser E
  focused nid s = record s { doc = E.document.set_focus_to nid s.doc }

  abbrev in_field : ℕ → Browser E → Browser E
  in_field nid s = record s {
    doc = E.document.caret_to_end nid (E.document.set_focus_to nid s.doc);
  }

  abbrev FieldFits : Bytes → Browser E → Type 0
  FieldFits selector s =
      ForSome (resolve_selector E X now selector s)
        λ nid. EventFits nid DomEvents.focus (in_field nid s)

  abbrev PointerFits : Bytes → (PointerEvent → DomEvent) → Browser E → Type 0
  PointerFits selector wrap s = ForSome (resolve_selector E X now selector s) λ nid.
      ForSome (rewrapped E X now wrap (X.synthetic_click nid s.doc)) λ event. EventFits nid event s

  -- There are ids for the tabs that a command may open.
  abbrev pub CmdFits : ScriptCmd → Browser E → Type 0
  CmdFits (click selector) s = ForSome (resolve_selector E X now selector s) λ nid.
      ForSome (X.synthetic_click nid s.doc)
        λ event. EventFits nid event s × FieldFits selector (script_dispatch E X now nid event s)
  CmdFits (type_text text) s = DispatchFits E X now (X.ui_event (X.ime_commit text) s.doc) s
  CmdFits (focus selector) s =
      ForSome (resolve_selector E X now selector s)
        λ nid. EventFits nid DomEvents.focus (focused nid s)
  CmdFits (hover selector) s = PointerFits selector DomEvents.pointer_enter s
  CmdFits (unhover selector) s = PointerFits selector DomEvents.pointer_leave s
  CmdFits (r_click selector) s = PointerFits selector DomEvents.context_menu s
  CmdFits (press name) s = DispatchFits E X now (X.ui_event (X.key_down name) s.doc) s
  CmdFits (wheel selector dy) s =
      ForSome (resolve_selector E X now selector s)
        λ nid. EventFits nid (DomEvents.wheel (pixels 0 dy) 0) s
  CmdFits (new_tab_cmd target) s = s.next_tab_id + 1 < 2 ^ 32
  CmdFits _ s = Unit

  pub stays : (s : Browser E) → Goes E s s
  stays s = Goes-Keeps E s s (Keeps-refl E s)

  script_dispatch-Goes :
      (nid : ℕ) (event : DomEvent) (s : Browser E)
      → IsWellFormed (strip E s)
      → EventFits nid event s
      → Goes E s (script_dispatch E X now nid event s)
  unfolding script_dispatch
  script_dispatch-Goes nid event s w room = after_dispatch-Goes E X now _ s w room

  -- A dispatch on the document that the engine has changed.
  on_doc-Goes :
      (nid : ℕ) (event : DomEvent) (doc : E.document.Doc) (s : Browser E)
      → IsWellFormed (strip E s)
      → EventFits nid event (record s { doc = doc })
      → Goes E s (script_dispatch E X now nid event (record s { doc = doc }))
  on_doc-Goes nid event doc s w room =
      let s' = record s { doc = doc } in
      Goes-trans E s s' _
        (Goes-Keeps E s s' (record { keys = refl; active = refl; next = refl; calm = λ h. h }))
        (script_dispatch-Goes nid event s' w room)

  focus_field-Goes :
      (selector : Bytes) (s : Browser E)
      → IsWellFormed (strip E s)
      → FieldFits selector s
      → Goes E s (focus_field E X now selector s)
  unfolding focus_field
  focus_field-Goes selector s w room = elim (Option-cases (resolve_selector E X now selector s)) [
    | inl e ↦ rw (e, focus_field) (stays s)
    | inr (nid, e) ↦
        rw (e, focus_field)
          (on_doc-Goes nid DomEvents.focus
            (E.document.caret_to_end nid (E.document.set_focus_to nid s.doc)) s w
            (for_some (resolve_selector E X now selector s) _ nid e room))
  ]

  pub script_click-Goes :
      (selector : Bytes) (s : Browser E)
      → IsWellFormed (strip E s)
      → CmdFits (click selector) s
      → Goes E s (script_click E X now selector s).1
  unfolding script_click
  script_click-Goes selector s w room = elim (Option-cases (resolve_selector E X now selector s)) [
    | inl e ↦ rw (e, script_click) (stays s)
    | inr (nid, e) ↦ elim (Option-cases (X.synthetic_click nid s.doc)) [
      | inl e' ↦ rw (e, script_click, e') (stays s)
      | inr (event, e') ↦
          let (first, second) : EventFits nid event s
              × FieldFits selector (script_dispatch E X now nid event s) =
            for_some (X.synthetic_click nid s.doc) _ event e'
              (for_some (resolve_selector E X now selector s) _ nid e room) in
          let s' = script_dispatch E X now nid event s in
          let g = script_dispatch-Goes nid event s w first in
          let field = focus_field-Goes selector s' (Goes-IsWellFormed E s s' g w) second in
          elim (Bool-cases (is_input (X.element_name nid s.doc))) [
            | inl text ↦ rw (e, script_click, e', text) (Goes-trans E s s' _ g field)
            | inr other ↦ rw (e, script_click, e', other) g
          ]
    ]
  ]

  pub script_focus-Goes :
      (selector : Bytes) (s : Browser E)
      → IsWellFormed (strip E s)
      → CmdFits (focus selector) s
      → Goes E s (script_focus E X now selector s).1
  unfolding script_focus
  script_focus-Goes selector s w room = elim (Option-cases (resolve_selector E X now selector s)) [
    | inl e ↦ rw (e, script_focus) (stays s)
    | inr (nid, e) ↦
        rw (e, script_focus)
          (on_doc-Goes nid DomEvents.focus (E.document.set_focus_to nid s.doc) s w
            (for_some (resolve_selector E X now selector s) _ nid e room))
  ]

  pub script_pointer-Goes :
      (selector : Bytes) (wrap : PointerEvent → DomEvent) (s : Browser E)
      → IsWellFormed (strip E s)
      → PointerFits selector wrap s
      → Goes E s (script_pointer E X now selector wrap s).1
  unfolding script_pointer
  script_pointer-Goes selector wrap s w room =
      elim (Option-cases (resolve_selector E X now selector s)) [
        | inl e ↦ rw (e, script_pointer) (stays s)
        | inr (nid, e) ↦
            elim (Option-cases (rewrapped E X now wrap (X.synthetic_click nid s.doc))) [
              | inl e' ↦ rw (e, script_pointer, e') (stays s)
              | inr (event, e') ↦
                  rw (e, script_pointer, e')
                    (script_dispatch-Goes nid event s w (
                      for_some (rewrapped E X now wrap (X.synthetic_click nid s.doc)) _ event e'
                        (for_some (resolve_selector E X now selector s) _ nid e room)))
            ]
      ]

  pub script_wheel-Goes :
      (selector : Bytes) (dy : ℕ) (s : Browser E)
      → IsWellFormed (strip E s)
      → CmdFits (wheel selector dy) s
      → Goes E s (script_wheel E X now selector dy s).1
  unfolding script_wheel
  script_wheel-Goes selector dy s w room =
      elim (Option-cases (resolve_selector E X now selector s)) [
        | inl e ↦ rw (e, script_wheel) (stays s)
        | inr (nid, e) ↦
            rw (e, script_wheel)
              (script_dispatch-Goes nid (DomEvents.wheel (pixels 0 dy) 0) s w
                (for_some (resolve_selector E X now selector s) _ nid e room))
      ]

  pub script_key-Goes :
      (name : Bytes) (s : Browser E)
      → IsWellFormed (strip E s)
      → CmdFits (press name) s
      → Goes E s (script_key E X now name s).1
  unfolding script_key handle_ui_event
  script_key-Goes name s w room = elim (Bool-cases (is_key name)) [
    | inl known ↦ rw (known, script_key) (after_dispatch-Goes E X now _ s w room)
    | inr unknown ↦ rw (unknown, script_key) (stays s)
  ]
