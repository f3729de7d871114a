-- ===== src/Shell/Commands.antt =====
-- The commands of a script as steps of the tab strip.
use wasibrowser.Prelude.{ℕ, ◌+◌, ◌^◌, ◌<◌, get_elem?, Option-cases, Bool-cases, inl, inr}
use wasibrowser.Bytes.{Bytes}
use wasibrowser.Shell.{Env, Moment, Browser}
use wasibrowser.Shell.Chrome.{is_empty}
use wasibrowser.Shell.Tabs.{new_tab, close_active_tab_script, new_tab_script}
use wasibrowser.Shell.Driver.{Screen, handle_ui_event}
use wasibrowser.Shell.Ticks.{poll}
use wasibrowser.Shell.Script.{
  ScriptCmd, click, type_text, focus, hover, unhover, r_click, press, wheel, dump, dump_app,
  navigate, back, forward, reload, new_tab as new_tab_cmd, close_tab, switch_tab, quit, script_type,
  run_cmd, handle_script_cmd,
}
use wasibrowser.Shell.Polls.{poll-Keeps}
use wasibrowser.Shell.Strip.{IsWellFormed}
use wasibrowser.Shell.Steps.{strip, Goes, Goes-trans, Goes-Keeps}
use wasibrowser.Shell.Moves.{nav_back-Goes, nav_forward-Goes, nav_reload-Goes}
use wasibrowser.Shell.Openings.{new_tab-Goes, close_tab-Goes, activate_tab-Goes}
use wasibrowser.Shell.Acting.{navigate_active-Goes}
use wasibrowser.Shell.Rounds.{after_dispatch-Goes, Goes-IsWellFormed}
use wasibrowser.Shell.Scripted.{
  CmdFits, stays, script_click-Goes, script_focus-Goes, script_pointer-Goes, script_wheel-Goes,
  script_key-Goes,
}

module _ (E : Env) (X : Screen E) (now : Moment E) where
  new_tab_script-Goes :
      (target : Bytes) (s : Browser E)
      → IsWellFormed (strip E s)
      → s.next_tab_id + 1 < 2 ^ 32
      → Goes E s (new_tab_script E now target s)
  unfolding new_tab_script
  new_tab_script-Goes target s w room =
      let s' = new_tab E s in
      let g = new_tab-Goes E s room in
      elim (Bool-cases (is_empty target)) [
        | inl blank ↦ rw (blank, new_tab_script) g
        | inr shown ↦
            rw (shown, new_tab_script)
              (Goes-trans E s s' _ g
                (navigate_active-Goes E now target s' (Goes-IsWellFormed E s s' g w)))
      ]

  close_active_tab_script-Goes :
      (s : Browser E) → IsWellFormed (strip E s) → Goes E s (close_active_tab_script E s)
  unfolding close_active_tab_script
  close_active_tab_script-Goes s w = elim (Option-cases (get_elem? s.tabs s.active_idx)) [
    | inl e ↦ rw (e, close_active_tab_script) (stays E X now s)
    | inr (tab, e) ↦ rw (e, close_active_tab_script) (close_tab-Goes E tab.id s w)
  ]

  run_cmd-Goes :
      (cmd : ScriptCmd) (s : Browser E)
      → IsWellFormed (strip E s)
      → CmdFits E X now cmd s
      → Goes E s (run_cmd E X now cmd s)
  unfolding run_cmd script_type handle_ui_event
  run_cmd-Goes (click selector) s w room = script_click-Goes E X now selector s w room
  run_cmd-Goes (type_text text) s w room = after_dispatch-Goes E X now _ s w room
  run_cmd-Goes (focus selector) s w room = script_focus-Goes E X now selector s w room
  run_cmd-Goes (hover selector) s w room = script_pointer-Goes E X now selector _ s w room
  run_cmd-Goes (unhover selector) s w room = script_pointer-Goes E X now selector _ s w room
  run_cmd-Goes (r_click selector) s w room = script_pointer-Goes E X now selector _ s w room
  run_cmd-Goes (press name) s w room = script_key-Goes E X now name s w room
  run_cmd-Goes (wheel selector dy) s w room = script_wheel-Goes E X now selector dy s w room
  run_cmd-Goes (navigate target) s w room = navigate_active-Goes E now target s w
  run_cmd-Goes back s w room = nav_back-Goes E now s w
  run_cmd-Goes forward s w room = nav_forward-Goes E now s
  run_cmd-Goes reload s w room = nav_reload-Goes E now s w
  run_cmd-Goes (new_tab_cmd target) s w room = new_tab_script-Goes target s w room
  run_cmd-Goes close_tab s w room = close_active_tab_script-Goes s w
  run_cmd-Goes (switch_tab idx) s w room = activate_tab-Goes E idx s
  run_cmd-Goes (dump path) s w room = stays E X now s
  run_cmd-Goes (dump_app path) s w room = stays E X now s
  run_cmd-Goes quit s w room = stays E X now s

  -- A command, with the poll behind it.
  polled-Goes :
      (instant : ℕ) (cmd : ScriptCmd) (s : Browser E)
      → IsWellFormed (strip E s)
      → CmdFits E X now cmd s
      → Goes E s (poll E X now instant (run_cmd E X now cmd s)).1
  polled-Goes instant cmd s w room =
      let s' = run_cmd E X now cmd s in
      Goes-trans E s s' _ (run_cmd-Goes cmd s w room)
        (Goes-Keeps E s' _ (poll-Keeps E now X instant s'))

  pub handle_script_cmd-Goes :
      (instant : ℕ) (cmd : ScriptCmd) (s : Browser E)
      → IsWellFormed (strip E s)
      → CmdFits E X now cmd s
      → Goes E s (handle_script_cmd E X now instant cmd s).1
  unfolding handle_script_cmd
  handle_script_cmd-Goes instant quit s w room = stays E X now s
  handle_script_cmd-Goes instant cmd s w room = polled-Goes instant cmd s w room
