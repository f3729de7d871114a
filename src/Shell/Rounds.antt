-- ===== src/Shell/Rounds.antt =====
-- A run of the engine's event driver with what follows it, as steps of the tab strip.
use wasibrowser.Shell.{Env, Moment, Browser}
use wasibrowser.Shell.Driver.{Screen, Dispatch, drive, settle, after_dispatch}
use wasibrowser.Shell.Frames.{Keeps-trans}
use wasibrowser.Shell.Polls.{settle-Keeps}
use wasibrowser.Shell.Dispatches.{drive-Keeps}
use wasibrowser.Shell.Strip.{IsWellFormed, Steps-IsWellFormed}
use wasibrowser.Shell.Steps.{strip, Goes, Goes-trans, Goes-Keeps}
use wasibrowser.Shell.Acting.{ActionsHaveRoom, process_chrome_actions-Goes}

pub Goes-IsWellFormed :
    (E : Env) (s s' : Browser E)
    → Goes E s s'
    → IsWellFormed (strip E s)
    → IsWellFormed (strip E s')
Goes-IsWellFormed E s s' g w = Steps-IsWellFormed (strip E s) (strip E s') g.steps w

module _ (E : Env) (X : Screen E) (now : Moment E) where
  -- There are ids for the tabs that a run may open.
  abbrev pub DispatchFits : Dispatch E.document.Doc → Browser E → Type 0
  DispatchFits run s =
      let (actions, s') = drive E X now run s in ActionsHaveRoom E now actions (settle E X now s')

  pub after_dispatch-Goes :
      (run : Dispatch E.document.Doc) (s : Browser E)
      → IsWellFormed (strip E s)
      → DispatchFits run s
      → Goes E s (after_dispatch E X now run s)
  unfolding after_dispatch
  after_dispatch-Goes run s w room =
      let (actions, s1) = drive E X now run s in
      let s2 = settle E X now s1 in
      let g =
        Goes-Keeps E s s2
          (Keeps-trans E s s1 s2 (drive-Keeps E X now run s) (settle-Keeps E now X s1)) in
      Goes-trans E s s2 _ g
        (process_chrome_actions-Goes E now actions s2 (Goes-IsWellFormed E s s2 g w) room)
