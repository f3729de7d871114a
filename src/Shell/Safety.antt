-- ===== src/Shell/Safety.antt =====
-- What the browser keeps, whatever the user does and the guests, the network and the engine send it.
use wasibrowser.Prelude.{ℕ, ◌+◌, ◌^◌, ◌<◌, refl, List, [], ◌∷◌, All}
use wasibrowser.Bytes.{Bytes}
use wasibrowser.Abi.Shared.{NetResult, RpcResult, NavRequest}
use wasibrowser.Shell.{Env, Moment, Browser, Source, stdout, stderr, host}
use wasibrowser.Shell.Guests.{deliver_net_result, deliver_rpc_result}
use wasibrowser.Shell.Tabs.{deliver_nav_request}
use wasibrowser.Shell.Console.{push_chunk, rebuild_log}
use wasibrowser.Shell.Driver.{Screen, Dispatch, after_dispatch}
use wasibrowser.Shell.Script.{ScriptCmd, handle_script_cmd}
use wasibrowser.Shell.Window.{WindowEvent, track_drag, notify, track_drag-Keeps, notify-Keeps}
use wasibrowser.Shell.Rounds.{DispatchFits, after_dispatch-Goes}
use wasibrowser.Shell.Scripted.{CmdFits}
use wasibrowser.Shell.Commands.{handle_script_cmd-Goes}
use wasibrowser.Shell.Ticks.{poll, set_window_id}
use wasibrowser.Shell.Frames.{IsCalm, Keeps, deliver_result-Keeps}
use wasibrowser.Shell.Polls.{poll-Keeps, set_window_id-Keeps}
use wasibrowser.Shell.Strip.{Steps, done, Steps-trans, IsWellFormed, Steps-IsWellFormed}
use wasibrowser.Shell.Steps.{strip, Goes, Goes-Keeps}
use wasibrowser.Shell.Openings.{deliver_nav_request-Goes}

-- What the UI thread handles: a run of the engine's event driver, a poll at an instant, a command of
-- a script, an event of the window before and after the inner application has it, work of the engine on its document, and what other threads send.
pub data Message (Doc : Type 0) : Type 0 where
  dispatches : (run : Dispatch Doc) → Message Doc
  polls : (instant : ℕ) → Message Doc
  commands : (instant : ℕ) (cmd : ScriptCmd) → Message Doc
  tracks : (instant scale win_h : ℕ) (event : WindowEvent) → Message Doc
  notifies : (instant scale win_h : ℕ) (event : WindowEvent) → Message Doc
  opens_window : (id : ℕ) → Message Doc
  renders : (doc : Doc) → Message Doc
  prints : (source : Source) (bytes : Bytes) → Message Doc
  gets_net : NetResult → Message Doc
  gets_rpc : RpcResult → Message Doc
  gets_nav : NavRequest → Message Doc

module _ (E : Env) (X : Screen E) where
  abbrev pub Sent : Type 0
  Sent = Moment E × Message E.document.Doc

  abbrev pub handle : Moment E → Message E.document.Doc → Browser E → Browser E
  handle now (dispatches run) s = after_dispatch E X now run s
  handle now (polls instant) s = (poll E X now instant s).1
  handle now (commands instant cmd) s = (handle_script_cmd E X now instant cmd s).1
  handle now (tracks instant scale win_h event) s =
      (track_drag E X now instant scale win_h event s).1
  handle now (notifies instant scale win_h event) s = notify E X now instant scale win_h event s
  handle now (opens_window id) s = set_window_id E id s
  handle now (renders doc) s = record s { doc = doc }
  handle now (prints source bytes) s = push_chunk E source bytes s
  handle now (gets_net r) s = deliver_net_result E r now.clock s
  handle now (gets_rpc r) s = deliver_rpc_result E r now.clock s
  handle now (gets_nav r) s = deliver_nav_request E now r s

  abbrev pub handle_all : List Sent → Browser E → Browser E
  handle_all [] s = s
  handle_all ((now, m) ∷ messages) s = handle_all messages (handle now m s)

  -- There are ids for the tabs that a message may open.
  abbrev pub Fits : Moment E → Message E.document.Doc → Browser E → Type 0
  Fits now (dispatches run) s = DispatchFits E X now run s
  Fits now (commands instant cmd) s = CmdFits E X now cmd s
  Fits now (gets_nav r) s = s.next_tab_id + 1 < 2 ^ 32
  Fits now _ s = Unit

  abbrev pub HasRoom : List Sent → Browser E → Type 0
  HasRoom [] s = Unit
  HasRoom ((now, m) ∷ messages) s = Fits now m s × HasRoom messages (handle now m s)

  push_chunk-Keeps :
      (source : Source) (bytes : Bytes) (s : Browser E) → Keeps E s (push_chunk E source bytes s)
  unfolding push_chunk rebuild_log
  push_chunk-Keeps stdout bytes s = record {
    keys = refl;
    active = refl;
    next = refl;
    calm = λ h. h;
  }
  push_chunk-Keeps stderr bytes s = record {
    keys = refl;
    active = refl;
    next = refl;
    calm = λ h. h;
  }
  push_chunk-Keeps host bytes s = record { keys = refl; active = refl; next = refl; calm = λ h. h }

  handle-Goes :
      (now : Moment E) (m : Message E.document.Doc) (s : Browser E)
      → IsWellFormed (strip E s)
      → Fits now m s
      → Goes E s (handle now m s)
  unfolding deliver_net_result deliver_rpc_result
  handle-Goes now (dispatches run) s w room = after_dispatch-Goes E X now run s w room
  handle-Goes now (commands instant cmd) s w room =
      handle_script_cmd-Goes E X now instant cmd s w room
  handle-Goes now (polls instant) s w room = Goes-Keeps E s _ (poll-Keeps E now X instant s)
  handle-Goes now (tracks instant scale win_h event) s w room =
      Goes-Keeps E s _ (track_drag-Keeps E X now instant scale win_h event s)
  handle-Goes now (notifies instant scale win_h event) s w room =
      Goes-Keeps E s _ (notify-Keeps E X now instant scale win_h event s)
  handle-Goes now (opens_window id) s w room = Goes-Keeps E s _ (set_window_id-Keeps E id s)
  handle-Goes now (renders doc) s w room =
      Goes-Keeps E s _ (record { keys = refl; active = refl; next = refl; calm = λ h. h })
  handle-Goes now (prints source bytes) s w room =
      Goes-Keeps E s _ (push_chunk-Keeps source bytes s)
  handle-Goes now (gets_net r) s w room =
      Goes-Keeps E s _ (deliver_result-Keeps E r.tab_id _ r.id now.clock s)
  handle-Goes now (gets_rpc r) s w room =
      Goes-Keeps E s _ (deliver_result-Keeps E r.tab_id _ 0 now.clock s)
  handle-Goes now (gets_nav r) s w room = deliver_nav_request-Goes E now r s room

  -- Whatever the user does, the guests submit and the network answers, in whatever order, the tab
  -- strip only makes the steps that it may, so that it stays well-formed: there is an active tab,
  -- each history has its current entry, the ids differ. And the host does not panic, neither at an
  -- index nor in an import, as long as there are ids for new tabs.
  pub handle_all-Goes :
      (messages : List Sent) (s : Browser E)
      → IsWellFormed (strip E s)
      → HasRoom messages s
      → All IsCalm s.sent
      → Steps (strip E s) (strip E (handle_all messages s))
        × IsWellFormed (strip E (handle_all messages s))
        × All IsCalm (handle_all messages s).sent
  handle_all-Goes [] s w room calm = (done (strip E s), w, calm)
  handle_all-Goes ((now, m) ∷ messages) s w (room, rooms) calm =
      let g = handle-Goes now m s w room in
      let s' = handle now m s in
      let (later, w', calm') =
        handle_all-Goes messages s' (Steps-IsWellFormed (strip E s) (strip E s') g.steps w) rooms
          (g.calm calm) in
      (Steps-trans (strip E s) (strip E s') _ g.steps later, w', calm')
