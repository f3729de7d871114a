-- ===== src/Todo/Delivery.antt =====
-- `gwb_start` and `gwb_events` of examples/todo-rs/src/lib.rs, called by the host.
use wasibrowser.Prelude.{
  ℕ, ◌+◌, ◌*◌, ◌^◌, ◌<◌, ◌≤◌, ◌≡◌, refl, some, List, [], ◌∷◌, ◌++◌, arith, length,
}
use wasibrowser.Bytes.{Bytes, ok, ◌>>=◌}
use wasibrowser.Utf8.{IsUtf8}
use wasibrowser.Abi.Events.{EventOut, event_record, text_of}
use wasibrowser.Abi.DomEvents.{Floats}
use wasibrowser.Sdk.Batch
use wasibrowser.Sdk.Events.{Event, Returned}
use wasibrowser.Wire.Front.{event}
use wasibrowser.Wire.HostEvents.{HostEvent, sent, HasRange, read_as}
use wasibrowser.Wire.Events.{decode_events-read}
use wasibrowser.Map.{get}
use wasibrowser.Map.Keys.{nat_key}
use wasibrowser.Todo.{App, initial, new_id, text_element}
use wasibrowser.Todo.Start.{start, start_card, start_heading, start_controls, start_list}
use wasibrowser.Todo.Handle.{on_event, gwb_events}
use wasibrowser.Todo.Safety.{IsConsistent, handled-Leads}

-- The events that the app answers one after the other.
unfoldable pub on_events : List Event → App → Returned App
on_events [] app = ok app
on_events (e ∷ es) app = do (ret, app) ← on_event e app; on_events es app

not_found : {V : Type 0} (k : ℕ) {v : V} → get {V = V} [] k ≡ some v → ⊥
unfolding get
not_found k h = cc

pub start-IsConsistent : IsConsistent (start initial)
unfolding start start_card start_heading start_controls start_list new_id text_element
start-IsConsistent = record {
  labels = λ l r h. absurd (not_found _ h);
  owners = λ r t h. absurd (not_found _ h);
  rows = λ x r h. absurd (not_found _ h);
  buttons = λ r t h. absurd (not_found _ h);
  single = λ x y r h h'. absurd (not_found _ h);
  old_rows = λ r t h. absurd (not_found _ h);
  old_labels = λ r t h. absurd (not_found _ h);
  old_buttons = λ x r h. absurd (not_found _ h);
  distinct = tt;
  counted = refl;
  few = omega arith;
}

pub on_events-IsConsistent :
    (es : List Event) (app : App)
    → IsConsistent app
    → app.next_id + 500 * length es < 2 ^ 32
    → (app' : App) × (on_events es app ≡ ok app') × IsConsistent app'
unfolding on_events on_event
on_events-IsConsistent [] app h room = (app, refl, h)
on_events-IsConsistent (e ∷ es) app h room =
    let (app', same, leads) = handled-Leads e app h (omega arith) in
    let (last, rest, kept) =
      on_events-IsConsistent es app' leads.consistent (omega (arith, leads.ids)) in
    (last, rw same rest, kept)

pub start_id : (start initial).next_id ≡ 13
unfolding start start_card start_heading start_controls start_list new_id text_element
start_id = refl

-- From its start on the app answers any events, at most 8,589,934 of them, without a panic: labels,
-- buttons and items stay in step, and the count of the items that are done is right.
pub session-IsConsistent :
    (es : List Event)
    → length es ≤ 8_589_934
    → (app : App) × (on_events es (start initial) ≡ ok app) × IsConsistent app
session-IsConsistent es short =
    on_events-IsConsistent es (start initial) start-IsConsistent (omega (arith, start_id))

module _ (F : Floats) {H : Type 0} (host : Bytes → H → ℕ × H) (h : HostEvent) (eo : EventOut)
    (flags target listener ts : ℕ) (more : Bytes) where
  -- If the host writes an event into the region and calls the app, the app answers 0 and is
  -- consistent again: the words of the event have their widths, its text is UTF-8, and the counter of
  -- nodes is at least 500 from its end.
  pub gwb_events-answers :
      (app : App) (s : H)
      → sent F h ≡ some eo
      → HasRange F h
      → flags < 2 ^ 16
      → target < 2 ^ 32
      → listener < 2 ^ 32
      → ts < 2 ^ 64
      → IsUtf8 (text_of eo)
      → length (event_record eo flags target listener ts ++ more) < 2 ^ 32
      → IsConsistent app
      → app.next_id + 500 < 2 ^ 32
      → (app' : App) × (s' : H) × (gwb_events host
            (event_record eo flags target listener ts ++ more)
            1
            app
            s
          ≡ ok (0, app', s'))
        × IsConsistent app'
  unfolding gwb_events on_event
  gwb_events-answers app s e r fl ta li ti utf8 fits kept room =
      let ev = read_as F h (text_of eo) (event eo.kind flags target listener ts) in
      let (app', same, leads) = handled-Leads ev app kept room in
      let read =
        decode_events-read F h eo flags target listener ts more on_event app e r fl ta li ti utf8
          fits in
      let done = Batch.submit host app'.batch s in
      (record app' { batch = done.1 }, done.2, rw (read, same) refl, leads.consistent)
