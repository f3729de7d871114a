-- ===== src/Runs/Todos.antt =====
-- The guest todo-rs on events that the host writes.
use wasibrowser.Prelude.{ℕ, ◌^◌, ◌<◌, ◌≡◌, refl, none, some, List, [], ◌∷◌, ◌++◌, arith, length}
use wasibrowser.Bytes.{Bytes, ok, u16_to_le, u32_to_le}
use wasibrowser.Abi.Events.{u64_to_le, EventOut, event_record, new, put, f32_at, u16_at}
use wasibrowser.Abi.DomEvents
use wasibrowser.Abi.DomEvents.{Floats, PointerEvent, map_dom_event, pointer}
use wasibrowser.Utf8.{is_utf8}
use wasibrowser.Sdk.Kind
use wasibrowser.Abi.Kind as HostKind
use wasibrowser.Sdk.Events.{Event, default}
use wasibrowser.Wire.Front.{event}
use wasibrowser.Wire.HostEvents.{HostEvent, sent, arrives}
use wasibrowser.Prelude.{codes, false}
use wasibrowser.Map.{get, insert}
use wasibrowser.Map.Keys.{nat_key}
use wasibrowser.Todo.{App, Todo, initial, add_todo, new_id, text_element}
use wasibrowser.Todo.Clicks.{Flips, item_clicked-Flips}
use wasibrowser.Todo.Start.{start_card, start_heading, start_controls, start_list}
use wasibrowser.Todo.Handle.{item_clicked}
use wasibrowser.Todo.Safety.{add_todo-IsConsistent}
use wasibrowser.Todo.Start.{start}
use wasibrowser.Todo.Handle.{gwb_events}
use wasibrowser.Todo.Safety.{IsConsistent}
use wasibrowser.Todo.Delivery.{
  on_events, session-IsConsistent, start-IsConsistent, start_id, gwb_events-answers,
}

-- A click on the button "Add", the node 8, and one on the label of the new item.
abbrev clicks : List Event
clicks =
    record default { kind = Kind.click; listener = 8 }
    ∷ record default { kind = Kind.click; listener = 15 }
    ∷ []

session-IsConsistent_example :
    (app : App) × (on_events clicks (start initial) ≡ ok app) × IsConsistent app
session-IsConsistent_example = session-IsConsistent clicks (omega arith)

abbrev floats : Floats
floats = record { as_f32 = λ x. 0; times_40 = λ x. 0 }

abbrev at_origin : PointerEvent
at_origin = record { page_x = 1; page_y = 2; buttons = 1; mods = 0 }

abbrev click : HostEvent
click = HostEvent.dom (DomEvents.click at_origin)

abbrev click_out : EventOut
click_out = record {
  kind = 4;
  payload = 1 ∷ 0 ∷ 0 ∷ 0 ∷ 2 ∷ 0 ∷ 0 ∷ 0 ∷ 1 ∷ 0 ∷ 0 ∷ 0 ∷ 0 ∷ 0 ∷ 0 ∷ 0 ∷ [];
  text = none;
}

click_sent : sent floats click ≡ some click_out
unfolding map_dom_event pointer new f32_at u16_at put u32_to_le u16_to_le
click_sent = refl

abbrev region : Bytes
region = event_record click_out 0 8 8 0 ++ []

region_short : length region < 2 ^ 32
unfolding event_record u64_to_le u16_to_le u32_to_le
region_short = omega arith

abbrev told : Event
told = arrives floats click [] (event 4 0 8 8 0)

-- Two context menus.
abbrev menu_at : ℕ → EventOut
menu_at x = pointer HostKind.context_menu (record at_origin { page_x = x })

-- A host that takes every batch.
abbrev takes : Bytes → List Bytes → ℕ × List Bytes
takes buf bufs = (0, buf ∷ bufs)

gwb_events-answers_example :
    (app' : App) × (s' : List Bytes) × (gwb_events takes region 1 (start initial) []
      ≡ ok (0, app', s'))
    × IsConsistent app'
unfolding is_utf8
gwb_events-answers_example =
    gwb_events-answers floats takes click click_out 0 8 8 0 [] (start initial) [] click_sent
      (omega arith) (omega arith) (omega arith) (omega arith) (omega arith) refl region_short
      start-IsConsistent (omega (arith, start_id))

-- The app with one item, the row 14 with the label 15.
abbrev with_milk : App
with_milk = add_todo (codes "milk") (start initial)

abbrev milk : Todo
milk = record { label = 15; text = 16; done = false }

milk_there : get with_milk.todos 14 ≡ some milk
unfolding add_todo start start_card start_heading start_controls start_list new_id text_element get
    insert
milk_there = refl

item_clicked-Flips_example :
    (app' : App) × (app'' : App) × (item_clicked 15 with_milk ≡ ok app')
    × Flips 14 milk with_milk app'
    × (item_clicked 15 app' ≡ ok app'')
    × ((r : ℕ) → get app''.todos r ≡ get with_milk.todos r)
item_clicked-Flips_example =
    item_clicked-Flips with_milk 14 milk
      (add_todo-IsConsistent (codes "milk") (start initial) start-IsConsistent
        (omega (arith, start_id))).0
      milk_there
