-- ===== src/Wire/Unplaced.antt =====
-- Where a context menu opens, on its way from renderer/src/abi.rs to sdk-rust/src/lib.rs.
use wasibrowser.Prelude.{ℕ, ◌++◌}
use wasibrowser.Bytes.{Bytes}
use wasibrowser.Abi.Events.{EventOut, event_record, text_of}
use wasibrowser.Abi.Kind
use wasibrowser.Abi.Events
use wasibrowser.Abi.DomEvents
use wasibrowser.Abi.DomEvents.{Floats, DomEvent, PointerEvent}

-- The kinds of pointer events that the SDK does not know.
pub data Unknown : Type 0 where
  menu : Unknown
  cancel : Unknown

abbrev pub of_kind : Unknown → PointerEvent → DomEvent
of_kind menu p = DomEvents.context_menu p
of_kind cancel p = DomEvents.pointer_cancel p

-- What `map_dom_event` makes of it.
abbrev pub number : Unknown → ℕ
number menu = Kind.context_menu
number cancel = Kind.pointer_cancel

module _ (F : Floats) (flags target listener ts : ℕ) (more : Bytes) where
  -- The region with the record of such an event at its front.
  abbrev pub region : EventOut → Bytes
  region eo = event_record eo flags target listener ts ++ more
