-- ===== src/Runs/Guests.antt =====
-- Operations of a guest on the small engine, and its calls of imports.
use wasibrowser.Prelude.{
  if◌then◌else◌, ◌==◌, true, false, ℕ, ◌≡◌, ◌<◌, refl, List, [], ◌∷◌, codes, arith, none, some,
  if◌then◌else◌, ◌==◌, All,
}
use wasibrowser.Bytes.{Bytes}
use wasibrowser.Map.{get, contains}
use wasibrowser.Map.Keys.{nat_key, pair_key}
use wasibrowser.Abi.{
  Op, create_element, create_text, append_child, define_atom, listen, unlisten, remove,
}
use wasibrowser.Abi.Atoms.{entry_at}
use wasibrowser.Abi.Shared.{Shared}
use wasibrowser.Abi.Apply.{State, apply_op, apply_ops, apply_batches}
use wasibrowser.Abi.Apply.Batches.{Leaves, joined, apply_batches-joined}
use wasibrowser.Abi.Apply.Names.{IsCached, create_element-last_name}
use wasibrowser.Abi.Apply.Nodes.{IsConsistent, apply_ops-IsConsistent, removed_child-aliases}
use wasibrowser.Abi.Apply.Confinement.{Confines, IsConfined, apply_ops-IsConfined}
use wasibrowser.Abi.Apply.Listeners.{subscribed, apply_ops-listeners}
use wasibrowser.Abi.Imports.{navigate, request_frame}
use wasibrowser.Abi.Imports.Gates.{SameRights, Permitted}
use wasibrowser.Abi.Events.{new}
use wasibrowser.Guest.{
  Run, asks, returns, traps, exec, Wasm, begins, GuestRuntime, handle_guest_event, with_gesture,
}
use wasibrowser.Guest.Gestures.{Within, exec-Within, handle_guest_event-Within}
use wasibrowser.Runs.Engine.{engine, next_slot, mounted, fresh, guest}

-- A name is used, defined anew, and a listener is added and taken back.
abbrev ops : List Op
ops =
    define_atom 1 (codes "li")
    ∷ create_element 2 1
    ∷ append_child 1 2
    ∷ listen 2 1
    ∷ define_atom 1 (codes "ul")
    ∷ unlisten 2 1
    ∷ []

abbrev waiting : Shared Bytes Unit
waiting = record guest { batches = ops ∷ (create_text 3 (codes "x") ∷ []) ∷ [] }

apply_batches-joined_example :
    Leaves engine
      (5 ∷ 6 ∷ [])
      mounted
      waiting
      (joined waiting.batches)
      (apply_batches engine (5 ∷ 6 ∷ []) mounted waiting)
apply_batches-joined_example = apply_batches-joined engine (5 ∷ 6 ∷ []) mounted waiting

fresh-IsCached : IsCached engine fresh.atoms
fresh-IsCached = record { built = λ i e q h. absurd (unfold entry_at in cc h) }

create_element-last_name_example :
    (apply_op engine (create_element 9 1) (apply_ops engine ops 0 fresh).1).doc
    ≡ (next_slot (apply_ops engine ops 0 fresh).1.doc).1
create_element-last_name_example =
    create_element-last_name engine ops 0 fresh 9 1 (codes "ul") fresh-IsCached refl

mounted-IsConsistent : IsConsistent mounted
unfolding get
mounted-IsConsistent = record { back = λ id n h. ground arith }

-- A text node under the container.
abbrev text_ops : List Op
text_ops = create_text 2 (codes "x") ∷ append_child 1 2 ∷ []

apply_ops-IsConsistent_example : IsConsistent (apply_ops engine text_ops 0 fresh).1.maps
unfolding get
apply_ops-IsConsistent_example =
    apply_ops-IsConsistent engine text_ops 0 fresh ((λ nid e. ground arith), ((λ nid e. cc), tt))
      mounted-IsConsistent

apply_ops-listeners_example :
    contains (apply_ops engine ops 0 fresh).1.maps.listeners (2, 1)
    ≡ subscribed ops (2, 1) (contains fresh.maps.listeners (2, 1))
apply_ops-listeners_example = apply_ops-listeners engine ops 0 fresh (2, 1)

-- Id 2 is node 5, and id 4, its child, is node 6.
abbrev nested : State engine
nested = record fresh {
  maps = record mounted { fwd = (2, 5) ∷ (4, 6) ∷ []; rev = (5, 2) ∷ (6, 4) ∷ [] };
}

removed_child-aliases_example :
    (get (apply_op engine (create_text 8 []) (apply_op engine (remove 2) nested)).maps.fwd 4
      ≡ some 6)
    × (get (apply_op engine (create_text 8 []) (apply_op engine (remove 2) nested)).maps.fwd 8
        ≡ some 6)
unfolding get
removed_child-aliases_example =
    removed_child-aliases engine nested 2 4 8 5 6 [] refl refl refl (omega arith) (omega arith)
      (unfold apply_op in refl)

-- The guest's nodes are not the root, node 0.
abbrev Own : ℕ → Type 0
Own n = 0 < n

engine-Confines : Confines engine Own (All Own)
engine-Confines = record {
  element = λ q free h. next_slot-Own free h;
  text_node = λ t free h. next_slot-Own free h;
  attribute = λ n q v free o h. h;
  no_attribute = λ n q free o h. h;
  text = λ n t free o h. h;
  style = λ n p v free o h. h;
  no_style = λ n p free o h. h;
  append = λ p c free o o' h. h;
  insert = λ a c free o o' h. h;
  replace = λ a n free o o' h. h;
  drop = λ n free o h. (omega arith, (o, h));
  drop_children = λ n free o h. (omega arith, h);
  html = λ n t free o h. h;
}
  where
    next_slot-Own :
        (free : List ℕ) → All Own free → Own (next_slot free).0 × All Own (next_slot free).1
    next_slot-Own [] h = (omega arith, tt)
    next_slot-Own (n ∷ free) (o, h) = (o, h)

fresh-IsConfined : IsConfined engine Own (All Own) engine-Confines fresh
unfolding get
fresh-IsConfined = ((omega arith, (omega arith, (omega arith, tt))), λ id n h. ground arith)

apply_ops-IsConfined_example :
    IsConfined engine Own (All Own) engine-Confines (apply_ops engine ops 0 fresh).1
apply_ops-IsConfined_example =
    apply_ops-IsConfined engine Own (All Own) engine-Confines ops 0 fresh fresh-IsConfined

-- The guest asks to go to "web://shop" in a new tab, and if it may, for a frame.
abbrev pub asking : Run Unit
asking =
    asks (some (codes "web://shop")) (navigate 0 10 1)
      λ value. if value == 0 then asks none request_frame (λ v. returns 0 tt) else traps tt

exec-Within_example : Within guest (exec asking guest)
exec-Within_example = exec-Within asking guest

-- wasmtime with a guest that answers each event by `asking`.
abbrev pub asker : Wasm
asker = record {
  Instance = Unit;
  load = λ path. begins (returns 65_536 tt);
  has_exports = λ i. true;
  write = λ at bytes i. some i;
  start = λ w h scale flags i. returns 0 i;
  events = λ count i. asking;
  has_frame = λ i. true;
  frame = λ dt i. returns 0 i;
}

abbrev pub resting : GuestRuntime Unit Bytes Unit
resting = record {
  inst = tt;
  shared = record guest { event_region = (0, 8192); gesture_active = false };
}

-- A click on node 5, in the container 3 whose id 1 listens for clicks.
handle_guest_event-Within_example :
    SameRights resting.shared
      (handle_guest_event asker
        (record mounted { listeners = (1, 4) ∷ [] })
        (5 ∷ 3 ∷ [])
        5
        true
        (new 4)
        0
        resting).1.shared
    × All
        (Permitted (with_gesture true resting).shared)
        (handle_guest_event asker
          (record mounted { listeners = (1, 4) ∷ [] })
          (5 ∷ 3 ∷ [])
          5
          true
          (new 4)
          0
          resting).2
unfolding new
handle_guest_event-Within_example =
    handle_guest_event-Within asker (record mounted { listeners = (1, 4) ∷ [] }) (5 ∷ 3 ∷ []) 5 true
      (new 4) 0 resting refl
