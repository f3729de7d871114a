-- ===== src/Runs/Engine.antt =====
-- A small engine for the runs: its document is the list of the free slots for nodes, and a node's
-- only child has the slot behind it.
use wasibrowser.Prelude.{ℕ, ◌+◌, List, [], ◌∷◌, none, true, false}
use wasibrowser.Bytes.{Bytes}
use wasibrowser.Abi.Document.{Document}
use wasibrowser.Abi.Apply.{State, NodeMaps, no_maps}
use wasibrowser.Abi.Shared.{Shared}
use wasibrowser.Prelude.{codes}

-- The slot for the next node.
abbrev pub next_slot : List ℕ → ℕ × List ℕ
next_slot [] = (1, [])
next_slot (n ∷ free) = (n, free)

abbrev pub engine : Document
engine = record {
  Doc = List ℕ;
  QualName = Bytes;
  html_name = λ name. name;
  attr_name = λ name. name;
  create_element = λ q free. next_slot free;
  create_text_node = λ t free. next_slot free;
  set_attribute = λ n q v free. free;
  clear_attribute = λ n q free. free;
  set_node_text = λ n t free. free;
  set_style_property = λ n p v free. free;
  remove_style_property = λ n p free. free;
  append_children = λ p cs free. free;
  insert_nodes_before = λ a cs free. free;
  replace_node_with = λ o cs free. free;
  remove_and_drop_node = λ n free. (n + 1) ∷ n ∷ free;
  remove_and_drop_all_children = λ n free. (n + 1) ∷ free;
  set_inner_html = λ n t free. free;
  set_focus_to = λ n free. free;
  caret_to_end = λ n free. free;
}

-- The guest's container, its id 1, is node 3.
abbrev pub mounted : NodeMaps
mounted = record no_maps { fwd = (1, 3) ∷ []; rev = (3, 1) ∷ [] }

abbrev pub fresh : State engine
fresh = record { atoms = []; maps = mounted; doc = 5 ∷ 6 ∷ 7 ∷ []; focus_target = none }

abbrev pub guest : Shared Bytes Unit
guest = record {
  atoms = [];
  batches = [];
  event_region = (0, 0);
  next_fetch_id = 0;
  frame_requested = false;
  window_id = none;
  services =
      (codes "search", record { endpoint = codes "http://h/"; iface = codes "s"; server_key = [] })
      ∷ [];
  next_rpc_id = 0;
  session_token = none;
  app_key = tt;
  app_key_b64 = [];
  links = codes "shop" ∷ [];
  gesture_active = true;
  tab_id = 1;
}
