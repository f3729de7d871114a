-- ===== src/Abi/Apply.antt =====
-- `NodeMaps` and `apply_batches` of renderer/src/abi.rs.
pub mod Batches
pub mod Names
pub mod Nodes
pub mod Confinement
pub mod Listeners
use Prim.Native.Nat.{bit_and, bit_or}
use wasibrowser.Prelude.{ℕ, ◌+◌, ◌-◌, ◌^◌, Option, none, some, List, [], ◌∷◌, if◌then◌else◌, ◌==◌}
use wasibrowser.Map.{Map, Set, get, insert, remove, insert_key, remove_key}
use wasibrowser.Map.Keys.{nat_key, pair_key}
use wasibrowser.Abi.{
  Op, create_element, create_text, set_attr, remove_attr, set_text, set_style, remove_style,
  append_child, insert_before, remove as remove_op, replace_with, clear, set_inner_html,
  define_atom, listen, unlisten, observe, unobserve, focus,
}
use wasibrowser.Abi.Atoms.{AtomEntry, Atoms, entry_at, qual_at, define}
use wasibrowser.Abi.Document.{Document}
use wasibrowser.Abi.Shared.{Shared}

-- A layout rectangle is four `f32`, each as its bits.
abbrev pub Rect : Type 0
Rect = ℕ × ℕ × ℕ × ℕ

pub record NodeMaps : Type 0 where
  pub fwd : Map ℕ ℕ
  pub rev : Map ℕ ℕ
  pub listeners : Set (ℕ × ℕ)
  pub observers : Map ℕ ℕ
  pub last_rects : Map ℕ Rect

abbrev pub no_maps : NodeMaps
no_maps = record { fwd = []; rev = []; listeners = []; observers = []; last_rects = [] }

-- What the loop of `apply_batches` changes.
pub record Applying (Doc Q : Type 0) : Type 0 where
  pub atoms : Atoms Q
  pub maps : NodeMaps
  pub doc : Doc
  pub focus_target : Option ℕ

-- `maps.fwd.insert(id, nid); maps.rev.insert(nid, id)`
unfoldable pub bind_node : NodeMaps → ℕ → ℕ → NodeMaps
bind_node maps id nid = record maps { fwd = insert maps.fwd id nid; rev = insert maps.rev nid id }

-- `if let Some(g) = maps.rev.remove(&n) { maps.fwd.remove(&g); }`
unfoldable pub unbind_node : NodeMaps → ℕ → NodeMaps
unbind_node maps n = elim (get maps.rev n) [
  | none ↦ maps
  | some g ↦ record maps { fwd = remove maps.fwd g; rev = remove maps.rev n }
]

-- `*maps.observers.entry(id).or_insert(0) |= what`
unfoldable pub add_observed : NodeMaps → ℕ → ℕ → NodeMaps
add_observed maps id what =
    let bits : ℕ = elim (get maps.observers id) [ none ↦ 0 | some b ↦ b ] in
    record maps { observers = insert maps.observers id (bit_or bits what) }

-- `*bits &= !what`, over 32 bits; an observer with no bits left is dropped, with its rectangle.
unfoldable pub drop_observed : NodeMaps → ℕ → ℕ → NodeMaps
drop_observed maps id what = elim (get maps.observers id) [
  | none ↦ maps
  | some b ↦
      let bits = bit_and b (2 ^ 32 - 1 - what) in
      if bits == 0
      then record maps {
        observers = remove maps.observers id;
        last_rects = remove maps.last_rects id;
      }
      else record maps { observers = insert maps.observers id bits }
]

module _ (D : Document) where
  abbrev pub State : Type 0
  State = Applying D.Doc D.QualName

  -- `if let Some(n) = node(maps, id)`
  unfoldable pub with_node : State → ℕ → (ℕ → D.Doc → D.Doc) → State
  with_node s id f = elim (get s.maps.fwd id) [ none ↦ s | some n ↦ record s { doc = f n s.doc } ]

  -- `if let (Some(a), Some(b)) = (node(maps, x), node(maps, y))`
  unfoldable pub with_nodes : State → ℕ → ℕ → (ℕ → ℕ → State) → State
  with_nodes s x y f = elim (get s.maps.fwd x) [
    | none ↦ s
    | some a ↦ elim (get s.maps.fwd y) [ none ↦ s | some b ↦ f a b ]
  ]

  -- The same with the `QualName` of an atom; it is asked for only if both are there.
  unfoldable pub with_node_qual : State → ℕ → ℕ → (ℕ → D.QualName → D.Doc → D.Doc) → State
  with_node_qual s id name f = elim (get s.maps.fwd id) [
    | none ↦ s
    | some n ↦ elim (qual_at D.html_name s.atoms name) [
      | none ↦ s
      | some (q, atoms) ↦ record s { atoms = atoms; doc = f n q s.doc }
    ]
  ]

  -- The same with the plain name of an atom.
  unfoldable pub with_node_name : State → ℕ → ℕ → (ℕ → List ℕ → D.Doc → D.Doc) → State
  with_node_name s id prop f = elim (get s.maps.fwd id) [
    | none ↦ s
    | some n ↦ elim (entry_at s.atoms prop) [
      | none ↦ s
      | some e ↦ record s { doc = f n e.name s.doc }
    ]
  ]

  -- The node that the engine has made is bound to the guest's id.
  unfoldable pub bind_created : State → ℕ → ℕ × D.Doc → State
  unfolding bind_node
  bind_created s id (nid, doc) = record s { maps = bind_node s.maps id nid; doc = doc }

  unfoldable pub apply_op : Op → State → State
  unfolding with_node with_nodes with_node_qual with_node_name bind_created unbind_node add_observed
      drop_observed
  apply_op (define_atom atom name) s = record s { atoms = define s.atoms atom name }
  apply_op (create_element id tag) s = elim (qual_at D.html_name s.atoms tag) [
    | none ↦ s
    | some (q, atoms) ↦ bind_created (record s { atoms = atoms }) id (D.create_element q s.doc)
  ]
  apply_op (create_text id text) s = bind_created s id (D.create_text_node text s.doc)
  apply_op (set_attr id name value) s = with_node_qual s id name (λ n q. D.set_attribute n q value)
  apply_op (remove_attr id name) s = with_node_qual s id name D.clear_attribute
  apply_op (set_text id text) s = with_node s id (λ n. D.set_node_text n text)
  apply_op (set_style id prop value) s =
      with_node_name s id prop (λ n name. D.set_style_property n name value)
  apply_op (remove_style id prop) s = with_node_name s id prop D.remove_style_property
  apply_op (append_child parent child) s =
      with_nodes s parent child (λ p c. record s { doc = D.append_children p (c ∷ []) s.doc })
  apply_op (insert_before child before) s =
      with_nodes s child before
        (λ c anchor. record s { doc = D.insert_nodes_before anchor (c ∷ []) s.doc })
  apply_op (replace_with old new) s =
      with_nodes s old new (λ o n. record s {
        maps = unbind_node s.maps o;
        doc = D.replace_node_with o (n ∷ []) s.doc;
      })
  apply_op (remove_op id) s = elim (get s.maps.fwd id) [
    | none ↦ s
    | some n ↦ record s { maps = unbind_node s.maps n; doc = D.remove_and_drop_node n s.doc }
  ]
  apply_op (clear id) s = with_node s id D.remove_and_drop_all_children
  apply_op (set_inner_html id html) s = with_node s id (λ n. D.set_inner_html n html)
  apply_op (listen id kind) s = record s {
    maps = record s.maps { listeners = insert_key s.maps.listeners (id, kind) };
  }
  apply_op (unlisten id kind) s = record s {
    maps = record s.maps { listeners = remove_key s.maps.listeners (id, kind) };
  }
  apply_op (observe id what) s = record s { maps = add_observed s.maps id what }
  apply_op (unobserve id what) s = record s { maps = drop_observed s.maps id what }
  apply_op (focus id) s = record s { focus_target = get s.maps.fwd id }

  -- One batch, with the number of operations so far.
  unfoldable pub apply_ops : List Op → ℕ → State → ℕ × State
  apply_ops [] applied s = (applied, s)
  apply_ops (op ∷ ops) applied s = apply_ops ops (applied + 1) (apply_op op s)

  unfoldable pub apply_each : List (List Op) → ℕ → State → ℕ × State
  unfolding apply_ops
  apply_each [] applied s = (applied, s)
  apply_each (ops ∷ batches) applied s =
      let (applied', s') = apply_ops ops applied s in apply_each batches applied' s'

  unfoldable pub set_focus : Option ℕ → D.Doc → D.Doc
  set_focus none doc = doc
  set_focus (some n) doc = D.set_focus_to n doc

  module _ {K : Type 0} (doc : D.Doc) (maps : NodeMaps) (shared : Shared D.QualName K) where
    abbrev pub Applied : Type 0
    Applied = (ℕ × Option ℕ) × D.Doc × NodeMaps × Shared D.QualName K

    unfoldable pub apply_taken : List (List Op) → Applied
    unfolding apply_each set_focus
    apply_taken [] = ((0, none), doc, maps, shared)
    apply_taken (ops ∷ rest) =
        let (applied, s) =
          apply_each (ops ∷ rest) 0
            (record { atoms = shared.atoms; maps = maps; doc = doc; focus_target = none }) in
        (
          (applied, s.focus_target),
          set_focus s.focus_target s.doc,
          s.maps,
          record shared { batches = []; atoms = s.atoms },
        )

    -- The operations applied, the node focused, and what the call leaves behind. The batches are
    -- taken: afterwards none is pending.
    unfoldable pub apply_batches : Applied
    unfolding apply_taken
    apply_batches = apply_taken shared.batches
