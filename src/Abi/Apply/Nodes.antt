-- ===== src/Abi/Apply/Nodes.antt =====
-- The maps between a guest's ids and the engine's nodes.
use wasibrowser.Prelude.{
  ℕ, ◌+◌, ◌≡◌, ◌≢◌, refl, sym, ap, ◌∙◌, Option, none, some, List, [], ◌∷◌, ==_iff, arith,
  Option-cases, inl, inr,
}
use wasibrowser.Map.{get, get-insert, get-remove}
use wasibrowser.Map.Keys.{nat_key}
use wasibrowser.Abi.{Op, create_element, create_text, remove as remove_op, replace_with}
use wasibrowser.Abi.Atoms.{qual_at}
use wasibrowser.Abi.Document.{Document}
use wasibrowser.Abi.Apply.{
  NodeMaps, State, with_nodes, bind_created, bind_node, unbind_node, apply_op, apply_ops,
}

-- Each id that has a node is the id that events on the node are delivered to.
pub record IsConsistent (maps : NodeMaps) : Type 0 where
  pub back : (id n : ℕ) → get maps.fwd id ≡ some n → get maps.rev n ≡ some id

bind_node-IsConsistent :
    (maps : NodeMaps) (id nid : ℕ)
    → get maps.rev nid ≡ none
    → IsConsistent maps
    → IsConsistent (bind_node maps id nid)
unfolding bind_node
bind_node-IsConsistent maps id nid fresh c = record {
  back = λ j n h. ground (
    arith,
    get-insert maps.fwd id j nid,
    get-insert maps.rev nid n id,
    c.back j n,
    ==_iff id j,
    ==_iff nid n,
  );
}

unbind_node-IsConsistent :
    (maps : NodeMaps) (n : ℕ) → IsConsistent maps → IsConsistent (unbind_node maps n)
unfolding unbind_node
unbind_node-IsConsistent maps n c = record {
  back = λ j m h. elim (Option-cases (get maps.rev n)) [
    | inl e ↦ ground (arith, c.back j m)
    | inr (g, e) ↦ ground (
      arith,
      get-remove maps.fwd g j,
      get-remove maps.rev n m,
      c.back j m,
      ==_iff g j,
      ==_iff n m,
    )
  ];
}

module _ (D : Document) where
  -- The node that a creating operation would make now.
  abbrev pub created : Op → State D → Option ℕ
  created (create_element id tag) s = elim (qual_at D.html_name s.atoms tag) [
    | none ↦ none
    | some (q, atoms) ↦ some (D.create_element q s.doc).0
  ]
  created (create_text id text) s = some (D.create_text_node text s.doc).0
  created _ s = none

  -- No creating operation of `ops`, run from `s`, is given a node that an id already stands for.
  abbrev pub Unaliased : List Op → State D → Type 0
  Unaliased [] s = Unit
  Unaliased (op ∷ ops) s =
      ((nid : ℕ) → created op s ≡ some nid → get s.maps.rev nid ≡ none)
      × Unaliased ops (apply_op D op s)

  apply_op-IsConsistent :
      (op : Op) (s : State D)
      → ((nid : ℕ) → created op s ≡ some nid → get s.maps.rev nid ≡ none)
      → IsConsistent s.maps
      → IsConsistent (apply_op D op s).maps
  apply_op-IsConsistent (create_element id tag) s fresh c =
      elim (Option-cases (qual_at D.html_name s.atoms tag)) [
        | inl e ↦ unfold apply_op in rw (e, apply_op) c
        | inr ((q, atoms), e) ↦
            unfold apply_op bind_created in
            rw (e, apply_op)
              (bind_node-IsConsistent s.maps id (D.create_element q s.doc).0
                (fresh _ (rw (e, created))) c)
      ]
  apply_op-IsConsistent (create_text id text) s fresh c =
      unfold apply_op bind_created in
      bind_node-IsConsistent s.maps id (D.create_text_node text s.doc).0 (fresh _ refl) c
  apply_op-IsConsistent (remove_op id) s fresh c = elim (Option-cases (get s.maps.fwd id)) [
    | inl e ↦ unfold apply_op in rw (e, apply_op) c
    | inr (n, e) ↦ unfold apply_op in rw (e, apply_op) (unbind_node-IsConsistent s.maps n c)
  ]
  apply_op-IsConsistent (replace_with old new) s fresh c =
      elim (Option-cases (get s.maps.fwd old)) [
        | inl e ↦ unfold apply_op with_nodes in rw (e, apply_op, with_nodes) c
        | inr (n, e) ↦ elim (Option-cases (get s.maps.fwd new)) [
          | inl e' ↦ unfold apply_op with_nodes in rw (e, e', with_nodes) c
          | inr (n', e') ↦
              unfold apply_op with_nodes in
              rw (e, e', with_nodes) (unbind_node-IsConsistent s.maps n c)
        ]
      ]
  apply_op-IsConsistent op s fresh c =
      let fwd : (apply_op D op s).maps.fwd ≡ s.maps.fwd = unfold apply_op in ground arith in
      let rev : (apply_op D op s).maps.rev ≡ s.maps.rev = unfold apply_op in ground arith in
      record {
        back = λ id n h. ap (λ m. get m n) rev ∙ c.back id n (sym (ap (λ m. get m id) fwd) ∙ h);
      }

  -- From consistent maps, any operations leave consistent maps: as long as the engine makes no node
  -- that an id stands for, events on a node reach the id that the node was made for.
  pub apply_ops-IsConsistent :
      (ops : List Op) (n : ℕ) (s : State D)
      → Unaliased ops s
      → IsConsistent s.maps
      → IsConsistent (apply_ops D ops n s).1.maps
  unfolding apply_ops
  apply_ops-IsConsistent [] n s u c = c
  apply_ops-IsConsistent (op ∷ ops) n s (fresh, u) c =
      apply_ops-IsConsistent ops (n + 1) (apply_op D op s) u (apply_op-IsConsistent op s fresh c)

  -- `Remove` forgets the node of the removed id alone. Where an id below it is still bound to a
  -- node that the engine dropped too and then makes again, that id and the new one stand for the
  -- same node.
  pub removed_child-aliases :
      (s : State D) (parent child id p c : ℕ) (text : List ℕ)
      → get s.maps.fwd parent ≡ some p
      → get s.maps.rev p ≡ some parent
      → get s.maps.fwd child ≡ some c
      → parent ≢ child
      → id ≢ child
      → created (create_text id text) (apply_op D (remove_op parent) s) ≡ some c
      → (get (apply_op D (create_text id text) (apply_op D (remove_op parent) s)).maps.fwd child
          ≡ some c)
        × (get (apply_op D (create_text id text) (apply_op D (remove_op parent) s)).maps.fwd id
            ≡ some c)
  unfolding apply_op bind_created bind_node unbind_node
  removed_child-aliases s parent child id p c text hp hr hc ne ne' made = (
    get-insert t.maps.fwd id child nid
        ∙ ground (arith, ==_iff id child, ==_iff parent child, get-remove s.maps.fwd parent child),
    get-insert t.maps.fwd id id nid ∙ ground (arith, ==_iff id id),
  )
    where
      t : State D
      t = apply_op D (remove_op parent) s

      nid : ℕ
      nid = (D.create_text_node text t.doc).0
