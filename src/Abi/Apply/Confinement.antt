-- ===== src/Abi/Apply/Confinement.antt =====
-- A guest reaches no node but the ones that it was given or has made.
use wasibrowser.Prelude.{
  ℕ, ◌+◌, ◌≡◌, sym, ap, ◌∙◌, some, List, [], ◌∷◌, ◌==◌, arith, subst, Option-cases, Bool-cases, inl,
  inr,
}
use wasibrowser.Bytes.{Bytes}
use wasibrowser.Map.{get, get-insert, get-remove}
use wasibrowser.Map.Keys.{nat_key}
use wasibrowser.Abi.{
  Op, create_element, create_text, set_attr, remove_attr, set_text, set_style, remove_style,
  append_child, insert_before, remove as remove_op, replace_with, clear, set_inner_html, unobserve,
}
use wasibrowser.Abi.Atoms.{entry_at, qual_at}
use wasibrowser.Abi.Document.{Document}
use wasibrowser.Abi.Apply.{
  NodeMaps, State, with_node, with_nodes, with_node_qual, with_node_name, bind_created, bind_node,
  unbind_node, drop_observed, apply_op, apply_ops,
}

-- `Own` are a guest's nodes and `Inv` is a fact about the document. The fact survives each call of
-- the engine that is given the guest's nodes alone; what the engine makes becomes the guest's.
pub record Confines (D : Document) (Own : ℕ → Type 0) (Inv : D.Doc → Type 0) : Type 0 where
  pub element :
      (q : D.QualName) (d : D.Doc)
      → Inv d
      → Own (D.create_element q d).0 × Inv (D.create_element q d).1
  pub text_node :
      (t : Bytes) (d : D.Doc)
      → Inv d
      → Own (D.create_text_node t d).0 × Inv (D.create_text_node t d).1
  pub attribute :
      (n : ℕ) (q : D.QualName) (v : Bytes) (d : D.Doc)
      → Own n
      → Inv d
      → Inv (D.set_attribute n q v d)
  pub no_attribute :
      (n : ℕ) (q : D.QualName) (d : D.Doc) → Own n → Inv d → Inv (D.clear_attribute n q d)
  pub text : (n : ℕ) (t : Bytes) (d : D.Doc) → Own n → Inv d → Inv (D.set_node_text n t d)
  pub style : (n : ℕ) (p v : Bytes) (d : D.Doc) → Own n → Inv d → Inv (D.set_style_property n p v d)
  pub no_style :
      (n : ℕ) (p : Bytes) (d : D.Doc) → Own n → Inv d → Inv (D.remove_style_property n p d)
  pub append : (p c : ℕ) (d : D.Doc) → Own p → Own c → Inv d → Inv (D.append_children p (c ∷ []) d)
  pub insert :
      (a c : ℕ) (d : D.Doc) → Own a → Own c → Inv d → Inv (D.insert_nodes_before a (c ∷ []) d)
  pub replace :
      (o n : ℕ) (d : D.Doc) → Own o → Own n → Inv d → Inv (D.replace_node_with o (n ∷ []) d)
  pub drop : (n : ℕ) (d : D.Doc) → Own n → Inv d → Inv (D.remove_and_drop_node n d)
  pub drop_children : (n : ℕ) (d : D.Doc) → Own n → Inv d → Inv (D.remove_and_drop_all_children n d)
  pub html : (n : ℕ) (t : Bytes) (d : D.Doc) → Own n → Inv d → Inv (D.set_inner_html n t d)

module _ (D : Document) (Own : ℕ → Type 0) (Inv : D.Doc → Type 0)
    (confines : Confines D Own Inv) where
  abbrev pub Owned : NodeMaps → Type 0
  Owned maps = (id n : ℕ) → get maps.fwd id ≡ some n → Own n

  abbrev pub IsConfined : State D → Type 0
  IsConfined s = Inv s.doc × Owned s.maps

  bind_node-Owned :
      (maps : NodeMaps) (id nid : ℕ) → Own nid → Owned maps → Owned (bind_node maps id nid)
  unfolding bind_node
  bind_node-Owned maps id nid own o j n h = elim (Bool-cases (id == j)) [
    | inl same ↦ let e : nid ≡ n = ground (arith, get-insert maps.fwd id j nid) in subst Own e own
    | inr other ↦
        let e : get maps.fwd j ≡ some n = ground (arith, get-insert maps.fwd id j nid) in o j n e
  ]

  unbind_node-Owned : (maps : NodeMaps) (n : ℕ) → Owned maps → Owned (unbind_node maps n)
  unfolding unbind_node
  unbind_node-Owned maps n o j m h = elim (Option-cases (get maps.rev n)) [
    | inl e ↦ let e' : get maps.fwd j ≡ some m = ground arith in o j m e'
    | inr (g, e) ↦
        let e' : get maps.fwd j ≡ some m = ground (arith, get-remove maps.fwd g j) in o j m e'
  ]

  with_node-IsConfined :
      (s : State D) (id : ℕ) (f : ℕ → D.Doc → D.Doc)
      → ((n : ℕ) (d : D.Doc) → Own n → Inv d → Inv (f n d))
      → IsConfined s
      → IsConfined (with_node D s id f)
  unfolding with_node
  with_node-IsConfined s id f keep (inv, o) = elim (Option-cases (get s.maps.fwd id)) [
    | inl e ↦ rw (e, with_node) (inv, o)
    | inr (n, e) ↦ rw (e, with_node) (keep n s.doc (o id n e) inv, o)
  ]

  with_nodes-IsConfined :
      (s : State D) (x y : ℕ) (f : ℕ → ℕ → State D)
      → ((a b : ℕ) → Own a → Own b → IsConfined (f a b))
      → IsConfined s
      → IsConfined (with_nodes D s x y f)
  unfolding with_nodes
  with_nodes-IsConfined s x y f keep (inv, o) = elim (Option-cases (get s.maps.fwd x)) [
    | inl e ↦ rw (e, with_nodes) (inv, o)
    | inr (a, e) ↦ elim (Option-cases (get s.maps.fwd y)) [
      | inl e' ↦ rw (e, e', with_nodes) (inv, o)
      | inr (b, e') ↦ rw (e, e', with_nodes) (keep a b (o x a e) (o y b e'))
    ]
  ]

  with_node_qual-IsConfined :
      (s : State D) (id name : ℕ) (f : ℕ → D.QualName → D.Doc → D.Doc)
      → ((n : ℕ) (q : D.QualName) (d : D.Doc) → Own n → Inv d → Inv (f n q d))
      → IsConfined s
      → IsConfined (with_node_qual D s id name f)
  unfolding with_node_qual
  with_node_qual-IsConfined s id name f keep (inv, o) = elim (Option-cases (get s.maps.fwd id)) [
    | inl e ↦ rw (e, with_node_qual) (inv, o)
    | inr (n, e) ↦ elim (Option-cases (qual_at D.html_name s.atoms name)) [
      | inl e' ↦ rw (e, e', with_node_qual) (inv, o)
      | inr ((q, atoms), e') ↦ rw (e, e', with_node_qual) (keep n q s.doc (o id n e) inv, o)
    ]
  ]

  with_node_name-IsConfined :
      (s : State D) (id prop : ℕ) (f : ℕ → Bytes → D.Doc → D.Doc)
      → ((n : ℕ) (p : Bytes) (d : D.Doc) → Own n → Inv d → Inv (f n p d))
      → IsConfined s
      → IsConfined (with_node_name D s id prop f)
  unfolding with_node_name
  with_node_name-IsConfined s id prop f keep (inv, o) = elim (Option-cases (get s.maps.fwd id)) [
    | inl e ↦ rw (e, with_node_name) (inv, o)
    | inr (n, e) ↦ elim (Option-cases (entry_at s.atoms prop)) [
      | inl e' ↦ rw (e, e', with_node_name) (inv, o)
      | inr (entry, e') ↦ rw (e, e', with_node_name) (keep n entry.name s.doc (o id n e) inv, o)
    ]
  ]

  bind_created-IsConfined :
      (s : State D) (id : ℕ) (made : ℕ × D.Doc)
      → Own made.0 × Inv made.1
      → Owned s.maps
      → IsConfined (bind_created D s id made)
  unfolding bind_created
  bind_created-IsConfined s id (nid, doc) (own, inv) o = (inv, bind_node-Owned s.maps id nid own o)

  apply_op-IsConfined : (op : Op) (s : State D) → IsConfined s → IsConfined (apply_op D op s)
  unfolding apply_op
  apply_op-IsConfined (create_element id tag) s (inv, o) =
      elim (Option-cases (qual_at D.html_name s.atoms tag)) [
        | inl e ↦ rw (e, apply_op) (inv, o)
        | inr ((q, atoms), e) ↦
            rw (e, apply_op)
              (bind_created-IsConfined (record s { atoms = atoms }) id _
                (confines.element q s.doc inv) o)
      ]
  apply_op-IsConfined (create_text id t) s (inv, o) =
      bind_created-IsConfined s id _ (confines.text_node t s.doc inv) o
  apply_op-IsConfined (set_attr id name v) s c =
      with_node_qual-IsConfined s id name _ (λ n q d. confines.attribute n q v d) c
  apply_op-IsConfined (remove_attr id name) s c =
      with_node_qual-IsConfined s id name _ confines.no_attribute c
  apply_op-IsConfined (set_text id t) s c =
      with_node-IsConfined s id _ (λ n d. confines.text n t d) c
  apply_op-IsConfined (set_style id prop v) s c =
      with_node_name-IsConfined s id prop _ (λ n p d. confines.style n p v d) c
  apply_op-IsConfined (remove_style id prop) s c =
      with_node_name-IsConfined s id prop _ confines.no_style c
  apply_op-IsConfined (append_child parent child) s (inv, o) =
      with_nodes-IsConfined s parent child _ (λ p c hp hc. (confines.append p c s.doc hp hc inv, o))
        (inv, o)
  apply_op-IsConfined (insert_before child before) s (inv, o) =
      with_nodes-IsConfined s child before _ (λ c a hc ha. (confines.insert a c s.doc ha hc inv, o))
        (inv, o)
  apply_op-IsConfined (replace_with old new) s (inv, o) =
      with_nodes-IsConfined s old new _
        (λ a b ha hb. (confines.replace a b s.doc ha hb inv, unbind_node-Owned s.maps a o)) (inv, o)
  apply_op-IsConfined (remove_op id) s (inv, o) = elim (Option-cases (get s.maps.fwd id)) [
    | inl e ↦ rw (e, apply_op) (inv, o)
    | inr (n, e) ↦
        rw (e, apply_op) (confines.drop n s.doc (o id n e) inv, unbind_node-Owned s.maps n o)
  ]
  apply_op-IsConfined (clear id) s c = with_node-IsConfined s id _ confines.drop_children c
  apply_op-IsConfined (set_inner_html id t) s c =
      with_node-IsConfined s id _ (λ n d. confines.html n t d) c
  apply_op-IsConfined (unobserve id what) s (inv, o) =
      let same : (drop_observed s.maps id what).fwd ≡ s.maps.fwd =
        unfold drop_observed in ground arith in
      (inv, λ j n h. o j n (sym (ap (λ m. get m j) same) ∙ h))
  apply_op-IsConfined op s c = c

  -- Whatever a guest submits, the engine is called for the guest's own nodes alone: a fact that such
  -- calls keep holds after any operations, and all that the guest's ids stand for is its own.
  pub apply_ops-IsConfined :
      (ops : List Op) (n : ℕ) (s : State D) → IsConfined s → IsConfined (apply_ops D ops n s).1
  unfolding apply_ops
  apply_ops-IsConfined [] n s c = c
  apply_ops-IsConfined (op ∷ ops) n s c =
      apply_ops-IsConfined ops (n + 1) (apply_op D op s) (apply_op-IsConfined op s c)
