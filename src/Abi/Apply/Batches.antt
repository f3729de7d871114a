-- ===== src/Abi/Apply/Batches.antt =====
-- The loop of `apply_batches` over whole batches.
use wasibrowser.Prelude.{ℕ, ◌+◌, ◌≡◌, refl, sym, ap, ◌∙◌, List, [], ◌∷◌, ◌++◌, length, arith, none}
use wasibrowser.Abi.{Op}
use wasibrowser.Abi.Document.{Document}
use wasibrowser.Abi.Shared.{Shared}
use wasibrowser.Abi.Apply.{
  NodeMaps, State, apply_op, apply_ops, apply_each, apply_taken, apply_batches, Applied, set_focus,
}

-- The operations of several batches, in their order.
unfoldable pub joined : List (List Op) → List Op
joined [] = []
joined (ops ∷ batches) = ops ++ joined batches

module _ (D : Document) where
  pub apply_ops-append :
      (ops more : List Op) (n : ℕ) (s : State D)
      → apply_ops D (ops ++ more) n s
        ≡ apply_ops D more (apply_ops D ops n s).0 (apply_ops D ops n s).1
  unfolding apply_ops
  apply_ops-append [] more n s = refl
  apply_ops-append (op ∷ ops) more n s = apply_ops-append ops more (n + 1) (apply_op D op s)

  pub apply_ops-count :
      (ops : List Op) (n : ℕ) (s : State D) → (apply_ops D ops n s).0 ≡ n + length ops
  unfolding apply_ops
  apply_ops-count [] n s = omega arith
  apply_ops-count (op ∷ ops) n s = omega (arith, apply_ops-count ops (n + 1) (apply_op D op s))

  pub apply_each-joined :
      (batches : List (List Op)) (n : ℕ) (s : State D)
      → apply_each D batches n s ≡ apply_ops D (joined batches) n s
  unfolding apply_each joined
  apply_each-joined [] n s = unfold apply_ops in refl
  apply_each-joined (ops ∷ batches) n s =
      apply_each-joined batches (apply_ops D ops n s).0 (apply_ops D ops n s).1
      ∙ sym (apply_ops-append ops (joined batches) n s)

  module _ {K : Type 0} (doc : D.Doc) (maps : NodeMaps) (shared : Shared D.QualName K) where
    abbrev pub start : State D
    start = record { atoms = shared.atoms; maps = maps; doc = doc; focus_target = none }

    abbrev pub run : List Op → State D
    run ops = (apply_ops D ops 0 start).1

    -- What `apply_batches` leaves behind is what the operations `ops` leave, in one sequence.
    pub record Leaves (ops : List Op) (r : Applied D doc maps shared) : Type 0 where
      pub counted : r.0.0 ≡ length ops
      pub focused : r.0.1 ≡ (run ops).focus_target
      pub document : r.1 ≡ set_focus D (run ops).focus_target (run ops).doc
      pub mapped : r.2 ≡ (run ops).maps
      pub named : r.3.atoms ≡ (run ops).atoms
      pub taken : r.3.batches ≡ []

    apply_taken-Leaves :
        (batches : List (List Op))
        → shared.batches ≡ batches
        → Leaves (joined batches) (apply_taken D doc maps shared batches)
    unfolding apply_taken joined apply_ops set_focus
    apply_taken-Leaves [] h = record {
      counted = refl;
      focused = refl;
      document = refl;
      mapped = refl;
      named = refl;
      taken = h;
    }
    apply_taken-Leaves (ops ∷ rest) h =
        let e = apply_each-joined (ops ∷ rest) 0 start in
        record {
          counted = ap (λ r. r.0) e ∙ apply_ops-count (ops ++ joined rest) 0 start ∙ omega arith;
          focused = ap (λ r. r.1.focus_target) e;
          document = ap (λ r. set_focus D r.1.focus_target r.1.doc) e;
          mapped = ap (λ r. r.1.maps) e;
          named = ap (λ r. r.1.atoms) e;
          taken = refl;
        }

    -- Pending batches take effect as one sequence of operations, in the order of submission: each
    -- operation is counted, also one that changes nothing, the focus is set once behind the last
    -- one, and afterwards no batch is pending.
    pub apply_batches-joined : Leaves (joined shared.batches) (apply_batches D doc maps shared)
    unfolding apply_batches
    apply_batches-joined = apply_taken-Leaves shared.batches refl
