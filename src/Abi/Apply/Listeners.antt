-- ===== src/Abi/Apply/Listeners.antt =====
-- The subscriptions of a guest.
use wasibrowser.Prelude.{
  ℕ, ◌+◌, ◌≡◌, refl, sym, ap, ◌∙◌, Bool, true, false, List, [], ◌∷◌, if◌then◌else◌, ◌==◌, ◌&&◌,
  arith,
}
use wasibrowser.Map.{contains, contains-insert_key, contains-remove_key}
use wasibrowser.Map.Keys.{pair_key, nat_key}
use wasibrowser.Abi.{Op, listen, unlisten}
use wasibrowser.Abi.Document.{Document}
use wasibrowser.Abi.Apply.{State, apply_op, apply_ops}

-- Whether the last `Listen` or `Unlisten` of `key` among `ops` is a `Listen`; `before` if there is
-- none.
abbrev pub subscribed : List Op → ℕ × ℕ → Bool → Bool
subscribed [] key before = before
subscribed (listen id kind ∷ ops) key before =
    subscribed ops key (if id == key.0 && kind == key.1 then true else before)
subscribed (unlisten id kind ∷ ops) key before =
    subscribed ops key (if id == key.0 && kind == key.1 then false else before)
subscribed (op ∷ ops) key before = subscribed ops key before

subscribed-cons :
    (op : Op) (ops : List Op) (key : ℕ × ℕ) (before : Bool)
    → subscribed (op ∷ ops) key before ≡ subscribed ops key (subscribed (op ∷ []) key before)
subscribed-cons (listen id kind) ops key before = refl
subscribed-cons (unlisten id kind) ops key before = refl
subscribed-cons _ ops key before = refl

module _ (D : Document) where
  apply_op-listeners :
      (op : Op) (s : State D) (key : ℕ × ℕ)
      → contains (apply_op D op s).maps.listeners key
        ≡ subscribed (op ∷ []) key (contains s.maps.listeners key)
  unfolding apply_op
  apply_op-listeners (listen id kind) s key = contains-insert_key s.maps.listeners (id, kind) key
  apply_op-listeners (unlisten id kind) s key = contains-remove_key s.maps.listeners (id, kind) key
  apply_op-listeners _ s key = ap (λ l. contains l key) (ground arith)

  -- A guest is subscribed to an event of an id exactly if its last `Listen` or `Unlisten` of the
  -- two was a `Listen`, or there was none and it was subscribed before. No other operation changes
  -- a subscription, not even the removal of the node.
  pub apply_ops-listeners :
      (ops : List Op) (n : ℕ) (s : State D) (key : ℕ × ℕ)
      → contains (apply_ops D ops n s).1.maps.listeners key
        ≡ subscribed ops key (contains s.maps.listeners key)
  unfolding apply_ops
  apply_ops-listeners [] n s key = refl
  apply_ops-listeners (op ∷ ops) n s key =
      apply_ops-listeners ops (n + 1) (apply_op D op s) key
      ∙ ap (subscribed ops key) (apply_op-listeners op s key)
      ∙ sym (subscribed-cons op ops key (contains s.maps.listeners key))
