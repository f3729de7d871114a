-- ===== src/Map/Found.antt =====
-- Where a value that is found in a changed map was before.
use wasibrowser.Prelude.{◌≡◌, ◌≢◌, ◌⊎◌, inl, inr, refl, sym, ◌∙◌, true, none, some, Bool-cases}
use wasibrowser.Map.{Eq, Map, get, insert, remove, get-insert, get-remove}

module _ {K V : Type 0} ⦃e : Eq K⦄ where
  pub get-insert_self : (m : Map K V) (k : K) (v : V) → get (insert m k v) k ≡ some v
  get-insert_self m k v = get-insert m k k v ∙ rw ((e.beq_iff k k).1 refl) refl

  pub get-insert_ne : (m : Map K V) (k j : K) (v : V) → j ≢ k → get (insert m k v) j ≡ get m j
  get-insert_ne m k j v ne = elim (Bool-cases (e.beq k j)) [
    | inl same ↦ absurd (ne (sym ((e.beq_iff k j).0 same)))
    | inr other ↦ get-insert m k j v ∙ rw other refl
  ]

  pub found-insert :
      (m : Map K V) (k j : K) (v w : V)
      → get (insert m k v) j ≡ some w
      → ((j ≡ k) × (w ≡ v)) ⊎ ((j ≢ k) × (get m j ≡ some w))
  found-insert m k j v w h = elim (Bool-cases (e.beq k j)) [
    | inl same ↦
        let here : get (insert m k v) j ≡ some v = get-insert m k j v ∙ rw same refl in
        inl (sym ((e.beq_iff k j).0 same), cc)
    | inr other ↦
        let ne : j ≢ k = λ q. let yes_same : e.beq k j ≡ true = (e.beq_iff k j).1 (sym q) in cc in
        inr (ne, sym (get-insert_ne m k j v ne) ∙ h)
  ]

  pub get-remove_ne : (m : Map K V) (k j : K) → j ≢ k → get (remove m k) j ≡ get m j
  get-remove_ne m k j ne = elim (Bool-cases (e.beq k j)) [
    | inl same ↦ absurd (ne (sym ((e.beq_iff k j).0 same)))
    | inr other ↦ get-remove m k j ∙ rw other refl
  ]

  pub get-remove_self : (m : Map K V) (k : K) → get (remove m k) k ≡ none
  get-remove_self m k = get-remove m k k ∙ rw ((e.beq_iff k k).1 refl) refl

  pub found-remove :
      (m : Map K V) (k j : K) (w : V) → get (remove m k) j ≡ some w → (j ≢ k) × (get m j ≡ some w)
  found-remove m k j w h = elim (Bool-cases (e.beq k j)) [
    | inl same ↦
        let gone : get (remove m k) j ≡ none = get-remove m k j ∙ rw same refl in absurd (cc)
    | inr other ↦
        let ne : j ≢ k = λ q. let yes_same : e.beq k j ≡ true = (e.beq_iff k j).1 (sym q) in cc in
        (ne, sym (get-remove_ne m k j ne) ∙ h)
  ]
