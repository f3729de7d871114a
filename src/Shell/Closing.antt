-- ===== src/Shell/Closing.antt =====
-- Closing a tab that is not the active one.
use wasibrowser.Prelude.{
  ℕ, zero, suc, ◌-◌, ◌<◌, ◌≤◌, ◌≡◌, ◌≢◌, refl, sym, ap, ◌∙◌, some, List, [], ◌∷◌, get_elem?,
  get_elem?-some, length, Option-cases, Bool-cases, inl, inr, ltb, ◌==◌, ==_iff, arith,
}
use wasibrowser.Shell.{Env, Browser, TabState}
use wasibrowser.Shell.Guests.{position}
use wasibrowser.Shell.Openings.{position-in_range}
use wasibrowser.Shell.Tabs.{remove_at, drop_tab, close_tab}

get_elem?-remove_at-suc :
    {A : Type 0} (xs : List A) (i j : ℕ)
    → i ≤ j
    → get_elem? (remove_at i xs) j ≡ get_elem? xs (suc j)
unfolding remove_at
get_elem?-remove_at-suc [] i j h = refl
get_elem?-remove_at-suc (x ∷ xs) zero j h = refl
get_elem?-remove_at-suc (x ∷ xs) (suc i) zero h = absurd (omega arith)
get_elem?-remove_at-suc (x ∷ xs) (suc i) (suc j) h = get_elem?-remove_at-suc xs i j (omega arith)

get_elem?-remove_at_before :
    {A : Type 0} (xs : List A) (i j : ℕ)
    → i < j
    → get_elem? (remove_at i xs) (j - 1) ≡ get_elem? xs j
get_elem?-remove_at_before xs i j h =
    let e : suc (j - 1) ≡ j = omega arith in
    get_elem?-remove_at-suc xs i (j - 1) (omega arith) ∙ ap (get_elem? xs) e

get_elem?-remove_at_behind :
    {A : Type 0} (xs : List A) (i j : ℕ) → j < i → get_elem? (remove_at i xs) j ≡ get_elem? xs j
unfolding remove_at
get_elem?-remove_at_behind [] i j h = refl
get_elem?-remove_at_behind (x ∷ xs) zero j h = absurd (omega arith)
get_elem?-remove_at_behind (x ∷ xs) (suc i) zero h = refl
get_elem?-remove_at_behind (x ∷ xs) (suc i) (suc j) h =
    get_elem?-remove_at_behind xs i j (omega arith)

module _ (E : Env) where
  drop_tab-active :
      (idx : ℕ) (tab : TabState E) (s : Browser E)
      → idx ≢ s.active_idx
      → get_elem? (drop_tab E idx tab s).tabs (drop_tab E idx tab s).active_idx
        ≡ get_elem? s.tabs s.active_idx
  unfolding drop_tab
  drop_tab-active idx tab s ne = elim (Bool-cases (s.active_idx == idx)) [
    | inl here ↦ absurd (ne (sym ((==_iff s.active_idx idx).0 here)))
    | inr elsewhere ↦ elim (Bool-cases (ltb idx s.active_idx)) [
      | inl before ↦
          rw (elsewhere, before) (get_elem?-remove_at_before s.tabs idx s.active_idx (ground arith))
      | inr behind ↦
          rw (elsewhere, behind) (get_elem?-remove_at_behind s.tabs idx s.active_idx (ground arith))
    ]
  ]

  position-id :
      (tabs : List (TabState E)) (id idx : ℕ) (t : TabState E)
      → position E tabs id ≡ some idx
      → get_elem? tabs idx ≡ some t
      → t.id ≡ id
  unfolding position
  position-id [] id idx t h at = absurd (cc at)
  position-id (u ∷ tabs) id zero t h at =
      let e : u ≡ t = cc at in ap (λ x. x.id) (sym e) ∙ ground (arith, ==_iff u.id id)
  position-id (u ∷ tabs) id (suc idx) t h at = elim (Option-cases (position E tabs id)) [
    | inl e ↦ absurd (ground (arith, ==_iff u.id id))
    | inr (i, e) ↦ position-id tabs id idx t (ground (arith, ==_iff u.id id)) at
  ]

  -- Closing a tab other than the active one leaves the same tab active, with all its state, wherever
  -- the closed one stood.
  pub close_tab-active :
      (id : ℕ) (tab : TabState E) (s : Browser E)
      → get_elem? s.tabs s.active_idx ≡ some tab
      → tab.id ≢ id
      → get_elem? (close_tab E id s).tabs (close_tab E id s).active_idx ≡ some tab
  unfolding close_tab
  close_tab-active id tab s at ne = elim (Option-cases (position E s.tabs id)) [
    | inl e ↦ rw (e, close_tab) at
    | inr (idx, e) ↦ elim (Bool-cases (length s.tabs == 1)) [
      | inl last ↦ rw (e, close_tab, last) at
      | inr more ↦
          let (t, e') = get_elem?-some s.tabs idx (position-in_range E s.tabs id idx e) in
          let other : idx ≢ s.active_idx = λ same.
            let u : t ≡ tab = cc (e', same, at) in
            ne (ap (λ x. x.id) (sym u) ∙ position-id s.tabs id idx t e e') in
          rw (e, close_tab, more, e') (drop_tab-active idx t s other ∙ at)
    ]
  ]
