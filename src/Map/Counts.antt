-- ===== src/Map/Counts.antt =====
-- Maps that list no key twice, and how many of their values pass a test.
use wasibrowser.Prelude.{
  ℕ, ◌+◌, ◌≤◌, ◌≡◌, refl, ap, Bool, true, Option, none, some, [], ◌∷◌, if◌then◌else◌, length,
  Bool-cases, inl, inr, arith,
}
use wasibrowser.Map.{Eq, Map, get, insert, remove, get-remove}

abbrev pub count_at : {V : Type 0} → (V → Bool) → Option V → ℕ
count_at p none = 0
count_at p (some v) = if p v then 1 else 0

module _ {K V : Type 0} ⦃e : Eq K⦄ where
  abbrev pub Distinct : Map K V → Type 0
  Distinct [] = Unit
  Distinct ((k, v) ∷ m) = (get m k ≡ none) × Distinct m

  pub remove-Distinct : (m : Map K V) (k : K) → Distinct m → Distinct (remove m k)
  unfolding remove
  remove-Distinct [] k d = tt
  remove-Distinct ((j, v) ∷ m) k (new, d) = elim (Bool-cases (e.beq j k)) [
    | inl same ↦ rw (remove, same) (remove-Distinct m k d)
    | inr other ↦
        rw (remove, other)
          (let gone : get (remove m k) j ≡ none = ground (arith, get-remove m k j) in
            (gone, remove-Distinct m k d))
  ]

  pub insert-Distinct : (m : Map K V) (k : K) (v : V) → Distinct m → Distinct (insert m k v)
  unfolding insert
  insert-Distinct m k v d =
      (ground (arith, get-remove m k k, (e.beq_iff k k).1 refl), remove-Distinct m k d)

  -- A key that is not there is not removed.
  pub remove-absent : (m : Map K V) (k : K) → get m k ≡ none → remove m k ≡ m
  unfolding remove get
  remove-absent [] k h = refl
  remove-absent ((j, v) ∷ m) k h = elim (Bool-cases (e.beq j k)) [
    | inl same ↦ absurd (ground arith)
    | inr other ↦ rw (remove, other) (ap (λ t. (j, v) ∷ t) (remove-absent m k (ground arith)))
  ]

  module _ (p : V → Bool) where
    abbrev pub count : Map K V → ℕ
    count [] = 0
    count ((k, v) ∷ m) = (if p v then 1 else 0) + count m

    pub count-le-length : (m : Map K V) → count m ≤ length m
    count-le-length [] = omega arith
    count-le-length ((k, v) ∷ m) = ground (arith, count-le-length m)

    pub count-remove :
        (m : Map K V) (k : K) → Distinct m → count (remove m k) + count_at p (get m k) ≡ count m
    unfolding remove get
    count-remove [] k d = omega arith
    count-remove ((j, v) ∷ m) k (new, d) = elim (Bool-cases (e.beq j k)) [
      | inl same ↦
          let absent : get m k ≡ none = rw (← (e.beq_iff j k).0 same) new in
          rw (same, remove-absent m k absent) (omega arith)
      | inr other ↦ rw (other) (omega (arith, count-remove m k d))
    ]

    pub count-insert :
        (m : Map K V) (k : K) (v : V)
        → Distinct m
        → count (insert m k v) + count_at p (get m k) ≡ count_at p (some v) + count m
    unfolding insert
    count-insert m k v d = omega (arith, count-remove m k d)

  pub count-le :
      (p q : V → Bool) (m : Map K V) → ((v : V) → p v ≡ true → q v ≡ true) → count p m ≤ count q m
  count-le p q [] h = omega arith
  count-le p q ((k, v) ∷ m) h = ground (arith, h v, count-le p q m h)
