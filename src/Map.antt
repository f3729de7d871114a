-- ===== src/Map.antt =====
-- `HashMap` and `HashSet` as association lists and lists, with a test for equal keys.
pub mod Keys
pub mod Counts
pub mod Found
use wasibrowser.Prelude.{
  ◌≡◌, ◌↔◌, refl, Bool, true, false, Option, none, some, List, [], ◌∷◌, not, ◌||◌, if◌then◌else◌,
  Bool-cases, inl, inr, arith,
}

pub record Eq {ℓ} (A : Type ℓ) : Type ℓ where
  pub beq : A → A → Bool
  pub beq_iff : (a b : A) → (beq a b ≡ true) ↔ (a ≡ b)

abbrev pub Map : Type 0 → Type 0 → Type 0
Map K V = List (K × V)

abbrev pub Set : Type 0 → Type 0
Set K = List K

module _ {K : Type 0} ⦃e : Eq K⦄ where
  unfoldable pub contains : Set K → K → Bool
  contains [] k = false
  contains (j ∷ s) k = e.beq j k || contains s k

  unfoldable pub remove_key : Set K → K → Set K
  remove_key [] k = []
  remove_key (j ∷ s) k = let rest = remove_key s k in if e.beq j k then rest else j ∷ rest

  unfoldable pub insert_key : Set K → K → Set K
  unfolding contains
  insert_key s k = if contains s k then s else k ∷ s

module _ {K V : Type 0} ⦃e : Eq K⦄ where
  unfoldable pub get : Map K V → K → Option V
  get [] k = none
  get ((j, v) ∷ m) k = if e.beq j k then some v else get m k

  unfoldable pub remove : Map K V → K → Map K V
  remove [] k = []
  remove ((j, v) ∷ m) k = let rest = remove m k in if e.beq j k then rest else (j, v) ∷ rest

  unfoldable pub insert : Map K V → K → V → Map K V
  unfolding remove
  insert m k v = (k, v) ∷ remove m k

  pub get-remove :
      (m : Map K V) (k j : K) → get (remove m k) j ≡ (if e.beq k j then none else get m j)
  unfolding get remove
  get-remove [] k j = ground arith
  get-remove ((i, v) ∷ m) k j =
      ground (arith, get-remove m k j, e.beq_iff i k, e.beq_iff i j, e.beq_iff k j)

  pub get-insert :
      (m : Map K V) (k j : K) (v : V)
      → get (insert m k v) j ≡ (if e.beq k j then some v else get m j)
  unfolding get insert
  get-insert m k j v = ground (arith, get-remove m k j)

module _ {K : Type 0} ⦃e : Eq K⦄ where
  pub contains-remove_key :
      (s : Set K) (k j : K)
      → contains (remove_key s k) j ≡ (if e.beq k j then false else contains s j)
  unfolding contains remove_key
  contains-remove_key [] k j = ground arith
  contains-remove_key (i ∷ s) k j =
      ground (arith, contains-remove_key s k j, e.beq_iff i k, e.beq_iff i j, e.beq_iff k j)

  pub contains-insert_key :
      (s : Set K) (k j : K)
      → contains (insert_key s k) j ≡ (if e.beq k j then true else contains s j)
  unfolding contains insert_key
  contains-insert_key s k j = elim (Bool-cases (contains s k)) [
    | inl old ↦ elim (Bool-cases (e.beq k j)) [
      | inl same ↦ rw (old, same, ← (e.beq_iff k j).0 same, old)
      | inr other ↦ rw (old, other)
    ]
    | inr new ↦ ground arith
  ]

  pub beq_refl : (k : K) → e.beq k k ≡ true
  beq_refl k = (e.beq_iff k k).1 refl
