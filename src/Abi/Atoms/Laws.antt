-- ===== src/Abi/Atoms/Laws.antt =====
-- Looking up an atom after it is defined, and the cache of an entry.
use wasibrowser.Prelude.{
  ℕ, zero, suc, ◌+◌, ◌-◌, ◌<◌, ◌≡◌, refl, sym, ap, ◌∙◌, Option, none, some, [], ◌∷◌, ◌++◌,
  if◌then◌else◌, leb, ◌==◌, length, length-append, length-replicate, get_elem?, set, replicate,
  arith, Bool-cases, inl, inr, leb→le,
}
use wasibrowser.Bytes.{Bytes}
use wasibrowser.Abi.Atoms.{AtomEntry, Atoms, new_entry, entry_at, define}

module _ {Q : Type 0} where
  abbrev joined : Option (Option (AtomEntry Q)) → Option (AtomEntry Q)
  joined none = none
  joined (some e) = e

  joined-pad :
      (atoms : Atoms Q) (k j : ℕ)
      → joined (get_elem? (atoms ++ replicate k none) j) ≡ joined (get_elem? atoms j)
  joined-pad [] zero j = refl
  joined-pad [] (suc k) zero = refl
  joined-pad [] (suc k) (suc j) = joined-pad [] k j
  joined-pad (e ∷ atoms) k zero = refl
  joined-pad (e ∷ atoms) k (suc j) = joined-pad atoms k j

  joined-entry_at : (atoms : Atoms Q) (j : ℕ) → entry_at atoms j ≡ joined (get_elem? atoms j)
  unfolding entry_at
  joined-entry_at atoms j = ground arith

  joined-set :
      (atoms : Atoms Q) (i j : ℕ) (e : Option (AtomEntry Q))
      → i < length atoms
      → joined (get_elem? (set atoms i e) j) ≡ (if i == j then e else joined (get_elem? atoms j))
  joined-set [] i j e h = absurd (omega arith)
  joined-set (x ∷ atoms) zero zero e h = ground arith
  joined-set (x ∷ atoms) zero (suc j) e h = ground arith
  joined-set (x ∷ atoms) (suc i) zero e h = ground arith
  joined-set (x ∷ atoms) (suc i) (suc j) e h = ground (arith, joined-set atoms i j e)

  -- A definition changes the entry of its atom and no other, wherever the table ended before.
  pub entry_at-define :
      (atoms : Atoms Q) (i j : ℕ) (name : Bytes)
      → entry_at (define atoms i name) j
        ≡ (if i == j then some (new_entry name) else entry_at atoms j)
  unfolding define
  entry_at-define atoms i j name = elim (Bool-cases (leb (length atoms) i)) [
    | inl short ↦ rw short (
        joined-entry_at _ j
        ∙ joined-set (atoms ++ replicate (i + 1 - length atoms) none) i j _
            (omega (arith, leb→le _ _ short, padded))
        ∙ ap (λ x. if i == j then some (new_entry name) else x)
            (joined-pad atoms (i + 1 - length atoms) j ∙ sym (joined-entry_at atoms j)))
    | inr long ↦ rw long (
        joined-entry_at _ j
        ∙ joined-set atoms i j _ (ground arith)
        ∙ ap (λ x. if i == j then some (new_entry name) else x) (sym (joined-entry_at atoms j)))
  ]
    where
      padded :
          length (atoms ++ replicate (i + 1 - length atoms) none)
          ≡ length atoms + (i + 1 - length atoms)
      padded =
          length-append atoms _
          ∙ ap (λ n. length atoms + n) (length-replicate (i + 1 - length atoms) none)

  -- Asking for a name's `QualName` changes no name in the table.
  entry_at-in_range :
      (atoms : Atoms Q) (i : ℕ) (e : AtomEntry Q) → entry_at atoms i ≡ some e → i < length atoms
  unfolding entry_at
  entry_at-in_range [] i e h = cc
  entry_at-in_range (x ∷ atoms) zero e h = omega arith
  entry_at-in_range (x ∷ atoms) (suc i) e h = omega (arith, entry_at-in_range atoms i e h)

  pub entry_at-set :
      (atoms : Atoms Q) (i j : ℕ) (e e' : AtomEntry Q)
      → entry_at atoms i ≡ some e
      → entry_at (set atoms i (some e')) j ≡ (if i == j then some e' else entry_at atoms j)
  entry_at-set atoms i j e e' h =
      joined-entry_at _ j
      ∙ joined-set atoms i j (some e') (entry_at-in_range atoms i e h)
      ∙ ap (λ x. if i == j then some e' else x) (sym (joined-entry_at atoms j))
