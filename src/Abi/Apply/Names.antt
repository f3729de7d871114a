-- ===== src/Abi/Apply/Names.antt =====
-- The names that operations use: the last definition of an atom, whatever the cache of the table
-- holds.
use wasibrowser.Prelude.{
  ℕ, ◌+◌, ◌≡◌, refl, sym, ap, ◌∙◌, Option, none, some, List, [], ◌∷◌, if◌then◌else◌, ◌==◌, ==_iff,
  arith, set, Option-cases, ◌⊎◌, inl, inr,
}
use wasibrowser.Bytes.{Bytes}
use wasibrowser.Map.{get}
use wasibrowser.Map.Keys.{nat_key}
use wasibrowser.Abi.{Op, create_element, set_attr, remove_attr, define_atom}
use wasibrowser.Abi.Atoms.{AtomEntry, Atoms, entry_at, entry_qual, qual_at, define}
use wasibrowser.Abi.Atoms.Laws.{entry_at-define, entry_at-set}
use wasibrowser.Abi.Document.{Document}
use wasibrowser.Abi.Apply.{State, with_node_qual, bind_created, apply_op, apply_ops}

-- The last name that `ops` give to the atom `i`, and `before` if they give none.
abbrev pub last_name : List Op → ℕ → Option Bytes → Option Bytes
last_name [] i before = before
last_name (define_atom atom name ∷ ops) i before =
    last_name ops i (if atom == i then some name else before)
last_name (op ∷ ops) i before = last_name ops i before

abbrev pub entry_name : {Q : Type 0} → Option (AtomEntry Q) → Option Bytes
entry_name none = none
entry_name (some e) = some e.name

module _ (D : Document) where
  abbrev pub Table : Type 0
  Table = Atoms D.QualName

  abbrev pub name_at : Table → ℕ → Option Bytes
  name_at atoms i = entry_name (entry_at atoms i)

  -- A `QualName` that the cache holds is the one of the entry's name.
  pub record IsCached (atoms : Table) : Type 0 where
    pub built :
        (i : ℕ) (e : AtomEntry D.QualName) (q : D.QualName)
        → entry_at atoms i ≡ some e
        → e.qual ≡ some q
        → q ≡ D.html_name e.name

  -- What asking for the `QualName` of an atom does to a table.
  record Asked (atoms : Table) (i : ℕ) (name : Bytes) : Type 0 where
    after : Table
    answers : qual_at D.html_name atoms i ≡ some (D.html_name name, after)
    keeps : (j : ℕ) → name_at after j ≡ name_at atoms j
    cached : IsCached after

  filled : AtomEntry D.QualName → AtomEntry D.QualName
  filled e = record e { qual = some (D.html_name e.name) }

  entry_qual-filled :
      (e : AtomEntry D.QualName)
      → ((q : D.QualName) → e.qual ≡ some q → q ≡ D.html_name e.name)
      → entry_qual D.html_name e ≡ (D.html_name e.name, filled e)
  unfolding entry_qual filled
  entry_qual-filled e h = elim (Option-cases e.qual) [
    | inl new ↦ ground arith
    | inr (q, old) ↦ ground (arith, h q old)
  ]

  set-IsCached :
      (atoms : Table) (i : ℕ) (e : AtomEntry D.QualName)
      → IsCached atoms
      → entry_at atoms i ≡ some e
      → IsCached (set atoms i (some (filled e)))
  unfolding filled
  set-IsCached atoms i e h at = record {
    built = λ j e' q p r. ground (arith, entry_at-set atoms i j e (filled e) at, h.built j e' q);
  }

  qual_at-some :
      (atoms : Table) (i : ℕ) (e : AtomEntry D.QualName)
      → IsCached atoms
      → entry_at atoms i ≡ some e
      → Asked atoms i e.name
  unfolding qual_at filled
  qual_at-some atoms i e h at = record {
    after = set atoms i (some (filled e));
    answers = rw (at, qual_at) (rw (entry_qual-filled e (λ q r. h.built i e q at r)));
    keeps = λ j. ground (arith, entry_at-set atoms i j e (filled e) at, ==_iff i j);
    cached = set-IsCached atoms i e h at;
  }

  qual_at-none :
      (atoms : Table) (i : ℕ) → entry_at atoms i ≡ none → qual_at D.html_name atoms i ≡ none
  unfolding qual_at
  qual_at-none atoms i h = rw (h, qual_at)

  define-IsCached :
      (atoms : Table) (i : ℕ) (name : Bytes) → IsCached atoms → IsCached (define atoms i name)
  define-IsCached atoms i name h = record {
    built = λ j e q p r. ground (arith, entry_at-define atoms i j name, h.built j e q);
  }

  name_at-define :
      (atoms : Table) (i j : ℕ) (name : Bytes)
      → name_at (define atoms i name) j ≡ (if i == j then some name else name_at atoms j)
  name_at-define atoms i j name = ground (arith, entry_at-define atoms i j name)

  -- `after` has the names of `before`, and a sound cache.
  record SameNames (before after : Table) : Type 0 where
    names : (j : ℕ) → name_at after j ≡ name_at before j
    sound : IsCached after

  SameNames-refl : (atoms : Table) → IsCached atoms → SameNames atoms atoms
  SameNames-refl atoms h = record { names = λ j. refl; sound = h }

  asked_names :
      (atoms : Table) (name : ℕ)
      → IsCached atoms
      → (entry_at atoms name ≡ none)
        ⊎ ((q : D.QualName) × (after : Table) × (qual_at D.html_name atoms name ≡ some (q, after))
            × SameNames atoms after)
  asked_names atoms name h = elim (Option-cases (entry_at atoms name)) [
    | inl unknown ↦ inl unknown
    | inr (e, at) ↦
        let a = qual_at-some atoms name e h at in
        inr (D.html_name e.name, a.after, a.answers, record { names = a.keeps; sound = a.cached })
  ]

  with_node_qual-names :
      (s : State D) (id name : ℕ) (f : ℕ → D.QualName → D.Doc → D.Doc)
      → IsCached s.atoms
      → SameNames s.atoms (with_node_qual D s id name f).atoms
  unfolding with_node_qual
  with_node_qual-names s id name f h = elim (Option-cases (get s.maps.fwd id)) [
    | inl e ↦ rw (e, with_node_qual) (SameNames-refl s.atoms h)
    | inr (n, e) ↦ elim (asked_names s.atoms name h) [
      | inl unknown ↦
          rw (e, qual_at-none s.atoms name unknown, with_node_qual) (SameNames-refl s.atoms h)
      | inr (q, after, answers, same) ↦ rw (e, answers, with_node_qual) same
    ]
  ]

  create_element-names :
      (s : State D) (id tag : ℕ)
      → IsCached s.atoms
      → SameNames s.atoms (apply_op D (create_element id tag) s).atoms
  unfolding apply_op bind_created
  create_element-names s id tag h = elim (asked_names s.atoms tag h) [
    | inl unknown ↦ rw (qual_at-none s.atoms tag unknown, apply_op) (SameNames-refl s.atoms h)
    | inr (q, after, answers, same) ↦ rw (answers, apply_op) same
  ]

  eq-SameNames : (before after : Table) → IsCached before → after ≡ before → SameNames before after
  eq-SameNames before after h e = rw e (SameNames-refl before h)

  apply_op-names :
      (op : Op) (s : State D)
      → IsCached s.atoms
      → IsCached (apply_op D op s).atoms
        × ((i : ℕ) → name_at (apply_op D op s).atoms i ≡ last_name (op ∷ []) i (name_at s.atoms i))
  apply_op-names (define_atom atom name) s h =
      unfold apply_op in
      (define-IsCached s.atoms atom name h, λ i. name_at-define s.atoms atom i name)
  apply_op-names (create_element id tag) s h =
      let same = create_element-names s id tag h in (same.sound, same.names)
  apply_op-names (set_attr id name value) s h =
      let same = with_node_qual-names s id name (λ n q. D.set_attribute n q value) h in
      unfold apply_op in (same.sound, same.names)
  apply_op-names (remove_attr id name) s h =
      let same = with_node_qual-names s id name D.clear_attribute h in
      unfold apply_op in (same.sound, same.names)
  apply_op-names op s h =
      let same = eq-SameNames s.atoms (apply_op D op s).atoms h (unfold apply_op in ground arith) in
      (same.sound, same.names)

  last_name-cons :
      (op : Op) (ops : List Op) (i : ℕ) (before : Option Bytes)
      → last_name (op ∷ ops) i before ≡ last_name ops i (last_name (op ∷ []) i before)
  last_name-cons (define_atom atom name) ops i before = refl
  last_name-cons _ ops i before = refl

  -- A cache stays sound, and the name of an atom is the last one that was defined for it.
  pub apply_ops-names :
      (ops : List Op) (n : ℕ) (s : State D)
      → IsCached s.atoms
      → IsCached (apply_ops D ops n s).1.atoms
        × ((i : ℕ) → name_at (apply_ops D ops n s).1.atoms i ≡ last_name ops i (name_at s.atoms i))
  unfolding apply_ops
  apply_ops-names [] n s h = (h, λ i. refl)
  apply_ops-names (op ∷ ops) n s h =
      let (sound, names) = apply_op-names op s h in
      let (sound', names') = apply_ops-names ops (n + 1) (apply_op D op s) sound in
      (
        sound',
        λ i.
            names' i
            ∙ ap (last_name ops i) (names i)
            ∙ sym (last_name-cons op ops i (name_at s.atoms i)),
      )

  create_element-of_name :
      (s : State D) (id tag : ℕ) (name : Bytes)
      → IsCached s.atoms
      → name_at s.atoms tag ≡ some name
      → (apply_op D (create_element id tag) s).doc ≡ (D.create_element (D.html_name name) s.doc).1
  unfolding apply_op bind_created
  create_element-of_name s id tag name h e = elim (Option-cases (entry_at s.atoms tag)) [
    | inl unknown ↦ ground arith
    | inr (entry, at) ↦ ground (arith, (qual_at-some s.atoms tag entry h at).answers)
  ]

  -- After any operations on a table whose cached names are those of its atoms, an element is created
  -- with the tag name that its atom was last given, whether or not an earlier name of that atom was
  -- used, and so cached, before.
  pub create_element-last_name :
      (ops : List Op) (n : ℕ) (s : State D) (id tag : ℕ) (name : Bytes)
      → IsCached s.atoms
      → last_name ops tag (name_at s.atoms tag) ≡ some name
      → (apply_op D (create_element id tag) (apply_ops D ops n s).1).doc
        ≡ (D.create_element (D.html_name name) (apply_ops D ops n s).1.doc).1
  create_element-last_name ops n s id tag name h e =
      let (sound, names) = apply_ops-names ops n s h in
      create_element-of_name (apply_ops D ops n s).1 id tag name sound (names tag ∙ e)
