-- ===== src/Abi/Atoms.antt =====
-- The atom table of renderer/src/abi.rs: names that a batch refers to by number.
pub mod Laws
use wasibrowser.Prelude.{
  ℕ, ◌+◌, ◌-◌, Bool, true, false, Option, none, some, List, [], ◌∷◌, ◌++◌, if◌then◌else◌, leb,
  length, get_elem?, set, replicate, codes,
}
use wasibrowser.Bytes.{Bytes}

-- `Q` is the engine's `QualName`, and `html_name` builds one from a name: `QualName::new(None,
-- ns!(html), LocalName::from(name))`.
pub record AtomEntry (Q : Type 0) : Type 0 where
  pub name : Bytes
  pub qual : Option Q

abbrev pub Atoms : Type 0 → Type 0
Atoms Q = List (Option (AtomEntry Q))

module _ {Q : Type 0} where
  abbrev pub new_entry : Bytes → AtomEntry Q
  new_entry name = record { name = name; qual = none }

  -- The name's `QualName`, built at the first call and kept in the entry.
  unfoldable pub entry_qual : (Bytes → Q) → AtomEntry Q → Q × AtomEntry Q
  entry_qual html_name e = elim e.qual [
    | none ↦ (html_name e.name, record e { qual = some (html_name e.name) })
    | some q ↦ (q, e)
  ]

  -- `atoms.get(i).and_then(|e| e.as_ref())`
  unfoldable pub entry_at : Atoms Q → ℕ → Option (AtomEntry Q)
  entry_at atoms i = elim (get_elem? atoms i) [ none ↦ none | some e ↦ e ]

  -- `atoms.get_mut(i)` with a call of `qual` on the entry: the name and the table after it.
  unfoldable pub qual_at : (Bytes → Q) → Atoms Q → ℕ → Option (Q × Atoms Q)
  unfolding entry_qual entry_at
  qual_at html_name atoms i = elim (entry_at atoms i) [
    | none ↦ none
    | some e ↦ let (q, e') = entry_qual html_name e in some (q, set atoms i (some e'))
  ]

  -- `Op::DefineAtom`
  unfoldable pub define : Atoms Q → ℕ → Bytes → Atoms Q
  define atoms idx name =
      let long =
        if leb (length atoms) idx
        then atoms ++ replicate (idx + 1 - length atoms) none
        else atoms in
      set long idx (some (new_entry name))

-- The numbers and names of `well_known_atoms`.
unfoldable pub entries : List (ℕ × Bytes)
entries =
    (1, codes "div")
    ∷ (2, codes "span")
    ∷ (3, codes "p")
    ∷ (4, codes "h1")
    ∷ (5, codes "h2")
    ∷ (6, codes "h3")
    ∷ (7, codes "button")
    ∷ (8, codes "input")
    ∷ (9, codes "a")
    ∷ (10, codes "img")
    ∷ (11, codes "ul")
    ∷ (12, codes "ol")
    ∷ (13, codes "li")
    ∷ (14, codes "table")
    ∷ (15, codes "tr")
    ∷ (16, codes "td")
    ∷ (17, codes "th")
    ∷ (18, codes "form")
    ∷ (19, codes "label")
    ∷ (20, codes "section")
    ∷ (21, codes "header")
    ∷ (22, codes "footer")
    ∷ (23, codes "main")
    ∷ (24, codes "nav")
    ∷ (25, codes "article")
    ∷ (26, codes "pre")
    ∷ (27, codes "code")
    ∷ (28, codes "strong")
    ∷ (29, codes "em")
    ∷ (30, codes "textarea")
    ∷ (31, codes "select")
    ∷ (32, codes "option")
    ∷ (33, codes "h4")
    ∷ (34, codes "h5")
    ∷ (35, codes "h6")
    ∷ (36, codes "aside")
    ∷ (37, codes "address")
    ∷ (38, codes "blockquote")
    ∷ (39, codes "hr")
    ∷ (40, codes "br")
    ∷ (41, codes "figure")
    ∷ (42, codes "figcaption")
    ∷ (43, codes "small")
    ∷ (44, codes "mark")
    ∷ (45, codes "kbd")
    ∷ (46, codes "samp")
    ∷ (47, codes "var")
    ∷ (48, codes "cite")
    ∷ (49, codes "abbr")
    ∷ (50, codes "q")
    ∷ (51, codes "sub")
    ∷ (52, codes "sup")
    ∷ (53, codes "time")
    ∷ (54, codes "data")
    ∷ (55, codes "b")
    ∷ (56, codes "i")
    ∷ (57, codes "u")
    ∷ (58, codes "s")
    ∷ (59, codes "wbr")
    ∷ (60, codes "dfn")
    ∷ (61, codes "del")
    ∷ (62, codes "ins")
    ∷ (63, codes "dl")
    ∷ (64, codes "dt")
    ∷ (65, codes "dd")
    ∷ (66, codes "menu")
    ∷ (67, codes "caption")
    ∷ (68, codes "thead")
    ∷ (69, codes "tbody")
    ∷ (70, codes "tfoot")
    ∷ (71, codes "colgroup")
    ∷ (72, codes "col")
    ∷ (73, codes "optgroup")
    ∷ (74, codes "fieldset")
    ∷ (75, codes "legend")
    ∷ (76, codes "datalist")
    ∷ (77, codes "output")
    ∷ (78, codes "progress")
    ∷ (79, codes "meter")
    ∷ (80, codes "details")
    ∷ (81, codes "summary")
    ∷ (82, codes "dialog")
    ∷ (83, codes "video")
    ∷ (84, codes "audio")
    ∷ (85, codes "source")
    ∷ (86, codes "canvas")
    ∷ (87, codes "picture")
    ∷ (88, codes "track")
    ∷ (100, codes "class")
    ∷ (101, codes "id")
    ∷ (102, codes "style")
    ∷ (103, codes "href")
    ∷ (104, codes "value")
    ∷ (105, codes "type")
    ∷ (106, codes "placeholder")
    ∷ (107, codes "src")
    ∷ (108, codes "alt")
    ∷ (109, codes "title")
    ∷ (110, codes "disabled")
    ∷ (111, codes "checked")
    ∷ (112, codes "name")
    ∷ (200, codes "display")
    ∷ (201, codes "color")
    ∷ (202, codes "background")
    ∷ (203, codes "width")
    ∷ (204, codes "height")
    ∷ (205, codes "margin")
    ∷ (206, codes "padding")
    ∷ (207, codes "border")
    ∷ (208, codes "font-size")
    ∷ (209, codes "font-weight")
    ∷ (210, codes "gap")
    ∷ (211, codes "flex-direction")
    ∷ (212, codes "align-items")
    ∷ (213, codes "justify-content")
    ∷ (214, codes "border-radius")
    ∷ (215, codes "cursor")
    ∷ (216, codes "text-align")
    ∷ []

module _ {Q : Type 0} where
  unfoldable pub set_entries : Atoms Q → List (ℕ × Bytes) → Atoms Q
  set_entries v [] = v
  set_entries v ((i, s) ∷ rest) = set_entries (set v i (some (new_entry s))) rest

  unfoldable pub well_known_atoms : Atoms Q
  unfolding set_entries entries
  well_known_atoms = set_entries (replicate 1024 none) entries
