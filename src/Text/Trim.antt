-- ===== src/Text/Trim.antt =====
-- Trimming leaves a text alone that has no white space at its ends.
use wasibrowser.Prelude.{
  ℕ, zero, suc, ◌≡◌, refl, sym, ap, ◌∙◌, ◌==◌, ◌&&◌, not, Bool, true, false, List, [], ◌∷◌, ◌++◌,
  map, none, some, length, ltb, arith, subst, append_assoc, Option-cases, inl, inr,
}
use wasibrowser.Bytes.{Bytes}
use wasibrowser.Text.{trim, strip_all, strip_prefix, strip_any, whitespace}
use mathlib.Core.List.{reverse, reverse-append, reverse-cons, reverse-reverse}

-- A character of ASCII that can be seen, and no quotation mark.
abbrev pub is_plain : ℕ → Bool
is_plain c = ltb 32 c && (ltb c 127 && not (c == 34))

-- No white space is at the beginning or at the end.
abbrev pub IsTrimmed : Bytes → Type 0
IsTrimmed s =
    ((c : ℕ) × (t : Bytes) × (s ≡ c ∷ t) × (strip_any whitespace (c ∷ t) ≡ none))
    × ((d : ℕ) × (t : Bytes) × (s ≡ t ++ (d ∷ []))
        × (strip_any (map reverse whitespace) (d ∷ reverse t) ≡ none))

-- No prefix begins with `c`.
unfoldable is_off : ℕ → List Bytes → Bool
is_off c [] = true
is_off c ([] ∷ ps) = false
is_off c ((p ∷ prefix) ∷ ps) = not (p == c) && is_off c ps

strip_any-is_off :
    (c : ℕ) (s : Bytes) (ps : List Bytes) → is_off c ps ≡ true → strip_any ps (c ∷ s) ≡ none
unfolding strip_any strip_prefix is_off
strip_any-is_off c s [] h = refl
strip_any-is_off c s ([] ∷ ps) h = absurd (cc h)
strip_any-is_off c s ((p ∷ prefix) ∷ ps) h = ground (arith, strip_any-is_off c s ps)

pub strip_any-plain : (c : ℕ) (s : Bytes) → is_plain c ≡ true → strip_any whitespace (c ∷ s) ≡ none
strip_any-plain c s h = strip_any-is_off c s whitespace (unfold is_off in ground arith)

pub strip_any-plain_back :
    (c : ℕ) (s : Bytes) → is_plain c ≡ true → strip_any (map reverse whitespace) (c ∷ s) ≡ none
strip_any-plain_back c s h =
    strip_any-is_off c s (map reverse whitespace) (unfold is_off in ground arith)

strip_all-none :
    (fuel : ℕ) (ps : List Bytes) (s : Bytes) → strip_any ps s ≡ none → strip_all fuel ps s ≡ s
unfolding strip_all
strip_all-none zero ps s h = refl
strip_all-none (suc fuel) ps s h = rw (h, strip_all) refl

pub trim-trimmed : (s : Bytes) → IsTrimmed s → trim s ≡ s
unfolding trim
trim-trimmed s ((c, t, e, p), (d, u, e', p')) =
    let front : strip_all (length s) whitespace s ≡ s =
      strip_all-none (length s) whitespace s
        (subst (λ r. strip_any whitespace r ≡ none) (sym e) p) in
    let turned : reverse s ≡ d ∷ reverse u = ap reverse e' ∙ reverse-append u (d ∷ []) in
    let back : strip_all (length s) (map reverse whitespace) (reverse s) ≡ reverse s =
      strip_all-none (length s) (map reverse whitespace) (reverse s)
        (subst (λ r. strip_any (map reverse whitespace) r ≡ none) (sym turned) p') in
    rw (front, back) (reverse-reverse s)

-- No space is in the text.
unfoldable no_space : Bytes → Bool
no_space [] = true
no_space (c ∷ s) = not (c == 32) && no_space s

-- No space is in one of the prefixes, but at its beginning.
unfoldable are_whole : List Bytes → Bool
unfolding no_space
are_whole [] = true
are_whole ([] ∷ ps) = false
are_whole ((p ∷ prefix) ∷ ps) = no_space prefix && are_whole ps

strip_prefix-longer :
    (prefix s x : Bytes)
    → no_space prefix ≡ true
    → strip_prefix prefix s ≡ none
    → strip_prefix prefix (s ++ (32 ∷ x)) ≡ none
unfolding strip_prefix no_space
strip_prefix-longer [] s x h e = absurd (cc e)
strip_prefix-longer (p ∷ ps) [] x h e = ground arith
strip_prefix-longer (p ∷ ps) (c ∷ s) x h e = ground (arith, strip_prefix-longer ps s x)

strip_prefix-front :
    (p : ℕ) (prefix : Bytes) (c : ℕ) (s x : Bytes)
    → no_space prefix ≡ true
    → strip_prefix (p ∷ prefix) (c ∷ s) ≡ none
    → strip_prefix (p ∷ prefix) (c ∷ (s ++ (32 ∷ x))) ≡ none
unfolding strip_prefix
strip_prefix-front p prefix c s x h e = ground (arith, strip_prefix-longer prefix s x)

strip_any-next :
    (p : Bytes) (ps : List Bytes) (s : Bytes)
    → strip_prefix p s ≡ none
    → strip_any (p ∷ ps) s ≡ strip_any ps s
unfolding strip_any
strip_any-next p ps s e = rw (strip_any, e) refl

strip_any-found :
    (p : Bytes) (ps : List Bytes) (s rest : Bytes)
    → strip_prefix p s ≡ some rest
    → strip_any (p ∷ ps) s ≡ none
    → ⊥
unfolding strip_any
strip_any-found p ps s rest e h =
    let found : strip_any (p ∷ ps) s ≡ some rest = rw (strip_any, e) refl in cc (found, h)

strip_any-longer :
    (ps : List Bytes) (c : ℕ) (s x : Bytes)
    → are_whole ps ≡ true
    → strip_any ps (c ∷ s) ≡ none
    → strip_any ps (c ∷ (s ++ (32 ∷ x))) ≡ none
unfolding strip_any are_whole
strip_any-longer [] c s x h e = refl
strip_any-longer ([] ∷ ps) c s x h e = absurd (cc h)
strip_any-longer ((p ∷ prefix) ∷ ps) c s x h e =
    elim (Option-cases (strip_prefix (p ∷ prefix) (c ∷ s))) [
      | inl off ↦
          let off' = strip_prefix-front p prefix c s x (ground arith) off in
          rw (off', strip_any)
            (strip_any-longer ps c s x (ground arith)
              (sym (strip_any-next (p ∷ prefix) ps (c ∷ s) off) ∙ e))
      | inr (rest, found) ↦ absurd (strip_any-found (p ∷ prefix) ps (c ∷ s) rest found e)
    ]

turned : (s u : Bytes) → reverse (s ++ (32 ∷ u)) ≡ reverse u ++ (32 ∷ reverse s)
turned s u =
    reverse-append s (32 ∷ u)
    ∙ ap (λ z. z ++ reverse s) (reverse-cons 32 u)
    ∙ append_assoc (reverse u) (32 ∷ []) (reverse s)

-- Two texts with a space between.
pub IsTrimmed-both : (s t : Bytes) → IsTrimmed s → IsTrimmed t → IsTrimmed (s ++ (32 ∷ t))
IsTrimmed-both s t ((c, r, e, p), last) (first, (d, u, e', p')) = (
  (
    c,
    r ++ (32 ∷ t),
    ap (λ z. z ++ (32 ∷ t)) e,
    strip_any-longer whitespace c r t (unfold are_whole no_space in refl) p,
  ),
  (
    d,
    s ++ (32 ∷ u),
    ap (λ z. s ++ (32 ∷ z)) e' ∙ sym (append_assoc s (32 ∷ u) (d ∷ [])),
    subst (λ z. strip_any (map reverse whitespace) (d ∷ z) ≡ none) (sym (turned s u))
        (strip_any-longer (map reverse whitespace) d (reverse u) (reverse s)
          (unfold are_whole no_space in refl) p'),
  ),
)

-- A text in quotation marks.
abbrev pub quoted : Bytes → Bytes
quoted s = 34 ∷ (s ++ (34 ∷ []))

pub quoted-IsTrimmed : (s : Bytes) → IsTrimmed (quoted s)
quoted-IsTrimmed s = (
  (34, s ++ (34 ∷ []), refl, strip_any-is_off 34 _ whitespace (unfold is_off in refl)),
  (34, 34 ∷ s, refl, strip_any-is_off 34 _ (map reverse whitespace) (unfold is_off in refl)),
)

-- A text of such characters.
unfoldable pub is_word : Bytes → Bool
is_word [] = true
is_word (c ∷ s) = is_plain c && is_word s

pub word-last :
    (c : ℕ) (s : Bytes)
    → is_word (c ∷ s) ≡ true
    → (d : ℕ) × (t : Bytes) × (c ∷ s ≡ t ++ (d ∷ [])) × (is_plain d ≡ true)
unfolding is_word
word-last c [] h = (c, [], refl, ground arith)
word-last c (b ∷ s) h =
    let (d, t, e, p) = word-last b s (ground arith) in (d, c ∷ t, ap (λ r. c ∷ r) e, p)

pub word-IsTrimmed : (c : ℕ) (s : Bytes) → is_word (c ∷ s) ≡ true → IsTrimmed (c ∷ s)
unfolding is_word
word-IsTrimmed c s h =
    let (d, t, e, p) = word-last c s h in
    let plain : is_plain c ≡ true = ground arith in
    ((c, s, refl, strip_any-plain c s plain), (d, t, e, strip_any-plain_back d (reverse t) p))
