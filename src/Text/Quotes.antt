-- ===== src/Text/Quotes.antt =====
-- What `trim_matches` does about quotation marks.
use wasibrowser.Prelude.{
  ℕ, zero, suc, ◌≡◌, refl, sym, ap, ◌∙◌, ◌==◌, true, false, [], ◌∷◌, ◌++◌, none, length, arith,
  append_assoc,
}
use wasibrowser.Bytes.{Bytes}
use wasibrowser.Text.{strip_prefix, trim_start_matches, trim_end_matches, trim_loop, trim_one}
use wasibrowser.Text.Trim.{is_word, word-last, quoted}

-- No quotation mark is at the beginning or at the end.
abbrev pub IsUnquoted : Bytes → Type 0
IsUnquoted s =
    ((c : ℕ) × (t : Bytes) × (s ≡ c ∷ t) × ((c == 34) ≡ false))
    × ((d : ℕ) × (t : Bytes) × (s ≡ t ++ (d ∷ [])) × ((d == 34) ≡ false))

pub IsUnquoted-both : (s t : Bytes) → IsUnquoted s → IsUnquoted t → IsUnquoted (s ++ (32 ∷ t))
IsUnquoted-both s t ((c, r, e, q), last) (first, (d, u, e', q')) = (
  (c, r ++ (32 ∷ t), ap (λ z. z ++ (32 ∷ t)) e, q),
  (d, s ++ (32 ∷ u), ap (λ z. s ++ (32 ∷ z)) e' ∙ sym (append_assoc s (32 ∷ u) (d ∷ [])), q'),
)

trim_end_matches-last :
    (q d : ℕ) (u : Bytes) → (d == q) ≡ false → trim_end_matches q (u ++ (d ∷ [])) ≡ u ++ (d ∷ [])
unfolding trim_end_matches trim_one
trim_end_matches-last q d [] h = rw h refl
trim_end_matches-last q d (b ∷ []) h = rw h refl
trim_end_matches-last q d (b ∷ c ∷ u) h = rw (trim_end_matches-last q d (c ∷ u) h) refl

trim_loop-none :
    (fuel : ℕ) (prefix s : Bytes) → strip_prefix prefix s ≡ none → trim_loop fuel prefix s ≡ s
unfolding trim_loop
trim_loop-none zero prefix s h = refl
trim_loop-none (suc fuel) prefix s h = rw (h, trim_loop) refl

strip_prefix-quote : (c : ℕ) (t : Bytes) → (c == 34) ≡ false → strip_prefix (34 ∷ []) (c ∷ t) ≡ none
unfolding strip_prefix
strip_prefix-quote c t h = ground arith

-- What the quotation marks leave.
pub trim_matches-unquoted :
    (s : Bytes) → IsUnquoted s → trim_end_matches 34 (trim_start_matches (34 ∷ []) s) ≡ s
unfolding trim_start_matches
trim_matches-unquoted s ((c, t, e, q), (d, u, e', q')) =
    let front : trim_loop (length s) (34 ∷ []) s ≡ s =
      trim_loop-none (length s) (34 ∷ []) s (rw e (strip_prefix-quote c t q)) in
    rw front (ap (trim_end_matches 34) e' ∙ (trim_end_matches-last 34 d u q' ∙ sym e'))

trim_end_matches-mark :
    (d : ℕ) (u : Bytes)
    → (d == 34) ≡ false
    → trim_end_matches 34 ((u ++ (d ∷ [])) ++ (34 ∷ [])) ≡ u ++ (d ∷ [])
unfolding trim_end_matches trim_one
trim_end_matches-mark d [] h = rw h refl
trim_end_matches-mark d (b ∷ []) h = rw (trim_end_matches-mark d [] h) refl
trim_end_matches-mark d (b ∷ c ∷ u) h = rw (trim_end_matches-mark d (c ∷ u) h) refl

trim_start_matches-mark :
    (c : ℕ) (t : Bytes) → (c == 34) ≡ false → trim_start_matches (34 ∷ []) (34 ∷ c ∷ t) ≡ c ∷ t
unfolding trim_start_matches trim_loop strip_prefix
trim_start_matches-mark c t h =
    trim_loop-none (suc (length t)) (34 ∷ []) (c ∷ t) (strip_prefix-quote c t h)

pub trim_matches-quoted :
    (s : Bytes) → IsUnquoted s → trim_end_matches 34 (trim_start_matches (34 ∷ []) (quoted s)) ≡ s
trim_matches-quoted s ((c, t, e, q), (d, u, e', q')) =
    ap (λ z. trim_end_matches 34 (trim_start_matches (34 ∷ []) (quoted z))) e
    ∙ ap (trim_end_matches 34) (trim_start_matches-mark c (t ++ (34 ∷ [])) q)
    ∙ ap (λ z. trim_end_matches 34 (z ++ (34 ∷ []))) (sym e ∙ e')
    ∙ trim_end_matches-mark d u q'
    ∙ sym e'

pub word-IsUnquoted : (c : ℕ) (s : Bytes) → is_word (c ∷ s) ≡ true → IsUnquoted (c ∷ s)
unfolding is_word
word-IsUnquoted c s h =
    let (d, t, e, p) = word-last c s h in ((c, s, refl, ground arith), (d, t, e, ground arith))
