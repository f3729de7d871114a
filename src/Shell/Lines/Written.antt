-- ===== src/Shell/Lines/Written.antt =====
-- How arguments stand in a line of a script, and how `run` of renderer/src/script.rs takes a line apart.
use wasibrowser.Prelude.{
  ℕ, ◌≡◌, refl, sym, ap, ◌∙◌, ◌==◌, ◌&&◌, not, Bool, true, false, [], ◌∷◌, ◌++◌, Option, none, some,
  leb, map, subst, ==_iff, Bool-cases, inl, inr, arith, append-nil, append_assoc,
}
use wasibrowser.Bytes.{Bytes}
use mathlib.Core.List.{reverse}
use wasibrowser.Text.{strip_any, whitespace, starts_with, strip_prefix}
use wasibrowser.Text.Trim.{
  is_plain, is_word, IsTrimmed, IsTrimmed-both, strip_any-plain, trim-trimmed, quoted,
  quoted-IsTrimmed, word-IsTrimmed,
}
use wasibrowser.Text.Quotes.{
  IsUnquoted-both, IsUnquoted, trim_matches-unquoted, trim_matches-quoted, word-IsUnquoted,
}
use wasibrowser.Shell.Console.{lines_of, strip_return}
use wasibrowser.Shell.Lines.{
  is_skipped, split_line, split_once, rsplit_once, trim_quotes, map_first,
}

unfoldable pub is_one_line : Bytes → Bool
is_one_line [] = true
is_one_line (c ∷ s) = not (c == 10) && is_one_line s

-- A text that can be written bare: on one line, with no white space and no quotation mark at its ends.
abbrev pub IsBare : Bytes → Type 0
IsBare s = IsTrimmed s × IsUnquoted s × (is_one_line s ≡ true)

-- A text that can be written in quotation marks.
abbrev pub IsQuotable : Bytes → Type 0
IsQuotable s = IsUnquoted s × (is_one_line s ≡ true)

-- `raw` stands for the argument `s`.
abbrev pub IsArg : Bytes → Bytes → Type 0
IsArg raw s = IsTrimmed raw × (is_one_line raw ≡ true) × (trim_quotes raw ≡ s)

unfoldable pub is_verb : Bytes → Bool
is_verb [] = true
is_verb (c ∷ s) = (leb 97 c && leb c 122) && is_verb s

unfoldable pub is_command : Bytes → Bool
unfolding is_verb
is_command [] = false
is_command (c ∷ s) = is_verb (c ∷ s)

strip_return-last :
    (d : ℕ) (s : Bytes) → (d == 13) ≡ false → strip_return (s ++ (d ∷ [])) ≡ s ++ (d ∷ [])
unfolding strip_return
strip_return-last d [] h = rw h refl
strip_return-last d (c ∷ []) h = rw (h, strip_return) refl
strip_return-last d (c ∷ b ∷ s) h = ap (λ r. c ∷ r) (strip_return-last d (b ∷ s) h)

lines_of-line :
    (buf line more : Bytes)
    → is_one_line line ≡ true
    → lines_of buf (line ++ (10 ∷ more)) ≡ strip_return (buf ++ line) ∷ lines_of [] more
unfolding lines_of is_one_line
lines_of-line buf [] more h = ap (λ r. strip_return r ∷ lines_of [] more) (sym (append-nil buf))
lines_of-line buf (c ∷ line) more h =
    let inside : (c == 10) ≡ false = ground arith in
    rw (inside, lines_of)
      (lines_of-line (buf ++ (c ∷ [])) line more (ground arith)
        ∙ ap (λ r. strip_return r ∷ lines_of [] more) (append_assoc buf (c ∷ []) line))

-- A carriage return is white space.
not_return :
    (d : ℕ) (s : Bytes) → strip_any (map reverse whitespace) (d ∷ s) ≡ none → (d == 13) ≡ false
unfolding strip_any strip_prefix
not_return d s h = elim (Bool-cases (d == 13)) [
  | inl same ↦
      absurd (
        cc
          (subst (λ c. strip_any (map reverse whitespace) (c ∷ s) ≡ none) ((==_iff d 13).0 same) h))
  | inr other ↦ other
]

pub lines_of-arg :
    (line more : Bytes)
    → IsTrimmed line
    → is_one_line line ≡ true
    → lines_of [] (line ++ (10 ∷ more)) ≡ line ∷ lines_of [] more
lines_of-arg line more (first, (d, u, e, p)) h =
    let return : (d == 13) ≡ false = not_return d (reverse u) p in
    lines_of-line [] line more h
    ∙ ap (λ r. r ∷ lines_of [] more) (ap strip_return e ∙ (strip_return-last d u return ∙ sym e))

split_once-plain :
    (c : ℕ) (s : Bytes) → is_plain c ≡ true → split_once (c ∷ s) ≡ map_first c (split_once s)
unfolding split_once
split_once-plain c s h =
    ap
      (λ (o : Option Bytes). elim o [
        | none ↦ map_first c (split_once s)
        | some rest ↦ some ([], rest)
      ])
      (strip_any-plain c s h)

split_once-word :
    (w rest : Bytes) → is_word w ≡ true → split_once (w ++ (32 ∷ rest)) ≡ some (w, rest)
unfolding is_word
split_once-word [] rest h = unfold split_once in refl
split_once-word (c ∷ w) rest h =
    split_once-plain c (w ++ (32 ∷ rest)) (ground arith)
    ∙ ap (map_first c) (split_once-word w rest (ground arith))

split_once-none : (w : Bytes) → is_word w ≡ true → split_once w ≡ none
unfolding is_word
split_once-none [] h = unfold split_once in refl
split_once-none (c ∷ w) h =
    split_once-plain c w (ground arith) ∙ ap (map_first c) (split_once-none w (ground arith))

rsplit_once-none : (w : Bytes) → is_word w ≡ true → rsplit_once w ≡ none
unfolding rsplit_once is_word
rsplit_once-none [] h = refl
rsplit_once-none (c ∷ w) h =
    rw (rsplit_once-none w (ground arith), strip_any-plain c w (ground arith)) refl

pub rsplit_once-word : (s w : Bytes) → is_word w ≡ true → rsplit_once (s ++ (32 ∷ w)) ≡ some (s, w)
unfolding rsplit_once
rsplit_once-word [] w h = rw (rsplit_once-none w h) refl
rsplit_once-word (c ∷ s) w h = rw (rsplit_once-word s w h) refl

pub is_verb-is_word : (v : Bytes) → is_verb v ≡ true → is_word v ≡ true
unfolding is_verb is_word
is_verb-is_word [] h = refl
is_verb-is_word (c ∷ v) h = ground (arith, is_verb-is_word v)

pub one_line-word : (v : Bytes) → is_word v ≡ true → is_one_line v ≡ true
unfolding is_one_line is_word
one_line-word [] h = refl
one_line-word (c ∷ v) h = ground (arith, one_line-word v)

pub one_line-both :
    (s t : Bytes) → is_one_line s ≡ true → is_one_line t ≡ true → is_one_line (s ++ (32 ∷ t)) ≡ true
unfolding is_one_line
one_line-both [] t h h' = h'
one_line-both (c ∷ s) t h h' = ground (arith, one_line-both s t)

-- A bare text, and one in quotation marks, as an argument.
pub bare-IsArg : (s : Bytes) → IsBare s → IsArg s s
unfolding trim_quotes
bare-IsArg s (trimmed, unquoted, line) = (trimmed, line, trim_matches-unquoted s unquoted)

one_line-mark : (s : Bytes) → is_one_line s ≡ true → is_one_line (s ++ (34 ∷ [])) ≡ true
unfolding is_one_line
one_line-mark [] h = refl
one_line-mark (c ∷ s) h = ground (arith, one_line-mark s)

pub quoted-IsArg : (s : Bytes) → IsQuotable s → IsArg (quoted s) s
unfolding trim_quotes
quoted-IsArg s (unquoted, line) =
    (quoted-IsTrimmed s, unfold is_one_line in one_line-mark s line, trim_matches-quoted s unquoted)

-- Two bare texts with a space between are one.
pub IsBare-both : (s t : Bytes) → IsBare s → IsBare t → IsBare (s ++ (32 ∷ t))
IsBare-both s t (a, b, h) (a', b', h') =
    (IsTrimmed-both s t a a', IsUnquoted-both s t b b', one_line-both s t h h')

pub word-IsBare : (c : ℕ) (s : Bytes) → is_word (c ∷ s) ≡ true → IsBare (c ∷ s)
word-IsBare c s h = (word-IsTrimmed c s h, word-IsUnquoted c s h, one_line-word (c ∷ s) h)

pub is_skipped-verb : (v : ℕ) (s : Bytes) → is_verb (v ∷ []) ≡ true → is_skipped (v ∷ s) ≡ false
unfolding is_skipped starts_with strip_prefix is_verb
is_skipped-verb v s h = ground arith

pub split_line-with :
    (v raw arg : Bytes) → is_word v ≡ true → IsArg raw arg → split_line (v ++ (32 ∷ raw)) ≡ (v, arg)
unfolding split_line
split_line-with v raw arg h (trimmed, line, e) =
    rw (split_once-word v raw h, trim-trimmed raw trimmed) (ap (λ z. (v, z)) e)

pub split_line-without : (v : Bytes) → is_word v ≡ true → split_line v ≡ (v, [])
unfolding split_line trim_quotes
split_line-without v h = rw (split_once-none v h) refl
