-- ===== src/Shell/Lines/Reads.antt =====
-- How `run` of renderer/src/script.rs reads a line in front of others.
use wasibrowser.Prelude.{ℕ, ◌≡◌, ap, ◌∙◌, true, false, List, [], ◌∷◌, ◌++◌, Option, arith}
use wasibrowser.Bytes.{Bytes}
use wasibrowser.Text.Trim.{IsTrimmed, IsTrimmed-both, trim-trimmed, word-IsTrimmed}
use wasibrowser.Shell.Console.{lines_of}
use wasibrowser.Shell.Lines.{
  Act, is_skipped, split_line, verb_acts, trimmed_acts, line_acts, lines_acts,
}
use wasibrowser.Shell.Lines.Written.{
  is_one_line, IsArg, is_verb, is_command, lines_of-arg, is_verb-is_word, one_line-word,
  one_line-both, is_skipped-verb, split_line-with, split_line-without,
}

module _ (parse_f64 : Bytes → Option ℕ) where
  trimmed_acts-split_line :
      (line verb rest : Bytes)
      → is_skipped line ≡ false
      → split_line line ≡ (verb, rest)
      → trimmed_acts parse_f64 line ≡ verb_acts parse_f64 (verb, rest)
  unfolding trimmed_acts
  trimmed_acts-split_line line verb rest h e = rw h (ap (verb_acts parse_f64) e)

  -- A verb with its argument, and one without.
  line_acts-with :
      (v : ℕ) (vs raw arg : Bytes)
      → is_verb (v ∷ vs) ≡ true
      → IsArg raw arg
      → line_acts parse_f64 ((v ∷ vs) ++ (32 ∷ raw)) ≡ verb_acts parse_f64 (v ∷ vs, arg)
  unfolding line_acts
  line_acts-with v vs raw arg h a =
      let word = is_verb-is_word (v ∷ vs) h in
      ap (trimmed_acts parse_f64)
        (trim-trimmed _ (IsTrimmed-both (v ∷ vs) raw (word-IsTrimmed v vs word) a.0))
      ∙ trimmed_acts-split_line ((v ∷ vs) ++ (32 ∷ raw)) (v ∷ vs) arg
          (is_skipped-verb v (vs ++ (32 ∷ raw)) (unfold is_verb in ground arith))
          (split_line-with (v ∷ vs) raw arg word a)

  line_acts-without :
      (v : ℕ) (vs : Bytes)
      → is_verb (v ∷ vs) ≡ true
      → line_acts parse_f64 (v ∷ vs) ≡ verb_acts parse_f64 (v ∷ vs, [])
  unfolding line_acts
  line_acts-without v vs h =
      let word = is_verb-is_word (v ∷ vs) h in
      ap (trimmed_acts parse_f64) (trim-trimmed _ (word-IsTrimmed v vs word))
      ∙ trimmed_acts-split_line (v ∷ vs) (v ∷ vs) []
          (is_skipped-verb v vs (unfold is_verb in ground arith)) (split_line-without (v ∷ vs) word)

  -- A script that begins with this line does `acts` before what follows.
  abbrev pub Reads : Bytes → List Act → Type 0
  Reads line acts =
      (more : Bytes)
      → lines_acts parse_f64 (lines_of [] (line ++ (10 ∷ more)))
        ≡ acts ++ lines_acts parse_f64 (lines_of [] more)

  pub line-Reads :
      (line : Bytes) (acts : List Act)
      → IsTrimmed line
      → is_one_line line ≡ true
      → line_acts parse_f64 line ≡ acts
      → Reads line acts
  line-Reads line acts a h e more =
      ap (lines_acts parse_f64) (lines_of-arg line more a h)
      ∙ unfold lines_acts in ap (λ r. r ++ lines_acts parse_f64 (lines_of [] more)) e

  pub with-Reads :
      (verb raw arg : Bytes) (acts : List Act)
      → is_command verb ≡ true
      → IsArg raw arg
      → verb_acts parse_f64 (verb, arg) ≡ acts
      → Reads (verb ++ (32 ∷ raw)) acts
  unfolding is_command
  with-Reads [] raw arg acts h a e = absurd (cc h)
  with-Reads (v ∷ vs) raw arg acts h a e =
      let word = is_verb-is_word (v ∷ vs) h in
      line-Reads ((v ∷ vs) ++ (32 ∷ raw)) acts
        (IsTrimmed-both (v ∷ vs) raw (word-IsTrimmed v vs word) a.0)
        (one_line-both (v ∷ vs) raw (one_line-word (v ∷ vs) word) a.1)
        (line_acts-with v vs raw arg h a ∙ e)

  pub without-Reads :
      (verb : Bytes) (acts : List Act)
      → is_command verb ≡ true
      → verb_acts parse_f64 (verb, []) ≡ acts
      → Reads verb acts
  unfolding is_command
  without-Reads [] acts h e = absurd (cc h)
  without-Reads (v ∷ vs) acts h e =
      let word = is_verb-is_word (v ∷ vs) h in
      line-Reads (v ∷ vs) acts (word-IsTrimmed v vs word) (one_line-word (v ∷ vs) word)
        (line_acts-without v vs h ∙ e)
