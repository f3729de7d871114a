-- ===== src/Shell/Console/Lines.antt =====
-- What the console keeps of a text: `push_chunk` and `push_line` of renderer/src/ui.rs.
use wasibrowser.Prelude.{
  ℕ, zero, suc, ◌+◌, ◌-◌, ◌==◌, ==_iff, ◌≤◌, ◌≡◌, refl, sym, ap, ◌∙◌, Bool, true, false, not, ◌&&◌,
  List, [], ◌∷◌, ◌++◌, length, length-append, length-drop, drop, map, append-nil, append_assoc,
  arith, Bool-cases, inl, inr,
}
use wasibrowser.Bytes.{Bytes}
use wasibrowser.Utf8.{from_utf8_lossy}
use wasibrowser.Shell.{Env, Browser, Source, stdout, stderr}
use wasibrowser.Shell.Console.{max_lines, Line, push_line, push_text, push_chunk, rebuild_log}
use wasibrowser.Shell.Console.Bounds.{push_line-le}

-- The text that lines make, each with a line feed behind it.
unfoldable pub joined : List Bytes → Bytes
joined [] = []
joined (l ∷ ls) = l ++ (10 ∷ joined ls)

-- There is no line feed in the text.
unfoldable pub is_line : Bytes → Bool
is_line [] = true
is_line (c ∷ s) = not (c == 10) && is_line s

unfoldable pub are_lines : List Bytes → Bool
unfolding is_line
are_lines [] = true
are_lines (l ∷ ls) = is_line l && are_lines ls

-- The newest of the lines, as many as the console keeps.
abbrev pub newest : List Line → List Line
newest lines = drop (length lines - max_lines) lines

abbrev pub from : Source → Bytes → Line
from source l = (source, l)

is_line-snoc :
    (s : Bytes) (c : ℕ) → is_line s ≡ true → (c == 10) ≡ false → is_line (s ++ (c ∷ [])) ≡ true
unfolding is_line
is_line-snoc [] c h n = ground arith
is_line-snoc (b ∷ s) c h n = ground (arith, is_line-snoc s c)

drop-nil : {A : Type 0} (n : ℕ) → drop {A = A} n [] ≡ []
drop-nil zero = refl
drop-nil (suc n) = refl

drop-both : {A : Type 0} (n m : ℕ) (xs : List A) → drop n (drop m xs) ≡ drop (m + n) xs
drop-both n zero xs = ap (λ k. drop k xs) (omega arith)
drop-both n (suc m) [] = drop-nil n ∙ sym (drop-nil (suc m + n))
drop-both n (suc m) (x ∷ xs) =
    let step : suc m + n ≡ suc (m + n) = omega arith in
    drop-both n m xs ∙ ap (λ k. drop k (x ∷ xs)) (sym step)

drop-prefix :
    {A : Type 0} (n : ℕ) (xs ys : List A) → n ≤ length xs → drop n (xs ++ ys) ≡ drop n xs ++ ys
drop-prefix zero xs ys h = refl
drop-prefix (suc n) [] ys h = absurd (omega arith)
drop-prefix (suc n) (x ∷ xs) ys h = drop-prefix n xs ys (omega arith)

newest-few : (lines : List Line) → length lines ≤ max_lines → lines ≡ newest lines
newest-few lines few =
    let none_over : 0 ≡ length lines - max_lines = omega arith in ap (λ n. drop n lines) none_over

newest-push : (lines more : List Line) → newest (newest lines ++ more) ≡ newest (lines ++ more)
newest-push lines more =
    let k = length lines - max_lines in
    let one : newest lines ++ more ≡ drop k (lines ++ more) =
      sym (drop-prefix k lines more (omega arith)) in
    let over : k + (length (drop k (lines ++ more)) - max_lines)
        ≡ length (lines ++ more) - max_lines =
      omega (arith, length-append lines more, length-drop k (lines ++ more)) in
    ap newest one
    ∙ drop-both (length (drop k (lines ++ more)) - max_lines) k (lines ++ more)
    ∙ ap (λ n. drop n (lines ++ more)) over

-- What `push_text` makes of a text, after the unfinished line `buf` and the lines that are there.
abbrev pub KeepsText : Source → Bytes → List Line → Bytes × List Line → Type 0
KeepsText source text lines (buf', lines') =
    (ls : List Bytes) × (joined ls ++ buf' ≡ text)
    × (are_lines ls ≡ true)
    × (is_line buf' ≡ true)
    × (lines' ≡ newest (lines ++ map (from source) ls))

-- For a text that comes, whatever is unfinished.
push_text-KeepsText :
    (source : Source) (text buf : Bytes) (lines : List Line)
    → length lines ≤ max_lines
    → is_line buf ≡ true
    → KeepsText source (buf ++ text) lines (push_text source text buf lines)
unfolding push_text joined are_lines
push_text-KeepsText source [] buf lines few line = (
  [],
  sym (append-nil buf),
  refl,
  line,
  newest-few lines few ∙ ap newest (sym (append-nil lines)),
)
push_text-KeepsText source (c ∷ text) buf lines few line = elim (Bool-cases (c == 10)) [
  | inl ends ↦
      let (ls, e, h, h', kept) =
        push_text-KeepsText source text [] (push_line (source, buf) lines)
          (push_line-le (source, buf) lines) (unfold is_line in refl) in
      rw (ends, push_text)
        (
          buf ∷ ls,
          append_assoc buf (10 ∷ joined ls) _
              ∙ ap (λ t. buf ++ t)
                  (ap (λ t. 10 ∷ t) e ∙ ap (λ b. b ∷ text) (sym ((==_iff c 10).0 ends))),
          ground arith,
          h',
          kept
              ∙ newest-push (lines ++ ((source, buf) ∷ [])) (map (from source) ls)
              ∙ ap newest (append_assoc lines ((source, buf) ∷ []) (map (from source) ls)),
        )
  | inr goes_on ↦
      let (ls, e, h, h', kept) =
        push_text-KeepsText source text (buf ++ (c ∷ [])) lines few
          (is_line-snoc buf c line goes_on) in
      rw (goes_on, push_text) (ls, e ∙ append_assoc buf (c ∷ []) text, h, h', kept)
]

-- A stream's unfinished text and a chunk of it, decoded, are cut at their line feeds and nowhere else:
-- the pieces, each with its line feed, and the new unfinished text behind them are the same text, and
-- neither holds a line feed. The console has the newest 500 of its lines and the pieces, in order, and
-- the other stream's unfinished text is untouched, if the console had 500 lines at most and the
-- stream's unfinished text no line feed. It holds for `stdout` and for `stderr`.
pub push_chunk-KeepsText :
    (E : Env) (bytes : Bytes) (s : Browser E)
    → length s.lines ≤ max_lines
    → is_line s.partial_out ≡ true
    → is_line s.partial_err ≡ true
    → let out = push_chunk E stdout bytes s in
      let err = push_chunk E stderr bytes s in
      KeepsText stdout (s.partial_out ++ from_utf8_lossy bytes) s.lines (out.partial_out, out.lines)
      × (out.partial_err ≡ s.partial_err)
      × KeepsText stderr
          (s.partial_err ++ from_utf8_lossy bytes)
          s.lines
          (err.partial_err, err.lines)
      × (err.partial_out ≡ s.partial_out)
unfolding push_chunk rebuild_log
push_chunk-KeepsText E bytes s few line line' = (
  push_text-KeepsText stdout (from_utf8_lossy bytes) s.partial_out s.lines few line,
  refl,
  push_text-KeepsText stderr (from_utf8_lossy bytes) s.partial_err s.lines few line',
  refl,
)
