-- ===== src/Shell/Console/Bounds.antt =====
-- How long the console of renderer/src/ui.rs grows.
use wasibrowser.Prelude.{
  ◌-◌, ◌==◌, ◌≤◌, List, [], ◌∷◌, ◌++◌, length, length-drop, arith, Bool-cases, inl, inr,
}
use wasibrowser.Bytes.{Bytes}
use wasibrowser.Utf8.{from_utf8_lossy}
use wasibrowser.Shell.{Env, Browser, Source, stdout, stderr, host}
use wasibrowser.Shell.Console.{
  max_lines, Line, push_line, push_text, push_host_lines, lines_of, rebuild_log, push_chunk,
}

pub push_line-le : (l : Line) (lines : List Line) → length (push_line l lines) ≤ max_lines
unfolding push_line
push_line-le l lines =
    omega (arith, length-drop (length (lines ++ (l ∷ [])) - max_lines) (lines ++ (l ∷ [])))

push_text-le :
    (source : Source) (text buf : Bytes) (lines : List Line)
    → length lines ≤ max_lines
    → length (push_text source text buf lines).1 ≤ max_lines
unfolding push_text
push_text-le source [] buf lines h = h
push_text-le source (c ∷ text) buf lines h = elim (Bool-cases (c == 10)) [
  | inl ends ↦
      rw (ends, push_text)
        (push_text-le source text [] (push_line (source, buf) lines) (push_line-le _ lines))
  | inr goes_on ↦ rw (goes_on, push_text) (push_text-le source text _ lines h)
]

push_host_lines-le :
    (more : List Bytes) (lines : List Line)
    → length lines ≤ max_lines
    → length (push_host_lines more lines) ≤ max_lines
unfolding push_host_lines
push_host_lines-le [] lines h = h
push_host_lines-le (l ∷ more) lines h =
    push_host_lines-le more (push_line (host, l) lines) (push_line-le _ lines)

-- The console never holds more than 500 finished lines, whatever is written to it.
pub push_chunk-bounded :
    (E : Env) (source : Source) (bytes : Bytes) (s : Browser E)
    → length s.lines ≤ max_lines
    → length (push_chunk E source bytes s).lines ≤ max_lines
unfolding push_chunk rebuild_log
push_chunk-bounded E host bytes s h =
    push_host_lines-le (lines_of [] (from_utf8_lossy bytes)) s.lines h
push_chunk-bounded E stdout bytes s h =
    push_text-le stdout (from_utf8_lossy bytes) s.partial_out s.lines h
push_chunk-bounded E stderr bytes s h =
    push_text-le stderr (from_utf8_lossy bytes) s.partial_err s.lines h
