-- ===== src/Shell/Console.antt =====
-- The console: `push_chunk`, `push_line` and `rebuild_log` of renderer/src/ui.rs.
pub mod Bounds
pub mod Lines
use wasibrowser.Prelude.{
  ℕ, ◌+◌, ◌-◌, ◌==◌, List, [], ◌∷◌, ◌++◌, if◌then◌else◌, length, drop, codes, true, false,
}
use mathlib.Core.List.{reverse}
use wasibrowser.Bytes.{Bytes}
use wasibrowser.Utf8.{from_utf8_lossy}
use wasibrowser.Shell.{Env, Browser, Source, stdout, stderr, host}
use wasibrowser.Shell.Titles.{escape_html}
use wasibrowser.Shell.Chrome.{is_empty}

abbrev pub max_lines : ℕ
max_lines = 500

abbrev pub Line : Type 0
Line = Source × Bytes

abbrev pub source_class : Source → Bytes
source_class stdout = codes "out"
source_class stderr = codes "err"
source_class host = codes "host"

unfoldable pub line_html : Line → Bytes
line_html (source, line) =
    codes "<div class=\"ln "
    ++ (source_class source ++ (codes "\">" ++ (escape_html line ++ codes "</div>")))

unfoldable pub log_html : List Line → Bytes
unfolding line_html
log_html [] = []
log_html (l ∷ lines) = line_html l ++ log_html lines

-- The unfinished line of a source, if there is one.
abbrev pub partial : Source → Bytes → List Line
partial source text = if is_empty text then [] else (source, text) ∷ []

-- `push_back`, and `pop_front` while there are more than `MAX_LINES`.
unfoldable pub push_line : Line → List Line → List Line
push_line l lines = let more = lines ++ (l ∷ []) in drop (length more - max_lines) more

-- The loop over the characters: what is in `buf` goes out at each line feed.
unfoldable pub push_text : Source → Bytes → Bytes → List Line → Bytes × List Line
unfolding push_line
push_text source [] buf lines = (buf, lines)
push_text source (c ∷ text) buf lines = elim (c == 10) [
  | true ↦ push_text source text [] (push_line (source, buf) lines)
  | false ↦ push_text source text (buf ++ (c ∷ [])) lines
]

-- A carriage return in front of a line feed belongs to the line's end.
unfoldable pub strip_return : Bytes → Bytes
strip_return [] = []
strip_return (c ∷ []) = if c == 13 then [] else c ∷ []
strip_return (c ∷ d ∷ s) = c ∷ strip_return (d ∷ s)

-- `text.lines()`, after the characters `buf` of the current line.
unfoldable pub lines_of : Bytes → Bytes → List Bytes
unfolding strip_return
lines_of buf [] = if is_empty buf then [] else buf ∷ []
lines_of buf (c ∷ text) = elim (c == 10) [
  | true ↦ strip_return buf ∷ lines_of [] text
  | false ↦ lines_of (buf ++ (c ∷ [])) text
]

unfoldable pub push_host_lines : List Bytes → List Line → List Line
unfolding push_line
push_host_lines [] lines = lines
push_host_lines (l ∷ more) lines = push_host_lines more (push_line (host, l) lines)

module _ (E : Env) where
  -- The newest line comes first.
  unfoldable pub rebuild_log : Browser E → Browser E
  unfolding log_html
  rebuild_log s =
      let entries =
        partial stdout s.partial_out ++ (partial stderr s.partial_err ++ reverse s.lines) in
      record s { doc = E.document.set_inner_html s.log_node (log_html entries) s.doc; dirty = true }

  unfoldable pub push_chunk : Source → Bytes → Browser E → Browser E
  unfolding push_host_lines lines_of push_text rebuild_log
  push_chunk host bytes s =
      rebuild_log
        (record s { lines = push_host_lines (lines_of [] (from_utf8_lossy bytes)) s.lines })
  push_chunk stdout bytes s =
      let (buf, lines) = push_text stdout (from_utf8_lossy bytes) s.partial_out s.lines in
      rebuild_log (record s { lines = lines; partial_out = buf })
  push_chunk stderr bytes s =
      let (buf, lines) = push_text stderr (from_utf8_lossy bytes) s.partial_err s.lines in
      rebuild_log (record s { lines = lines; partial_err = buf })
