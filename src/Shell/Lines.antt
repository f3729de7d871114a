-- ===== src/Shell/Lines.antt =====
-- The reader of a script: `run` of renderer/src/script.rs. What it does is a list of commands sent and
-- of times slept. The number that a text stands for, as a float, is a parameter.
pub mod Written
pub mod Reads
pub mod Grammar
pub mod Reading
use wasibrowser.Prelude.{
  ℕ, ◌-◌, ◌^◌, ◌==◌, ◌||◌, Bool, true, false, List, [], ◌∷◌, ◌++◌, Option, none, some,
  if◌then◌else◌, codes,
}
use wasibrowser.Bytes.{Bytes}
use wasibrowser.Text.{
  trim, trim_start_matches, trim_end_matches, starts_with, strip_any, whitespace,
}
use wasibrowser.SearchServer.Channel.{magnitude, up_to}
use wasibrowser.Shell.Chrome.{same_text, is_empty}
use wasibrowser.Shell.Console.{lines_of}
use wasibrowser.Shell.Script.{
  ScriptCmd, click, type_text, focus, hover, unhover, r_click, press, wheel, dump, dump_app,
  navigate, back, forward, reload, new_tab, close_tab, switch_tab, quit,
}

abbrev pub step_delay_ms : ℕ
step_delay_ms = 250

-- `-120.0`
abbrev pub minus_120 : ℕ
minus_120 = 13861516703092965376

-- What the thread of the script does.
pub data Act : Type 0 where
  send : (cmd : ScriptCmd) → Act
  sleep : (ms : ℕ) → Act

abbrev pub map_first : {A : Type 0} → ℕ → Option (Bytes × A) → Option (Bytes × A)
map_first c none = none
map_first c (some (before, after)) = some (c ∷ before, after)

-- `s.split_once(char::is_whitespace)`
unfoldable pub split_once : Bytes → Option (Bytes × Bytes)
unfolding strip_any
split_once [] = none
split_once (c ∷ s) = elim (strip_any whitespace (c ∷ s)) [
  | none ↦ map_first c (split_once s)
  | some rest ↦ some ([], rest)
]

-- `s.rsplit_once(char::is_whitespace)`
unfoldable pub rsplit_once : Bytes → Option (Bytes × Bytes)
unfolding strip_any
rsplit_once [] = none
rsplit_once (c ∷ s) = elim (rsplit_once s) [
  | none ↦ elim (strip_any whitespace (c ∷ s)) [ none ↦ none | some rest ↦ some ([], rest) ]
  | some (before, after) ↦ some (c ∷ before, after)
]

abbrev pub or_else : {A : Type 0} → A → Option A → A
or_else a none = a
or_else a (some b) = b

-- `s.parse()` for a `u64`, and for a `usize`
unfoldable pub parse_u64 : Bytes → Option ℕ
unfolding magnitude
parse_u64 [] = none
parse_u64 (c ∷ s) = up_to (2 ^ 64 - 1) (magnitude (if c == b'+' then s else c ∷ s))

-- `s.trim_matches('"')`
unfoldable pub trim_quotes : Bytes → Bytes
unfolding trim_start_matches trim_end_matches
trim_quotes s = trim_end_matches 34 (trim_start_matches (34 ∷ []) s)

-- No command: an empty line or a comment.
unfoldable pub is_skipped : Bytes → Bool
unfolding starts_with
is_skipped line = is_empty line || starts_with (codes "#") line

-- The verb and the rest of a line.
unfoldable pub split_line : Bytes → Bytes × Bytes
unfolding split_once trim_quotes trim
split_line line =
    let (verb, rest) = or_else (line, []) (split_once line) in (verb, trim_quotes (trim rest))

module _ (parse_f64 : Bytes → Option ℕ) where
  unfoldable pub wheel_cmd : Bytes → ScriptCmd
  unfolding rsplit_once trim
  wheel_cmd rest =
      let (sel, dy) = or_else (rest, codes "-120") (rsplit_once rest) in
      wheel (trim sel) (or_else minus_120 (parse_f64 (trim dy)))

  -- The match on the verb.
  unfoldable pub read_cmd : Bytes → Bytes → Option ScriptCmd
  unfolding wheel_cmd parse_u64
  read_cmd verb rest =
      if same_text verb (codes "click")
      then some (click rest)
      else if same_text verb (codes "type")
      then some (type_text rest)
      else if same_text verb (codes "focus")
      then some (focus rest)
      else if same_text verb (codes "hover")
      then some (hover rest)
      else if same_text verb (codes "unhover")
      then some (unhover rest)
      else if same_text verb (codes "rclick")
      then some (r_click rest)
      else if same_text verb (codes "key")
      then some (press rest)
      else if same_text verb (codes "wheel")
      then some (wheel_cmd rest)
      else if same_text verb (codes "dump")
      then some (dump rest)
      else if same_text verb (codes "dumpapp")
      then some (dump_app rest)
      else if same_text verb (codes "navigate")
      then some (navigate rest)
      else if same_text verb (codes "back")
      then some back
      else if same_text verb (codes "forward")
      then some forward
      else if same_text verb (codes "reload")
      then some reload
      else if same_text verb (codes "newtab")
      then some (new_tab rest)
      else if same_text verb (codes "closetab")
      then some close_tab
      else if same_text verb (codes "switchtab")
      then some (switch_tab (or_else 0 (parse_u64 rest)))
      else if same_text verb (codes "quit")
      then some quit
      else none

  unfoldable pub verb_acts : Bytes × Bytes → List Act
  unfolding read_cmd
  verb_acts (verb, rest) =
      if same_text verb (codes "wait")
      then sleep (or_else step_delay_ms (parse_u64 rest)) ∷ []
      else elim (read_cmd verb rest) [ none ↦ [] | some cmd ↦ send cmd ∷ sleep step_delay_ms ∷ [] ]

  -- A line without the white space around it.
  unfoldable pub trimmed_acts : Bytes → List Act
  unfolding is_skipped split_line verb_acts
  trimmed_acts line = if is_skipped line then [] else verb_acts (split_line line)

  unfoldable pub line_acts : Bytes → List Act
  unfolding trimmed_acts
  line_acts raw = trimmed_acts (trim raw)

  unfoldable pub lines_acts : List Bytes → List Act
  unfolding line_acts
  lines_acts [] = []
  lines_acts (raw ∷ lines) = line_acts raw ++ lines_acts lines

  -- The argument is what `read_to_string` gives.
  unfoldable pub run_script : Option Bytes → List Act
  unfolding lines_acts lines_of
  run_script none = []
  run_script (some text) = sleep 800 ∷ lines_acts (lines_of [] text)
