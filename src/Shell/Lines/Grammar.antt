-- ===== src/Shell/Lines/Grammar.antt =====
-- Lines of a script as data, with the text that stands for each: the commands of the grammar at the
-- top of renderer/src/script.rs, with arguments bare or in quotation marks.
use wasibrowser.Prelude.{
  ℕ, ◌^◌, ◌<◌, ◌≡◌, Bool, true, false, List, [], ◌∷◌, ◌++◌, Option, some, codes,
}
use wasibrowser.Bytes.{Bytes}
use wasibrowser.Text.{decimal_u128}
use wasibrowser.Text.Trim.{is_word, IsTrimmed, quoted}
use wasibrowser.Shell.Script.{
  ScriptCmd, click, type_text, focus, hover, unhover, r_click, press, wheel, dump, dump_app,
  navigate, back, forward, reload, new_tab, close_tab, switch_tab, quit,
}
use wasibrowser.Shell.Lines.{Act, send, sleep, step_delay_ms}
use wasibrowser.Shell.Lines.Written.{IsBare, IsQuotable, is_one_line}

-- An argument, bare or in quotation marks.
abbrev pub IsText : Bool → Bytes → Type 0
IsText false s = IsBare s
IsText true s = IsQuotable s

abbrev pub arg_text : Bool → Bytes → Bytes
arg_text false s = s
arg_text true s = quoted s

-- The texts and numbers of a command are such that its line, with its argument in quotation marks or
-- bare, can stand for them: a float has a text.
abbrev pub IsWritable : (Bytes → Option ℕ) → (ℕ → Bytes) → Bool → ScriptCmd → Type 0
IsWritable parse print q (click s) = IsText q s
IsWritable parse print q (type_text s) = IsText q s
IsWritable parse print q (focus s) = IsText q s
IsWritable parse print q (hover s) = IsText q s
IsWritable parse print q (unhover s) = IsText q s
IsWritable parse print q (r_click s) = IsText q s
IsWritable parse print q (press s) = IsText q s
IsWritable parse print q (wheel s dy) =
    IsBare s × IsBare (print dy) × (is_word (print dy) ≡ true) × (parse (print dy) ≡ some dy)
IsWritable parse print q (dump s) = IsText q s
IsWritable parse print q (dump_app s) = IsText q s
IsWritable parse print q (navigate s) = IsText q s
IsWritable parse print q back = Unit
IsWritable parse print q forward = Unit
IsWritable parse print q reload = Unit
IsWritable parse print q (new_tab []) = Unit
IsWritable parse print q (new_tab (c ∷ s)) = IsText q (c ∷ s)
IsWritable parse print q close_tab = Unit
IsWritable parse print q (switch_tab idx) = idx < 2 ^ 62
IsWritable parse print q quit = Unit

unfoldable pub with_arg : Bytes → Bytes → Bytes
with_arg verb arg = verb ++ (32 ∷ arg)

unfoldable pub cmd_line : (ℕ → Bytes) → Bool → ScriptCmd → Bytes
unfolding with_arg
cmd_line print q (click s) = with_arg (codes "click") (arg_text q s)
cmd_line print q (type_text s) = with_arg (codes "type") (arg_text q s)
cmd_line print q (focus s) = with_arg (codes "focus") (arg_text q s)
cmd_line print q (hover s) = with_arg (codes "hover") (arg_text q s)
cmd_line print q (unhover s) = with_arg (codes "unhover") (arg_text q s)
cmd_line print q (r_click s) = with_arg (codes "rclick") (arg_text q s)
cmd_line print q (press s) = with_arg (codes "key") (arg_text q s)
cmd_line print q (wheel s dy) = with_arg (codes "wheel") (arg_text q (with_arg s (print dy)))
cmd_line print q (dump s) = with_arg (codes "dump") (arg_text q s)
cmd_line print q (dump_app s) = with_arg (codes "dumpapp") (arg_text q s)
cmd_line print q (navigate s) = with_arg (codes "navigate") (arg_text q s)
cmd_line print q back = codes "back"
cmd_line print q forward = codes "forward"
cmd_line print q reload = codes "reload"
cmd_line print q (new_tab []) = codes "newtab"
cmd_line print q (new_tab (c ∷ s)) = with_arg (codes "newtab") (arg_text q (c ∷ s))
cmd_line print q close_tab = codes "closetab"
cmd_line print q (switch_tab idx) = with_arg (codes "switchtab") (decimal_u128 idx)
cmd_line print q quit = codes "quit"

abbrev pub sends : ScriptCmd → List Act
sends cmd = send cmd ∷ sleep step_delay_ms ∷ []

-- The lines of a script.
pub data ScriptLine : Type 0 where
  empty_line : ScriptLine
  comment : (text : Bytes) → ScriptLine
  wait : (ms : ℕ) → ScriptLine
  command : (in_quotes : Bool) (cmd : ScriptCmd) → ScriptLine

abbrev pub IsLine : (Bytes → Option ℕ) → (ℕ → Bytes) → ScriptLine → Type 0
IsLine parse print empty_line = Unit
IsLine parse print (comment text) = IsTrimmed (35 ∷ text) × (is_one_line (35 ∷ text) ≡ true)
IsLine parse print (wait ms) = ms < 2 ^ 62
IsLine parse print (command in_quotes cmd) = IsWritable parse print in_quotes cmd

abbrev pub IsScript : (Bytes → Option ℕ) → (ℕ → Bytes) → List ScriptLine → Type 0
IsScript parse print [] = Unit
IsScript parse print (l ∷ ls) = IsLine parse print l × IsScript parse print ls

unfoldable pub line_text : (ℕ → Bytes) → ScriptLine → Bytes
unfolding cmd_line with_arg
line_text print empty_line = []
line_text print (comment text) = 35 ∷ text
line_text print (wait ms) = with_arg (codes "wait") (decimal_u128 ms)
line_text print (command in_quotes cmd) = cmd_line print in_quotes cmd

unfoldable pub script_text : (ℕ → Bytes) → List ScriptLine → Bytes
unfolding line_text
script_text print [] = []
script_text print (l ∷ ls) = line_text print l ++ (10 ∷ script_text print ls)

abbrev pub means : ScriptLine → List Act
means empty_line = []
means (comment text) = []
means (wait ms) = sleep ms ∷ []
means (command in_quotes cmd) = sends cmd

abbrev pub all_mean : List ScriptLine → List Act
all_mean [] = []
all_mean (l ∷ ls) = means l ++ all_mean ls
