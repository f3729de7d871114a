-- ===== src/Runs/Scripts.antt =====
-- A script that is read.
use wasibrowser.Prelude.{
  ℕ, ◌≡◌, refl, true, false, [], ◌∷◌, List, Option, none, some, if◌then◌else◌, codes, arith,
}
use wasibrowser.Bytes.{Bytes}
use wasibrowser.Map.Keys.{bytes_eq}
use wasibrowser.Text.Trim.{is_word, IsTrimmed}
use wasibrowser.Text.{strip_any}
use wasibrowser.Shell.Chrome.{same_text}
use wasibrowser.Shell.Script.{click, type_text, wheel, new_tab, switch_tab, back, quit}
use wasibrowser.Shell.Lines.{send, sleep, minus_120, run_script}
use wasibrowser.Shell.Lines.Written.{IsBare, IsQuotable, is_one_line}
use wasibrowser.Shell.Lines.Grammar.{
  ScriptLine, empty_line, comment, wait, command, script_text, IsWritable, IsLine, IsScript,
  all_mean,
}
use wasibrowser.Shell.Lines.Reading.{run_script-written}

-- One float has a text.
abbrev parse : Bytes → Option ℕ
parse s = if same_text s (codes "-120") then some minus_120 else none

abbrev print : ℕ → Bytes
print bits = codes "-120"

abbrev script : List ScriptLine
script =
    comment (codes " opens the list")
    ∷ wait 1500
    ∷ command false (click (codes "#new item"))
    ∷ empty_line
    ∷ command true (type_text (codes " a b "))
    ∷ command true (wheel (codes "#list li") minus_120)
    ∷ command false (new_tab [])
    ∷ command false (switch_tab 1)
    ∷ command false quit
    ∷ []

-- White space and quotation marks around an argument go, a number that is none is the default, and an
-- unknown verb does nothing.
untidy_script :
    run_script parse
      (some (codes "  click \"#a b\" \r\nwait soon\nwheel  #a b\njump\n\nswitchtab +2\nback now"))
    ≡ sleep 800
      ∷ send (click (codes "#a b"))
      ∷ sleep 250
      ∷ sleep 250
      ∷ send (wheel (codes "#a") minus_120)
      ∷ sleep 250
      ∷ send (switch_tab 2)
      ∷ sleep 250
      ∷ send back
      ∷ sleep 250
      ∷ []
unfolding run_script bytes_eq
untidy_script = refl

comment-IsTrimmed : IsTrimmed (codes "# opens the list")
unfolding strip_any
comment-IsTrimmed =
    ((b'#', codes " opens the list", refl, refl), (b't', codes "# opens the lis", refl, refl))

spaced-IsQuotable : IsQuotable (codes " a b ")
unfolding is_one_line
spaced-IsQuotable = (((b' ', codes "a b ", refl, refl), (b' ', codes " a b", refl, refl)), refl)

item-IsBare : IsBare (codes "#new item")
unfolding is_one_line strip_any
item-IsBare = (
  ((b'#', codes "new item", refl, refl), (b'm', codes "#new ite", refl, refl)),
  ((b'#', codes "new item", refl, refl), (b'm', codes "#new ite", refl, refl)),
  refl,
)

list-IsBare : IsBare (codes "#list li")
unfolding is_one_line strip_any
list-IsBare = (
  ((b'#', codes "list li", refl, refl), (b'i', codes "#list l", refl, refl)),
  ((b'#', codes "list li", refl, refl), (b'i', codes "#list l", refl, refl)),
  refl,
)

float-IsBare : IsBare (codes "-120")
unfolding is_one_line strip_any
float-IsBare = (
  ((b'-', codes "120", refl, refl), (b'0', codes "-12", refl, refl)),
  ((b'-', codes "120", refl, refl), (b'0', codes "-12", refl, refl)),
  refl,
)

wheel-IsWritable : IsWritable parse print true (wheel (codes "#list li") minus_120)
unfolding is_word bytes_eq
wheel-IsWritable = (list-IsBare, float-IsBare, refl, refl)

comment-IsLine : IsLine parse print (comment (codes " opens the list"))
unfolding is_one_line
comment-IsLine = (comment-IsTrimmed, refl)

script-IsScript : IsScript parse print script
script-IsScript = (
  comment-IsLine,
  (
    omega arith,
    (item-IsBare, (tt, (spaced-IsQuotable, (wheel-IsWritable, (tt, (omega arith, (tt, tt))))))),
  ),
)

run_script-written_example :
    run_script parse (some (script_text print script)) ≡ sleep 800 ∷ all_mean script
run_script-written_example = run_script-written parse print script script-IsScript
