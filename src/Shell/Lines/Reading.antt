-- ===== src/Shell/Lines/Reading.antt =====
-- A script of written lines in front of `run` of renderer/src/script.rs.
use wasibrowser.Prelude.{
  ℕ, zero, suc, ◌+◌, ◌-◌, ◌/◌, ◌%◌, ◌^◌, ◌<◌, ◌≡◌, refl, sym, ap, subst, ◌∙◌, ◌==◌, Bool, true,
  false, Bool-cases, List, [], ◌∷◌, ◌++◌, Option, some, inl, inr, ltb, leb, codes, arith,
}
use wasibrowser.Bytes.{Bytes}
use wasibrowser.Map.Keys.{bytes_eq}
use wasibrowser.Text.{trim, decimal_u128, decimal_loop, starts_with, strip_prefix}
use wasibrowser.Text.Trim.{is_word, IsTrimmed, trim-trimmed}
use wasibrowser.SearchServer.Channel.{digits, magnitude}
use wasibrowser.SearchServer.Channel.Decimal.{decimal_u128-first, digits-decimal_u128}
use wasibrowser.Shell.Console.{lines_of, strip_return}
use wasibrowser.Shell.Script.{
  ScriptCmd, click, type_text, focus, hover, unhover, r_click, press, wheel, dump, dump_app,
  navigate, back, forward, reload, new_tab, close_tab, switch_tab, quit,
}
use wasibrowser.Shell.Lines.{
  or_else, sleep, step_delay_ms, parse_u64, wheel_cmd, read_cmd, verb_acts, trimmed_acts, line_acts,
  lines_acts, run_script, is_skipped,
}
use wasibrowser.Shell.Lines.Written.{
  IsBare, IsArg, is_one_line, is_command, IsBare-both, rsplit_once-word, word-IsBare, bare-IsArg,
  quoted-IsArg,
}
use wasibrowser.Shell.Lines.Reads.{Reads, line-Reads, with-Reads, without-Reads}
use wasibrowser.Shell.Lines.Grammar.{
  IsText, arg_text, ScriptLine, empty_line, comment, wait, command, IsWritable, IsLine, IsScript,
  with_arg, cmd_line, line_text, script_text, sends, means, all_mean,
}

is_word-decimal_loop :
    (fuel n : ℕ) (out : Bytes) → is_word out ≡ true → is_word (decimal_loop fuel n out) ≡ true
unfolding decimal_loop is_word
is_word-decimal_loop zero n out h = h
is_word-decimal_loop (suc fuel) n out h =
    let more : is_word ((48 + n % 10) ∷ out) ≡ true = ground arith in
    elim (Bool-cases (ltb n 10)) [
      | inl last ↦ rw last more
      | inr rest ↦ rw rest (is_word-decimal_loop fuel (n / 10) ((48 + n % 10) ∷ out) more)
    ]

decimal-IsArg : (n : ℕ) → IsArg (decimal_u128 n) (decimal_u128 n)
decimal-IsArg n =
    let (c, rest, e, d) = decimal_u128-first n in
    let word : is_word (decimal_u128 n) ≡ true =
      unfold decimal_u128 in is_word-decimal_loop 39 n [] (unfold is_word in refl) in
    bare-IsArg (decimal_u128 n)
      (subst IsBare (sym e) (word-IsBare c rest (ap is_word (sym e) ∙ word)))

parse_u64-decimal : (n : ℕ) → n < 2 ^ 62 → parse_u64 (decimal_u128 n) ≡ some n
unfolding parse_u64 magnitude
parse_u64-decimal n h =
    let (c, rest, e, d) = decimal_u128-first n in
    let value : digits 0 (c ∷ rest) ≡ some n = ap (digits 0) (sym e) ∙ digits-decimal_u128 n h in
    let plus : (c == b'+') ≡ false = ground arith in
    let small : leb n (2 ^ 64 - 1) ≡ true = ground arith in
    ap parse_u64 e ∙ rw (plus, value, small) refl

arg_text-IsArg : (q : Bool) (s : Bytes) → IsText q s → IsArg (arg_text q s) s
arg_text-IsArg false s h = bare-IsArg s h
arg_text-IsArg true s h = quoted-IsArg s h

bare-IsText : (q : Bool) (s : Bytes) → IsBare s → IsText q s
bare-IsText false s h = h
bare-IsText true s (trimmed, unquoted, line) = (unquoted, line)

module _ (parse : Bytes → Option ℕ) (print : ℕ → Bytes) where
  wheel_cmd-written :
      (q : Bool) (s : Bytes) (dy : ℕ)
      → IsWritable parse print q (wheel s dy)
      → wheel_cmd parse (s ++ (32 ∷ print dy)) ≡ wheel s dy
  unfolding wheel_cmd
  wheel_cmd-written q s dy (a, b, w, e) =
      rw (rsplit_once-word s (print dy) w, trim-trimmed s a.0, trim-trimmed (print dy) b.0, e) refl

  wheel-Reads :
      (q : Bool) (s : Bytes) (dy : ℕ)
      → IsWritable parse print q (wheel s dy)
      → Reads parse (cmd_line print q (wheel s dy)) (sends (wheel s dy))
  unfolding verb_acts read_cmd cmd_line with_arg is_command bytes_eq
  wheel-Reads q s dy h =
      let arg = s ++ (32 ∷ print dy) in
      with-Reads parse (codes "wheel") (arg_text q arg) arg (sends (wheel s dy)) refl
        (arg_text-IsArg q arg (bare-IsText q arg (IsBare-both s (print dy) h.0 h.1)))
        (ap sends (wheel_cmd-written q s dy h))

  switch_tab-Reads :
      (q : Bool) (idx : ℕ)
      → idx < 2 ^ 62
      → Reads parse (cmd_line print q (switch_tab idx)) (sends (switch_tab idx))
  unfolding verb_acts read_cmd cmd_line with_arg is_command bytes_eq
  switch_tab-Reads q idx h =
      with-Reads parse (codes "switchtab") (decimal_u128 idx) (decimal_u128 idx)
        (sends (switch_tab idx)) refl (decimal-IsArg idx)
        (ap (λ o. sends (switch_tab (or_else 0 o))) (parse_u64-decimal idx h))

  cmd-Reads :
      (q : Bool) (cmd : ScriptCmd)
      → IsWritable parse print q cmd
      → Reads parse (cmd_line print q cmd) (sends cmd)
  unfolding verb_acts read_cmd cmd_line with_arg is_command bytes_eq
  cmd-Reads q (click s) h =
      with-Reads parse (codes "click") (arg_text q s) s (sends (click s)) refl
        (arg_text-IsArg q s h) refl
  cmd-Reads q (type_text s) h =
      with-Reads parse (codes "type") (arg_text q s) s (sends (type_text s)) refl
        (arg_text-IsArg q s h) refl
  cmd-Reads q (focus s) h =
      with-Reads parse (codes "focus") (arg_text q s) s (sends (focus s)) refl
        (arg_text-IsArg q s h) refl
  cmd-Reads q (hover s) h =
      with-Reads parse (codes "hover") (arg_text q s) s (sends (hover s)) refl
        (arg_text-IsArg q s h) refl
  cmd-Reads q (unhover s) h =
      with-Reads parse (codes "unhover") (arg_text q s) s (sends (unhover s)) refl
        (arg_text-IsArg q s h) refl
  cmd-Reads q (r_click s) h =
      with-Reads parse (codes "rclick") (arg_text q s) s (sends (r_click s)) refl
        (arg_text-IsArg q s h) refl
  cmd-Reads q (press s) h =
      with-Reads parse (codes "key") (arg_text q s) s (sends (press s)) refl (arg_text-IsArg q s h)
        refl
  cmd-Reads q (dump s) h =
      with-Reads parse (codes "dump") (arg_text q s) s (sends (dump s)) refl (arg_text-IsArg q s h)
        refl
  cmd-Reads q (dump_app s) h =
      with-Reads parse (codes "dumpapp") (arg_text q s) s (sends (dump_app s)) refl
        (arg_text-IsArg q s h) refl
  cmd-Reads q (navigate s) h =
      with-Reads parse (codes "navigate") (arg_text q s) s (sends (navigate s)) refl
        (arg_text-IsArg q s h) refl
  cmd-Reads q (new_tab (c ∷ s)) h =
      with-Reads parse (codes "newtab") (arg_text q (c ∷ s)) (c ∷ s) (sends (new_tab (c ∷ s))) refl
        (arg_text-IsArg q (c ∷ s) h) refl
  cmd-Reads q (new_tab []) h = without-Reads parse (codes "newtab") (sends (new_tab [])) refl refl
  cmd-Reads q back h = without-Reads parse (codes "back") (sends back) refl refl
  cmd-Reads q forward h = without-Reads parse (codes "forward") (sends forward) refl refl
  cmd-Reads q reload h = without-Reads parse (codes "reload") (sends reload) refl refl
  cmd-Reads q close_tab h = without-Reads parse (codes "closetab") (sends close_tab) refl refl
  cmd-Reads q quit h = without-Reads parse (codes "quit") (sends quit) refl refl
  cmd-Reads q (wheel s dy) h = wheel-Reads q s dy h
  cmd-Reads q (switch_tab idx) h = switch_tab-Reads q idx h

  wait-Reads : (ms : ℕ) → ms < 2 ^ 62 → Reads parse (line_text print (wait ms)) (sleep ms ∷ [])
  unfolding verb_acts line_text with_arg is_command bytes_eq
  wait-Reads ms h =
      with-Reads parse (codes "wait") (decimal_u128 ms) (decimal_u128 ms) (sleep ms ∷ []) refl
        (decimal-IsArg ms) (ap (λ o. sleep (or_else step_delay_ms o) ∷ []) (parse_u64-decimal ms h))

  comment-Reads :
      (text : Bytes)
      → IsTrimmed (35 ∷ text)
      → is_one_line (35 ∷ text) ≡ true
      → Reads parse (35 ∷ text) []
  unfolding line_acts trimmed_acts is_skipped starts_with strip_prefix
  comment-Reads text a h =
      line-Reads parse (35 ∷ text) [] a h (ap (trimmed_acts parse) (trim-trimmed (35 ∷ text) a))

  empty_line-Reads : Reads parse [] []
  unfolding lines_acts line_acts trimmed_acts lines_of strip_return trim is_skipped
  empty_line-Reads more = refl

  any-Reads : (l : ScriptLine) → IsLine parse print l → Reads parse (line_text print l) (means l)
  unfolding line_text
  any-Reads empty_line h = empty_line-Reads
  any-Reads (comment text) h = comment-Reads text h.0 h.1
  any-Reads (wait ms) h = wait-Reads ms h
  any-Reads (command in_quotes cmd) h = cmd-Reads in_quotes cmd h

  lines_acts-script :
      (ls : List ScriptLine)
      → IsScript parse print ls
      → lines_acts parse (lines_of [] (script_text print ls)) ≡ all_mean ls
  unfolding script_text lines_acts lines_of
  lines_acts-script [] h = refl
  lines_acts-script (l ∷ ls) (h, hs) =
      any-Reads l h (script_text print ls) ∙ ap (λ r. means l ++ r) (lines_acts-script ls hs)

  -- A script is run as its lines say: after the first 800 ms each command is sent as it is, in order
  -- and with its texts, and followed by the step delay, a `wait` sleeps for its time, and blank lines
  -- and comments do nothing. The lines begin with the verb; an argument stands bare, if it has no white
  -- space and no quotation mark at its ends, or in quotation marks, which are taken off, if it has no
  -- quotation mark at its ends; it is on one line and not empty. Numbers are below 2 ^ 62. The
  -- selector of a `wheel` can be written bare, and the text of its float is a word of ASCII that
  -- parses back to it. A comment has no white space at its end.
  pub run_script-written :
      (ls : List ScriptLine)
      → IsScript parse print ls
      → run_script parse (some (script_text print ls)) ≡ sleep 800 ∷ all_mean ls
  unfolding run_script
  run_script-written ls h = ap (λ r. sleep 800 ∷ r) (lines_acts-script ls h)
