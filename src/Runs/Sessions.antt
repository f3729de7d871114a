-- ===== src/Runs/Sessions.antt =====
-- The browser on the small engine from its start, with what the user and the engine send it.
use wasibrowser.Prelude.{
  ℕ, ◌≡◌, refl, true, false, none, some, List, [], ◌∷◌, codes, All, arith, ◌+◌, ◌*◌,
}
use wasibrowser.Bytes.{Bytes, ok}
use wasibrowser.Abi.DomEvents
use wasibrowser.Abi.DomEvents.{KeyEvent}
use wasibrowser.Shell.Driver.{Lengths, Screen, Dispatch, finishes, handles, drive, settle}
use wasibrowser.Shell.Frames.{IsCalm}
use wasibrowser.Shell.Strip.{Steps, IsWellFormed}
use wasibrowser.Shell.Steps.{strip}
use wasibrowser.Shell.Script.{back}
use wasibrowser.Shell.Window.{pointer_moved}
use wasibrowser.Shell.Safety.{
  dispatches, polls, commands, tracks, opens_window, Sent, handle_all, handle_all-Goes,
}
use wasibrowser.Map.{contains}
use wasibrowser.Shell.Ticks.{set_window_id}
use wasibrowser.Shell.Chrome.{refresh_address_bar, refresh_bookmark_star}
use wasibrowser.Shell.Start.{furnish, new}
use wasibrowser.Shell.Start.Begins.{first_strip, built, new-handle_all}
use wasibrowser.Runs.Shells.{world, browser, now}
use wasibrowser.Runs.Hits.{floats}

-- The bytes of a text as one number.
abbrev node : Bytes → ℕ
node [] = 0
node (c ∷ id) = c + 256 * node id

-- Each height is cut to 48.
abbrev lengths : Lengths
lengths = record {
  is_nonpositive = λ x. false;
  css = λ y scale. y;
  sub = λ a b. a;
  max = λ a b. b;
  le = λ a b. true;
  lt = λ a b. false;
  are_apart = λ a b. true;
  px = λ a. codes "48px";
  le_max = λ a. refl;
}

-- Each selector has its own node, the engine has no handler for an event of its own, and each node the same rectangle.
abbrev pub screen : Screen world
screen = record {
  UiEvent = Bytes;
  ui_event = λ event doc. finishes doc;
  dom_event = λ nid event doc. finishes doc;
  floats = floats;
  lengths = lengths;
  layout = λ nid doc. some (0, 0, 100, 20);
  same_rect = λ a b. true;
  ms_between = λ a b. 0;
  query_selector = λ id doc. some (node id);
  element_name = λ nid doc. none;
  synthetic_click = λ nid doc. none;
  ime_commit = λ text. text;
  key_down = λ name. name;
}

browser-IsWellFormed : IsWellFormed (strip world browser)
browser-IsWellFormed = record {
  active = omega arith;
  entries = (omega arith, (omega arith, tt));
  used = (omega arith, (omega arith, tt));
  distinct = ((omega arith, tt), (tt, tt));
  counted = omega arith;
  small = omega arith;
}

abbrev enter : KeyEvent
enter = record {
  text = none;
  key = codes "Enter";
  is_enter = true;
  modifiers = 0;
  is_pressed = true;
}

-- The user presses the Enter key in the address bar.
abbrev submits : Dispatch (List ℕ)
submits = handles (DomEvents.key_down enter) (0 ∷ []) 0 true (λ v. finishes [])

abbrev messages : List (Sent world screen)
messages =
    (now, dispatches submits) ∷ (now, polls 40) ∷ (now, tracks 40 1 600 (pointer_moved 300)) ∷ []

handle_all-Goes_example :
    let s = handle_all world screen messages browser in
    Steps (strip world browser) (strip world s) × IsWellFormed (strip world s) × All IsCalm s.sent
unfolding drive contains settle
handle_all-Goes_example =
    handle_all-Goes world screen messages browser browser-IsWellFormed
      ((omega arith, tt), (tt, (tt, tt))) tt

-- The user clicks the button for a new tab.
abbrev clicks : Dispatch (List ℕ)
clicks =
    handles (DomEvents.click (record { page_x = 1; page_y = 2; buttons = 1; mods = 0 }))
      (node (codes "#btn-newtab") ∷ []) 0 true (λ v. finishes [])

abbrev opening : List (Sent world screen)
opening = (now, opens_window 9) ∷ (now, dispatches clicks) ∷ (now, commands 40 back) ∷ []

new-handle_all_example :
    let s = built world screen now (codes "apps") (1 ∷ 2 ∷ 3 ∷ []) node in
    (new world now screen (codes "apps") (1 ∷ 2 ∷ 3 ∷ []) ≡ ok s)
    × Steps first_strip (strip world (handle_all world screen opening s))
    × IsWellFormed (strip world (handle_all world screen opening s))
    × All IsCalm (handle_all world screen opening s).sent
unfolding drive set_window_id furnish refresh_address_bar refresh_bookmark_star contains settle
new-handle_all_example =
    new-handle_all world screen now (codes "apps") (1 ∷ 2 ∷ 3 ∷ []) node opening
      ((
        refl,
        (
          refl,
          (
            refl,
            (
              refl,
              (
                refl,
                (
                  refl,
                  (
                    refl,
                    (
                      refl,
                      (
                        refl,
                        (
                          refl,
                          (
                            refl,
                            (
                              refl,
                              (
                                refl,
                                (refl, (refl, (refl, (refl, (refl, (refl, (refl, (refl, tt)))))))),
                              ),
                            ),
                          ),
                        ),
                      ),
                    ),
                  ),
                ),
              ),
            ),
          ),
        ),
      ))
      (tt, ((omega arith, tt), (tt, tt)))
