-- ===== src/Shell/Bookmarks/Saving.antt =====
-- How `save_bookmarks` of renderer/src/ui.rs ends.
use wasibrowser.Prelude.{codes, ◌≡◌, refl, some, none, Option, List, Option-cases, inl, inr}
use wasibrowser.Bytes.{Bytes}
use wasibrowser.Shell.{Moment, Env, Bookmark, WriteResult, written, broken_off, unopened}
use wasibrowser.Shell.Bookmarks.{file_text, file_after, left_by}

module _ (E : Env) (now : Moment E) where
  -- How saving ended, as far as the file tells: it holds the text of the list; or there is no text of
  -- the list and the file is as before; or the write failed, and the file is as the failure left it.
  pub data Saved (bookmarks : List Bookmark) (before after : Option Bytes) : Type 0 where
    whole :
        (text : Bytes)
        → file_text E bookmarks ≡ some text
        → now.write (codes "bookmarks.json") text ≡ written
        → after ≡ some text
        → Saved bookmarks before after
    no_text : file_text E bookmarks ≡ none → after ≡ before → Saved bookmarks before after
    partly :
        (text left : Bytes)
        → file_text E bookmarks ≡ some text
        → now.write (codes "bookmarks.json") text ≡ broken_off left
        → after ≡ some left
        → Saved bookmarks before after
    not_at_all :
        (text : Bytes)
        → file_text E bookmarks ≡ some text
        → now.write (codes "bookmarks.json") text ≡ unopened
        → after ≡ before
        → Saved bookmarks before after

  file_after-of :
      (bookmarks : List Bookmark) (before : Option Bytes) (text : Bytes)
      → file_text E bookmarks ≡ some text
      → (r : WriteResult) → now.write (codes "bookmarks.json") text ≡ r
      → Saved bookmarks before (left_by r text before)
  file_after-of bookmarks before text e written w = whole text e w refl
  file_after-of bookmarks before text e (broken_off left) w = partly text left e w refl
  file_after-of bookmarks before text e unopened w = not_at_all text e w refl

  pub file_after-Saved :
      (bookmarks : List Bookmark) (before : Option Bytes)
      → Saved bookmarks before (file_after E now bookmarks before)
  unfolding file_after
  file_after-Saved bookmarks before = elim (Option-cases (file_text E bookmarks)) [
    | inl e ↦ rw (file_after, e) (no_text e refl)
    | inr (text, e) ↦ rw (file_after, e) (file_after-of bookmarks before text e _ refl)
  ]
