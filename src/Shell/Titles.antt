-- ===== src/Shell/Titles.antt =====
-- `truncate_title` and `escape_html` of renderer/src/ui.rs.
use wasibrowser.Prelude.{ℕ, zero, suc, ◌+◌, [], ◌∷◌, ◌++◌, if◌then◌else◌, leb, codes}
use wasibrowser.Bytes.{Bytes}
use wasibrowser.Utf8.{is_continuation}
use wasibrowser.Text.{replace}

-- `s.chars().count()`: a character of UTF-8 begins with the byte that continues none.
unfoldable pub char_count : Bytes → ℕ
char_count [] = 0
char_count (b ∷ s) = let n = char_count s in if is_continuation b then n else n + 1

-- `s.chars().take(n)`
unfoldable pub take_chars : ℕ → Bytes → Bytes
take_chars n [] = []
take_chars zero (b ∷ s) = if is_continuation b then b ∷ take_chars zero s else []
take_chars (suc n) (b ∷ s) =
    if is_continuation b then b ∷ take_chars (suc n) s else b ∷ take_chars n s

unfoldable pub truncate_title : Bytes → Bytes
unfolding char_count take_chars
truncate_title s = if leb (char_count s) 26 then s else take_chars 26 s ++ codes "..."

unfoldable pub escape_html : Bytes → Bytes
escape_html s = replace (codes "\"") (codes "&quot;") (
    replace (codes ">") (codes "&gt;")
      (replace (codes "<") (codes "&lt;") (replace (codes "&") (codes "&amp;") s)))
