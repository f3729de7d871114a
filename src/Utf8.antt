-- ===== src/Utf8.antt =====
-- Rust's `str` as its UTF-8 bytes, with what the sources use of the standard library's text:
-- `String::from_utf8_lossy`, `str::is_char_boundary` and `String::truncate`.
pub mod Laws
pub mod Append
use wasibrowser.Prelude.{
  ℕ, zero, suc, ◌-◌, Bool, true, false, [], ◌∷◌, ◌&&◌, ◌||◌, ◌≡◌, if◌then◌else◌, ltb, leb, ◌==◌,
  length,
}
use wasibrowser.Bytes.{Bytes}

unfoldable pub is_continuation : ℕ → Bool
is_continuation b = leb 128 b && leb b 191

second_of_three : ℕ → ℕ → Bool
unfolding is_continuation
second_of_three b c =
    if b == 0xe0
    then leb 0xa0 c && leb c 0xbf
    else if b == 0xed
    then leb 0x80 c && leb c 0x9f
    else is_continuation c

second_of_four : ℕ → ℕ → Bool
unfolding is_continuation
second_of_four b c =
    if b == 0xf0
    then leb 0x90 c && leb c 0xbf
    else if b == 0xf4
    then leb 0x80 c && leb c 0x8f
    else is_continuation c

-- The remaining bytes of a character of which `taken` bytes are good: the bytes that it takes, and
-- whether it is complete.
tail_of : ℕ → ℕ → Bytes → ℕ × Bool
unfolding is_continuation
tail_of zero taken rest = (taken, true)
tail_of (suc more) taken [] = (taken, false)
tail_of (suc more) taken (c ∷ rest) =
    let later = tail_of more (suc taken) rest in if is_continuation c then later else (taken, false)

after_second : Bool → ℕ → Bytes → ℕ × Bool
unfolding tail_of
after_second good more rest = if good then tail_of more 2 rest else (1, false)

-- The character at the front: the bytes of it, or of the longest good start of it, and whether it
-- is a character.
unfoldable pub first_char : ℕ → Bytes → ℕ × Bool
unfolding tail_of after_second second_of_three second_of_four
first_char b [] = (1, ltb b 128)
first_char b (c ∷ rest) =
    if ltb b 128
    then (1, true)
    else if leb 0xc2 b && leb b 0xdf
    then tail_of 1 1 (c ∷ rest)
    else if leb 0xe0 b && leb b 0xef
    then after_second (second_of_three b c) 1 rest
    else if leb 0xf0 b && leb b 0xf4
    then after_second (second_of_four b c) 2 rest
    else (1, false)

-- `n` bytes of the present character are still to come; they are kept if it is a good one.
lossy_loop : ℕ → Bool → Bytes → Bytes
lossy_loop n keep [] = []
lossy_loop (suc n) keep (b ∷ bytes) =
    let rest = lossy_loop n keep bytes in if keep then b ∷ rest else rest
lossy_loop zero keep (b ∷ bytes) =
    let (taken, good) = first_char b bytes in
    let rest = lossy_loop (taken - 1) good bytes in
    if good then b ∷ rest else 0xef ∷ 0xbf ∷ 0xbd ∷ rest

-- `String::from_utf8_lossy`: what is no character becomes U+FFFD.
unfoldable pub from_utf8_lossy : Bytes → Bytes
unfolding lossy_loop
from_utf8_lossy bytes = lossy_loop 0 true bytes

utf8_loop : ℕ → Bytes → Bool
utf8_loop n [] = n == 0
utf8_loop (suc n) (b ∷ bytes) = is_continuation b && utf8_loop n bytes
utf8_loop zero (b ∷ bytes) =
    let (taken, good) = first_char b bytes in good && utf8_loop (taken - 1) bytes

unfoldable pub is_utf8 : Bytes → Bool
unfolding utf8_loop
is_utf8 bytes = utf8_loop 0 bytes

-- What the type `str` guarantees.
abbrev pub IsUtf8 : Bytes → Type 0
IsUtf8 bytes = is_utf8 bytes ≡ true

-- `str::is_char_boundary`
unfoldable pub is_char_boundary : Bytes → ℕ → Bool
is_char_boundary s zero = true
is_char_boundary [] (suc i) = false
is_char_boundary (b ∷ []) (suc zero) = true
is_char_boundary (b ∷ c ∷ s) (suc zero) = ltb c 128 || leb 192 c
is_char_boundary (b ∷ s) (suc i) = is_char_boundary s i
