-- ===== src/Utf8/Laws.antt =====
-- `from_utf8_lossy` on texts, and the bytes of a character.
use wasibrowser.Prelude.{ℕ, zero, suc, ◌≤◌, false, ◌≡◌, refl, true, Bool, [], ◌∷◌, arith, ◌-◌}
use wasibrowser.Bytes.{Bytes}
use wasibrowser.Utf8.{
  lossy_loop, from_utf8_lossy, utf8_loop, is_utf8, IsUtf8, is_continuation, first_char, tail_of,
  after_second, second_of_three, second_of_four,
}

lossy_loop-of_utf8 :
    (n : ℕ) (keep : Bool) (bytes : Bytes)
    → keep ≡ true
    → utf8_loop n bytes ≡ true
    → lossy_loop n keep bytes ≡ bytes
unfolding lossy_loop utf8_loop is_continuation
lossy_loop-of_utf8 n keep [] k h = refl
lossy_loop-of_utf8 (suc n) keep (b ∷ bytes) k h = ground (arith, lossy_loop-of_utf8 n keep bytes k)
lossy_loop-of_utf8 zero keep (b ∷ bytes) k h =
    ground (arith, lossy_loop-of_utf8 ((first_char b bytes).0 - 1) (first_char b bytes).1 bytes)

pub from_utf8_lossy-of_utf8 : (s : Bytes) → IsUtf8 s → from_utf8_lossy s ≡ s
unfolding from_utf8_lossy is_utf8
from_utf8_lossy-of_utf8 s h = lossy_loop-of_utf8 0 true s refl h

tail_of-le : (more taken : ℕ) (s : Bytes) → taken ≤ (tail_of more taken s).0
unfolding tail_of
tail_of-le zero taken s = omega arith
tail_of-le (suc more) taken [] = omega arith
tail_of-le (suc more) taken (c ∷ s) = ground (arith, tail_of-le more (suc taken) s)

after_second-le : (good : Bool) (more : ℕ) (s : Bytes) → 1 ≤ (after_second good more s).0
unfolding after_second
after_second-le true more s = omega (arith, tail_of-le more 2 s)
after_second-le false more s = omega arith

-- A character has a byte at least.
pub first_char-le : (b : ℕ) (s : Bytes) → 1 ≤ (first_char b s).0
unfolding first_char
first_char-le b [] = omega arith
first_char-le b (c ∷ s) = ground (
  arith,
  tail_of-le 1 1 (c ∷ s),
  after_second-le (second_of_three b c) 1 s,
  after_second-le (second_of_four b c) 2 s,
)
