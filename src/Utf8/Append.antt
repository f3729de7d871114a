-- ===== src/Utf8/Append.antt =====
-- Texts one behind the other, and texts of ASCII characters.
use wasibrowser.Prelude.{
  ℕ, zero, suc, List, All, ◌≡◌, ◌+◌, ◌<◌, refl, true, false, Bool, [], ◌∷◌, ◌++◌, arith, ◌-◌, ◌&&◌,
  ltb, leb, if◌then◌else◌, ◌/◌, ◌%◌, inl, inr, Bool-cases,
}
use wasibrowser.Bytes.{Bytes}
use wasibrowser.Text.{decimal_loop, decimal, decimal_u128}
use wasibrowser.Utf8.{
  utf8_loop, is_utf8, IsUtf8, is_continuation, first_char, tail_of, after_second,
}

tail_of-append :
    (more taken : ℕ) (s t : Bytes)
    → (tail_of more taken s).1 ≡ true
    → tail_of more taken (s ++ t) ≡ tail_of more taken s
unfolding tail_of
tail_of-append zero taken s t h = refl
tail_of-append (suc more) taken [] t h = cc
tail_of-append (suc more) taken (c ∷ s) t h = elim (Bool-cases (is_continuation c)) [
  | inl good ↦ rw good (tail_of-append more (suc taken) s t (rw good at h))
  | inr bad ↦ rw bad refl
]

after_second-append :
    (good : Bool) (more : ℕ) (s t : Bytes)
    → (after_second good more s).1 ≡ true
    → after_second good more (s ++ t) ≡ after_second good more s
unfolding after_second
after_second-append true more s t h = tail_of-append more 2 s t h
after_second-append false more s t h = refl

if-append :
    (b : Bool) (x y x' y' : ℕ × Bool)
    → ((x.1 ≡ true) → x' ≡ x)
    → ((y.1 ≡ true) → y' ≡ y)
    → (if b then x else y).1 ≡ true
    → (if b then x' else y') ≡ (if b then x else y)
if-append true x y x' y' hx hy h = hx h
if-append false x y x' y' hx hy h = hy h

first_char-append :
    (b : ℕ) (s t : Bytes) → (first_char b s).1 ≡ true → first_char b (s ++ t) ≡ first_char b s
unfolding first_char
first_char-append b [] [] h = refl
first_char-append b [] (c ∷ t) h = rw h refl
first_char-append b (c ∷ s) t h =
    if-append (ltb b 128) _ _ _ _ (λ q. refl)
      (if-append (leb 0xc2 b && leb b 0xdf) _ _ _ _ (tail_of-append 1 1 (c ∷ s) t) (
        if-append (leb 0xe0 b && leb b 0xef) _ _ _ _ (after_second-append _ 1 s t)
          (if-append (leb 0xf0 b && leb b 0xf4) _ _ _ _ (after_second-append _ 2 s t) (λ q. refl))))
      h

utf8_loop-append :
    (n : ℕ) (s t : Bytes)
    → utf8_loop n s ≡ true
    → utf8_loop 0 t ≡ true
    → utf8_loop n (s ++ t) ≡ true
unfolding utf8_loop
utf8_loop-append zero [] t h k = k
utf8_loop-append (suc n) [] t h k = absurd (ground arith)
utf8_loop-append (suc n) (b ∷ s) t h k = ground (arith, utf8_loop-append n s t)
utf8_loop-append zero (b ∷ s) t h k =
    let good : (first_char b s).1 ≡ true = ground arith in
    let same = first_char-append b s t good in
    rw same (ground (arith, utf8_loop-append ((first_char b s).0 - 1) s t))

-- A text behind a text is a text.
pub IsUtf8-append : (s t : Bytes) → IsUtf8 s → IsUtf8 t → IsUtf8 (s ++ t)
unfolding is_utf8
IsUtf8-append s t h k = utf8_loop-append 0 s t h k

-- Texts one behind the other, the last one given first.
abbrev pub joined : Bytes → List Bytes → Bytes
joined last [] = last
joined last (s ∷ rest) = s ++ joined last rest

pub joined-IsUtf8 :
    (last : Bytes) (parts : List Bytes)
    → IsUtf8 last
    → All IsUtf8 parts
    → IsUtf8 (joined last parts)
joined-IsUtf8 last [] h hs = h
joined-IsUtf8 last (s ∷ rest) h (k, ks) =
    IsUtf8-append s (joined last rest) k (joined-IsUtf8 last rest h ks)

first_char-ascii : (b : ℕ) (s : Bytes) → b < 128 → first_char b s ≡ (1, true)
unfolding first_char
first_char-ascii b [] h = let small : ltb b 128 ≡ true = ground arith in rw small refl
first_char-ascii b (c ∷ s) h = let small : ltb b 128 ≡ true = ground arith in rw small refl

-- An ASCII character in front of a text makes a text.
pub IsUtf8-ascii : (b : ℕ) (s : Bytes) → b < 128 → IsUtf8 s → IsUtf8 (b ∷ s)
unfolding is_utf8 utf8_loop
IsUtf8-ascii b s h k = rw (first_char-ascii b s h) k

decimal_loop-IsUtf8 : (fuel n : ℕ) (s : Bytes) → IsUtf8 s → IsUtf8 (decimal_loop fuel n s)
unfolding decimal_loop
decimal_loop-IsUtf8 zero n s h = h
decimal_loop-IsUtf8 (suc fuel) n s h =
    let digit = IsUtf8-ascii (48 + n % 10) s (omega arith) h in
    elim (Bool-cases (ltb n 10)) [
      | inl last ↦ rw last digit
      | inr more ↦ rw more (decimal_loop-IsUtf8 fuel (n / 10) _ digit)
    ]

nil-IsUtf8 : IsUtf8 []
unfolding is_utf8 utf8_loop
nil-IsUtf8 = refl

pub decimal-IsUtf8 : (n : ℕ) → IsUtf8 (decimal n)
unfolding decimal
decimal-IsUtf8 n = decimal_loop-IsUtf8 10 n [] nil-IsUtf8

pub decimal_u128-IsUtf8 : (n : ℕ) → IsUtf8 (decimal_u128 n)
unfolding decimal_u128
decimal_u128-IsUtf8 n = decimal_loop-IsUtf8 39 n [] nil-IsUtf8
