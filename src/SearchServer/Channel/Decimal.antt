-- ===== src/SearchServer/Channel/Decimal.antt =====
-- The time that the host prints is the time that search-server/src/main.rs reads.
use wasibrowser.Prelude.{
  ℕ, zero, suc, ◌+◌, ◌-◌, ◌*◌, ◌/◌, ◌%◌, ◌^◌, ◌<◌, ◌≡◌, refl, sym, ap, ◌∙◌, true, false, some, [],
  ◌∷◌, ltb, leb, ltb→lt, ◌==◌, Bool-cases, inl, inr, arith,
}
use wasibrowser.Bytes.{Bytes}
use wasibrowser.Text.{decimal_loop, decimal_u128}
use wasibrowser.SearchServer.Channel.{digits, magnitude, is_empty, is_digit, parse_i64}

abbrev power : ℕ → ℕ
power zero = 1
power (suc f) = 10 * power f

digits-decimal_loop :
    (fuel n : ℕ) (out : Bytes) → n < power fuel → digits 0 (decimal_loop fuel n out) ≡ digits n out
unfolding digits decimal_loop
digits-decimal_loop zero n out h = ap (λ k. digits k out) (omega arith)
digits-decimal_loop (suc fuel) n out h = elim (Bool-cases (ltb n 10)) [
  | inl last ↦
      let digit : is_digit (48 + n % 10) ≡ true = ground arith in
      let value : 0 * 10 + (48 + n % 10 - 48) ≡ n = omega (arith, ltb→lt n 10 last) in
      rw (last, digit, value) refl
  | inr more ↦
      let digit : is_digit (48 + n % 10) ≡ true = ground arith in
      let value : n / 10 * 10 + (48 + n % 10 - 48) ≡ n = omega arith in
      rw more (
        digits-decimal_loop fuel (n / 10) ((48 + n % 10) ∷ out) (omega arith)
        ∙ rw (digit, value) refl)
]

-- It begins with a digit.
decimal_loop-digit :
    (fuel n c : ℕ) (out : Bytes)
    → is_digit c ≡ true
    → (c' : ℕ) × (rest : Bytes) × (decimal_loop fuel n (c ∷ out) ≡ c' ∷ rest) × (is_digit c' ≡ true)
unfolding decimal_loop
decimal_loop-digit zero n c out h = (c, out, refl, h)
decimal_loop-digit (suc fuel) n c out h =
    let digit : is_digit (48 + n % 10) ≡ true = ground arith in
    elim (Bool-cases (ltb n 10)) [
      | inl last ↦ (48 + n % 10, c ∷ out, rw last refl, digit)
      | inr more ↦
          let (c', rest, e, d) = decimal_loop-digit fuel (n / 10) (48 + n % 10) (c ∷ out) digit in
          (c', rest, rw more e, d)
    ]

decimal_loop-first :
    (fuel n : ℕ) (out : Bytes)
    → (c : ℕ) × (rest : Bytes) × (decimal_loop (suc fuel) n out ≡ c ∷ rest) × (is_digit c ≡ true)
unfolding decimal_loop
decimal_loop-first fuel n out =
    let digit : is_digit (48 + n % 10) ≡ true = ground arith in
    elim (Bool-cases (ltb n 10)) [
      | inl last ↦ (48 + n % 10, out, rw last refl, digit)
      | inr more ↦
          let (c', rest, e, d) = decimal_loop-digit fuel (n / 10) (48 + n % 10) out digit in
          (c', rest, rw more e, d)
    ]

pub decimal_u128-first :
    (n : ℕ) → (c : ℕ) × (rest : Bytes) × (decimal_u128 n ≡ c ∷ rest) × (is_digit c ≡ true)
unfolding decimal_u128
decimal_u128-first n = decimal_loop-first 38 n []

pub digits-decimal_u128 : (n : ℕ) → n < 2 ^ 62 → digits 0 (decimal_u128 n) ≡ some n
unfolding decimal_u128 digits
digits-decimal_u128 n h = digits-decimal_loop 39 n [] (omega arith)

pub is_empty-decimal_u128 : (n : ℕ) → is_empty (decimal_u128 n) ≡ false
is_empty-decimal_u128 n = let (c, rest, e, d) = decimal_u128-first n in rw e refl

pub parse_i64-decimal : (n : ℕ) → n < 2 ^ 62 → parse_i64 (decimal_u128 n) ≡ some n
unfolding parse_i64 magnitude
parse_i64-decimal n h =
    let (c, rest, e, d) = decimal_u128-first n in
    let value : digits 0 (c ∷ rest) ≡ some n = ap (digits 0) (sym e) ∙ digits-decimal_u128 n h in
    let minus : (c == b'-') ≡ false = ground arith in
    let plus : (c == b'+') ≡ false = ground arith in
    let small : leb n (2 ^ 63 - 1) ≡ true = ground arith in
    ap parse_i64 e ∙ rw (minus, plus, value, small) refl
