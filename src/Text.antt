-- ===== src/Text.antt =====
-- What the sources use of Rust's `str` methods, over the bytes of a text.
pub mod Laws
pub mod Trim
pub mod Quotes
use wasibrowser.Prelude.{
  Bool, true, false, List, map, ℕ, zero, suc, ◌+◌, ◌/◌, ◌%◌, Option, none, some, [], ◌∷◌, ◌++◌,
  if◌then◌else◌, ◌==◌, ltb, length,
}
use wasibrowser.Bytes.{Bytes}
use mathlib.Core.List.{reverse}

-- `s.strip_prefix(prefix)`
unfoldable pub strip_prefix : Bytes → Bytes → Option Bytes
strip_prefix [] s = some s
strip_prefix (p ∷ ps) [] = none
strip_prefix (p ∷ ps) (c ∷ s) = let rest = strip_prefix ps s in if p == c then rest else none

trim_loop : ℕ → Bytes → Bytes → Bytes
trim_loop zero prefix s = s
trim_loop (suc fuel) prefix s = elim (strip_prefix prefix s) [
  | none ↦ s
  | some rest ↦ trim_loop fuel prefix rest
]

-- `s.trim_start_matches(prefix)` for a prefix that is not empty: each round takes a byte at least.
unfoldable pub trim_start_matches : Bytes → Bytes → Bytes
unfolding trim_loop
trim_start_matches prefix s = trim_loop (length s) prefix s

trim_one : ℕ → ℕ → Bytes → Bytes
trim_one c b [] = if b == c then [] else b ∷ []
trim_one c b (d ∷ rest) = b ∷ d ∷ rest

-- `s.trim_end_matches(c)` for a byte `c`.
unfoldable pub trim_end_matches : ℕ → Bytes → Bytes
unfolding trim_one
trim_end_matches c [] = []
trim_end_matches c (b ∷ s) = trim_one c b (trim_end_matches c s)

unfoldable pub decimal_loop : ℕ → ℕ → Bytes → Bytes
decimal_loop zero n out = out
decimal_loop (suc fuel) n out =
    let digits = (b'0' + n % 10) ∷ out in
    let rest = decimal_loop fuel (n / 10) digits in if ltb n 10 then digits else rest

-- `n.to_string()` for a `u32`, which has 10 digits at most.
unfoldable pub decimal : ℕ → Bytes
unfolding decimal_loop
decimal n = decimal_loop 10 n []

-- `n.to_string()` for a `u128`, which has 39 digits at most.
unfoldable pub decimal_u128 : ℕ → Bytes
decimal_u128 n = decimal_loop 39 n []

-- `s.starts_with(prefix)`
unfoldable pub starts_with : Bytes → Bytes → Bool
starts_with prefix s = elim (strip_prefix prefix s) [ none ↦ false | some rest ↦ true ]

replace_loop : ℕ → Bytes → Bytes → Bytes → Bytes
replace_loop fuel from to [] = []
replace_loop zero from to (c ∷ s) = c ∷ s
replace_loop (suc fuel) from to (c ∷ s) = elim (strip_prefix from (c ∷ s)) [
  | none ↦ c ∷ replace_loop fuel from to s
  | some rest ↦ to ++ replace_loop fuel from to rest
]

-- `s.replace(from, to)` for a text `from` that is not empty: each round takes a byte at least.
unfoldable pub replace : Bytes → Bytes → Bytes → Bytes
unfolding replace_loop
replace from to s = replace_loop (length s) from to s

-- The encodings of the characters that `char::is_whitespace` accepts.
abbrev pub whitespace : List Bytes
whitespace =
    (9 ∷ [])
    ∷ (10 ∷ [])
    ∷ (11 ∷ [])
    ∷ (12 ∷ [])
    ∷ (13 ∷ [])
    ∷ (32 ∷ [])
    ∷ (194 ∷ 133 ∷ [])
    ∷ (194 ∷ 160 ∷ [])
    ∷ (225 ∷ 154 ∷ 128 ∷ [])
    ∷ (226 ∷ 128 ∷ 128 ∷ [])
    ∷ (226 ∷ 128 ∷ 129 ∷ [])
    ∷ (226 ∷ 128 ∷ 130 ∷ [])
    ∷ (226 ∷ 128 ∷ 131 ∷ [])
    ∷ (226 ∷ 128 ∷ 132 ∷ [])
    ∷ (226 ∷ 128 ∷ 133 ∷ [])
    ∷ (226 ∷ 128 ∷ 134 ∷ [])
    ∷ (226 ∷ 128 ∷ 135 ∷ [])
    ∷ (226 ∷ 128 ∷ 136 ∷ [])
    ∷ (226 ∷ 128 ∷ 137 ∷ [])
    ∷ (226 ∷ 128 ∷ 138 ∷ [])
    ∷ (226 ∷ 128 ∷ 168 ∷ [])
    ∷ (226 ∷ 128 ∷ 169 ∷ [])
    ∷ (226 ∷ 128 ∷ 175 ∷ [])
    ∷ (226 ∷ 129 ∷ 159 ∷ [])
    ∷ (227 ∷ 128 ∷ 128 ∷ [])
    ∷ []

-- `s` without the first of `prefixes` that it begins with.
unfoldable pub strip_any : List Bytes → Bytes → Option Bytes
unfolding strip_prefix
strip_any [] s = none
strip_any (prefix ∷ prefixes) s = elim (strip_prefix prefix s) [
  | none ↦ strip_any prefixes s
  | some rest ↦ some rest
]

strip_all : ℕ → List Bytes → Bytes → Bytes
strip_all zero prefixes s = s
strip_all (suc fuel) prefixes s = elim (strip_any prefixes s) [
  | none ↦ s
  | some rest ↦ strip_all fuel prefixes rest
]

-- `s.trim()`: the end is trimmed as the beginning of the reversed text.
unfoldable pub trim : Bytes → Bytes
unfolding strip_all
trim s =
    let front = strip_all (length s) whitespace s in
    reverse (strip_all (length s) (map reverse whitespace) (reverse front))
