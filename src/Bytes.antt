-- ===== src/Bytes.antt =====
-- Byte buffers as the Rust code reads and writes them: `to_le_bytes`, `from_le_bytes` and slices.
-- A byte is a number below 256, a buffer is a list. A slice out of bounds is a panic.
pub mod Laws
pub mod Completes
use wasibrowser.Prelude.{
  ℕ, ◌+◌, ◌-◌, ◌*◌, ◌/◌, ◌%◌, ◌<◌, Bool, List, [], ◌∷◌, ◌&&◌, if◌then◌else◌, leb, length, take,
  drop,
}

abbrev pub Bytes : Type 0
Bytes = List ℕ

abbrev pub IsByte : ℕ → Type 0
IsByte b = b < 256

-- What a Rust function does: it returns, returns an error of the type `E`, or panics.
pub data Res {ℓ} (E : Type 0) (A : Type ℓ) : Type ℓ where
  ok : A → Res E A
  err : E → Res E A
  panic : Res E A

infixl 5 ◌>>=◌
abbrev pub ◌>>=◌ {ℓ κ} : {E : Type 0} {A : Type ℓ} {B : Type κ} → Res E A → (A → Res E B) → Res E B
ok a >>= f = f a
err e >>= f = err e
panic >>= f = panic

-- `bytes[from..to]`
unfoldable pub slice : {E : Type 0} → Bytes → ℕ → ℕ → Res E Bytes
slice bytes from to =
    if leb from to && leb to (length bytes) then ok (take (to - from) (drop from bytes)) else panic

-- `bytes[i]`
unfoldable pub index : {E : Type 0} → Bytes → ℕ → Res E ℕ
index bytes i = at (drop i bytes)
  where
    at : {E : Type 0} → Bytes → Res E ℕ
    at [] = panic
    at (b ∷ rest) = ok b

unfoldable pub u16_to_le : ℕ → Bytes
u16_to_le n = (n % 256) ∷ (n / 256 % 256) ∷ []

unfoldable pub u32_to_le : ℕ → Bytes
u32_to_le n = (n % 256) ∷ (n / 256 % 256) ∷ (n / 65_536 % 256) ∷ (n / 16_777_216 % 256) ∷ []

-- `u16::from_le_bytes(b.try_into().unwrap())`: a slice of another length panics.
unfoldable pub u16_from_le : {E : Type 0} → Bytes → Res E ℕ
u16_from_le (a ∷ b ∷ []) = ok (a + b * 256)
u16_from_le _ = panic

unfoldable pub u32_from_le : {E : Type 0} → Bytes → Res E ℕ
u32_from_le (a ∷ b ∷ c ∷ d ∷ []) = ok (a + b * 256 + c * 65_536 + d * 16_777_216)
u32_from_le _ = panic

-- The closures `u16_at` and `u32_at` of the decoders.
unfoldable pub u16_at : {E : Type 0} → Bytes → ℕ → Res E ℕ
unfolding slice u16_from_le
u16_at bytes off = do b ← slice bytes off (off + 2); u16_from_le b

unfoldable pub u32_at : {E : Type 0} → Bytes → ℕ → Res E ℕ
unfolding slice u32_from_le
u32_at bytes off = do b ← slice bytes off (off + 4); u32_from_le b
