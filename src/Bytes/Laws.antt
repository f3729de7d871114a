-- ===== src/Bytes/Laws.antt =====
-- Reading back what was written, wherever it stands in a buffer.
use wasibrowser.Prelude.{
  ℕ, zero, suc, ◌+◌, ◌-◌, ◌*◌, ◌^◌, ◌≤◌, ◌<◌, ◌≡◌, refl, ap, ◌∙◌, [], ◌∷◌, ◌++◌, arith, length,
  length-append, length-take, length-drop, take, drop, drop-append, take-append, le→leb,
}
use wasibrowser.Bytes.{
  Bytes, Res, ok, err, panic, ◌>>=◌, slice, index, u16_to_le, u32_to_le, u16_from_le, u32_from_le,
  u16_at, u32_at,
}

slice-ok :
    {E : Type 0} (bytes : Bytes) (from to : ℕ)
    → from ≤ to
    → to ≤ length bytes
    → slice {E = E} bytes from to ≡ ok (take (to - from) (drop from bytes))
unfolding slice
slice-ok bytes from to hf ht = rw (le→leb from to hf, le→leb to (length bytes) ht)

-- The middle part of three, cut out by its position.
pub slice-append :
    {E : Type 0} (pre mid post : Bytes) (from to : ℕ)
    → from ≡ length pre
    → to ≡ length pre + length mid
    → slice {E = E} (pre ++ (mid ++ post)) from to ≡ ok mid
slice-append pre mid post from to hf ht =
    slice-ok (pre ++ (mid ++ post)) from to (omega arith)
      (omega (arith, length-append pre (mid ++ post), length-append mid post))
    ∙ rw (hf, drop-append, let e : to - length pre ≡ length mid = omega arith in e, take-append)

u32_from_le-to_le : {E : Type 0} (n : ℕ) → n < 2 ^ 32 → u32_from_le {E = E} (u32_to_le n) ≡ ok n
unfolding u32_to_le u32_from_le
u32_from_le-to_le n hn = ap ok (omega arith)

u16_from_le-to_le : {E : Type 0} (n : ℕ) → n < 2 ^ 16 → u16_from_le {E = E} (u16_to_le n) ≡ ok n
unfolding u16_to_le u16_from_le
u16_from_le-to_le n hn = ap ok (omega arith)

pub length-u32_to_le : (n : ℕ) → length (u32_to_le n) ≡ 4
unfolding u32_to_le
length-u32_to_le n = refl

pub length-u16_to_le : (n : ℕ) → length (u16_to_le n) ≡ 2
unfolding u16_to_le
length-u16_to_le n = refl

pub u32_at-append :
    {E : Type 0} (pre post : Bytes) (n off : ℕ)
    → n < 2 ^ 32
    → off ≡ length pre
    → u32_at {E = E} (pre ++ (u32_to_le n ++ post)) off ≡ ok n
unfolding u32_at
u32_at-append {E} pre post n off hn ho =
    ap (λ r. r >>= u32_from_le)
      (slice-append {E = E} pre (u32_to_le n) post off (off + 4) ho
        (omega (arith, length-u32_to_le n)))
    ∙ u32_from_le-to_le n hn

pub u16_at-append :
    {E : Type 0} (pre post : Bytes) (n off : ℕ)
    → n < 2 ^ 16
    → off ≡ length pre
    → u16_at {E = E} (pre ++ (u16_to_le n ++ post)) off ≡ ok n
unfolding u16_at
u16_at-append {E} pre post n off hn ho =
    ap (λ r. r >>= u16_from_le)
      (slice-append {E = E} pre (u16_to_le n) post off (off + 2) ho
        (omega (arith, length-u16_to_le n)))
    ∙ u16_from_le-to_le n hn

pub index-append :
    {E : Type 0} (pre post : Bytes) (b i : ℕ)
    → i ≡ length pre
    → index {E = E} (pre ++ (b ∷ post)) i ≡ ok b
unfolding index
index-append pre post b i h = rw (h, drop-append)

drop-of-lt :
    (i : ℕ) (bs : Bytes) → i < length bs → (b : ℕ) × (rest : Bytes) × (drop i bs ≡ b ∷ rest)
drop-of-lt zero [] h = absurd (omega arith)
drop-of-lt zero (b ∷ bs) h = (b, bs, refl)
drop-of-lt (suc i) [] h = absurd (omega arith)
drop-of-lt (suc i) (b ∷ bs) h = drop-of-lt i bs (omega arith)

-- Within bounds no read panics.
pub index-ok :
    {E : Type 0} (bytes : Bytes) (i : ℕ)
    → i < length bytes
    → (b : ℕ) × (index {E = E} bytes i ≡ ok b)
unfolding index
index-ok bytes i h = let (b, rest, e) = drop-of-lt i bytes h in (b, rw e)

pub slice-total :
    {E : Type 0} (bytes : Bytes) (from to : ℕ)
    → from ≤ to
    → to ≤ length bytes
    → (b : Bytes) × (slice {E = E} bytes from to ≡ ok b)
slice-total bytes from to hf ht = (take (to - from) (drop from bytes), slice-ok bytes from to hf ht)

u32_from_le-total :
    {E : Type 0} (bs : Bytes) → length bs ≡ 4 → (n : ℕ) × (u32_from_le {E = E} bs ≡ ok n)
unfolding u32_from_le
u32_from_le-total (a ∷ b ∷ c ∷ d ∷ []) h = (a + b * 256 + c * 65_536 + d * 16_777_216, refl)
u32_from_le-total [] h = absurd (omega arith)
u32_from_le-total (a ∷ []) h = absurd (omega arith)
u32_from_le-total (a ∷ b ∷ []) h = absurd (omega arith)
u32_from_le-total (a ∷ b ∷ c ∷ []) h = absurd (omega arith)
u32_from_le-total (a ∷ b ∷ c ∷ d ∷ e ∷ bs) h = absurd (omega arith)

u16_from_le-total :
    {E : Type 0} (bs : Bytes) → length bs ≡ 2 → (n : ℕ) × (u16_from_le {E = E} bs ≡ ok n)
unfolding u16_from_le
u16_from_le-total (a ∷ b ∷ []) h = (a + b * 256, refl)
u16_from_le-total [] h = absurd (omega arith)
u16_from_le-total (a ∷ []) h = absurd (omega arith)
u16_from_le-total (a ∷ b ∷ c ∷ bs) h = absurd (omega arith)

length-cut :
    (bs : Bytes) (from n : ℕ)
    → from + n ≤ length bs
    → length (take (from + n - from) (drop from bs)) ≡ n
length-cut bs from n h =
    omega (arith, length-take (from + n - from) (drop from bs), length-drop from bs)

pub u32_at-total :
    {E : Type 0} (bytes : Bytes) (off : ℕ)
    → off + 4 ≤ length bytes
    → (n : ℕ) × (u32_at {E = E} bytes off ≡ ok n)
unfolding u32_at
u32_at-total {E} bytes off h =
    let (n, e) = u32_from_le-total {E = E} _ (length-cut bytes off 4 h) in
    (n, ap (λ r. r >>= u32_from_le) (slice-ok {E = E} bytes off (off + 4) (omega arith) h) ∙ e)

pub u16_at-total :
    {E : Type 0} (bytes : Bytes) (off : ℕ)
    → off + 2 ≤ length bytes
    → (n : ℕ) × (u16_at {E = E} bytes off ≡ ok n)
unfolding u16_at
u16_at-total {E} bytes off h =
    let (n, e) = u16_from_le-total {E = E} _ (length-cut bytes off 2 h) in
    (n, ap (λ r. r >>= u16_from_le) (slice-ok {E = E} bytes off (off + 2) (omega arith) h) ∙ e)

-- What has to succeed for a block to succeed.
pub bind-ok :
    {E A B : Type 0} (m : Res E A) (f : A → Res E B) {b : B}
    → (m >>= f) ≡ ok b
    → (a : A) × (m ≡ ok a) × (f a ≡ ok b)
bind-ok (ok a) f h = (a, refl, h)
bind-ok (err x) f h = cc
bind-ok panic f h = cc
