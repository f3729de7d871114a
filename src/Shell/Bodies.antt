-- ===== src/Shell/Bodies.antt =====
-- A body that is cut to fit a guest's event region.
use wasibrowser.Prelude.{
  ℕ, zero, suc, ◌+◌, ◌-◌, ◌≤◌, ◌≡◌, refl, ◌⊎◌, inl, inr, true, Bool-cases, length, length-take,
  take, ltb, arith,
}
use wasibrowser.Bytes.{Bytes}
use wasibrowser.Utf8.{is_char_boundary}
use wasibrowser.Abi.Events.{padded}
use wasibrowser.Shell.Guests.{boundary_below, fit_body}

boundary_below-le : (body : Bytes) (n : ℕ) → boundary_below body n ≤ n
unfolding boundary_below
boundary_below-le body zero = omega arith
boundary_below-le body (suc n) = ground (arith, boundary_below-le body n)

boundary_below-boundary :
    (body : Bytes) (n : ℕ) → is_char_boundary body (boundary_below body n) ≡ true
unfolding boundary_below
boundary_below-boundary body zero = unfold is_char_boundary in refl
boundary_below-boundary body (suc n) = ground (arith, boundary_below-boundary body n)

-- In an event region that a started guest has, of 64 bytes or more, the record of a result fits
-- with the body as it is cut; the body is either whole or cut between two characters.
pub fit_body-fits :
    (cap : ℕ) (body : Bytes)
    → 64 ≤ cap
    → (40 + padded (length (fit_body cap body)) ≤ cap)
      × ((fit_body cap body ≡ body)
          ⊎ ((n : ℕ) × (fit_body cap body ≡ take n body) × (is_char_boundary body n ≡ true)))
unfolding fit_body
fit_body-fits cap body h = elim (Bool-cases (ltb (cap - 64) (length body))) [
  | inl long ↦
      let n = boundary_below body (cap - 64) in
      rw (long, fit_body)
        (
          omega (arith, boundary_below-le body (cap - 64), length-take n body),
          inr (n, refl, boundary_below-boundary body (cap - 64)),
        )
  | inr short ↦ rw (short, fit_body) (ground arith, inl refl)
]
