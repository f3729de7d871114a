-- ===== src/Bytes/Completes.antt =====
-- Code that does not panic: one rule for each way to build a result.
use wasibrowser.Prelude.{◌≡◌, ◌≢◌, refl, Bool, true, false, if◌then◌else◌}
use wasibrowser.Bytes.{Res, ok, err, panic, ◌>>=◌}

abbrev pub Completes {ℓ} : {E : Type 0} {A : Type ℓ} → Res E A → Type ℓ
Completes r = r ≢ panic

module _ {ℓ} {E : Type 0} {A : Type ℓ} where
  pub ok-Completes : (a : A) → Completes {E = E} (ok a)
  ok-Completes a h = cc

  pub err-Completes : (e : E) → Completes {A = A} (err e)
  err-Completes e h = cc

  pub eq_ok-Completes : (r : Res E A) (a : A) → r ≡ ok a → Completes r
  eq_ok-Completes r a e h = cc

  pub if-Completes :
      (b : Bool) (r s : Res E A)
      → (b ≡ true → Completes r)
      → (b ≡ false → Completes s)
      → Completes (if b then r else s)
  if-Completes true r s hr hs = hr refl
  if-Completes false r s hr hs = hs refl

module _ {ℓ κ} {E : Type 0} {A : Type ℓ} {B : Type κ} where
  -- The rest of the block may use the value that the first part returned.
  pub bind-Completes :
      (r : Res E A) (f : A → Res E B)
      → Completes r
      → ((a : A) → r ≡ ok a → Completes (f a))
      → Completes (r >>= f)
  bind-Completes (ok a) f hr hf = hf a refl
  bind-Completes (err e) f hr hf = λ h. cc
  bind-Completes panic f hr hf = absurd (hr refl)
