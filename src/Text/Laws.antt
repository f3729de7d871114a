-- ===== src/Text/Laws.antt =====
-- What is left after trimming a prefix does not begin with it.
use wasibrowser.Prelude.{
  ℕ, zero, suc, ◌+◌, ◌≤◌, ◌≡◌, refl, none, some, [], ◌∷◌, ◌++◌, length, arith, Option-cases, inl,
  inr, ==_refl,
}
use wasibrowser.Bytes.{Bytes}
use wasibrowser.Text.{strip_prefix, trim_loop, trim_start_matches}

pub length-strip_prefix :
    (prefix s rest : Bytes)
    → strip_prefix prefix s ≡ some rest
    → length s ≡ length prefix + length rest
unfolding strip_prefix
length-strip_prefix [] s rest h = ground arith
length-strip_prefix (p ∷ ps) [] rest h = cc
length-strip_prefix (p ∷ ps) (c ∷ s) rest h = ground (arith, length-strip_prefix ps s rest)

pub strip_prefix-append : (prefix s : Bytes) → strip_prefix prefix (prefix ++ s) ≡ some s
unfolding strip_prefix
strip_prefix-append [] s = refl
strip_prefix-append (p ∷ ps) s = rw ==_refl (strip_prefix-append ps s)

trim_loop-stripped :
    (fuel p : ℕ) (ps s : Bytes)
    → length s ≤ fuel
    → strip_prefix (p ∷ ps) (trim_loop fuel (p ∷ ps) s) ≡ none
unfolding trim_loop
trim_loop-stripped zero p ps [] h = unfold strip_prefix in refl
trim_loop-stripped zero p ps (c ∷ s) h = absurd (omega arith)
trim_loop-stripped (suc fuel) p ps s h = elim (Option-cases (strip_prefix (p ∷ ps) s)) [
  | inl e ↦ rw (e, trim_loop) e
  | inr (rest, e) ↦
      rw (e, trim_loop)
        (trim_loop-stripped fuel p ps rest (omega (arith, length-strip_prefix (p ∷ ps) s rest e)))
]

pub trim_start_matches-stripped :
    (p : ℕ) (ps s : Bytes) → strip_prefix (p ∷ ps) (trim_start_matches (p ∷ ps) s) ≡ none
unfolding trim_start_matches
trim_start_matches-stripped p ps s = trim_loop-stripped (length s) p ps s (omega arith)
