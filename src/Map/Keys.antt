-- ===== src/Map/Keys.antt =====
-- The keys of the program's maps: numbers, pairs of numbers, texts.
use wasibrowser.Prelude.{ℕ, ◌≡◌, ◌↔◌, Bool, true, false, [], ◌∷◌, ◌&&◌, ◌==◌, ==_iff, arith}
use wasibrowser.Bytes.{Bytes}
use wasibrowser.Map.{Eq}

abbrev nat_eq : ℕ → ℕ → Bool
nat_eq a b = a == b

instance abbrev pub nat_key : Eq ℕ
nat_key = record { beq = nat_eq; beq_iff = ==_iff }

abbrev pair_eq : ℕ × ℕ → ℕ × ℕ → Bool
pair_eq p q = p.0 == q.0 && p.1 == q.1

pub pair_iff : (p q : ℕ × ℕ) → (pair_eq p q ≡ true) ↔ (p ≡ q)
pair_iff (a, b) (c, d) = ground arith

instance abbrev pub pair_key : Eq (ℕ × ℕ)
pair_key = record { beq = pair_eq; beq_iff = pair_iff }

unfoldable pub bytes_eq : Bytes → Bytes → Bool
bytes_eq [] [] = true
bytes_eq [] (b ∷ bs) = false
bytes_eq (a ∷ as') [] = false
bytes_eq (a ∷ as') (b ∷ bs) = a == b && bytes_eq as' bs

pub bytes_eq_iff : (s t : Bytes) → (bytes_eq s t ≡ true) ↔ (s ≡ t)
unfolding bytes_eq
bytes_eq_iff [] [] = ground arith
bytes_eq_iff [] (b ∷ bs) = ground arith
bytes_eq_iff (a ∷ as') [] = ground arith
bytes_eq_iff (a ∷ as') (b ∷ bs) = ground (arith, bytes_eq_iff as' bs)

instance abbrev pub bytes_key : Eq Bytes
bytes_key = record { beq = bytes_eq; beq_iff = bytes_eq_iff }
