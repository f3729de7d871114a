-- ===== src/SearchServer/Query/Words.antt =====
-- What `matches(..).count()` and `split(..)` of search-server/src/main.rs compute.
use wasibrowser.Prelude.{
  ℕ, zero, suc, ◌+◌, ◌≤◌, ◌≡◌, refl, true, false, none, some, List, [], ◌∷◌, ◌++◌, length, take,
  drop, length-drop, arith, Option-cases, Bool-cases, inl, inr,
}
use wasibrowser.Bytes.{Bytes}
use wasibrowser.Utf8.{first_char}
use wasibrowser.Utf8.Laws.{first_char-le}
use wasibrowser.Text.{strip_prefix}
use wasibrowser.Text.Laws.{length-strip_prefix}
use wasibrowser.SearchServer.{Tables}
use wasibrowser.SearchServer.Query.{matches_loop, matches, split_loop, non_empty, terms_of}

-- The places of `t` in a text, counted from its front without overlaps.
pub data Counted (t : Bytes) : Bytes → ℕ → Type 0 where
  done : Counted t [] 0
  found :
      {s rest : Bytes} {n : ℕ}
      → strip_prefix t s ≡ some rest
      → Counted t rest n
      → Counted t s (n + 1)
  skip :
      {c : ℕ} {s : Bytes} {n : ℕ}
      → strip_prefix t (c ∷ s) ≡ none
      → Counted t s n
      → Counted t (c ∷ s) n

matches_loop-Counted :
    (fuel p : ℕ) (ps s : Bytes)
    → length s ≤ fuel
    → Counted (p ∷ ps) s (matches_loop fuel (p ∷ ps) s)
unfolding matches_loop
matches_loop-Counted zero p ps [] h = done
matches_loop-Counted zero p ps (c ∷ s) h = absurd (omega arith)
matches_loop-Counted (suc fuel) p ps [] h = done
matches_loop-Counted (suc fuel) p ps (c ∷ s) h =
    elim (Option-cases (strip_prefix (p ∷ ps) (c ∷ s))) [
      | inl other ↦
          rw (matches_loop, other) (skip other (matches_loop-Counted fuel p ps s (omega arith)))
      | inr (rest, here) ↦
          let shorter = length-strip_prefix (p ∷ ps) (c ∷ s) rest here in
          rw (matches_loop, here)
            (found here (matches_loop-Counted fuel p ps rest (omega (arith, shorter))))
    ]

-- The count of a word that is not empty ends, and counts its places from the front of the text,
-- each behind the end of the one before.
pub matches-Counted : (p : ℕ) (ps s : Bytes) → Counted (p ∷ ps) s (matches s (p ∷ ps))
unfolding matches
matches-Counted p ps s = matches_loop-Counted (length s) p ps s (omega arith)

module _ (T : Tables) where
  abbrev char_at : ℕ → Bytes → Bytes
  char_at b s = take (first_char b s).0 (b ∷ s)

  abbrev behind : ℕ → Bytes → Bytes
  behind b s = drop (first_char b s).0 (b ∷ s)

  -- The parts of a text between its characters that are not alphanumeric, where `word` is read of
  -- the first part.
  pub data Parted : Bytes → Bytes → List Bytes → Type 0 where
    ends : {word : Bytes} → Parted word [] (word ∷ [])
    grows :
        {word : Bytes} {b : ℕ} {s : Bytes} {words : List Bytes}
        → T.is_alphanumeric (char_at b s) ≡ true
        → Parted (word ++ char_at b s) (behind b s) words
        → Parted word (b ∷ s) words
    cuts :
        {word : Bytes} {b : ℕ} {s : Bytes} {words : List Bytes}
        → T.is_alphanumeric (char_at b s) ≡ false
        → Parted [] (behind b s) words
        → Parted word (b ∷ s) (word ∷ words)

  split_loop-Parted :
      (fuel : ℕ) (word s : Bytes) → length s ≤ fuel → Parted word s (split_loop T fuel word s)
  unfolding split_loop
  split_loop-Parted zero word [] h = ends
  split_loop-Parted zero word (b ∷ s) h = absurd (omega arith)
  split_loop-Parted (suc fuel) word [] h = ends
  split_loop-Parted (suc fuel) word (b ∷ s) h =
      let shorter : length (behind b s) ≤ fuel =
        omega (arith, first_char-le b s, length-drop (first_char b s).0 (b ∷ s)) in
      elim (Bool-cases (T.is_alphanumeric (char_at b s))) [
        | inl letter ↦ rw letter (grows letter (split_loop-Parted fuel _ (behind b s) shorter))
        | inr gap ↦ rw gap (cuts gap (split_loop-Parted fuel [] (behind b s) shorter))
      ]

  -- The terms of a query: the split ends, and what it leaves are the parts of the lower-case query
  -- between its characters that are not alphanumeric, less the empty ones.
  pub terms_of-Parted :
      (query : Bytes)
      → (words : List Bytes) × Parted [] (T.to_lowercase query) words
        × (terms_of T query ≡ non_empty T words)
  unfolding terms_of
  terms_of-Parted query =
      let s = T.to_lowercase query in
      (split_loop T (length s) [] s, split_loop-Parted (length s) [] s (omega arith), refl)
