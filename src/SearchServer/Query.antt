-- ===== src/SearchServer/Query.antt =====
-- `search` of search-server/src/main.rs: the terms of a query, the scores, the snippets, the order.
pub mod Order
pub mod Words
use wasibrowser.Prelude.{
  ℕ, zero, suc, ◌+◌, ◌-◌, ◌%◌, ◌^◌, Bool, true, false, Option, none, some, List, [], ◌∷◌, ◌++◌, map,
  ◌==◌, ltb, leb, if◌then◌else◌, length, take, drop, codes,
}
use wasibrowser.Bytes.{Bytes, Res, ok, panic, ◌>>=◌}
use wasibrowser.Utf8.{first_char, is_char_boundary}
use wasibrowser.Text.{strip_prefix}
use wasibrowser.SearchServer.{Tables}

pub record Doc : Type 0 where
  pub title : Bytes
  pub url : Bytes
  pub body : Bytes

pub record SearchHit : Type 0 where
  pub title : Bytes
  pub url : Bytes
  pub snippet : Bytes
  pub score : ℕ

pub record SearchResp : Type 0 where
  pub query : Bytes
  pub took_ms : ℕ
  pub results : List SearchHit

-- `s.matches(t).count()` for a text `t` that is not empty: each round takes a byte at least.
unfoldable pub matches_loop : ℕ → Bytes → Bytes → ℕ
unfolding strip_prefix
matches_loop zero t s = 0
matches_loop (suc fuel) t [] = 0
matches_loop (suc fuel) t (c ∷ s) = elim (strip_prefix t (c ∷ s)) [
  | none ↦ matches_loop fuel t s
  | some rest ↦ matches_loop fuel t rest + 1
]

unfoldable pub matches : Bytes → Bytes → ℕ
unfolding matches_loop
matches s t = matches_loop (length s) t s

-- `&body[..140]` ends between two characters, or panics; `rfind(' ')` is searched in it.
unfoldable pub rfind_space : Bytes → Option ℕ
rfind_space [] = none
rfind_space (c ∷ s) = elim (rfind_space s) [
  | some i ↦ some (i + 1)
  | none ↦ if c == 32 then some 0 else none
]

abbrev pub or_140 : Option ℕ → ℕ
or_140 none = 140
or_140 (some i) = i

unfoldable pub snippet_of : Bytes → Res ⊥ Bytes
unfolding rfind_space
snippet_of body =
    if ltb 140 (length body)
    then (if is_char_boundary body 140
        then ok (take (or_140 (rfind_space (take 140 body))) body ++ codes "...")
        else panic)
    else ok body

-- `hits.sort_by(|a, b| b.score.cmp(&a.score))`, a stable sort, as the insertion of each hit in front
-- of those behind it with a score that is not greater.
unfoldable pub insert_hit : SearchHit → List SearchHit → List SearchHit
insert_hit hit [] = hit ∷ []
insert_hit hit (h ∷ hits) =
    let rest = insert_hit hit hits in if leb h.score hit.score then hit ∷ h ∷ hits else h ∷ rest

unfoldable pub sort_hits : List SearchHit → List SearchHit
unfolding insert_hit
sort_hits [] = []
sort_hits (hit ∷ hits) = insert_hit hit (sort_hits hits)

module _ (T : Tables) where
  -- `split(|c| !c.is_alphanumeric())` on what is left of a text, of which `word` is read.
  unfoldable pub split_loop : ℕ → Bytes → Bytes → List Bytes
  split_loop zero word s = word ∷ []
  split_loop (suc fuel) word [] = word ∷ []
  split_loop (suc fuel) word (b ∷ s) =
      let n = (first_char b s).0 in
      let char = take n (b ∷ s) in
      let go_on = split_loop fuel (word ++ char) (drop n (b ∷ s)) in
      let next = word ∷ split_loop fuel [] (drop n (b ∷ s)) in
      if T.is_alphanumeric char then go_on else next

  -- `.filter(|t| !t.is_empty())`
  unfoldable pub non_empty : List Bytes → List Bytes
  non_empty [] = []
  non_empty ([] ∷ words) = non_empty words
  non_empty ((c ∷ w) ∷ words) = (c ∷ w) ∷ non_empty words

  unfoldable pub terms_of : Bytes → List Bytes
  unfolding split_loop non_empty
  terms_of query = let s = T.to_lowercase query in non_empty (split_loop (length s) [] s)

  -- `terms.iter().map(|t| hay.matches(t).count() as u32).sum()`
  unfoldable pub score_of : List Bytes → Bytes → ℕ
  unfolding matches
  score_of [] hay = 0
  score_of (t ∷ terms) hay = (matches hay t % 2 ^ 32 + score_of terms hay) % 2 ^ 32

  abbrev pub hay_of : Doc → Bytes
  hay_of doc = T.to_lowercase doc.title ++ (codes " " ++ T.to_lowercase doc.body)

  -- The loop over the corpus.
  unfoldable pub hits_of : List Bytes → List Doc → Res ⊥ (List SearchHit)
  unfolding score_of snippet_of
  hits_of terms [] = ok []
  hits_of terms (doc ∷ docs) =
      let score = score_of terms (hay_of doc) in
      let skipped = hits_of terms docs in
      let kept = (do
        snippet ← snippet_of doc.body
        hits ← hits_of terms docs
        ok (
            (record { title = doc.title; url = doc.url; snippet = snippet; score = score })
            ∷ hits)) in
      if score == 0 then skipped else kept

  -- `took_ms` is what the clock says.
  unfoldable pub search : List Doc → ℕ → Bytes → Res ⊥ SearchResp
  unfolding terms_of hits_of sort_hits
  search corpus took_ms query = do
    hits ← hits_of (terms_of query) corpus
    ok (record { query = query; took_ms = took_ms; results = sort_hits hits })
