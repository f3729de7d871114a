-- ===== src/SearchServer/Query/Order.antt =====
-- The results of `search` of search-server/src/main.rs: their order, and which documents they are.
use wasibrowser.Prelude.{
  ℕ, ◌<◌, ◌≤◌, ◌≡◌, refl, sym, ap, subst, ◌∙◌, Bool, true, false, List, [], ◌∷◌, map, ◌==◌, ◌&&◌,
  leb, if◌then◌else◌, length, ltb, Bool-cases, inl, inr, arith, All,
}
use wasibrowser.Bytes.{Bytes, Res, ok, err, panic}
use wasibrowser.Bytes.Laws.{bind-ok}
use wasibrowser.Bytes.Completes.{Completes, ok-Completes, bind-Completes, if-Completes}
use wasibrowser.Utf8.{is_char_boundary}
use wasibrowser.SearchServer.{Tables}
use wasibrowser.SearchServer.Query.{
  Doc, SearchHit, SearchResp, insert_hit, sort_hits, score_of, hay_of, terms_of, hits_of,
  snippet_of, search,
}

-- No hit has a higher score than one before it.
abbrev pub IsRanked : List SearchHit → Type 0
IsRanked [] = Unit
IsRanked (hit ∷ hits) = All (λ h. h.score ≤ hit.score) hits × IsRanked hits

-- The hits of one score, in their order.
unfoldable pub with_score : ℕ → List SearchHit → List SearchHit
with_score n [] = []
with_score n (hit ∷ hits) =
    let rest = with_score n hits in if hit.score == n then hit ∷ rest else rest

All-le :
    (hits : List SearchHit) (m n : ℕ)
    → m ≤ n
    → All (λ h. h.score ≤ m) hits
    → All (λ h. h.score ≤ n) hits
All-le [] m n le h = tt
All-le (hit ∷ hits) m n le (h, hs) = (omega arith, All-le hits m n le hs)

insert_hit-le :
    (hit : SearchHit) (hits : List SearchHit) (n : ℕ)
    → hit.score ≤ n
    → All (λ h. h.score ≤ n) hits
    → All (λ h. h.score ≤ n) (insert_hit hit hits)
unfolding insert_hit
insert_hit-le hit [] n le hs = (le, tt)
insert_hit-le hit (h ∷ hits) n le (p, ps) = elim (Bool-cases (leb h.score hit.score)) [
  | inl front ↦ rw front (le, (p, ps))
  | inr behind ↦ rw behind (p, insert_hit-le hit hits n le ps)
]

insert_hit-IsRanked :
    (hit : SearchHit) (hits : List SearchHit) → IsRanked hits → IsRanked (insert_hit hit hits)
unfolding insert_hit
insert_hit-IsRanked hit [] r = (tt, tt)
insert_hit-IsRanked hit (h ∷ hits) (below, r) = elim (Bool-cases (leb h.score hit.score)) [
  | inl front ↦
      let le : h.score ≤ hit.score = ground arith in
      rw front ((le, All-le hits h.score hit.score le below), (below, r))
  | inr behind ↦
      let le : hit.score ≤ h.score = ground arith in
      rw behind (insert_hit-le hit hits h.score le below, insert_hit-IsRanked hit hits r)
]

sort_hits-IsRanked : (hits : List SearchHit) → IsRanked (sort_hits hits)
unfolding sort_hits
sort_hits-IsRanked [] = tt
sort_hits-IsRanked (hit ∷ hits) = insert_hit-IsRanked hit (sort_hits hits) (sort_hits-IsRanked hits)

with_score-insert_hit :
    (n : ℕ) (hit : SearchHit) (hits : List SearchHit)
    → with_score n (insert_hit hit hits) ≡ with_score n (hit ∷ hits)
unfolding insert_hit with_score
with_score-insert_hit n hit [] = refl
with_score-insert_hit n hit (h ∷ hits) = ground (arith, with_score-insert_hit n hit hits)

with_score-sort_hits :
    (n : ℕ) (hits : List SearchHit) → with_score n (sort_hits hits) ≡ with_score n hits
unfolding sort_hits with_score
with_score-sort_hits n [] = refl
with_score-sort_hits n (hit ∷ hits) =
    with_score-insert_hit n hit (sort_hits hits)
    ∙ ap (λ rest. if hit.score == n then hit ∷ rest else rest) (with_score-sort_hits n hits)

abbrev result_of : Res ⊥ SearchResp → List SearchHit
result_of (ok r) = r.results
result_of (err e) = []
result_of panic = []

abbrev pub url_of : SearchHit → Bytes
url_of hit = hit.url

module _ (T : Tables) where
  -- The addresses of the documents with one score, in the corpus' order.
  unfoldable pub urls_of_score : ℕ → List Bytes → List Doc → List Bytes
  urls_of_score n terms [] = []
  urls_of_score n terms (doc ∷ docs) =
      let rest = urls_of_score n terms docs in
      if score_of T terms (hay_of T doc) == n then doc.url ∷ rest else rest

  module _ (n : ℕ) (terms : List Bytes) where
    -- One document that scores, in front of the others.
    kept-urls :
        (doc : Doc) (docs : List Doc) (hits rest : List SearchHit) (snippet : Bytes)
        → hits
          ≡ (record {
            title = doc.title;
            url = doc.url;
            snippet = snippet;
            score = score_of T terms (hay_of T doc);
          })
            ∷ rest
        → map url_of (with_score n rest) ≡ urls_of_score n terms docs
        → map url_of (with_score n hits) ≡ urls_of_score n terms (doc ∷ docs)
    unfolding with_score urls_of_score
    kept-urls doc docs hits rest snippet same ih =
        ap (λ hs. map url_of (with_score n hs)) same
        ∙ (elim (Bool-cases (score_of T terms (hay_of T doc) == n)) [
          | inl found ↦ rw found (ap (λ us. doc.url ∷ us) ih)
          | inr other ↦ rw other ih
        ])

    hits_of-urls :
        (docs : List Doc) (hits : List SearchHit)
        → 0 < n
        → hits_of T terms docs ≡ ok hits
        → map url_of (with_score n hits) ≡ urls_of_score n terms docs
    unfolding hits_of urls_of_score with_score
    hits_of-urls [] hits pos h =
        let same : [] ≡ hits = cc in
        subst (λ hs. map url_of (with_score n hs) ≡ urls_of_score n terms []) same
          (unfold with_score urls_of_score in refl)
    hits_of-urls (doc ∷ docs) hits pos h =
        elim (Bool-cases (score_of T terms (hay_of T doc) == 0)) [
          | inl skipped ↦
              let same : hits_of T terms docs ≡ ok hits = rw (skipped) at h in
              let other : (score_of T terms (hay_of T doc) == n) ≡ false = ground arith in
              rw (urls_of_score, other) (hits_of-urls docs hits pos same)
          | inr kept ↦
              let (snippet, e1, h1) = bind-ok (snippet_of doc.body) _ (rw (kept) at h) in
              let (rest, e2, h2) = bind-ok (hits_of T terms docs) _ h1 in
              kept-urls doc docs hits rest snippet (ground arith) (hits_of-urls docs rest pos e2)
        ]

  -- What a search finds, whatever the corpus: no result has a higher score than one before it, and for
  -- each score above 0 the results with it are the documents with it, in the order of the corpus.
  pub search-results :
      (corpus : List Doc) (took_ms : ℕ) (query : Bytes) (resp : SearchResp)
      → search T corpus took_ms query ≡ ok resp
      → IsRanked resp.results
        × ((n : ℕ)
            → 0 < n
            → map url_of (with_score n resp.results) ≡ urls_of_score n (terms_of T query) corpus)
  unfolding search
  search-results corpus took_ms query resp h =
      let (hits, found, done) = bind-ok (hits_of T (terms_of T query) corpus) _ h in
      let same : sort_hits hits ≡ resp.results = ap (λ r. result_of r) done in
      (
        subst IsRanked same (sort_hits-IsRanked hits),
        λ n pos.
            ap (λ hs. map url_of (with_score n hs)) (sym same)
            ∙ (ap (map url_of) (with_score-sort_hits n hits)
                ∙ hits_of-urls n (terms_of T query) corpus hits pos found),
      )

-- A text whose snippet can be cut.
unfoldable pub is_cuttable : Bytes → Bool
is_cuttable body = if ltb 140 (length body) then is_char_boundary body 140 else true

unfoldable pub are_cuttable : List Doc → Bool
unfolding is_cuttable
are_cuttable [] = true
are_cuttable (doc ∷ docs) = is_cuttable doc.body && are_cuttable docs

snippet_of-Completes : (body : Bytes) → is_cuttable body ≡ true → Completes (snippet_of body)
unfolding snippet_of is_cuttable
snippet_of-Completes body h =
    if-Completes (ltb 140 (length body)) _ _
      (λ long.
        if-Completes (is_char_boundary body 140) _ _ (λ e. ok-Completes _)
          (λ e.
            let cut : is_cuttable body ≡ is_char_boundary body 140 = rw (is_cuttable, long) refl in
            λ q. cc))
      (λ short. ok-Completes _)

pub hits_of-Completes :
    (T : Tables) (terms : List Bytes) (docs : List Doc)
    → are_cuttable docs ≡ true
    → Completes (hits_of T terms docs)
unfolding hits_of are_cuttable
hits_of-Completes T terms [] h = ok-Completes _
hits_of-Completes T terms (doc ∷ docs) h =
    let first : is_cuttable doc.body ≡ true = ground arith in
    let rest : are_cuttable docs ≡ true = ground arith in
    if-Completes (score_of T terms (hay_of T doc) == 0) _ _
      (λ skipped. hits_of-Completes T terms docs rest)
      (λ kept. bind-Completes _ _ (snippet_of-Completes doc.body first) λ snippet e.
        bind-Completes _ _ (hits_of-Completes T terms docs rest) λ hits e'. ok-Completes _)
