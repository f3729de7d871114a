-- ===== src/SearchGuest/Texts.antt =====
-- What a guest's reader sees of the results that search-rs shows.
use wasibrowser.Prelude.{
  ℕ, ◌+◌, ◌*◌, ◌^◌, ◌<◌, ◌≡◌, refl, ap, ◌∙◌, List, [], ◌∷◌, ◌++◌, length, map, codes, arith, ◌==◌,
  Bool-cases, inl, inr, ltb, All, All-append,
}
use wasibrowser.Bytes.{Bytes}
use wasibrowser.Utf8.{IsUtf8, is_utf8, first_char}
use wasibrowser.Utf8.Append.{IsUtf8-append, joined-IsUtf8, decimal-IsUtf8, decimal_u128-IsUtf8}
use wasibrowser.Text.{decimal, decimal_u128}
use wasibrowser.Abi
use wasibrowser.Abi.{Op}
use wasibrowser.Wire.{Call, meaning, IsTyped}
use wasibrowser.SearchGuest.{App, SearchHit, SearchResp}
use wasibrowser.SearchGuest.Handle.{two_digits, plural, summary, meta_text}
use wasibrowser.SearchGuest.Rendered.{
  hit_calls, hits_calls, no_matches, empty_calls, response_calls,
}

-- What the type `String` guarantees of a response.
abbrev pub HitTyped : SearchHit → Type 0
HitTyped hit = IsUtf8 hit.title × IsUtf8 hit.url × IsUtf8 hit.snippet

abbrev pub RespTyped : SearchResp → Type 0
RespTyped resp = IsUtf8 resp.query × All HitTyped resp.results

plural-IsUtf8 : (n : ℕ) → IsUtf8 (plural n)
unfolding is_utf8 first_char
plural-IsUtf8 n = elim (Bool-cases (n == 1)) [ inl one ↦ rw one refl | inr more ↦ rw more refl ]

abbrev words : List Bytes
words =
    codes "0"
    ∷ codes "ms"
    ∷ codes " result"
    ∷ codes " for \""
    ∷ codes "\" in "
    ∷ codes "  "
    ∷ (194 ∷ 183 ∷ codes "  relevance ")
    ∷ codes "["
    ∷ codes "]"
    ∷ no_matches
    ∷ codes "ws-rec"
    ∷ codes "ws-rank"
    ∷ codes "ws-body"
    ∷ codes "ws-rtitle"
    ∷ codes "ws-rmeta"
    ∷ codes "ws-rsnip"
    ∷ codes "ws-empty"
    ∷ []

words-IsUtf8 : All IsUtf8 words
unfolding is_utf8 first_char
words-IsUtf8 = (
  refl,
  (
    refl,
    (
      refl,
      (
        refl,
        (
          refl,
          (
            refl,
            (
              refl,
              (refl, (refl, (refl, (refl, (refl, (refl, (refl, (refl, (refl, (refl, tt)))))))))),
            ),
          ),
        ),
      ),
    ),
  ),
)

zero-IsUtf8 : IsUtf8 (codes "0")
zero-IsUtf8 = words-IsUtf8.0

two_digits-IsUtf8 : (n : ℕ) → IsUtf8 (two_digits n)
unfolding two_digits
two_digits-IsUtf8 n = elim (Bool-cases (ltb n 10)) [
  | inl one ↦ rw one (IsUtf8-append (codes "0") (decimal n) zero-IsUtf8 (decimal-IsUtf8 n))
  | inr more ↦ rw more (decimal-IsUtf8 n)
]

summary-IsUtf8 : (resp : SearchResp) → IsUtf8 resp.query → IsUtf8 (summary resp)
unfolding summary
summary-IsUtf8 resp h =
    let (zero, (ms, (result, (for, (within, rest))))) = words-IsUtf8 in
    joined-IsUtf8 (codes "ms")
      (decimal (length resp.results)
        ∷ codes " result"
        ∷ plural (length resp.results)
        ∷ codes " for \""
        ∷ resp.query
        ∷ codes "\" in "
        ∷ decimal_u128 resp.took_ms
        ∷ [])
      ms
      (
        decimal-IsUtf8 _,
        (result, (plural-IsUtf8 _, (for, (h, (within, (decimal_u128-IsUtf8 _, tt)))))),
      )

meta_text-IsUtf8 : (hit : SearchHit) → IsUtf8 hit.url → IsUtf8 (meta_text hit)
unfolding meta_text
meta_text-IsUtf8 hit h =
    let (zero, (ms, (result, (for, (within, (gap, (relevance, rest))))))) = words-IsUtf8 in
    joined-IsUtf8 (decimal hit.score)
      (hit.url ∷ codes "  " ∷ (194 ∷ 183 ∷ codes "  relevance ") ∷ []) (decimal-IsUtf8 _)
      (h, (gap, (relevance, tt)))

abbrev rank_text : ℕ → Bytes
rank_text i = codes "[" ++ (two_digits (i + 1) ++ codes "]")

rank_text-IsUtf8 : (i : ℕ) → IsUtf8 (rank_text i)
rank_text-IsUtf8 i =
    let (zero, (ms, (result, (for, (within, (gap, (relevance, (left, (right, rest))))))))) =
      words-IsUtf8 in
    joined-IsUtf8 (codes "]") (codes "[" ∷ two_digits (i + 1) ∷ []) right
      (left, (two_digits-IsUtf8 _, tt))

-- The texts that operations write.
unfoldable pub texts_of : List Op → List Bytes
texts_of [] = []
texts_of (Abi.set_text id text ∷ ops) = text ∷ texts_of ops
texts_of (Abi.create_text id text ∷ ops) = text ∷ texts_of ops
texts_of (op ∷ ops) = texts_of ops

-- The texts of one result: its number, title, address with score, and snippet.
abbrev pub hit_texts : ℕ → SearchHit → List Bytes
hit_texts i hit = rank_text i ∷ hit.title ∷ meta_text hit ∷ hit.snippet ∷ []

unfoldable pub hits_texts : ℕ → List SearchHit → List Bytes
hits_texts i [] = []
hits_texts i (hit ∷ hits) = hit_texts i hit ++ hits_texts (i + 1) hits

-- What is shown in place of no results.
abbrev pub empty_texts : List SearchHit → List Bytes
empty_texts [] = no_matches ∷ []
empty_texts (hit ∷ hits) = []

-- What a response is shown as: the summary, and the texts of the results in their order.
abbrev pub response_texts : SearchResp → List Bytes
response_texts resp = summary resp ∷ (hits_texts 0 resp.results ++ empty_texts resp.results)

empty_calls-texts :
    (results next : ℕ) (hits : List SearchHit)
    → texts_of (map meaning (empty_calls results next hits)) ≡ empty_texts hits
unfolding texts_of
empty_calls-texts results next [] = refl
empty_calls-texts results next (hit ∷ hits) = refl

hits_calls-texts :
    (results next i : ℕ) (hits : List SearchHit) (calls : List Call)
    → texts_of (map meaning (hits_calls results next i hits ++ calls))
      ≡ hits_texts i hits ++ texts_of (map meaning calls)
unfolding texts_of hits_calls hits_texts
hits_calls-texts results next i [] calls = refl
hits_calls-texts results next i (hit ∷ hits) calls =
    ap (λ l. hit_texts i hit ++ l) (hits_calls-texts results (next + 10) (i + 1) hits calls)

pub response_calls-texts :
    (app : App) (resp : SearchResp)
    → texts_of (map meaning (response_calls app resp)) ≡ response_texts resp
unfolding texts_of response_calls
response_calls-texts app resp =
    ap (λ l. summary resp ∷ l)
      (hits_calls-texts app.results app.next_id 0 resp.results _
        ∙ ap (λ l. hits_texts 0 resp.results ++ l)
            (empty_calls-texts app.results (app.next_id + 10 * length resp.results) resp.results))

hit_calls-IsTyped :
    (results row i : ℕ) (hit : SearchHit)
    → results < 2 ^ 32
    → row + 9 < 2 ^ 32
    → HitTyped hit
    → All IsTyped (hit_calls results row i hit)
hit_calls-IsTyped results row i hit hr room h =
    let (
      w0,
      (
        w1,
        (
          w2,
          (
            w3,
            (w4, (w5, (w6, (w7, (w8, (w9, (rec, (rank, (body, (title, (meta, (snip, w16)))))))))))),
          ),
        ),
      ),
    ) =
      words-IsUtf8 in
    ground (
      arith,
      rec,
      rank,
      body,
      title,
      meta,
      snip,
      rank_text-IsUtf8 i,
      meta_text-IsUtf8 hit h.1,
      h.0,
      h.2,
    )

hits_calls-IsTyped :
    (results next i : ℕ) (hits : List SearchHit)
    → results < 2 ^ 32
    → next + 10 * length hits < 2 ^ 32
    → All HitTyped hits
    → All IsTyped (hits_calls results next i hits)
unfolding hits_calls
hits_calls-IsTyped results next i [] hr room h = tt
hits_calls-IsTyped results next i (hit ∷ hits) hr room (h, hs) =
    All-append IsTyped (hit_calls results (next + 1) i hit) _
      (hit_calls-IsTyped results (next + 1) i hit hr (omega arith) h)
      (hits_calls-IsTyped results (next + 10) (i + 1) hits hr (omega arith) hs)

empty_calls-IsTyped :
    (results next : ℕ) (hits : List SearchHit)
    → results < 2 ^ 32
    → next + 2 < 2 ^ 32
    → All IsTyped (empty_calls results next hits)
empty_calls-IsTyped results next (hit ∷ hits) hr room = tt
empty_calls-IsTyped results next [] hr room =
    let (
      w0,
      (
        w1,
        (
          w2,
          (
            w3,
            (
              w4,
              (
                w5,
                (
                  w6,
                  (
                    w7,
                    (
                      w8,
                      (
                        no_matches_utf8,
                        (w10, (w11, (w12, (w13, (w14, (w15, (empty_utf8, w17))))))),
                      ),
                    ),
                  ),
                ),
              ),
            ),
          ),
        ),
      ),
    ) =
      words-IsUtf8 in
    ground (arith, no_matches_utf8, empty_utf8)

pub response_calls-IsTyped :
    (app : App) (resp : SearchResp)
    → app.results < 2 ^ 32
    → app.status_text < 2 ^ 32
    → app.next_id + 10 * length resp.results + 2 < 2 ^ 32
    → RespTyped resp
    → All IsTyped (response_calls app resp)
unfolding response_calls
response_calls-IsTyped app resp hr hs room (hq, hh) = (
  hr,
  (
    (hs, summary-IsUtf8 resp hq),
    All-append IsTyped (hits_calls app.results app.next_id 0 resp.results) _
        (hits_calls-IsTyped app.results app.next_id 0 resp.results hr (omega arith) hh)
        (empty_calls-IsTyped app.results (app.next_id + 10 * length resp.results) resp.results hr
          (omega arith)),
  ),
)
