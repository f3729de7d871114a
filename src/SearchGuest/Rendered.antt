-- ===== src/SearchGuest/Rendered.antt =====
-- The operations that `render_results` of examples/search-rs/src/lib.rs writes.
use wasibrowser.Prelude.{
  ℕ, ◌+◌, ◌%◌, ◌*◌, ◌^◌, ◌<◌, ◌≡◌, refl, ap, ◌∙◌, List, [], ◌∷◌, ◌++◌, length, codes, arith,
}
use wasibrowser.Bytes.{Bytes}
use wasibrowser.Sdk.Atom
use wasibrowser.Sdk.Batch.{Batch}
use wasibrowser.Wire.{Call, run, perform}
use wasibrowser.SearchGuest.{App, SearchHit, SearchResp, el, text_el, fresh_id, set_class}
use wasibrowser.SearchGuest.Handle.{
  set_status, two_digits, summary, meta_text, render_hit, render_hits, render_empty, render_results,
}

-- The app after some calls, with the counter of nodes at `next`.
abbrev pub wrote : App → ℕ → List Call → App
wrote app next calls = record app { batch = run app.batch calls; next_id = next }

same_word : (n : ℕ) → n < 2 ^ 32 → n % 2 ^ 32 ≡ n
same_word n h = omega arith

-- The calls that make an element, and one with a text.
abbrev pub element_calls : ℕ → ℕ → Bytes → List Call
element_calls id tag class =
    Call.create_element id tag ∷ Call.set_attr id Atom.attr_class class ∷ []

abbrev pub text_calls : ℕ → ℕ → Bytes → Bytes → List Call
text_calls id tag class text =
    Call.create_element id tag
    ∷ Call.set_attr id Atom.attr_class class
    ∷ Call.create_text (id + 1) text
    ∷ Call.append_child id (id + 1)
    ∷ []

-- The calls for the result with the number `i + 1`, whose row is the node `row`.
abbrev pub hit_calls : ℕ → ℕ → ℕ → SearchHit → List Call
hit_calls results row i hit =
    let rank = row + 1 in
    let body = rank + 1 + 1 in
    let title = body + 1 in
    let meta = title + 1 + 1 in
    let snip = meta + 1 + 1 in
    element_calls row Atom.div (codes "ws-rec")
    ++ (Call.append_child results row
        ∷ (text_calls rank Atom.span (codes "ws-rank")
              (codes "[" ++ (two_digits (i + 1) ++ codes "]"))
            ++ (Call.append_child row rank
                ∷ (element_calls body Atom.div (codes "ws-body")
                    ++ (Call.append_child row body
                        ∷ (text_calls title Atom.h3 (codes "ws-rtitle") hit.title
                            ++ (Call.append_child body title
                                ∷ (text_calls meta Atom.span (codes "ws-rmeta") (meta_text hit)
                                    ++ (Call.append_child body meta
                                        ∷ (text_calls snip Atom.p (codes "ws-rsnip") hit.snippet
                                            ++ (Call.append_child body snip ∷ [])))))))))))

render_hit-calls :
    (i : ℕ) (hit : SearchHit) (app : App)
    → app.next_id + 10 < 2 ^ 32
    → let row = app.next_id + 1 in
      render_hit i hit app
      ≡ wrote app (row + 1 + 1 + 1 + 1 + 1 + 1 + 1 + 1 + 1) (hit_calls app.results row i hit)
unfolding render_hit el text_el fresh_id set_class run perform
render_hit-calls i hit app room =
    let n = app.next_id in
    rw
      (
        same_word (n + 1) (omega arith),
        same_word (n + 1 + 1) (omega arith),
        same_word (n + 1 + 1 + 1) (omega arith),
        same_word (n + 1 + 1 + 1 + 1) (omega arith),
        same_word (n + 1 + 1 + 1 + 1 + 1) (omega arith),
        same_word (n + 1 + 1 + 1 + 1 + 1 + 1) (omega arith),
        same_word (n + 1 + 1 + 1 + 1 + 1 + 1 + 1) (omega arith),
        same_word (n + 1 + 1 + 1 + 1 + 1 + 1 + 1 + 1) (omega arith),
        same_word (n + 1 + 1 + 1 + 1 + 1 + 1 + 1 + 1 + 1) (omega arith),
        same_word (n + 1 + 1 + 1 + 1 + 1 + 1 + 1 + 1 + 1 + 1) (omega arith),
      )
      refl

run-append : (self : Batch) (xs ys : List Call) → run self (xs ++ ys) ≡ run (run self xs) ys
unfolding run
run-append self [] ys = refl
run-append self (x ∷ xs) ys = run-append (perform self x) xs ys

-- The calls for results, the first of which has the number `i + 1` and the row `next + 1`.
unfoldable pub hits_calls : ℕ → ℕ → ℕ → List SearchHit → List Call
hits_calls results next i [] = []
hits_calls results next i (hit ∷ hits) =
    hit_calls results (next + 1) i hit ++ hits_calls results (next + 10) (i + 1) hits

wrote-again :
    (app : App) (n m m' : ℕ) (xs ys : List Call)
    → m ≡ m'
    → wrote (wrote app n xs) m ys ≡ wrote app m' (xs ++ ys)
wrote-again app n m m' xs ys same = rw (same, run-append app.batch xs ys) refl

render_hits-calls :
    (i : ℕ) (hits : List SearchHit) (app : App)
    → app.next_id + 10 * length hits < 2 ^ 32
    → render_hits i hits app
      ≡ wrote app (app.next_id + 10 * length hits) (hits_calls app.results app.next_id i hits)
unfolding render_hits hits_calls run
render_hits-calls i [] app room =
    let same : app.next_id ≡ app.next_id + 10 * 0 = omega arith in ap (λ n. wrote app n []) same
render_hits-calls i (hit ∷ hits) app room =
    let first = hit_calls app.results (app.next_id + 1) i hit in
    let here : render_hit i hit app ≡ wrote app (app.next_id + 10) first =
      render_hit-calls i hit app (omega arith) ∙ ap (λ n. wrote app n first) (omega arith) in
    ap (render_hits (i + 1) hits) here
    ∙ render_hits-calls (i + 1) hits (wrote app (app.next_id + 10) first) (omega arith)
    ∙ wrote-again app (app.next_id + 10) _ _ first
        (hits_calls app.results (app.next_id + 10) (i + 1) hits) (omega arith)

abbrev pub no_matches : Bytes
no_matches = codes "No matches. Try \"wasm\", \"rpc\", \"capabilities\", or \"dom\"."

abbrev pub empty_calls : ℕ → ℕ → List SearchHit → List Call
empty_calls results next [] =
    text_calls (next + 1) Atom.p (codes "ws-empty") no_matches
    ++ (Call.append_child results (next + 1) ∷ [])
empty_calls results next (hit ∷ hits) = []

abbrev empty_next : ℕ → List SearchHit → ℕ
empty_next next [] = next + 1 + 1
empty_next next (hit ∷ hits) = next

render_empty-calls :
    (hits : List SearchHit) (app : App)
    → app.next_id + 2 < 2 ^ 32
    → render_empty hits app
      ≡ wrote app (empty_next app.next_id hits) (empty_calls app.results app.next_id hits)
unfolding render_empty el text_el fresh_id set_class run perform
render_empty-calls (hit ∷ hits) app room = refl
render_empty-calls [] app room =
    rw (same_word (app.next_id + 1) (omega arith), same_word (app.next_id + 1 + 1) (omega arith))
      refl

-- The calls that a response is shown by.
unfoldable pub response_calls : App → SearchResp → List Call
response_calls app resp =
    Call.clear app.results
    ∷ Call.set_text app.status_text (summary resp)
    ∷ (hits_calls app.results app.next_id 0 resp.results
        ++ empty_calls app.results (app.next_id + 10 * length resp.results) resp.results)

pub render_results-calls :
    (resp : SearchResp) (app : App)
    → app.next_id + 10 * length resp.results + 2 < 2 ^ 32
    → render_results resp app
      ≡ wrote app
          (empty_next (app.next_id + 10 * length resp.results) resp.results)
          (response_calls app resp)
unfolding render_results response_calls set_status run perform
render_results-calls resp app room =
    let app1 =
      wrote app app.next_id
        (Call.clear app.results ∷ Call.set_text app.status_text (summary resp) ∷ []) in
    let hits = resp.results in
    ap (render_empty hits) (render_hits-calls 0 hits app1 (omega arith))
    ∙ render_empty-calls hits
        (wrote app1 (app.next_id + 10 * length hits) (hits_calls app.results app.next_id 0 hits))
        (omega arith)
    ∙ wrote-again app1 (app.next_id + 10 * length hits) _
        (empty_next (app.next_id + 10 * length hits) hits)
        (hits_calls app.results app.next_id 0 hits)
        (empty_calls app.results (app.next_id + 10 * length hits) hits) refl
