-- ===== src/SearchGuest/Results.antt =====
-- The results of a search on their way to the host's document.
use wasibrowser.Prelude.{
  ℕ, ◌+◌, ◌*◌, ◌^◌, ◌<◌, ◌≡◌, inl, refl, ap, ◌∙◌, none, some, List, [], ◌∷◌, ◌++◌, append-nil, All,
  length, map,
}
use wasibrowser.Bytes.{Bytes, ok}
use wasibrowser.Utf8.{IsUtf8}
use wasibrowser.Abi.{Op}
use wasibrowser.Abi.DomEvents.{Floats}
use wasibrowser.Abi.Shared.{Shared}
use wasibrowser.Abi.Imports.{Effect}
use wasibrowser.Sdk.Batch
use wasibrowser.Sdk.Batch.{Batch, submit, encode}
use wasibrowser.Wire.{Call, meaning, run, IsTyped}
use wasibrowser.Wire.Submission.{submit-nonempty, run-busy, encode-queues}
use wasibrowser.SearchGuest.{App, Json, SearchResp}
use wasibrowser.SearchGuest.Handle.{gwb_events, render_results}
use wasibrowser.SearchGuest.Answered.{host}
use wasibrowser.SearchGuest.Rendered.{response_calls, render_results-calls}
use wasibrowser.SearchGuest.Texts.{
  RespTyped, texts_of, response_texts, response_calls-texts, response_calls-IsTyped,
}
use wasibrowser.SearchGuest.Shown.{reply_region, gwb_events-shows}

module _ {Q K : Type 0} (front back : Bytes) where
  -- The SDK's `submit` against the host's import.
  submit-host :
      (call : Call) (calls : List Call) (g : Shared Q K) (effects : List Effect)
      → All IsTyped (call ∷ calls)
      → 16
          + length (run Batch.empty (call ∷ calls)).ops
          + length (run Batch.empty (call ∷ calls)).heap
        < 2 ^ 32
      → submit (host front back).submit (run Batch.empty (call ∷ calls)) (g, effects) ≡ (
        0,
        Batch.empty,
        (record g { batches = g.batches ++ (map meaning (call ∷ calls) ∷ []) }, effects),
      )
  submit-host call calls g effects typed fits =
      submit-nonempty (host front back).submit (run Batch.empty (call ∷ calls)) (g, effects) 0 _
        (run-busy call calls typed fits)
        (rw (encode-queues front back (call ∷ calls) g typed fits, append-nil effects) refl)

  module _ (F : Floats) (json : Json) (req_id status err_class : ℕ) (body : Bytes)
      (target listener ts : ℕ) (more : Bytes) where
    -- If the host delivers the result of the call that the guest waits for, and its body reads as a
    -- response, the host gets one batch from the guest, and the texts that its operations write are
    -- the summary and then number, title, address with score, and snippet of each result in its
    -- order, or the hint for no results. The guest has submitted all that it wrote and waits for
    -- nothing. Words have their widths, texts are UTF-8, and neither the counter of nodes nor the
    -- size of the batch overflows.
    pub gwb_events-renders :
        (app : App) (g : Shared Q K) (effects : List Effect) (resp : SearchResp)
        → app.batch ≡ Batch.empty
        → app.results < 2 ^ 32
        → app.status_text < 2 ^ 32
        → app.next_id + 10 * length resp.results + 2 < 2 ^ 32
        → app.pending_req_id ≡ some req_id
        → json.from_str body ≡ inl resp
        → RespTyped resp
        → (16
            + length (run Batch.empty (response_calls app resp)).ops
            + length (run Batch.empty (response_calls app resp)).heap)
          < 2 ^ 32
        → status < 2 ^ 16
        → req_id < 2 ^ 32
        → target < 2 ^ 32
        → listener < 2 ^ 32
        → ts < 2 ^ 64
        → IsUtf8 body
        → length (reply_region req_id status err_class body target listener ts more) < 2 ^ 32
        → (app' : App) × (ops : List Op) × (gwb_events
              (host front back)
              json
              (reply_region req_id status err_class body target listener ts more)
              1
              app
              (g, effects)
            ≡ ok (0, app', (record g { batches = g.batches ++ (ops ∷ []) }, effects)))
          × (app'.batch ≡ Batch.empty)
          × (app'.pending_req_id ≡ none)
          × (texts_of ops ≡ response_texts resp)
    unfolding response_calls
    gwb_events-renders app g effects resp fresh hr hs room waits parsed typed fits st id ta li ti
          utf8 short =
        let waiting : App = record app { pending_req_id = none } in
        let calls = response_calls app resp in
        let shows =
          gwb_events-shows (host front back) json F req_id status err_class body target listener ts
            more app (g, effects) resp waits parsed st id ta li ti utf8 short in
        let drawn = render_results-calls resp waiting room in
        let batch : (render_results resp waiting).batch ≡ run Batch.empty calls =
          ap (λ a. a.batch) drawn ∙ ap (λ b. run b calls) fresh in
        let typed_calls = response_calls-IsTyped app resp hr hs room typed in
        let sent = submit-host (Call.clear app.results) _ g effects typed_calls fits in
        (
          record (render_results resp waiting) { batch = Batch.empty },
          map meaning calls,
          shows ∙ rw (batch, sent) refl,
          refl,
          ap (λ a. a.pending_req_id) drawn,
          response_calls-texts app resp,
        )
