-- ===== src/SearchGuest/Shown.antt =====
-- A result that the host delivers to the guest search-rs.
use wasibrowser.Prelude.{ℕ, ◌^◌, ◌<◌, ◌≡◌, inl, refl, none, some, true, ◌++◌, ◌==◌, length, arith}
use wasibrowser.Bytes.{Bytes, ok}
use wasibrowser.Utf8.{IsUtf8}
use wasibrowser.Abi.Events
use wasibrowser.Abi.Events.{EventOut, event_record, text_of}
use wasibrowser.Abi.DomEvents.{Floats}
use wasibrowser.Sdk.Kind
use wasibrowser.Sdk.Batch
use wasibrowser.Sdk.Events.{Event}
use wasibrowser.Wire.Front.{event}
use wasibrowser.Wire.HostEvents.{HostEvent, read_as}
use wasibrowser.Wire.Events.{decode_events-read}
use wasibrowser.SearchGuest.{App, Json, SearchResp}
use wasibrowser.SearchGuest.Handle.{
  Imports, handled, is_pending, on_event, gwb_events, show_reply, show_parsed, render_results,
}

-- The region with the record of the result of a call that succeeded, in front of some bytes.
abbrev pub reply_region : ℕ → ℕ → ℕ → Bytes → ℕ → ℕ → ℕ → Bytes → Bytes
reply_region req_id status err_class body target listener ts more =
    event_record (Events.rpc_result req_id status true err_class body) 0 target listener ts ++ more

module _ {H : Type 0} (I : Imports H) (json : Json) where
  handled-reply :
      (e : Event) (app : App) (h : H) (resp : SearchResp)
      → e.kind ≡ Kind.rpc_result
      → app.pending_req_id ≡ some e.rpc_req_id
      → e.rpc_ok ≡ true
      → json.from_str e.text ≡ inl resp
      → handled I json e app h ≡ (render_results resp (record app { pending_req_id = none }), h)
  unfolding handled is_pending show_reply show_parsed
  handled-reply e app h resp kind waits fine parsed =
      let same : (e.rpc_req_id == e.rpc_req_id) ≡ true = ground arith in
      rw (kind, waits, same, fine, parsed) refl

  module _ (F : Floats) (req_id status err_class : ℕ) (body : Bytes) (target listener ts : ℕ)
      (more : Bytes) where
    -- If the host delivers the result of the call that the guest waits for, and its body reads as a
    -- response, the guest answers 0, shows the results, waits for nothing any more and submits what
    -- it has written. The words have their widths and the body is UTF-8.
    pub gwb_events-shows :
        (app : App) (h : H) (resp : SearchResp)
        → app.pending_req_id ≡ some req_id
        → json.from_str body ≡ inl resp
        → status < 2 ^ 16
        → req_id < 2 ^ 32
        → target < 2 ^ 32
        → listener < 2 ^ 32
        → ts < 2 ^ 64
        → IsUtf8 body
        → length (reply_region req_id status err_class body target listener ts more) < 2 ^ 32
        → gwb_events I json
            (reply_region req_id status err_class body target listener ts more)
            1
            app
            h
          ≡ (let shown = render_results resp (record app { pending_req_id = none }) in
              let (code, batch, h') = Batch.submit I.submit shown.batch h in
              ok (0, record shown { batch = batch }, h'))
    unfolding gwb_events on_event Events.rpc_result
    gwb_events-shows app h resp waits parsed st id ta li ti utf8 fits =
        let ev : Event =
          read_as F (HostEvent.rpc_result req_id status true err_class body) body
            (event 41 0 target listener ts) in
        let read =
          decode_events-read F (HostEvent.rpc_result req_id status true err_class body)
            (Events.rpc_result req_id status true err_class body) 0 target listener ts more
            (on_event I json) (app, h) refl (st, id) (omega arith) ta li ti utf8 fits in
        let step = handled-reply ev app h resp refl waits refl parsed in rw (read, step) refl
