-- ===== src/Wire/Events.antt =====
-- An event from the host's `map_dom_event` and `EventOut` to the guest's `decode_events`.
use Prim.Native.Nat.{bit_or}
use wasibrowser.Prelude.{
  ℕ, suc, ◌+◌, ◌-◌, ◌%◌, ◌^◌, ◌<◌, ◌≤◌, ◌≡◌, refl, sym, ap, ◌∙◌, subst, true, false, some, [], ◌∷◌,
  ◌++◌, append_assoc, arith, length, length-append, replicate, ltb, leb, lt→ltb,
}
use wasibrowser.Bytes.{Bytes, ok, ◌>>=◌, u16_to_le, u32_to_le, u32_at, slice}
use wasibrowser.Bytes.Laws.{slice-append, length-u32_to_le}
use wasibrowser.Utf8.{IsUtf8}
use wasibrowser.Utf8.Laws.{from_utf8_lossy-of_utf8}
use wasibrowser.Abi.Events.{EventOut, event_record, u64_to_le, text_of, padded}
use wasibrowser.Abi.DomEvents.{Floats}
use wasibrowser.Sdk.Events.{
  Returned, read_header, Event, read_payload, decode_event, decode_loop, decode_events, read_text,
}
use wasibrowser.Wire.Front.{u32_read, length-front, front, event, read_header-front}
use wasibrowser.Wire.HostEvents.{
  HostEvent, sent, heard, HasRange, Carries, sent-Carries, Fits, sent-Fits, heard-text, read_as,
}

-- A text that stands whole behind 40 bytes is read, whatever stands behind it.
read_text-behind :
    (pre text back : Bytes) (e : Event)
    → length pre ≡ 40
    → length (pre ++ (text ++ back)) < 2 ^ 32
    → IsUtf8 text
    → e.text ≡ []
    → (n : ℕ) × (read_text (pre ++ (text ++ back)) 0 (length text) e
        ≡ ok (record e { text = text }, n))
unfolding read_text
read_text-behind pre [] back e hp hb ht he = (40, ap (λ t. ok (record e { text = t }, 40)) he)
read_text-behind pre (c ∷ text) back e hp hb ht he =
    let len : length (pre ++ (c ∷ text ++ back)) ≡ 40 + length (c ∷ text) + length back =
      omega (arith, length-append pre (c ∷ text ++ back), length-append (c ∷ text) back) in
    let end : (40 + length (c ∷ text)) % 2 ^ 32 ≡ 40 + length (c ∷ text) = omega arith in
    let inside : leb (40 + length (c ∷ text)) (length (pre ++ (c ∷ text ++ back))) ≡ true =
      ground (arith, len) in
    let cut : slice {E = ⊥} (pre ++ (c ∷ text ++ back)) 40 (40 + length (c ∷ text))
        ≡ ok (c ∷ text) =
      slice-append pre (c ∷ text) back 40 (40 + length (c ∷ text)) (omega arith) (omega arith) in
    let after = (0 + 40 + length (c ∷ text) + 3) % 2 ^ 32 in
    (
      after - after % 4,
      rw
          (
            end,
            inside,
            lt→ltb 0 (suc (length text)) (omega arith),
            cut,
            from_utf8_lossy-of_utf8 (c ∷ text) ht,
          )
          refl,
    )

decode_event-steps :
    (buf : Bytes) (e e' : Event) (len : ℕ) (result : Event × ℕ)
    → read_header buf ≡ ok e
    → read_payload buf e ≡ ok e'
    → u32_at {E = ⊥} buf 36 ≡ ok len
    → read_text buf 0 len e' ≡ ok result
    → decode_event buf 0 ≡ ok result
unfolding decode_event
decode_event-steps buf e e' len result head payload size text = rw (head, payload, size, text) refl

module _ (F : Floats) where
  module _ (h : HostEvent) (eo : EventOut) (flags target listener ts : ℕ) (more : Bytes) where
    abbrev back : Bytes
    back = replicate (padded (length (text_of eo)) - length (text_of eo)) 0 ++ more

    abbrev size_bytes : Bytes
    size_bytes = u32_to_le (length (text_of eo))

    abbrev at_front : Bytes → Bytes
    at_front rest = front eo.kind flags target listener ts rest

    record_front :
        event_record eo flags target listener ts ++ more
        ≡ at_front (eo.payload ++ (size_bytes ++ (text_of eo ++ back)))
    unfolding event_record front u16_to_le u32_to_le u64_to_le
    record_front =
        let pad = replicate (padded (length (text_of eo)) - length (text_of eo)) 0 in
        ap (front eo.kind flags target listener ts) (
          append_assoc eo.payload (size_bytes ++ (text_of eo ++ pad)) more
          ∙ ap (λ z. eo.payload ++ (size_bytes ++ z)) (append_assoc (text_of eo) pad more))

    text_front :
        at_front (eo.payload ++ (size_bytes ++ (text_of eo ++ back)))
        ≡ at_front (eo.payload ++ size_bytes) ++ (text_of eo ++ back)
    unfolding front u16_to_le u32_to_le u64_to_le
    text_front =
        ap (front eo.kind flags target listener ts)
          (sym (append_assoc eo.payload size_bytes (text_of eo ++ back)))

    length-record :
        sent F h ≡ some eo → 40 ≤ length (event_record eo flags target listener ts ++ more)
    length-record e =
        let (kind_ok, size) : (eo.kind < 2 ^ 16) × (length eo.payload ≡ 16) =
          subst (Fits F) e (sent-Fits F h) in
        omega (
          arith,
          ap length record_front,
          length-front eo.kind flags target listener ts
              (eo.payload ++ (size_bytes ++ (text_of eo ++ back))),
          length-append eo.payload (size_bytes ++ (text_of eo ++ back)),
          length-append size_bytes (text_of eo ++ back),
          length-u32_to_le (length (text_of eo)),
        )

    decode_event-deliver :
        sent F h ≡ some eo
        → HasRange F h
        → flags < 2 ^ 16
        → target < 2 ^ 32
        → listener < 2 ^ 32
        → ts < 2 ^ 64
        → IsUtf8 (text_of eo)
        → length (event_record eo flags target listener ts ++ more) < 2 ^ 32
        → (n : ℕ) × (decode_event (event_record eo flags target listener ts ++ more) 0
            ≡ ok (read_as F h (text_of eo) (event eo.kind flags target listener ts), n))
    decode_event-deliver e r fl ta li ti utf8 fits =
        let behind = size_bytes ++ (text_of eo ++ back) in
        let (kind_ok, size) : (eo.kind < 2 ^ 16) × (length eo.payload ≡ 16) =
          subst (Fits F) e (sent-Fits F h) in
        let ev = event eo.kind flags target listener ts in
        let head =
          read_header-front eo.kind flags target listener ts kind_ok fl ta li ti
            (eo.payload ++ behind) in
        let payload =
          subst (Carries F flags target listener ts behind h) e
            (sent-Carries F flags target listener ts behind h r) in
        let total : length (at_front (eo.payload ++ size_bytes) ++ (text_of eo ++ back)) < 2 ^ 32 =
          subst (λ b. length b < 2 ^ 32) (record_front ∙ text_front) fits in
        let pre : length (at_front (eo.payload ++ size_bytes)) ≡ 40 = omega (
          arith,
          length-front eo.kind flags target listener ts (eo.payload ++ size_bytes),
          length-append eo.payload size_bytes,
          length-u32_to_le (length (text_of eo)),
        ) in
        let short : length (text_of eo) < 2 ^ 32 = omega (
          arith,
          total,
          length-append (at_front (eo.payload ++ size_bytes)) (text_of eo ++ back),
          length-append (text_of eo) back,
        ) in
        let len =
          u32_read eo.kind flags target listener ts eo.payload (length (text_of eo)) 36
            (text_of eo ++ back) (omega arith) short in
        let (n, text) =
          read_text-behind (at_front (eo.payload ++ size_bytes)) (text_of eo) back (heard F h ev)
            pre total utf8 (heard-text F h ev) in
        (
          n,
          ap (λ b. decode_event b 0) record_front
              ∙ (decode_event-steps (at_front (eo.payload ++ behind)) ev (heard F h ev)
                  (length (text_of eo)) (read_as F h (text_of eo) ev, n) head payload len
                  (ap (λ b. read_text b 0 (length (text_of eo)) (heard F h ev)) text_front ∙ text)),
        )

    -- What the decoder hands to the handler.
    pub decode_events-read :
        {S : Type 0} (f : Event → S → Returned (ℕ × S)) (s : S)
        → sent F h ≡ some eo
        → HasRange F h
        → flags < 2 ^ 16
        → target < 2 ^ 32
        → listener < 2 ^ 32
        → ts < 2 ^ 64
        → IsUtf8 (text_of eo)
        → length (event_record eo flags target listener ts ++ more) < 2 ^ 32
        → decode_events f (event_record eo flags target listener ts ++ more) 1 s ≡ (
            f (read_as F h (text_of eo) (event eo.kind flags target listener ts)) s >>= λ answer.
            ok (bit_or 0 answer.0, answer.1))
    unfolding decode_events
    decode_events-read f s e r fl ta li ti utf8 fits =
        let (n, one) = decode_event-deliver e r fl ta li ti utf8 fits in
        let buf = event_record eo flags target listener ts ++ more in
        let long : ltb (length buf) (0 + 40) ≡ false = ground (arith, length-record e) in
        rw (decode_loop, long, one) refl
