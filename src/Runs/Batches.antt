-- ===== src/Runs/Batches.antt =====
-- Batches from the guest to the host.
use wasibrowser.Prelude.{
  ◌+◌, ◌^◌, ◌<◌, ◌≡◌, refl, ap, List, [], ◌∷◌, ◌++◌, true, map, codes, arith, length,
}
use wasibrowser.Bytes.{Bytes, ok, u16_to_le, u32_to_le}
use wasibrowser.Utf8.{IsUtf8, is_utf8, first_char}
use wasibrowser.Bytes.Completes.{Completes}
use wasibrowser.Sdk.Batch
use wasibrowser.Sdk.Batch.{encode, empty, pad_heap}
use wasibrowser.Abi.Decode.{decode_batch}
use wasibrowser.Abi.Decode.Safety.{decode_batch-Completes}
use wasibrowser.Wire.{Call, create_element, create_text, append_child, run, perform, meaning}
use wasibrowser.Abi.Shared.{Shared}
use wasibrowser.Abi.Rpc.{parse_request}
use wasibrowser.Sdk.Batch.{submit}
use wasibrowser.Sdk.Rpc.{rpc_buffer}
use wasibrowser.Wire.Submission.{host_of, submit-queues}
use wasibrowser.Wire.Requests.{parse_request-rpc_buffer}
use wasibrowser.Runs.Engine.{guest}
use wasibrowser.Wire.Header.{decode_batch-encode}

-- A list item with a text, and its place.
abbrev calls : List Call
calls = create_element 2 12 ∷ create_text 3 (codes "milk") ∷ append_child 2 3 ∷ []

calls-run : run empty calls ≡ record {
  ops =
      1 ∷ 0 ∷ 0 ∷ 0 ∷ 2 ∷ 0 ∷ 0 ∷ 0 ∷ 12 ∷ 0 ∷ 0 ∷ 0 ∷ 255 ∷ 255 ∷ 255 ∷ 255 ∷ 2 ∷ 0 ∷ 0 ∷ 0 ∷ 3 ∷ 0
      ∷ 0 ∷ 0 ∷ 0 ∷ 0 ∷ 0 ∷ 0 ∷ 0 ∷ 0 ∷ 0 ∷ 0 ∷ 8 ∷ 0 ∷ 0 ∷ 0 ∷ 2 ∷ 0 ∷ 0 ∷ 0 ∷ 3 ∷ 0 ∷ 0 ∷ 0 ∷ 255
      ∷ 255 ∷ 255 ∷ 255 ∷ [];
  heap = 4 ∷ 0 ∷ 0 ∷ 0 ∷ 109 ∷ 105 ∷ 108 ∷ 107 ∷ [];
  count = 3;
}
unfolding run perform Batch.append_child Batch.create_text Batch.create_element pad_heap u16_to_le
    u32_to_le
calls-run = refl

utf8 : IsUtf8 (codes "milk")
unfolding is_utf8 first_char
utf8 = refl

fits : 16 + length (run empty calls).ops + length (run empty calls).heap < 2 ^ 32
fits = omega (arith, ap (λ b. length b.ops) calls-run, ap (λ b. length b.heap) calls-run)

abbrev waiting : Shared Bytes Unit
waiting = record guest { batches = [] ∷ [] }

decode_batch-encode_example : decode_batch (encode (run empty calls)) ≡ ok (map meaning calls)
decode_batch-encode_example =
    decode_batch-encode calls
      ((omega arith, omega arith), ((omega arith, utf8), ((omega arith, omega arith), tt))) fits

-- A header that promises more than there is.
abbrev short : Bytes
short = 1 ∷ 2 ∷ 3 ∷ []

decode_batch-Completes_example : Completes (decode_batch short)
decode_batch-Completes_example = decode_batch-Completes short

-- The batch stands at the third byte of the guest's memory, and one batch waits.
submit-queues_example :
    submit (host_of (7 ∷ 7 ∷ []) (9 ∷ [])) (run empty calls) waiting
    ≡ (0, empty, record waiting { batches = ([] ∷ []) ++ (map meaning calls ∷ []) })
submit-queues_example =
    submit-queues (7 ∷ 7 ∷ []) (9 ∷ []) (create_element 2 12)
      (create_text 3 (codes "milk") ∷ append_child 2 3 ∷ []) waiting
      ((omega arith, omega arith), ((omega arith, utf8), ((omega arith, omega arith), tt))) fits

parse_request-rpc_buffer_example :
    parse_request (rpc_buffer (codes "search") (codes "s") (codes "find") (1 ∷ []) 2)
    ≡ ok (record {
      service = codes "search";
      iface = codes "s";
      method = codes "find";
      payload = 1 ∷ [];
      want_session = true;
    })
unfolding is_utf8 first_char
parse_request-rpc_buffer_example =
    parse_request-rpc_buffer (codes "search") (codes "s") (codes "find") (1 ∷ []) 2
      (refl, refl, refl) (omega arith, omega arith, omega arith, omega arith)
