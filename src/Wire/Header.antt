-- ===== src/Wire/Header.antt =====
-- The header of an encoded batch, and the whole round trip of a batch.
use wasibrowser.Prelude.{
  ℕ, ◌+◌, ◌*◌, ◌^◌, ◌<◌, ◌≡◌, refl, ap, ◌∙◌, List, [], ◌∷◌, ◌++◌, append_assoc, append-nil, map,
  arith, length, length-append, All,
}
use wasibrowser.Bytes.{Bytes, u32_to_le, ok, u32_at, slice}
use wasibrowser.Bytes.Laws.{slice-append}
use wasibrowser.Abi.Decode.{DecodeError, decode_records, decode_batch, magic}
use wasibrowser.Sdk.Batch.{Batch, as_u32, encode, empty}
use wasibrowser.Wire.{Call, perform, run, meaning, IsTyped}
use wasibrowser.Wire.Records.{fields, perform-write, u32_read}
use wasibrowser.Wire.RoundTrip.{write-count, length-perform_ops, decode_records-run}

pub length-run_ops :
    (self : Batch) (calls : List Call)
    → All IsTyped calls
    → length (run self calls).ops ≡ length self.ops + length calls * 16
unfolding run
length-run_ops self [] h = omega arith
length-run_ops self (call ∷ calls) (h, hs) =
    omega (arith, length-run_ops (perform self call) calls hs, length-perform_ops self call h)

pub run-count :
    (self : Batch) (calls : List Call)
    → self.count + length calls < 2 ^ 32
    → (run self calls).count ≡ self.count + length calls
unfolding run
run-count self [] h = omega arith
run-count self (call ∷ calls) h =
    let first : (perform self call).count ≡ self.count + 1 =
      ap (λ b. b.count) (perform-write self call) ∙ write-count self (fields call) ∙ omega arith in
    omega (arith, first, run-count (perform self call) calls (omega (arith, first)))

-- The header of `count`, `heap_off` and `heap_len`.
header : ℕ → ℕ → ℕ → Bytes
header count off len = u32_to_le magic ++ (u32_to_le count ++ (u32_to_le off ++ u32_to_le len))

length-header : (count off len : ℕ) → length (header count off len) ≡ 16
unfolding header u32_to_le
length-header count off len = refl

message : ℕ → ℕ → Bytes → Bytes → Bytes
message count len ops heap = header count (16 + length ops) len ++ (ops ++ heap)

module _ (count len : ℕ) (ops heap : Bytes) (h_ops : length ops ≡ count * 16)
    (h_len : length heap ≡ len) (fits : 16 + length ops + length heap < 2 ^ 32) where
  abbrev off : ℕ
  off = 16 + length ops

  size : length (message count len ops heap) ≡ 16 + length ops + length heap
  unfolding message
  size = omega (
    arith,
    length-append (header count off len) (ops ++ heap),
    length-append ops heap,
    length-header count off len,
  )

  word_0 : u32_at {E = DecodeError} (message count len ops heap) 0 ≡ ok magic
  unfolding message header u32_to_le
  word_0 =
      u32_read (message count len ops heap) []
        (u32_to_le count ++ (u32_to_le off ++ (u32_to_le len ++ (ops ++ heap)))) magic 0 refl
        (omega arith) refl

  word_4 : u32_at {E = DecodeError} (message count len ops heap) 4 ≡ ok count
  unfolding message header u32_to_le
  word_4 =
      u32_read (message count len ops heap) (u32_to_le magic)
        (u32_to_le off ++ (u32_to_le len ++ (ops ++ heap))) count 4 refl (omega arith) refl

  word_8 : u32_at {E = DecodeError} (message count len ops heap) 8 ≡ ok off
  unfolding message header u32_to_le
  word_8 =
      u32_read (message count len ops heap) (u32_to_le magic ++ u32_to_le count)
        (u32_to_le len ++ (ops ++ heap)) off 8 refl (omega arith) refl

  word_12 : u32_at {E = DecodeError} (message count len ops heap) 12 ≡ ok len
  unfolding message header u32_to_le
  word_12 =
      u32_read (message count len ops heap) (u32_to_le magic ++ (u32_to_le count ++ u32_to_le off))
        (ops ++ heap) len 12 refl (omega arith) refl

  cut : slice {E = DecodeError} (message count len ops heap) off (off + len) ≡ ok heap
  unfolding message
  cut =
      rw (append-nil, append_assoc) at
        (slice-append {E = DecodeError} (header count off len ++ ops) heap [] off (off + len)
          (omega (arith, sizes)) (omega (arith, sizes)))
    where
      sizes : length (header count off len ++ ops) ≡ off
      sizes = omega (arith, length-append (header count off len) ops, length-header count off len)

  decode_batch-header :
      decode_batch (message count len ops heap)
      ≡ decode_records (message count len ops heap) heap count 0
  unfolding decode_batch
  decode_batch-header = ground (arith, size, word_0, word_4, word_8, word_12, cut)

-- The buffer that `encode` makes, where nothing in it is cut off by `as u32`.
encode-header :
    (b : Batch)
    → 16 + length b.ops + length b.heap < 2 ^ 32
    → encode b ≡ header b.count (16 + length b.ops) (length b.heap) ++ (b.ops ++ b.heap)
unfolding encode header u32_to_le
encode-header b fits =
    let off : as_u32 (16 + as_u32 (length b.ops)) ≡ 16 + length b.ops = omega arith in
    let len : as_u32 (length b.heap) ≡ length b.heap = omega arith in
    ap
      (λ o.
        u32_to_le magic
        ++ (u32_to_le b.count
            ++ (u32_to_le o ++ (u32_to_le (as_u32 (length b.heap)) ++ (b.ops ++ b.heap)))))
      off
    ∙ ap
        (λ n.
          u32_to_le magic
          ++ (u32_to_le b.count
              ++ (u32_to_le (16 + length b.ops) ++ (u32_to_le n ++ (b.ops ++ b.heap)))))
        len

-- A fresh batch after any calls whose buffer is shorter than 2 ^ 32 bytes, once encoded, is decoded
-- by the host to exactly the operations that the calls mean, in their order and with their texts.
pub decode_batch-encode :
    (calls : List Call)
    → All IsTyped calls
    → 16 + length (run empty calls).ops + length (run empty calls).heap < 2 ^ 32
    → decode_batch (encode (run empty calls)) ≡ ok (map meaning calls)
unfolding message
decode_batch-encode calls typed fits =
    let b : Batch = run empty calls in
    let ops_len : length b.ops ≡ length calls * 16 =
      omega (arith, length-run_ops empty calls typed) in
    let count : b.count ≡ length calls =
      omega (arith, run-count empty calls (omega (arith, ops_len))) in
    let head : Bytes = header b.count (16 + length b.ops) (length b.heap) in
    ap decode_batch (encode-header b fits)
    ∙ decode_batch-header b.count (length b.heap) b.ops b.heap (omega (arith, ops_len, count)) refl
        fits
    ∙ ap (λ n. decode_records (head ++ (b.ops ++ b.heap)) b.heap n 0) count
    ∙ decode_records-run head b.heap (length-header b.count (16 + length b.ops) (length b.heap))
        empty calls 0 typed refl (omega arith)
