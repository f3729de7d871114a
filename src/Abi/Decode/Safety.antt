-- ===== src/Abi/Decode/Safety.antt =====
-- Decoding never panics.
use wasibrowser.Prelude.{ℕ, zero, suc, ◌+◌, ◌*◌, ◌≤◌, ltb, ◌==◌, not, length, arith}
use wasibrowser.Bytes.{Bytes, slice, index, u16_at, u32_at}
use wasibrowser.Bytes.Laws.{index-ok, slice-total, u16_at-total, u32_at-total}
use wasibrowser.Bytes.Completes.{
  Completes, ok-Completes, err-Completes, eq_ok-Completes, if-Completes, bind-Completes,
}
use wasibrowser.Abi.Decode.{
  DecodeError, no_str, magic, get_str, decode_op, decode_record, decode_records, decode_batch,
  out_of_bounds,
}

u32_at-Completes :
    (bytes : Bytes) (off : ℕ)
    → off + 4 ≤ length bytes
    → Completes (u32_at {E = DecodeError} bytes off)
u32_at-Completes bytes off h = let (n, e) = u32_at-total bytes off h in eq_ok-Completes _ n e

u16_at-Completes :
    (bytes : Bytes) (off : ℕ)
    → off + 2 ≤ length bytes
    → Completes (u16_at {E = DecodeError} bytes off)
u16_at-Completes bytes off h = let (n, e) = u16_at-total bytes off h in eq_ok-Completes _ n e

index-Completes :
    (bytes : Bytes) (i : ℕ) → i + 1 ≤ length bytes → Completes (index {E = DecodeError} bytes i)
index-Completes bytes i h = let (b, e) = index-ok bytes i (omega arith) in eq_ok-Completes _ b e

slice-Completes :
    (bytes : Bytes) (from to : ℕ)
    → from ≤ to
    → to ≤ length bytes
    → Completes (slice {E = DecodeError} bytes from to)
slice-Completes bytes from to h k =
    let (b, e) = slice-total bytes from to h k in eq_ok-Completes _ b e

get_str-Completes : (heap : Bytes) (d : ℕ) → Completes (get_str heap d)
unfolding get_str
get_str-Completes heap d =
    if-Completes (d == no_str) _ _ (λ _. ok-Completes _)
      λ _.
        if-Completes (ltb (length heap) (d + 4)) _ _ (λ _. err-Completes _)
          λ room. bind-Completes _ _ (u32_at-Completes heap d (ground arith)) λ len _.
            if-Completes (ltb (length heap) (d + 4 + len)) _ _ (λ _. err-Completes _)
              λ fits.
                bind-Completes _ _
                  (slice-Completes heap (d + 4) (d + 4 + len) (omega arith) (ground arith))
                  λ s _. ok-Completes _

decode_op-Completes :
    (heap : Bytes) (i code a b c d : ℕ) → Completes (decode_op heap i code a b c d)
unfolding decode_op
decode_op-Completes heap i code a b c d = ground (arith, get_str-Completes heap d)

decode_record-Completes :
    (bytes heap : Bytes) (i : ℕ)
    → 32 + i * 16 ≤ length bytes
    → Completes (decode_record bytes heap i)
unfolding decode_record
decode_record-Completes bytes heap i h =
    bind-Completes _ _ (index-Completes bytes _ (omega arith)) λ code _.
      bind-Completes _ _ (u16_at-Completes bytes _ (omega arith)) λ a _.
        bind-Completes _ _ (u32_at-Completes bytes _ (omega arith)) λ b _.
          bind-Completes _ _ (u32_at-Completes bytes _ (omega arith)) λ c _.
            bind-Completes _ _ (u32_at-Completes bytes _ (omega arith))
              λ d _. decode_op-Completes heap i code a b c d

decode_records-Completes :
    (bytes heap : Bytes) (n i : ℕ)
    → 16 + (i + n) * 16 ≤ length bytes
    → Completes (decode_records bytes heap n i)
unfolding decode_records
decode_records-Completes bytes heap zero i h = ok-Completes _
decode_records-Completes bytes heap (suc n) i h =
    bind-Completes _ _ (decode_record-Completes bytes heap i (omega arith)) λ op _.
      bind-Completes _ _ (decode_records-Completes bytes heap n (i + 1) (omega arith))
        λ ops _. ok-Completes _

-- On any bytes at all `decode_batch` returns operations or an error: no slice or index in it is
-- out of bounds.
pub decode_batch-Completes : (bytes : Bytes) → Completes (decode_batch bytes)
unfolding decode_batch out_of_bounds
decode_batch-Completes bytes =
    if-Completes (ltb (length bytes) 16) _ _ (λ _. err-Completes _)
      λ long. bind-Completes _ _ (u32_at-Completes bytes 0 (ground arith)) λ word _.
        if-Completes (not (word == magic)) _ _ (λ _. err-Completes _)
          λ _. bind-Completes _ _ (u32_at-Completes bytes 4 (ground arith)) λ op_count _.
            bind-Completes _ _ (u32_at-Completes bytes 8 (ground arith)) λ heap_off _.
              bind-Completes _ _ (u32_at-Completes bytes 12 (ground arith)) λ heap_len _.
                if-Completes (out_of_bounds bytes op_count heap_off heap_len) _ _
                  (λ _. err-Completes _)
                  λ fits.
                    bind-Completes _ _
                      (slice-Completes bytes heap_off (heap_off + heap_len) (omega arith)
                        (ground arith))
                      λ heap _. decode_records-Completes bytes heap op_count 0 (ground arith)
