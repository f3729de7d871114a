-- ===== src/Abi/Decode.antt =====
-- `decode_batch` of renderer/src/abi.rs. A `usize` has 64 bits and every sum is of two numbers
-- below 2 ^ 36, so the sums do not wrap.
pub mod Safety
use wasibrowser.Prelude.{
  ℕ, zero, suc, ◌+◌, ◌*◌, List, [], ◌∷◌, ◌||◌, Bool, if◌then◌else◌, ltb, ◌==◌, not, length,
}
use wasibrowser.Bytes.{Bytes, Res, ok, err, ◌>>=◌, slice, index, u16_at, u32_at}
use wasibrowser.Utf8.{from_utf8_lossy}
use wasibrowser.Abi.{
  Op, create_element, create_text, set_attr, remove_attr, set_text, set_style, remove_style,
  append_child, insert_before, remove, replace_with, clear, set_inner_html, define_atom, listen,
  unlisten, observe, unobserve, focus,
}

-- The messages of `bail!`.
pub data DecodeError : Type 0 where
  batch_too_short bad_magic batch_bounds str_offset_out_of_range str_out_of_range : DecodeError
  unsupported_op : (code index : ℕ) → DecodeError

abbrev pub DecodeResult : Type 0 → Type 0
DecodeResult A = Res DecodeError A

-- `u32::from_le_bytes(*b"GWB1")`
abbrev pub magic : ℕ
magic = 0x31425747

abbrev pub no_str : ℕ
no_str = 0xffff_ffff

-- A string of the heap, at the offset `d`.
unfoldable pub get_str : Bytes → ℕ → DecodeResult Bytes
get_str heap d =
    if d == no_str
    then ok []
    else if ltb (length heap) (d + 4)
    then err str_offset_out_of_range
    else do
      len ← u32_at heap d
      if ltb (length heap) (d + 4 + len)
          then err str_out_of_range
          else do s ← slice heap (d + 4) (d + 4 + len); ok (from_utf8_lossy s)

-- The operation of the record `i`, from its fields.
unfoldable pub decode_op : Bytes → ℕ → ℕ → ℕ → ℕ → ℕ → ℕ → DecodeResult Op
decode_op heap i code a b c d =
    if code == 1
    then ok (create_element b c)
    else if code == 2
    then (do text ← get_str heap d; ok (create_text b text))
    else if code == 3
    then (do value ← get_str heap d; ok (set_attr b c value))
    else if code == 4
    then ok (remove_attr b c)
    else if code == 5
    then (do text ← get_str heap d; ok (set_text b text))
    else if code == 6
    then (do value ← get_str heap d; ok (set_style b c value))
    else if code == 7
    then ok (remove_style b c)
    else if code == 8
    then ok (append_child b c)
    else if code == 9
    then ok (insert_before c d)
    else if code == 10
    then ok (remove b)
    else if code == 11
    then ok (replace_with b c)
    else if code == 12
    then ok (clear b)
    else if code == 13
    then (do html ← get_str heap d; ok (set_inner_html b html))
    else if code == 14
    then (do name ← get_str heap d; ok (define_atom b name))
    else if code == 15
    then ok (listen b a)
    else if code == 16
    then ok (unlisten b a)
    else if code == 17
    then ok (observe b c)
    else if code == 18
    then ok (unobserve b c)
    else if code == 19
    then ok (focus b)
    else err (unsupported_op code i)

unfoldable pub decode_record : Bytes → Bytes → ℕ → DecodeResult Op
decode_record bytes heap i = do
  let r = 16 + i * 16
  code ← index bytes r
  a ← u16_at bytes (r + 2)
  b ← u32_at bytes (r + 4)
  c ← u32_at bytes (r + 8)
  d ← u32_at bytes (r + 12)
  decode_op heap i code a b c d

-- The loop over the records, with `n` of them left from `i` on.
unfoldable pub decode_records : Bytes → Bytes → ℕ → ℕ → DecodeResult (List Op)
decode_records bytes heap zero i = ok []
decode_records bytes heap (suc n) i = do
  op ← decode_record bytes heap i
  ops ← decode_records bytes heap n (i + 1)
  ok (op ∷ ops)

unfoldable pub out_of_bounds : Bytes → ℕ → ℕ → ℕ → Bool
out_of_bounds bytes op_count heap_off heap_len =
    ltb (length bytes) (heap_off + heap_len) || ltb (length bytes) (16 + op_count * 16)

unfoldable pub decode_batch : Bytes → DecodeResult (List Op)
unfolding out_of_bounds
decode_batch bytes = if ltb (length bytes) 16 then err batch_too_short else do
  word ← u32_at bytes 0
  if not (word == magic) then err bad_magic else do
    op_count ← u32_at bytes 4
    heap_off ← u32_at bytes 8
    heap_len ← u32_at bytes 12
    if out_of_bounds bytes op_count heap_off heap_len then err batch_bounds else do
      heap ← slice bytes heap_off (heap_off + heap_len)
      decode_records bytes heap op_count 0
