-- ===== src/Wire/Records.antt =====
-- One record: the fields that a call writes, and that the decoder reads back.
use wasibrowser.Prelude.{
  ℕ, ◌+◌, ◌*◌, ◌<◌, ◌≡◌, refl, sym, [], ◌∷◌, ◌++◌, append_assoc, arith, length, length-append,
}
use wasibrowser.Bytes.{Bytes, u16_to_le, u32_to_le, ok, index, u16_at, u32_at, slice}
use wasibrowser.Bytes.Laws.{
  index-append, u16_at-append, u32_at-append, slice-append, length-u16_to_le, length-u32_to_le,
}
use wasibrowser.Utf8.{IsUtf8}
use wasibrowser.Utf8.Laws.{from_utf8_lossy-of_utf8}
use wasibrowser.Abi.Decode.{DecodeError, get_str, decode_op, decode_record}
use wasibrowser.Sdk.Batch
use wasibrowser.Sdk.Batch.{Batch, as_u32, no_str, op, str, pad_heap}
use wasibrowser.Wire.{Call, perform, meaning, IsTyped, IsU32, IsU16}

pub data Payload : Type 0 where
  word : (d : ℕ) → Payload
  text : (t : Bytes) → Payload

-- code, `a`, `b`, `c`, and the number `d` or the text whose offset is `d`
abbrev pub Fields : Type 0
Fields = ℕ × ℕ × ℕ × ℕ × Payload

abbrev pub fields : Call → Fields
fields (Call.create_element id tag) = (1, 0, id, tag, word no_str)
fields (Call.create_text id t) = (2, 0, id, 0, text t)
fields (Call.set_attr id name t) = (3, 0, id, name, text t)
fields (Call.remove_attr id name) = (4, 0, id, name, word no_str)
fields (Call.set_text id t) = (5, 0, id, 0, text t)
fields (Call.set_style id prop t) = (6, 0, id, prop, text t)
fields (Call.remove_style id prop) = (7, 0, id, prop, word no_str)
fields (Call.append_child parent child) = (8, 0, parent, child, word no_str)
fields (Call.insert_before parent child before) = (9, 0, parent, child, word before)
fields (Call.remove id) = (10, 0, id, 0, word no_str)
fields (Call.replace_with old new) = (11, 0, old, new, word no_str)
fields (Call.clear id) = (12, 0, id, 0, word no_str)
fields (Call.set_inner_html id t) = (13, 0, id, 0, text t)
fields (Call.define_atom atom t) = (14, 0, atom, 0, text t)
fields (Call.listen id kind) = (15, kind, id, 0, word no_str)
fields (Call.unlisten id kind) = (16, kind, id, 0, word no_str)
fields (Call.observe id what) = (17, 0, id, what, word no_str)
fields (Call.unobserve id what) = (18, 0, id, what, word no_str)
fields (Call.focus id) = (19, 0, id, 0, word no_str)

abbrev pub write : Batch → Fields → Batch
write self (code, a, b, c, word d) = op self code a b c d
write self (code, a, b, c, text t) = op (str self t).0 code a b c (str self t).1

pub perform-write : (self : Batch) (call : Call) → perform self call ≡ write self (fields call)
unfolding perform Batch.create_element Batch.create_text Batch.set_attr Batch.remove_attr
    Batch.set_text Batch.set_style Batch.remove_style Batch.append_child Batch.insert_before
    Batch.remove Batch.replace_with Batch.clear Batch.set_inner_html Batch.define_atom Batch.listen
    Batch.unlisten Batch.observe Batch.unobserve Batch.focus
perform-write self (Call.create_element id tag) = refl
perform-write self _ = refl

abbrev pub HasRange : Fields → Type 0
HasRange (code, a, b, c, word d) = IsU16 a × IsU32 b × IsU32 c × IsU32 d
HasRange (code, a, b, c, text t) = IsU16 a × IsU32 b × IsU32 c × IsUtf8 t

pub fields-HasRange : (call : Call) → IsTyped call → HasRange (fields call)
fields-HasRange (Call.create_element id tag) h = ground arith
fields-HasRange _ h = ground arith

-- the offset or number in the last field
abbrev pub Reads : Bytes → Payload → ℕ → Type 0
Reads heap (word d) e = e ≡ d
Reads heap (text t) e = get_str heap e ≡ ok t

pub decode_op-fields :
    (heap : Bytes) (i d : ℕ) (call : Call)
    → Reads heap (fields call).4 d
    → decode_op heap i (fields call).0 (fields call).1 (fields call).2 (fields call).3 d
      ≡ ok (meaning call)
unfolding decode_op
decode_op-fields heap i d (Call.create_element id tag) h = refl
decode_op-fields heap i d _ h = ground arith

unfoldable pub record_of : ℕ → ℕ → ℕ → ℕ → ℕ → Bytes
record_of code a b c d = code ∷ 0 ∷ (u16_to_le a ++ (u32_to_le b ++ (u32_to_le c ++ u32_to_le d)))

pub length-record_of : (code a b c d : ℕ) → length (record_of code a b c d) ≡ 16
unfolding record_of u16_to_le u32_to_le
length-record_of code a b c d = refl

pub u32_read :
    (bytes pre post : Bytes) (n off : ℕ)
    → bytes ≡ pre ++ (u32_to_le n ++ post)
    → IsU32 n
    → off ≡ length pre
    → u32_at {E = DecodeError} bytes off ≡ ok n
u32_read bytes pre post n off e hn ho = rw e (u32_at-append pre post n off hn ho)

pub u16_read :
    (bytes pre post : Bytes) (n off : ℕ)
    → bytes ≡ pre ++ (u16_to_le n ++ post)
    → IsU16 n
    → off ≡ length pre
    → u16_at {E = DecodeError} bytes off ≡ ok n
u16_read bytes pre post n off e hn ho = rw e (u16_at-append pre post n off hn ho)

pub decode_record-append :
    (pre post heap : Bytes) (i code a b c d : ℕ)
    → length pre ≡ 16 + i * 16
    → IsU16 a
    → IsU32 b
    → IsU32 c
    → IsU32 d
    → decode_record (pre ++ (record_of code a b c d ++ post)) heap i ≡ decode_op heap i code a b c d
unfolding decode_record record_of
decode_record-append pre post heap i code a b c d h ha hb hc hd = rw (e0, e1, e2, e3, e4) refl
  where
    p1 : Bytes
    p1 = pre ++ (code ∷ 0 ∷ [])

    p2 : Bytes
    p2 = p1 ++ u16_to_le a

    p3 : Bytes
    p3 = p2 ++ u32_to_le b

    p4 : Bytes
    p4 = p3 ++ u32_to_le c

    l1 : length p1 ≡ length pre + 2
    l1 = length-append pre (code ∷ 0 ∷ [])

    l2 : length p2 ≡ length pre + 4
    l2 = omega (arith, l1, length-append p1 (u16_to_le a), length-u16_to_le a)

    l3 : length p3 ≡ length pre + 8
    l3 = omega (arith, l2, length-append p2 (u32_to_le b), length-u32_to_le b)

    l4 : length p4 ≡ length pre + 12
    l4 = omega (arith, l3, length-append p3 (u32_to_le c), length-u32_to_le c)

    bytes : Bytes
    bytes = pre ++ (record_of code a b c d ++ post)

    e0 : index {E = DecodeError} bytes (16 + i * 16) ≡ ok code
    e0 = index-append pre _ code _ (sym h)

    e1 : u16_at {E = DecodeError} bytes (16 + i * 16 + 2) ≡ ok a
    e1 =
        u16_read bytes p1 (u32_to_le b ++ (u32_to_le c ++ (u32_to_le d ++ post))) a _
          (simp append_assoc) ha (omega (arith, l1))

    e2 : u32_at {E = DecodeError} bytes (16 + i * 16 + 4) ≡ ok b
    e2 =
        u32_read bytes p2 (u32_to_le c ++ (u32_to_le d ++ post)) b _ (simp append_assoc) hb
          (omega (arith, l2))

    e3 : u32_at {E = DecodeError} bytes (16 + i * 16 + 8) ≡ ok c
    e3 = u32_read bytes p3 (u32_to_le d ++ post) c _ (simp append_assoc) hc (omega (arith, l3))

    e4 : u32_at {E = DecodeError} bytes (16 + i * 16 + 12) ≡ ok d
    e4 = u32_read bytes p4 post d _ (simp append_assoc) hd (omega (arith, l4))

-- A text that stands in the heap behind its length.
pub get_str-append :
    (h t more : Bytes)
    → IsUtf8 t
    → length h < no_str
    → IsU32 (length t)
    → get_str (h ++ (u32_to_le (length t) ++ (t ++ more))) (length h) ≡ ok t
unfolding get_str
get_str-append h t more ht hh hl = ground (
  arith,
  u32_at-append {E = DecodeError} h (t ++ more) (length t) (length h) hl refl,
  cut,
  from_utf8_lossy-of_utf8 t ht,
  length-append h (u32_to_le (length t) ++ (t ++ more)),
  length-append (u32_to_le (length t)) (t ++ more),
  length-append t more,
  length-u32_to_le (length t),
)
  where
    cut :
        slice {E = DecodeError}
          (h ++ (u32_to_le (length t) ++ (t ++ more)))
          (length h + 4)
          (length h + 4 + length t)
        ≡ ok t
    cut = rw append_assoc at (
        slice-append {E = DecodeError} (h ++ u32_to_le (length t)) t more (length h + 4)
          (length h + 4 + length t)
          (omega (arith, length-append h (u32_to_le (length t)), length-u32_to_le (length t)))
          (omega (arith, length-append h (u32_to_le (length t)), length-u32_to_le (length t))))
