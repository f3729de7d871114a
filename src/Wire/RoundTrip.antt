-- ===== src/Wire/RoundTrip.antt =====
-- A batch that `encode` writes is decoded to the operations that the calls mean.
use wasibrowser.Prelude.{
  ℕ, zero, suc, ◌+◌, ◌*◌, ◌%◌, ◌<◌, ◌≡◌, refl, sym, ap, ◌∙◌, List, [], ◌∷◌, ◌++◌, append_assoc,
  append-nil, map, arith, length, length-append, ◌==◌, All, subst, Bool-cases, inl, inr,
}
use wasibrowser.Bytes.{Bytes, u32_to_le, ok}
use wasibrowser.Utf8.{IsUtf8}
use wasibrowser.Abi.Decode.{get_str, decode_record, decode_records}
use wasibrowser.Sdk.Batch.{Batch, as_u32, no_str, op, str, pad_heap}
use wasibrowser.Wire.{Call, perform, run, meaning, IsTyped, IsU32, IsU16}
use wasibrowser.Wire.Records.{
  word, text, Fields, fields, write, perform-write, fields-HasRange, HasRange, Reads, record_of,
  get_str-append, decode_op-fields, decode_record-append, length-record_of,
}

pad_heap-append : (fuel : ℕ) (heap : Bytes) → (p : Bytes) × (pad_heap fuel heap ≡ heap ++ p)
unfolding pad_heap
pad_heap-append zero heap = ([], sym (append-nil heap))
pad_heap-append (suc fuel) heap = elim (Bool-cases (length heap % 4 == 0)) [
  | inl done ↦ ([], rw done (sym (append-nil heap)))
  | inr more ↦
      let (p, e) = pad_heap-append fuel (heap ++ (0 ∷ [])) in
      (0 ∷ p, rw more (e ∙ append_assoc heap (0 ∷ []) p))
]

-- What one call adds to a batch: a record with the last field `d`, and `s` to the heap. In every
-- longer heap of a size that the format allows, the record reads back.
record Adds (self : Batch) (f : Fields) : Type 0 where
  d : ℕ
  s : Bytes
  ops_eq : (write self f).ops ≡ self.ops ++ record_of f.0 f.1 f.2 f.3 d
  heap_eq : (write self f).heap ≡ self.heap ++ s
  reads :
      (more : Bytes)
      → length (self.heap ++ (s ++ more)) < no_str
      → IsU32 d × Reads (self.heap ++ (s ++ more)) f.4 d

as_u32-id : (n : ℕ) → n < no_str → as_u32 n ≡ n
as_u32-id n h = omega arith

text-reads :
    (h t p more : Bytes)
    → IsUtf8 t
    → length (h ++ ((u32_to_le (as_u32 (length t)) ++ t ++ p) ++ more)) < no_str
    → IsU32 (as_u32 (length h))
      × (get_str (h ++ ((u32_to_le (as_u32 (length t)) ++ t ++ p) ++ more)) (as_u32 (length h))
          ≡ ok t)
text-reads h t p more ht bound = (
  omega (arith, small),
  ap (λ B. get_str B (as_u32 (length h))) same_heap
      ∙ ap (get_str (h ++ (u32_to_le (length t) ++ (t ++ (p ++ more)))))
          (as_u32-id (length h) (omega (arith, small)))
      ∙ get_str-append h t (p ++ more) ht (omega (arith, small)) (omega (arith, small)),
)
  where
    word_t : Bytes
    word_t = u32_to_le (as_u32 (length t))

    small : length h + length t < no_str
    small = omega (
      arith,
      length-append h ((word_t ++ t ++ p) ++ more),
      length-append (word_t ++ t ++ p) more,
      length-append (word_t ++ t) p,
      length-append word_t t,
    )

    same_heap :
        h ++ ((word_t ++ t ++ p) ++ more) ≡ h ++ (u32_to_le (length t) ++ (t ++ (p ++ more)))
    same_heap = simp append_assoc (
        ap (λ n. h ++ (u32_to_le n ++ (t ++ (p ++ more))))
          (as_u32-id (length t) (omega (arith, small))))

write-Adds : (self : Batch) (f : Fields) → HasRange f → Adds self f
unfolding op str record_of
write-Adds self (code, a, b, c, word d) h = record {
  d = d;
  s = [];
  ops_eq = refl;
  heap_eq = sym (append-nil self.heap);
  reads = λ more _. (h.3, refl);
}
write-Adds self (code, a, b, c, text t) h =
    let entry : Bytes = u32_to_le (as_u32 (length t)) ++ t in
    let (p, e) = pad_heap-append 3 (self.heap ++ entry) in
    record {
      d = as_u32 (length self.heap);
      s = entry ++ p;
      ops_eq = refl;
      heap_eq = e ∙ append_assoc self.heap entry p;
      reads = λ more bound. text-reads self.heap t p more h.3 bound;
    }

pub write-count : (self : Batch) (f : Fields) → (write self f).count ≡ as_u32 (self.count + 1)
unfolding op str
write-count self (code, a, b, c, word d) = refl
write-count self (code, a, b, c, text t) = refl

-- What a run of calls adds to a batch.
record Grows (self : Batch) (calls : List Call) : Type 0 where
  more_ops : Bytes
  more_heap : Bytes
  ops_eq : (run self calls).ops ≡ self.ops ++ more_ops
  heap_eq : (run self calls).heap ≡ self.heap ++ more_heap

run-Grows : (self : Batch) (calls : List Call) → All IsTyped calls → Grows self calls
unfolding run
run-Grows self [] h = record {
  more_ops = [];
  more_heap = [];
  ops_eq = sym (append-nil self.ops);
  heap_eq = sym (append-nil self.heap);
}
run-Grows self (call ∷ calls) (h, hs) =
    let added = write-Adds self (fields call) (fields-HasRange call h) in
    let grown = run-Grows (perform self call) calls hs in
    record {
      more_ops =
          record_of (fields call).0 (fields call).1 (fields call).2 (fields call).3 added.d
          ++ grown.more_ops;
      more_heap = added.s ++ grown.more_heap;
      ops_eq =
          grown.ops_eq
          ∙ ap (λ x. x ++ grown.more_ops) (ap (λ b. b.ops) (perform-write self call) ∙ added.ops_eq)
          ∙ append_assoc self.ops _ grown.more_ops;
      heap_eq =
          grown.heap_eq
          ∙ ap (λ x. x ++ grown.more_heap)
              (ap (λ b. b.heap) (perform-write self call) ∙ added.heap_eq)
          ∙ append_assoc self.heap added.s grown.more_heap;
    }

ranges : (f : Fields) → HasRange f → IsU16 f.1 × IsU32 f.2 × IsU32 f.3
ranges (code, a, b, c, word d) h = (h.0, h.1, h.2)
ranges (code, a, b, c, text t) h = (h.0, h.1, h.2)

pub length-perform_ops :
    (self : Batch) (call : Call)
    → IsTyped call
    → length (perform self call).ops ≡ length self.ops + 16
length-perform_ops self call h =
    let added = write-Adds self (fields call) (fields-HasRange call h) in
    ap (λ b. length b.ops) (perform-write self call)
    ∙ ap (λ (x : Bytes). length x) added.ops_eq
    ∙ length-append self.ops _
    ∙ ap (λ n. length self.ops + n) (length-record_of _ _ _ _ added.d)

-- The first record of what follows `self`, and the heap that it needs, at the end of the run.
record First (self : Batch) (call : Call) (calls : List Call) : Type 0 where
  d : ℕ
  more_ops : Bytes
  ops_eq :
      (run (perform self call) calls).ops
      ≡ self.ops
        ++ (record_of (fields call).0 (fields call).1 (fields call).2 (fields call).3 d ++ more_ops)
  d_range : IsU32 d
  reads : Reads (run (perform self call) calls).heap (fields call).4 d

run-First :
    (self : Batch) (call : Call) (calls : List Call)
    → IsTyped call
    → All IsTyped calls
    → length (run (perform self call) calls).heap < no_str
    → First self call calls
run-First self call calls h hs bound =
    let added = write-Adds self (fields call) (fields-HasRange call h) in
    let grown = run-Grows (perform self call) calls hs in
    let heap_eq : (run (perform self call) calls).heap ≡ self.heap ++ (added.s ++ grown.more_heap) =
      grown.heap_eq
      ∙ ap (λ x. x ++ grown.more_heap) (ap (λ b. b.heap) (perform-write self call) ∙ added.heap_eq)
      ∙ append_assoc self.heap added.s grown.more_heap in
    let both = added.reads grown.more_heap (rw heap_eq at bound) in
    record {
      d = added.d;
      more_ops = grown.more_ops;
      ops_eq =
          grown.ops_eq
          ∙ ap (λ x. x ++ grown.more_ops) (ap (λ b. b.ops) (perform-write self call) ∙ added.ops_eq)
          ∙ append_assoc self.ops _ grown.more_ops;
      d_range = both.0;
      reads = subst (λ x. Reads x (fields call).4 added.d) (sym heap_eq) both.1;
    }

module _ (pre post : Bytes) (pre_len : length pre ≡ 16) where
  abbrev pub buffer : Batch → Bytes
  buffer b = pre ++ (b.ops ++ post)

  decode_first :
      (self : Batch) (call : Call) (calls : List Call) (i : ℕ)
      → IsTyped call
      → All IsTyped calls
      → length self.ops ≡ i * 16
      → length (run (perform self call) calls).heap < no_str
      → decode_record
          (buffer (run (perform self call) calls))
          (run (perform self call) calls).heap
          i
        ≡ ok (meaning call)
  decode_first self call calls i h hs at bound =
      let (code, a, b, c, payload) = fields call in
      let first = run-First self call calls h hs bound in
      let (ra, rb, rc) = ranges (fields call) (fields-HasRange call h) in
      let end : Batch = run (perform self call) calls in
      let cut : buffer end
          ≡ (pre ++ self.ops) ++ (record_of code a b c first.d ++ (first.more_ops ++ post)) =
        ap (λ x. pre ++ (x ++ post)) first.ops_eq ∙ simp append_assoc in
      ap (λ x. decode_record x end.heap i) cut
      ∙ decode_record-append (pre ++ self.ops) (first.more_ops ++ post) end.heap i code a b c
          first.d (omega (arith, length-append pre self.ops)) ra rb rc first.d_range
      ∙ decode_op-fields end.heap i first.d call first.reads

  pub decode_records-run :
      (self : Batch) (calls : List Call) (i : ℕ)
      → All IsTyped calls
      → length self.ops ≡ i * 16
      → length (run self calls).heap < no_str
      → decode_records (buffer (run self calls)) (run self calls).heap (length calls) i
        ≡ ok (map meaning calls)
  unfolding decode_records run
  decode_records-run self [] i h at bound = refl
  decode_records-run self (call ∷ calls) i (h, hs) at bound =
      let first = decode_first self call calls i h hs at bound in
      let later =
        decode_records-run (perform self call) calls (i + 1) hs
          (omega (arith, length-perform_ops self call h)) bound in
      rw (first, later)
