-- ===== src/Wire/Submission.antt =====
-- A batch from the call of `submit` in a guest to the pending batches of the host.
use wasibrowser.Prelude.{
  ℕ, ◌+◌, ◌^◌, ◌<◌, ◌≡◌, refl, ap, ◌∙◌, Option, some, List, [], ◌∷◌, ◌++◌, map, All, arith, length,
  take, drop, take-append, drop-append, length-append, ◌==◌, false,
}
use wasibrowser.Bytes.{Bytes, ok}
use wasibrowser.Abi.{Op}
use wasibrowser.Abi.Shared.{Shared}
use wasibrowser.Abi.Decode.{decode_batch}
use wasibrowser.Abi.Imports.{guest_bytes, submit_import}
use wasibrowser.Sdk.Batch.{Batch, empty, encode, submit}
use wasibrowser.Wire.{Call, run, meaning, IsTyped}
use wasibrowser.Wire.Header.{run-count, length-run_ops, decode_batch-encode}

pub guest_bytes-within :
    (front buf back : Bytes)
    → guest_bytes (some (front ++ (buf ++ back))) (length front) (length buf) ≡ some buf
unfolding guest_bytes
guest_bytes-within front buf back =
    let len : length (front ++ (buf ++ back)) ≡ length front + (length buf + length back) =
      omega (arith, length-append front (buf ++ back), length-append buf back) in
    let cut : take (length buf) (drop (length front) (front ++ (buf ++ back))) ≡ buf =
      ap (take (length buf)) (drop-append front (buf ++ back)) ∙ take-append buf back in
    ground (arith, len, cut)

-- A batch of at least one call is not empty.
pub run-busy :
    (call : Call) (calls : List Call)
    → All IsTyped (call ∷ calls)
    → 16 + length (run empty (call ∷ calls)).ops + length (run empty (call ∷ calls)).heap < 2 ^ 32
    → ((run empty (call ∷ calls)).count == 0) ≡ false
run-busy call calls typed fits =
    let ops_len = length-run_ops empty (call ∷ calls) typed in
    let count = run-count empty (call ∷ calls) (omega (arith, ops_len)) in ground (arith, count)

pub submit-nonempty :
    {H : Type 0} (host : Bytes → H → ℕ × H) (b : Batch) (h : H) (status : ℕ) (h' : H)
    → (b.count == 0) ≡ false
    → host (encode b) h ≡ (status, h')
    → submit host b h ≡ (status, empty, h')
unfolding submit
submit-nonempty host b h status h' busy e = rw (busy, e) refl

module _ {Q K : Type 0} where
  submit_import-queues :
      (mem : Option Bytes) (ptr len : ℕ) (g : Shared Q K) (buf : Bytes) (ops : List Op)
      → guest_bytes mem ptr len ≡ some buf
      → decode_batch buf ≡ ok ops
      → submit_import mem ptr len g ≡ (0, record g { batches = g.batches ++ (ops ∷ []) }, [])
  unfolding submit_import
  submit_import-queues mem ptr len g buf ops at decoded = rw (at, submit_import, decoded) refl

  -- The call of `submit` for the batch of some calls, in the host.
  pub encode-queues :
      (front back : Bytes) (calls : List Call) (g : Shared Q K)
      → All IsTyped calls
      → 16 + length (run empty calls).ops + length (run empty calls).heap < 2 ^ 32
      → let buf = encode (run empty calls) in
        submit_import (some (front ++ (buf ++ back))) (length front) (length buf) g
        ≡ (0, record g { batches = g.batches ++ (map meaning calls ∷ []) }, [])
  encode-queues front back calls g typed fits =
      let buf : Bytes = encode (run empty calls) in
      submit_import-queues (some (front ++ (buf ++ back))) (length front) (length buf) g buf
        (map meaning calls) (guest_bytes-within front buf back)
        (decode_batch-encode calls typed fits)

  -- The import as a guest's call of it reaches the host: the buffer stands in the guest's memory
  -- behind `front` and before `back`.
  abbrev pub host_of : Bytes → Bytes → Bytes → Shared Q K → ℕ × Shared Q K
  host_of front back buf g =
      let r = submit_import (some (front ++ (buf ++ back))) (length front) (length buf) g in
      (r.0, r.1)

  -- A guest that submits a fresh batch after some calls gets 0, has an empty batch, and the host has
  -- one more pending batch, of the operations that the calls mean, behind those that were pending.
  -- Nothing else of the guest's state changes.
  pub submit-queues :
      (front back : Bytes) (call : Call) (calls : List Call) (g : Shared Q K)
      → All IsTyped (call ∷ calls)
      → 16 + length (run empty (call ∷ calls)).ops + length (run empty (call ∷ calls)).heap < 2 ^ 32
      → submit (host_of front back) (run empty (call ∷ calls)) g
        ≡ (0, empty, record g { batches = g.batches ++ (map meaning (call ∷ calls) ∷ []) })
  submit-queues front back call calls g typed fits =
      submit-nonempty (host_of front back) (run empty (call ∷ calls)) g 0 _
        (run-busy call calls typed fits)
        (ap (λ r. (r.0, r.1)) (encode-queues front back (call ∷ calls) g typed fits))
