-- ===== src/Wire/Front.antt =====
-- Reading the words of an event record: the host's `deliver_event`, the guest's `decode_events`.
use wasibrowser.Prelude.{
  ℕ, ◌+◌, ◌%◌, ◌/◌, ◌^◌, ◌<◌, ◌≡◌, refl, sym, ap, ◌∙◌, [], ◌∷◌, ◌++◌, append_assoc, arith, length,
  length-append,
}
use wasibrowser.Bytes.{Bytes, ok, u16_to_le, u32_to_le, u16_at, u32_at, index}
use wasibrowser.Bytes.Laws.{u16_at-append, u32_at-append, index-append}
use wasibrowser.Abi.Events.{u64_to_le}
use wasibrowser.Sdk.Events.{Event, default, u64_at, read_header}

module _ (kind flags target listener ts : ℕ) where
  -- The first 20 bytes of a record, and what stands behind them.
  unfoldable pub front : Bytes → Bytes
  front rest =
      u16_to_le kind
      ++ (u16_to_le flags ++ (u32_to_le target ++ (u32_to_le listener ++ (u64_to_le ts ++ rest))))

  header : Bytes
  unfolding front
  header = front []

  front-append : (rest : Bytes) → front rest ≡ header ++ rest
  unfolding front header u16_to_le u32_to_le u64_to_le
  front-append rest = refl

  length-header : length header ≡ 20
  unfolding front header u16_to_le u32_to_le u64_to_le
  length-header = refl

  pub length-front : (rest : Bytes) → length (front rest) ≡ 20 + length rest
  unfolding front u16_to_le u32_to_le u64_to_le
  length-front rest = omega arith

  module _ (pre : Bytes) (n off : ℕ) (rest : Bytes) (h_off : off ≡ 20 + length pre) where
    abbrev behind : (bs : Bytes) → front (pre ++ (bs ++ rest)) ≡ (header ++ pre) ++ (bs ++ rest)
    behind bs = front-append (pre ++ (bs ++ rest)) ∙ sym (append_assoc header pre (bs ++ rest))

    here : off ≡ length (header ++ pre)
    here = omega (arith, length-append header pre, length-header)

    pub u32_read : n < 2 ^ 32 → u32_at {E = ⊥} (front (pre ++ (u32_to_le n ++ rest))) off ≡ ok n
    u32_read h = rw (behind (u32_to_le n)) (u32_at-append (header ++ pre) rest n off h here)

    pub u16_read : n < 2 ^ 16 → u16_at {E = ⊥} (front (pre ++ (u16_to_le n ++ rest))) off ≡ ok n
    u16_read h = rw (behind (u16_to_le n)) (u16_at-append (header ++ pre) rest n off h here)

    pub byte_read : index {E = ⊥} (front (pre ++ (n ∷ rest))) off ≡ ok n
    byte_read = rw (behind (n ∷ [])) (index-append (header ++ pre) rest n off here)

  -- The event of the head of a record.
  abbrev pub event : Event
  event = record default {
    kind = kind;
    flags = flags;
    target = target;
    listener = listener;
    time_ms = ts;
  }

  module _ (k : kind < 2 ^ 16) (fl : flags < 2 ^ 16) (ta : target < 2 ^ 32) (li : listener < 2 ^ 32)
      (ti : ts < 2 ^ 64) (rest : Bytes) where
    w0 : u16_at {E = ⊥} (front rest) 0 ≡ ok kind
    unfolding front
    w0 = u16_at-append [] _ kind 0 k refl

    w2 : u16_at {E = ⊥} (front rest) 2 ≡ ok flags
    unfolding front u16_to_le
    w2 = u16_at-append (u16_to_le kind) _ flags 2 fl refl

    w4 : u32_at {E = ⊥} (front rest) 4 ≡ ok target
    unfolding front u16_to_le u32_to_le
    w4 = u32_at-append (u16_to_le kind ++ u16_to_le flags) _ target 4 ta refl

    w8 : u32_at {E = ⊥} (front rest) 8 ≡ ok listener
    unfolding front u16_to_le u32_to_le
    w8 =
        u32_at-append (u16_to_le kind ++ (u16_to_le flags ++ u32_to_le target)) _ listener 8 li refl

    w12 : u32_at {E = ⊥} (front rest) 12 ≡ ok (ts % 2 ^ 32)
    unfolding front u16_to_le u32_to_le u64_to_le
    w12 =
        u32_at-append
          (u16_to_le kind ++ (u16_to_le flags ++ (u32_to_le target ++ u32_to_le listener)))
          (u32_to_le (ts / 2 ^ 32) ++ rest) (ts % 2 ^ 32) 12 (omega arith) refl

    w16 : u32_at {E = ⊥} (front rest) 16 ≡ ok (ts / 2 ^ 32)
    unfolding front u16_to_le u32_to_le u64_to_le
    w16 =
        u32_at-append
          (u16_to_le kind
            ++ (u16_to_le flags
                ++ (u32_to_le target ++ (u32_to_le listener ++ u32_to_le (ts % 2 ^ 32)))))
          rest (ts / 2 ^ 32) 16 (omega arith) refl

    time_read : u64_at (front rest) 12 ≡ ok ts
    unfolding u64_at
    time_read = rw (w12, w16) (ap ok (omega arith))

    pub read_header-front : read_header (front rest) ≡ ok event
    unfolding read_header
    read_header-front = rw (w0, w2, w4, w8, time_read) refl
