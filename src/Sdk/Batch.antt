-- ===== src/Sdk/Batch.antt =====
-- `Batch` of sdk-rust/src/lib.rs: operations are encoded into 16-byte records and a string heap.
-- A `usize` of the guest has 32 bits; no `Vec` is longer than that, and `as u32` is written out.
use wasibrowser.Prelude.{
  ℕ, zero, suc, ◌+◌, ◌%◌, ◌^◌, [], ◌∷◌, ◌++◌, if◌then◌else◌, ◌==◌, length, codes,
}
use wasibrowser.Bytes.{Bytes, u16_to_le, u32_to_le}

pub record Batch : Type 0 where
  pub ops : Bytes
  pub heap : Bytes
  pub count : ℕ

abbrev pub empty : Batch
empty = record { ops = []; heap = []; count = 0 }

abbrev pub no_str : ℕ
no_str = 0xffff_ffff

abbrev pub as_u32 : ℕ → ℕ
as_u32 n = n % 2 ^ 32

unfoldable pub op : Batch → ℕ → ℕ → ℕ → ℕ → ℕ → Batch
op self code a b c d = record self {
  ops = self.ops ++ (code ∷ 0 ∷ (u16_to_le a ++ (u32_to_le b ++ (u32_to_le c ++ u32_to_le d))));
  count = as_u32 (self.count + 1);
}

-- `while self.heap.len() % 4 != 0 { self.heap.push(0) }`, which takes 3 rounds at most.
unfoldable pub pad_heap : ℕ → Bytes → Bytes
pad_heap zero heap = heap
pad_heap (suc fuel) heap = if length heap % 4 == 0 then heap else pad_heap fuel (heap ++ (0 ∷ []))

-- The heap with the text behind it, and the offset of the text.
unfoldable pub str : Batch → Bytes → Batch × ℕ
str self s = (
  record self { heap = pad_heap 3 (self.heap ++ (u32_to_le (as_u32 (length s)) ++ s)) },
  as_u32 (length self.heap),
)

-- An operation with a text behind `b` and `c`.
text_op : Batch → ℕ → ℕ → ℕ → Bytes → Batch
unfolding op str
text_op self code b c text = let (self', s) = str self text in op self' code 0 b c s

module _ (self : Batch) where
  unfoldable pub create_element : ℕ → ℕ → Batch
  unfolding op
  create_element id tag = op self 1 0 id tag no_str

  unfoldable pub create_text : ℕ → Bytes → Batch
  unfolding text_op
  create_text id text = text_op self 2 id 0 text

  unfoldable pub set_attr : ℕ → ℕ → Bytes → Batch
  unfolding text_op
  set_attr id name value = text_op self 3 id name value

  unfoldable pub remove_attr : ℕ → ℕ → Batch
  unfolding op
  remove_attr id name = op self 4 0 id name no_str

  unfoldable pub set_text : ℕ → Bytes → Batch
  unfolding text_op
  set_text id text = text_op self 5 id 0 text

  unfoldable pub set_style : ℕ → ℕ → Bytes → Batch
  unfolding text_op
  set_style id prop value = text_op self 6 id prop value

  unfoldable pub remove_style : ℕ → ℕ → Batch
  unfolding op
  remove_style id prop = op self 7 0 id prop no_str

  unfoldable pub append_child : ℕ → ℕ → Batch
  unfolding op
  append_child parent child = op self 8 0 parent child no_str

  unfoldable pub insert_before : ℕ → ℕ → ℕ → Batch
  unfolding op
  insert_before parent child before = op self 9 0 parent child before

  unfoldable pub remove : ℕ → Batch
  unfolding op
  remove id = op self 10 0 id 0 no_str

  unfoldable pub replace_with : ℕ → ℕ → Batch
  unfolding op
  replace_with old new = op self 11 0 old new no_str

  unfoldable pub clear : ℕ → Batch
  unfolding op
  clear id = op self 12 0 id 0 no_str

  unfoldable pub set_inner_html : ℕ → Bytes → Batch
  unfolding text_op
  set_inner_html id html = text_op self 13 id 0 html

  unfoldable pub define_atom : ℕ → Bytes → Batch
  unfolding text_op
  define_atom atom name = text_op self 14 atom 0 name

  unfoldable pub listen : ℕ → ℕ → Batch
  unfolding op
  listen id kind = op self 15 kind id 0 no_str

  unfoldable pub unlisten : ℕ → ℕ → Batch
  unfolding op
  unlisten id kind = op self 16 kind id 0 no_str

  unfoldable pub observe : ℕ → ℕ → Batch
  unfolding op
  observe id what = op self 17 0 id what no_str

  unfoldable pub unobserve : ℕ → ℕ → Batch
  unfolding op
  unobserve id what = op self 18 0 id what no_str

  unfoldable pub focus : ℕ → Batch
  unfolding op
  focus id = op self 19 0 id 0 no_str

-- The buffer that `submit` hands to the host.
unfoldable pub encode : Batch → Bytes
encode self =
    let heap_off = as_u32 (16 + as_u32 (length self.ops)) in
    codes "GWB1"
    ++ (u32_to_le self.count
        ++ (u32_to_le heap_off
            ++ (u32_to_le (as_u32 (length self.heap)) ++ (self.ops ++ self.heap))))

-- `host` is the import `gwb.submit`: a step of the host's state `H` that answers with a status.
-- An empty batch makes no call.
unfoldable pub submit {ℓ} : {H : Type ℓ} → (Bytes → H → ℕ × H) → Batch → H → ℕ × Batch × H
unfolding encode
submit host self h =
    if self.count == 0
    then (0, self, h)
    else (let (status, h') = host (encode self) h in (status, empty, h'))
