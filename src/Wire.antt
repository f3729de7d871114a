-- ===== src/Wire.antt =====
-- What a guest writes with sdk-rust/src/lib.rs, and what the host of renderer/src/abi.rs reads.
pub mod Records
pub mod RoundTrip
pub mod Header
pub mod Submission
pub mod Requests
pub mod Calls
pub mod Front
pub mod Payloads
pub mod HostEvents
pub mod Events
pub mod Unplaced
use wasibrowser.Prelude.{ℕ, ◌+◌, ◌<◌, ◌^◌, List, [], ◌∷◌}
use wasibrowser.Bytes.{Bytes}
use wasibrowser.Utf8.{IsUtf8}
use wasibrowser.Abi
use wasibrowser.Abi.{Op}
use wasibrowser.Sdk.Batch
use wasibrowser.Sdk.Batch.{Batch}

-- A call of one of the methods of `Batch`.
pub data Call : Type 0 where
  create_element : (id tag : ℕ) → Call
  create_text : (id : ℕ) (text : Bytes) → Call
  set_attr : (id name : ℕ) (value : Bytes) → Call
  remove_attr : (id name : ℕ) → Call
  set_text : (id : ℕ) (text : Bytes) → Call
  set_style : (id prop : ℕ) (value : Bytes) → Call
  remove_style : (id prop : ℕ) → Call
  append_child : (parent child : ℕ) → Call
  insert_before : (parent child before : ℕ) → Call
  remove : (id : ℕ) → Call
  replace_with : (old new : ℕ) → Call
  clear : (id : ℕ) → Call
  set_inner_html : (id : ℕ) (html : Bytes) → Call
  define_atom : (atom : ℕ) (name : Bytes) → Call
  listen : (id kind : ℕ) → Call
  unlisten : (id kind : ℕ) → Call
  observe : (id what : ℕ) → Call
  unobserve : (id what : ℕ) → Call
  focus : (id : ℕ) → Call

unfoldable pub perform : Batch → Call → Batch
perform self (create_element id tag) = Batch.create_element self id tag
perform self (create_text id text) = Batch.create_text self id text
perform self (set_attr id name value) = Batch.set_attr self id name value
perform self (remove_attr id name) = Batch.remove_attr self id name
perform self (set_text id text) = Batch.set_text self id text
perform self (set_style id prop value) = Batch.set_style self id prop value
perform self (remove_style id prop) = Batch.remove_style self id prop
perform self (append_child parent child) = Batch.append_child self parent child
perform self (insert_before parent child before) = Batch.insert_before self parent child before
perform self (remove id) = Batch.remove self id
perform self (replace_with old new) = Batch.replace_with self old new
perform self (clear id) = Batch.clear self id
perform self (set_inner_html id html) = Batch.set_inner_html self id html
perform self (define_atom atom name) = Batch.define_atom self atom name
perform self (listen id kind) = Batch.listen self id kind
perform self (unlisten id kind) = Batch.unlisten self id kind
perform self (observe id what) = Batch.observe self id what
perform self (unobserve id what) = Batch.unobserve self id what
perform self (focus id) = Batch.focus self id

unfoldable pub run : Batch → List Call → Batch
run self [] = self
run self (call ∷ calls) = run (perform self call) calls

-- The operation that a call means. The host ignores the parent of `insert_before`.
abbrev pub meaning : Call → Op
meaning (create_element id tag) = Abi.create_element id tag
meaning (create_text id text) = Abi.create_text id text
meaning (set_attr id name value) = Abi.set_attr id name value
meaning (remove_attr id name) = Abi.remove_attr id name
meaning (set_text id text) = Abi.set_text id text
meaning (set_style id prop value) = Abi.set_style id prop value
meaning (remove_style id prop) = Abi.remove_style id prop
meaning (append_child parent child) = Abi.append_child parent child
meaning (insert_before parent child before) = Abi.insert_before child before
meaning (remove id) = Abi.remove id
meaning (replace_with old new) = Abi.replace_with old new
meaning (clear id) = Abi.clear id
meaning (set_inner_html id html) = Abi.set_inner_html id html
meaning (define_atom atom name) = Abi.define_atom atom name
meaning (listen id kind) = Abi.listen id kind
meaning (unlisten id kind) = Abi.unlisten id kind
meaning (observe id what) = Abi.observe id what
meaning (unobserve id what) = Abi.unobserve id what
meaning (focus id) = Abi.focus id

abbrev pub IsU32 : ℕ → Type 0
IsU32 n = n < 2 ^ 32

abbrev pub IsU16 : ℕ → Type 0
IsU16 n = n < 2 ^ 16

-- What the types `u32`, `u16` and `str` of the parameters guarantee.
abbrev pub IsTyped : Call → Type 0
IsTyped (create_element id tag) = IsU32 id × IsU32 tag
IsTyped (create_text id text) = IsU32 id × IsUtf8 text
IsTyped (set_attr id name value) = IsU32 id × IsU32 name × IsUtf8 value
IsTyped (remove_attr id name) = IsU32 id × IsU32 name
IsTyped (set_text id text) = IsU32 id × IsUtf8 text
IsTyped (set_style id prop value) = IsU32 id × IsU32 prop × IsUtf8 value
IsTyped (remove_style id prop) = IsU32 id × IsU32 prop
IsTyped (append_child parent child) = IsU32 parent × IsU32 child
IsTyped (insert_before parent child before) = IsU32 parent × IsU32 child × IsU32 before
IsTyped (remove id) = IsU32 id
IsTyped (replace_with old new) = IsU32 old × IsU32 new
IsTyped (clear id) = IsU32 id
IsTyped (set_inner_html id html) = IsU32 id × IsUtf8 html
IsTyped (define_atom atom name) = IsU32 atom × IsUtf8 name
IsTyped (listen id kind) = IsU32 id × IsU16 kind
IsTyped (unlisten id kind) = IsU32 id × IsU16 kind
IsTyped (observe id what) = IsU32 id × IsU32 what
IsTyped (unobserve id what) = IsU32 id × IsU32 what
IsTyped (focus id) = IsU32 id
