-- ===== src/Abi.antt =====
-- renderer/src/abi.rs, the host side of the GWB ABI: the operations of a batch.
pub mod Decode
pub mod Atoms
pub mod Document
pub mod Shared
pub mod Apply
pub mod Rpc
pub mod Kind
pub mod Events
pub mod DomEvents
pub mod Imports
use wasibrowser.Prelude.{ℕ}
use wasibrowser.Bytes.{Bytes}

pub data Op : Type 0 where
  create_element : (id tag : ℕ) → Op
  create_text : (id : ℕ) (text : Bytes) → Op
  set_attr : (id name : ℕ) (value : Bytes) → Op
  remove_attr : (id name : ℕ) → Op
  set_text : (id : ℕ) (text : Bytes) → Op
  set_style : (id prop : ℕ) (value : Bytes) → Op
  remove_style : (id prop : ℕ) → Op
  append_child : (parent child : ℕ) → Op
  insert_before : (child before : ℕ) → Op
  remove : (id : ℕ) → Op
  replace_with : (old new : ℕ) → Op
  clear : (id : ℕ) → Op
  set_inner_html : (id : ℕ) (html : Bytes) → Op
  define_atom : (atom : ℕ) (name : Bytes) → Op
  listen : (id kind : ℕ) → Op
  unlisten : (id kind : ℕ) → Op
  observe : (id what : ℕ) → Op
  unobserve : (id what : ℕ) → Op
  focus : (id : ℕ) → Op
