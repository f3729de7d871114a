-- ===== src/Abi/Document.antt =====
-- The rendering engine as the sources use it: blitz-dom's document and its `DocumentMutator`. The
-- engine is vendored outside the repository, so its state and its calls are parameters, taken total.
use wasibrowser.Prelude.{ℕ, List}
use wasibrowser.Bytes.{Bytes}

pub record Document : Type 1 where
  pub Doc : Type 0
  pub QualName : Type 0
  pub html_name : Bytes → QualName
  pub attr_name : Bytes → QualName
  pub create_element : QualName → Doc → ℕ × Doc
  pub create_text_node : Bytes → Doc → ℕ × Doc
  pub set_attribute : ℕ → QualName → Bytes → Doc → Doc
  pub clear_attribute : ℕ → QualName → Doc → Doc
  pub set_node_text : ℕ → Bytes → Doc → Doc
  pub set_style_property : ℕ → Bytes → Bytes → Doc → Doc
  pub remove_style_property : ℕ → Bytes → Doc → Doc
  pub append_children : ℕ → List ℕ → Doc → Doc
  pub insert_nodes_before : ℕ → List ℕ → Doc → Doc
  pub replace_node_with : ℕ → List ℕ → Doc → Doc
  pub remove_and_drop_node : ℕ → Doc → Doc
  pub remove_and_drop_all_children : ℕ → Doc → Doc
  pub set_inner_html : ℕ → Bytes → Doc → Doc
  pub set_focus_to : ℕ → Doc → Doc
  pub caret_to_end : ℕ → Doc → Doc
