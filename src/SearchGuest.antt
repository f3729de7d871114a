-- ===== src/SearchGuest.antt =====
-- examples/search-rs/src/lib.rs, a guest that calls the search service. It is built in release mode.
pub mod Css
pub mod Start
pub mod Handle
pub mod Replies
pub mod Rendered
pub mod Texts
pub mod Results
pub mod Shown
pub mod Answered
use wasibrowser.Prelude.{ℕ, ◌⊎◌, ◌+◌, ◌%◌, ◌^◌, Option, none, List, [], ◌∷◌}
use wasibrowser.Bytes.{Bytes}
use wasibrowser.Sdk.Atom
use wasibrowser.Sdk.Batch
use wasibrowser.Sdk.Batch.{Batch}

abbrev pub atom_style : ℕ
atom_style = 1030

pub record SearchHit : Type 0 where
  pub title : Bytes
  pub url : Bytes
  pub snippet : Bytes
  pub score : ℕ

pub record SearchResp : Type 0 where
  pub query : Bytes
  pub took_ms : ℕ
  pub results : List SearchHit

-- What serde_json does: `to_vec` of a `SearchReq`, `from_str` to a `SearchResp` or a message.
pub record Json : Type 0 where
  pub to_vec : Bytes → Bytes
  pub from_str : Bytes → SearchResp ⊎ Bytes

-- `next_id` is the counter `NEXT_ID` of the SDK.
pub record App : Type 0 where
  pub batch : Batch
  pub input : ℕ
  pub go_btn : ℕ
  pub link_shop : ℕ
  pub link_retailer : ℕ
  pub status_text : ℕ
  pub results : ℕ
  pub query_value : Bytes
  pub pending_req_id : Option ℕ
  pub next_id : ℕ

-- `App::default()`, with the counter as the SDK sets it up.
abbrev pub initial : App
initial = record {
  batch = Batch.empty;
  input = 0;
  go_btn = 0;
  link_shop = 0;
  link_retailer = 0;
  status_text = 0;
  results = 0;
  query_value = [];
  pending_req_id = none;
  next_id = 1;
}

-- The SDK's `new_id`.
unfoldable pub fresh_id : App → ℕ × App
fresh_id app = let id = (app.next_id + 1) % 2 ^ 32 in (id, record app { next_id = id })

-- A call of a method of `self.batch`.
abbrev pub write : App → (Batch → Batch) → App
write app f = record app { batch = f app.batch }

-- `if !class.is_empty() { .. }`
unfoldable pub set_class : ℕ → Bytes → App → App
set_class id [] app = app
set_class id (c ∷ class) app = write app (λ b. Batch.set_attr b id Atom.attr_class (c ∷ class))

unfoldable pub el : ℕ → Bytes → App → ℕ × App
unfolding fresh_id set_class
el tag class app =
    let (id, app) = fresh_id app in
    (id, set_class id class (write app (λ b. Batch.create_element b id tag)))

-- The element, and its text node.
unfoldable pub text_el : ℕ → Bytes → Bytes → App → ℕ × ℕ × App
unfolding el fresh_id
text_el tag class text app =
    let (id, app) = el tag class app in
    let (t, app) = fresh_id app in
    let app = write app (λ b. Batch.create_text b t text) in
    (id, t, write app (λ b. Batch.append_child b id t))
