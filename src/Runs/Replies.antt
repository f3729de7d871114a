-- ===== src/Runs/Replies.antt =====
-- Runs of the guest search-rs.
use wasibrowser.Prelude.{
  ℕ, ◌+◌, ◌^◌, ◌<◌, ltb→lt, ◌≡◌, ◌⊎◌, inl, refl, none, some, true, false, List, [], ◌∷◌, length,
  codes, arith,
}
use wasibrowser.Bytes.{Bytes, ok, u16_to_le, u32_to_le}
use wasibrowser.Utf8.{is_utf8, first_char}
use wasibrowser.Text.{decimal, decimal_u128, trim, strip_prefix, strip_any}
use wasibrowser.Map.{get}
use wasibrowser.Map.Keys.{bytes_key, bytes_eq}
use wasibrowser.Abi.{Op}
use wasibrowser.Abi.Events.{event_record, u64_to_le, rpc_result}
use wasibrowser.Abi.DomEvents.{Floats}
use wasibrowser.Abi.Shared.{Shared, ServiceEntry}
use wasibrowser.Abi.Imports.{Effect}
use wasibrowser.Abi.Rpc.{RpcRequest}
use wasibrowser.Sdk.Kind
use wasibrowser.Sdk.Batch
use wasibrowser.Sdk.Batch.{pad_heap}
use wasibrowser.Sdk.Events.{Event, default}
use wasibrowser.Wire.{run, perform}
use wasibrowser.SearchServer.Query
use wasibrowser.SearchServer.Query.{search}
use wasibrowser.SearchServer.Corpus.{corpus}
use wasibrowser.SearchServer.Http.{handle, json_response}
use wasibrowser.SearchServer.Http.Interop.{received, posted}
use wasibrowser.SearchGuest.{App, Json, SearchResp, initial}
use wasibrowser.SearchGuest.Handle.{
  summary, meta_text, two_digits, Imports, handled, submit_search, gwb_events,
}
use wasibrowser.SearchGuest.Replies.{recorded, after, begun, IsShown, after-IsShown}
use wasibrowser.SearchGuest.Answered.{host, url_of, submit_search-answered}
use wasibrowser.SearchGuest.Shown.{reply_region}
use wasibrowser.SearchGuest.Texts.{texts_of, response_texts}
use wasibrowser.SearchGuest.Rendered.{response_calls, hits_calls}
use wasibrowser.SearchGuest.Results.{gwb_events-renders}
use wasibrowser.Runs.Searches.{toy, library, tables, print}

-- A host that answers each call with the next number.
abbrev counts : Imports ℕ
counts = record {
  rpc_call = λ buf n. (n + 1, n + 1);
  navigate = λ target flags n. (0, n);
  submit = λ buf n. (0, n);
}

-- The query is the JSON, and a response is one that has found one page.
abbrev one_result : SearchResp
one_result = record {
  query = codes "zq";
  took_ms = 3;
  results = record { title = codes "T"; url = codes "w:1"; snippet = codes "s"; score = 2 } ∷ [];
}

abbrev plain : Json
plain = record { to_vec = λ q. q; from_str = λ s. inl one_result }

-- The user types, presses Enter twice, and gets the second answer.
abbrev typing : List Event
typing =
    record default { kind = Kind.input; listener = 13; text = codes "zq" }
    ∷ record default { kind = Kind.key_down; listener = 13; pressed = true; text = codes "Enter" }
    ∷ record default { kind = Kind.key_down; listener = 13; pressed = true; text = codes "Enter" }
    ∷ []

abbrev second_answer : Event
second_answer = record default { kind = Kind.rpc_result; rpc_req_id = 2; rpc_ok = true }

after-IsShown_example :
    (handled
        (recorded counts)
        plain
        second_answer
        (after counts plain typing (begun counts plain 0)).0
        (after counts plain typing (begun counts plain 0)).1
      ≡ after counts plain typing (begun counts plain 0))
    ⊎ IsShown counts plain second_answer (after counts plain typing (begun counts plain 0))
after-IsShown_example = after-IsShown counts plain typing 0 second_answer refl

abbrev entry : ServiceEntry
entry = record { endpoint = codes "http://h/"; iface = codes "s"; server_key = [] }

abbrev shared : Shared ℕ ℕ
shared = record {
  atoms = [];
  batches = [];
  event_region = (0, 0);
  next_fetch_id = 0;
  frame_requested = false;
  window_id = none;
  services = (codes "search", entry) ∷ [];
  next_rpc_id = 6;
  session_token = none;
  app_key = 5;
  app_key_b64 = [];
  links = [];
  gesture_active = true;
  tab_id = 1;
}

abbrev typed : App
typed = record initial { query_value = codes " zq " }

typed_query : trim typed.query_value ≡ codes "zq"
unfolding trim strip_prefix strip_any
typed_query = refl

declared : get shared.services (codes "search") ≡ some entry
unfolding get bytes_eq
declared = refl

abbrev asked : App × (Shared ℕ ℕ × List Effect)
asked = submit_search (host [] []) plain typed (shared, [])

submit_search-answered_example :
    (request : RpcRequest) × (results : Query.SearchResp) × (asked.0.pending_req_id ≡ some 7)
    × (asked.1.1 ≡ Effect.rpc_post 7 (url_of entry) request none ∷ [])
    × (search tables corpus 0 (codes "zq") ≡ ok results)
    × (handle toy tables some print corpus 0 3_000 true (
          received toy library request
            (posted toy library 5 1_000 3_000 7 (url_of entry) request none))
        ≡ ok (json_response 200 (print results)))
submit_search-answered_example =
    submit_search-answered toy library plain [] [] tables some print 0 1_000 3_000 b'z' (codes "q")
      typed shared [] entry typed_query declared (omega arith) refl (omega arith) (omega arith)
      (omega arith) (omega arith)

abbrev floats : Floats
floats = record { as_f32 = λ x. 0; times_40 = λ x. 0 }

-- The app that waits for the answer 7, with a page of 18 nodes.
abbrev waiting : App
waiting = record initial { results = 18; status_text = 17; next_id = 18; pending_req_id = some 7 }

abbrev region : Bytes
region = reply_region 7 200 0 [] 1 1 0 []

region_short : length region < 2 ^ 32
unfolding event_record u64_to_le u16_to_le u32_to_le rpc_result
region_short = omega arith

batch_short :
    (16
      + length (run Batch.empty (response_calls waiting one_result)).ops
      + length (run Batch.empty (response_calls waiting one_result)).heap)
    < 2 ^ 32
unfolding run perform response_calls hits_calls summary meta_text two_digits decimal_u128 decimal
    Batch.clear Batch.set_text Batch.create_element Batch.set_attr Batch.create_text
    Batch.append_child pad_heap u16_to_le u32_to_le
batch_short = ltb→lt _ _ refl

gwb_events-renders_example :
    (app' : App) × (ops : List Op) × (gwb_events (host [] []) plain region 1 waiting (shared, [])
      ≡ ok (0, app', (record shared { batches = ops ∷ [] }, [])))
    × (app'.batch ≡ Batch.empty)
    × (app'.pending_req_id ≡ none)
    × (texts_of ops ≡ response_texts one_result)
unfolding is_utf8 first_char
gwb_events-renders_example =
    gwb_events-renders [] [] floats plain 7 200 0 [] 1 1 0 [] waiting shared [] one_result refl
      (omega arith) (omega arith) (omega arith) refl refl (refl, ((refl, refl, refl), tt))
      batch_short (omega arith) (omega arith) (omega arith) (omega arith) (omega arith) refl
      region_short
