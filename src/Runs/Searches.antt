-- ===== src/Runs/Searches.antt =====
-- Runs of the search server on a toy library: a key is a number, and the base64 is the identity.
use wasibrowser.Prelude.{
  ℕ, ◌+◌, ◌<◌, ◌≡◌, ◌⊎◌, refl, ◌∙◌, Bool, true, false, some, none, List, [], ◌∷◌, length, replicate,
  map, codes, arith, ◌&&◌, leb,
}
use wasibrowser.Bytes.{Bytes, ok}
use wasibrowser.Map.Keys.{bytes_eq, bytes_eq_iff}
use wasibrowser.Utf8.{first_char}
use wasibrowser.Text.{strip_prefix}
use wasibrowser.Abi.Rpc.{RpcRequest}
use wasibrowser.SearchServer.{Verifier, Tables}
use wasibrowser.SearchServer.Channel.{is_empty}
use wasibrowser.SearchServer.Corpus.{corpus}
use wasibrowser.SearchServer.Query.{Doc, SearchResp, search, terms_of}
use wasibrowser.SearchServer.Query.Words.{Parted, terms_of-Parted}
use wasibrowser.SearchServer.Query.{non_empty}
use wasibrowser.SearchServer.Query.Order.{
  IsRanked, with_score, urls_of_score, url_of, search-results,
}
use wasibrowser.SearchServer.Http.{Request, Response, answer, handle, json_response}
use wasibrowser.SearchServer.Http.Answers.{Answers, IsAuthentic, handle-Answers, handle-IsAuthentic}
use wasibrowser.SearchServer.Http.Interop.{Library, posted, received, handle-posted}

abbrev lower_letter : Bytes → Bool
lower_letter [] = false
lower_letter (c ∷ s) = leb b'a' c && leb c b'z'

abbrev pub tables : Tables
tables = record { to_lowercase = λ s. s; is_alphanumeric = lower_letter }

abbrev toy_sign : ℕ → Bytes → Bytes
toy_sign k m = replicate 64 (k + length m)

abbrev toy_public : ℕ → Bytes
toy_public k = replicate 32 k

abbrev key_of : Bytes → ℕ
key_of [] = 0
key_of (k ∷ rest) = k

abbrev pub toy : Verifier
toy = record {
  Key = ℕ;
  key_from = λ b. some (key_of b);
  verify_strict = λ k m s. bytes_eq s (toy_sign k m);
  sha256_hex = λ b. b;
  decode = some;
}

pub has_first : (b : Bytes) → 0 < length b → is_empty b ≡ false
has_first [] h = absurd (omega arith)
has_first (c ∷ b) h = refl

abbrev pub library : Library toy
library = record {
  K = ℕ;
  sign = toy_sign;
  encode = λ b. b;
  public = toy_public;
  verifying = λ k. k;
  decode-encode = λ b. refl;
  encode-nonempty = has_first;
  length-public = λ k. refl;
  length-sign = λ k m. refl;
  key_from-public = λ k. refl;
  verify-sign = λ k m. (bytes_eq_iff (toy_sign k m) (toy_sign k m)).1 refl;
}

abbrev request : RpcRequest
request = record {
  service = codes "search";
  iface = codes "search.query.v1";
  method = codes "search";
  payload = codes "zq";
  want_session = false;
}

abbrev at_server : Request
at_server = received toy library request (posted toy library 5 1_000 3_000 7 [] request none)

abbrev pub print : SearchResp → Bytes
print r = r.query

handle-posted_example :
    handle toy tables some print corpus 0 3_000 true at_server
    ≡ answer toy tables some print corpus 0 3_000 (codes "zq")
handle-posted_example =
    handle-posted toy library 5 1_000 3_000 7 [] request none tables some print corpus 0 refl refl
      (omega arith) (omega arith) (omega arith) (omega arith)

abbrev answered : Response
answered = json_response 200 (codes "zq")

zq_answer : answer toy tables some print corpus 0 3_000 (codes "zq") ≡ ok answered
unfolding answer search corpus strip_prefix first_char
zq_answer = refl

handle-IsAuthentic_example :
    (answered.status ≡ 404)
    ⊎ ((answered.status ≡ 401) ⊎ IsAuthentic toy tables some print 0 3_000 at_server)
handle-IsAuthentic_example =
    handle-IsAuthentic toy tables some print 0 3_000 at_server answered (omega arith)
      (handle-posted_example ∙ zq_answer)

handle-Answers_example :
    (resp : Response) × (handle toy tables some print corpus 0 3_000 true at_server ≡ ok resp)
    × Answers toy tables some print 0 3_000 at_server resp
handle-Answers_example = handle-Answers toy tables some print 0 3_000 true at_server

abbrev two_docs : List Doc
two_docs =
    record { title = codes "dom"; url = codes "w:1"; body = codes "the dom" }
    ∷ record { title = codes "wasm"; url = codes "w:2"; body = codes "wasm and the dom, as wasm" }
    ∷ []

abbrev two_hits : SearchResp
two_hits = record {
  query = codes "wasm dom";
  took_ms = 0;
  results =
      record {
        title = codes "wasm";
        url = codes "w:2";
        snippet = codes "wasm and the dom, as wasm";
        score = 4;
      }
      ∷ record { title = codes "dom"; url = codes "w:1"; snippet = codes "the dom"; score = 2 }
      ∷ [];
}

two_found : search tables two_docs 0 (codes "wasm dom") ≡ ok two_hits
unfolding search strip_prefix first_char
two_found = refl

search-results_example :
    IsRanked two_hits.results
    × ((n : ℕ)
        → 0 < n
        → map url_of (with_score n two_hits.results)
          ≡ urls_of_score tables n (terms_of tables (codes "wasm dom")) two_docs)
search-results_example = search-results tables two_docs 0 (codes "wasm dom") two_hits two_found

terms_of-Parted_example :
    (words : List Bytes) × Parted tables [] (codes "wasm, dom") words
    × (terms_of tables (codes "wasm, dom") ≡ non_empty tables words)
terms_of-Parted_example = terms_of-Parted tables (codes "wasm, dom")
