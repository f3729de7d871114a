-- ===== src/SearchServer/Http/Interop.antt =====
-- A request that the thread of `rpc_call` in renderer/src/abi.rs signs, at search-server/src/main.rs.
use wasibrowser.Prelude.{
  ℕ, List, ◌+◌, ◌^◌, ◌<◌, ◌≤◌, ◌≡◌, refl, ap, ◌∙◌, true, false, Option, some, [], ◌&&◌, length,
  codes, arith,
}
use wasibrowser.Bytes.{Bytes, Res, ok}
use wasibrowser.Map.Keys.{bytes_eq}
use wasibrowser.Text.{decimal, decimal_u128, strip_prefix, trim_start_matches, trim_end_matches}
use wasibrowser.Abi.Rpc.{RpcRequest, RpcPost, canonical, signed_post, rpc_url}
use wasibrowser.SearchServer.{Verifier, Tables}
use wasibrowser.SearchServer.Channel.{
  canonical_bytes, is_empty, verify_channel, verify_fresh, verify_signature,
}
use wasibrowser.SearchServer.Channel.Window.{InWindow-is_stale}
use wasibrowser.SearchServer.Channel.Decimal.{parse_i64-decimal, is_empty-decimal_u128}
use wasibrowser.SearchServer.Query.{Doc, SearchResp}
use wasibrowser.SearchServer.Http.{
  Request, Response, post, answer, serve, dispatch, handle_method, handle, route, split,
}

-- What the libraries of both sides promise: base64 decodes what it encoded, a key and a signature have
-- their sizes, and what a key signs verifies under its public half.
pub record Library (V : Verifier) : Type 1 where
  pub K : Type 0
  pub sign : K → Bytes → Bytes
  pub encode : Bytes → Bytes
  pub public : K → Bytes
  pub verifying : K → V.Key
  pub decode-encode : (b : Bytes) → V.decode (encode b) ≡ some b
  pub encode-nonempty : (b : Bytes) → 0 < length b → is_empty (encode b) ≡ false
  pub length-public : (k : K) → length (public k) ≡ 32
  pub length-sign : (k : K) (m : Bytes) → length (sign k m) ≡ 64
  pub key_from-public : (k : K) → V.key_from (public k) ≡ some (verifying k)
  pub verify-sign : (k : K) (m : Bytes) → V.verify_strict (verifying k) m (sign k m) ≡ true

module _ (V : Verifier) (L : Library V) where
  -- The request as it arrives: the path of its URL, which an HTTP client sends, and its headers.
  abbrev pub received : RpcRequest → RpcPost → Request
  received request p = record {
    method = post;
    url = rpc_url [] request.iface request.method;
    req_id = p.req_id;
    app_key = p.app_key;
    sig = p.sig;
    ts = p.ts;
    body = p.body;
  }

  module _ (key : L.K) (millis now req_id : ℕ) (url : Bytes) (request : RpcRequest)
      (session : Option Bytes) where
    abbrev pub posted : RpcPost
    posted =
        signed_post L.sign L.encode V.sha256_hex key (L.encode (L.public key)) millis req_id url
          request session

    abbrev signed_text : Bytes
    signed_text =
        canonical request.iface request.method req_id (decimal_u128 millis)
          (V.sha256_hex request.payload)

    canonical-canonical_bytes :
        canonical_bytes request.iface request.method
          (decimal req_id)
          (decimal_u128 millis)
          (V.sha256_hex request.payload)
        ≡ signed_text
    unfolding canonical canonical_bytes
    canonical-canonical_bytes = refl

    verify_signature-posted :
        verify_signature V now request.iface request.method
          (decimal req_id)
          (L.encode (L.public key))
          (L.encode (L.sign key signed_text))
          (decimal_u128 millis)
          request.payload
        ≡ ok tt
    unfolding verify_signature
    verify_signature-posted =
        rw
          (
            L.decode-encode (L.public key),
            L.decode-encode (L.sign key signed_text),
            L.length-public key,
            L.length-sign key signed_text,
            L.key_from-public key,
            canonical-canonical_bytes,
            L.verify-sign key signed_text,
          )
          refl

    verify_fresh-posted :
        millis < 2 ^ 62
        → now < 2 ^ 62
        → now ≤ millis + 60_000
        → millis ≤ now + 60_000
        → verify_fresh V now request.iface request.method
            (decimal req_id)
            (L.encode (L.public key))
            (L.encode (L.sign key signed_text))
            (decimal_u128 millis)
            request.payload
          ≡ ok tt
    unfolding verify_fresh
    verify_fresh-posted small now_small late early =
        rw
          (
            verify_fresh,
            parse_i64-decimal millis small,
            InWindow-is_stale now millis now_small (omega arith) late early,
            verify_signature-posted,
          )
          refl

    verify_channel-posted :
        millis < 2 ^ 62
        → now < 2 ^ 62
        → now ≤ millis + 60_000
        → millis ≤ now + 60_000
        → verify_channel V now request.iface request.method
            (decimal req_id)
            (L.encode (L.public key))
            (L.encode (L.sign key signed_text))
            (decimal_u128 millis)
            request.payload
            true
          ≡ ok tt
    unfolding verify_channel
    verify_channel-posted small now_small late early =
        rw
          (
            verify_channel,
            L.encode-nonempty (L.public key) (omega (arith, L.length-public key)),
            L.encode-nonempty (L.sign key signed_text)
                (omega (arith, L.length-sign key signed_text)),
            is_empty-decimal_u128 millis,
          )
          (verify_fresh-posted small now_small late early)

    module _ (T : Tables) (parse : Bytes → Option Bytes) (print : SearchResp → Bytes)
        (corpus : List Doc) (took_ms : ℕ) where
      abbrev served : Res ⊥ Response
      served = handle V T parse print corpus took_ms now true (received request posted)

      serve-posted :
          millis < 2 ^ 62
          → now < 2 ^ 62
          → now ≤ millis + 60_000
          → millis ≤ now + 60_000
          → serve V T parse print corpus took_ms now true
              (received request posted)
              request.iface
              request.method
            ≡ answer V T parse print corpus took_ms now request.payload
      unfolding serve signed_post
      serve-posted small now_small late early =
          rw (serve, verify_channel-posted small now_small late early) refl

      -- The path of the method that the server has.
      routed :
          route (
            split b'/' (
              trim_start_matches
                (codes "/")
                (rpc_url [] (codes "search.query.v1") (codes "search"))))
          ≡ some (codes "search.query.v1", codes "search")
      unfolding route split trim_start_matches rpc_url trim_end_matches strip_prefix bytes_eq
      routed = refl

      dispatch-posted :
          (bytes_eq request.iface (codes "search.query.v1")
              && bytes_eq request.method (codes "search"))
            ≡ true
          → millis < 2 ^ 62
          → now < 2 ^ 62
          → now ≤ millis + 60_000
          → millis ≤ now + 60_000
          → dispatch V T parse print corpus took_ms now true
              (received request posted)
              (some (request.iface, request.method))
            ≡ answer V T parse print corpus took_ms now request.payload
      unfolding dispatch
      dispatch-posted known small now_small late early =
          let same_iface : bytes_eq request.iface (codes "search.query.v1") ≡ true = ground arith in
          let same_method : bytes_eq request.method (codes "search") ≡ true = ground arith in
          rw (dispatch, same_iface, same_method) (serve-posted small now_small late early)

      -- What the host signs, the server answers: it gets the answer to its payload if the two clocks are
      -- at most a minute apart, both below 2 ^ 62, and the request calls `search` of `search.query.v1`.
      pub handle-posted :
          request.iface ≡ codes "search.query.v1"
          → request.method ≡ codes "search"
          → millis < 2 ^ 62
          → now < 2 ^ 62
          → now ≤ millis + 60_000
          → millis ≤ now + 60_000
          → handle V T parse print corpus took_ms now true (received request posted)
            ≡ answer V T parse print corpus took_ms now request.payload
      unfolding handle handle_method bytes_eq
      handle-posted iface method small now_small late early =
          let known : (bytes_eq request.iface (codes "search.query.v1")
                && bytes_eq request.method (codes "search"))
              ≡ true =
            rw (iface, method) refl in
          let path : route (
                split b'/'
                  (trim_start_matches (codes "/") (rpc_url [] request.iface request.method)))
              ≡ some (request.iface, request.method) =
            rw (iface, method) routed in
          ap (dispatch V T parse print corpus took_ms now true (received request posted)) path
          ∙ dispatch-posted known small now_small late early
