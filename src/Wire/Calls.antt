-- ===== src/Wire/Calls.antt =====
-- The SDK's calls at the host's imports: each arrives with the text that the guest gave.
use Prim.Native.Nat.{bit_and}
use wasibrowser.Prelude.{
  ℕ, ◌+◌, ◌%◌, ◌^◌, ◌<◌, ◌≡◌, refl, ap, ◌∙◌, Bool, true, false, Option, none, some, [], ◌∷◌, ◌++◌,
  if◌then◌else◌, ◌==◌, leb, not, length, arith,
}
use wasibrowser.Bytes.{Bytes}
use wasibrowser.Utf8.{IsUtf8}
use wasibrowser.Utf8.Laws.{from_utf8_lossy-of_utf8}
use wasibrowser.Map.{get}
use wasibrowser.Map.Keys.{bytes_key}
use wasibrowser.Abi.Shared.{Shared, ServiceEntry}
use wasibrowser.Abi.Rpc.{RpcRequest, rpc_url}
use wasibrowser.Abi.Imports.{
  console, http_get, rpc_post, Outcome, guest_bytes, log_import, fetch_import, session_set_import,
  rpc_import, call_service, request_navigation, navigate_import, host_call,
}
use wasibrowser.Sdk.Batch.{as_u32}
use wasibrowser.Sdk.Rpc.{rpc_buffer}
use wasibrowser.Sdk.Calls.{log_line, fetch_url, rpc, set_session, clear_session, navigate}
use wasibrowser.Wire.{IsU16}
use wasibrowser.Wire.Submission.{guest_bytes-within}
use wasibrowser.Wire.Requests.{parse_request-rpc_buffer}

-- What a call hands over, in the guest's memory behind `front`.
abbrev pub memory : Bytes → Bytes → Bytes → Option Bytes
memory front back given = some (front ++ (given ++ back))

guest_bytes-given :
    (front back given : Bytes)
    → length given < 2 ^ 32
    → guest_bytes (memory front back given) (length front) (as_u32 (length given)) ≡ some given
guest_bytes-given front back given small =
    let n : length given % 2 ^ 32 ≡ length given = omega arith in
    rw n (guest_bytes-within front given back)

module _ {Q K : Type 0} (front back s : Bytes) (g : Shared Q K) where
  -- A text of the guest shorter than 2 ^ 32 bytes arrives whole: a line in the console, as an error
  -- from the level of a warning on, an address at the network with the next id, a token in the
  -- session, and a target at the gates of a navigation.
  pub calls-arrive :
      (level flags : ℕ)
      → IsUtf8 s
      → length s < 2 ^ 32
      → let id = (g.next_fetch_id + 1) % 2 ^ 32 in
        let mem = memory front back s in
        let ptr = length front in
        (host_call mem (log_line ptr level s) g ≡ (0, g, console (leb 2 level) s ∷ []))
        × (host_call mem (fetch_url ptr s) g
            ≡ (id, record g { next_fetch_id = id }, http_get id s ∷ []))
        × (host_call mem (set_session ptr s) g ≡ (0, record g { session_token = some s }, []))
        × (host_call mem (navigate ptr s flags) g ≡ request_navigation s flags g)
  unfolding host_call log_line fetch_url set_session navigate log_import fetch_import
      session_set_import navigate_import
  calls-arrive level flags text small =
      let given = guest_bytes-given front back s small in
      let same = from_utf8_lossy-of_utf8 s text in
      (
        rw (log_import, given, same) refl,
        rw (fetch_import, given, same) refl,
        rw (session_set_import, given, same) refl,
        rw (navigate_import, given, same) refl,
      )

if-none : (b : Bool) → (if◌then◌else◌ {A = Option Bytes} b none none) ≡ none
if-none true = refl
if-none false = refl

-- The arguments of `rpc`.
module _ (service iface method payload : Bytes) (flags : ℕ) where
  abbrev pub buffer : Bytes
  buffer = rpc_buffer service iface method payload flags

  abbrev pub request : RpcRequest
  request = record {
    service = service;
    iface = iface;
    method = method;
    payload = payload;
    want_session = not (bit_and flags 2 == 0);
  }

  -- What a call of the service sends, when the session token is `session`.
  abbrev pub posted : {Q K : Type 0} → ServiceEntry → Option Bytes → Shared Q K → Outcome Q K
  posted entry session g =
      let id = (g.next_rpc_id + 1) % 2 ^ 32 in
      (
        id,
        record g { next_rpc_id = id },
        rpc_post id (rpc_url entry.endpoint iface method) request session ∷ [],
      )

-- The names are texts shorter than 2 ^ 16 bytes.
module _ (service iface method payload : Bytes) (flags : ℕ)
    (utf8 : IsUtf8 service × IsUtf8 iface × IsUtf8 method)
    (short : IsU16 (length service) × IsU16 (length iface) × IsU16 (length method) × IsU16 flags)
    (front back : Bytes) where
  module _ {Q K : Type 0} where
    rpc-posts :
        (g : Shared Q K) (entry : ServiceEntry)
        → get g.services service ≡ some entry
        → length (buffer service iface method payload flags) < 2 ^ 32
        → host_call
            (memory front back (buffer service iface method payload flags))
            (rpc (length front) service iface method payload flags)
            g
          ≡ posted service iface method payload flags entry
              (if (not (bit_and flags 2 == 0)) then g.session_token else none)
              g
    unfolding host_call rpc rpc_import call_service
    rpc-posts g entry declared room =
        rw
          (
            rpc_import,
            guest_bytes-given front back (buffer service iface method payload flags) room,
            parse_request-rpc_buffer service iface method payload flags utf8 short,
            call_service,
            declared,
          )
          refl

    -- A token that the guest has set goes with its next request to a declared service if that asks for
    -- the session, and not otherwise; when the guest has cleared the session, it does not.
    pub rpc-session :
        (token before after : Bytes) (g : Shared Q K) (entry : ServiceEntry)
        → IsUtf8 token
        → length token < 2 ^ 32
        → get g.services service ≡ some entry
        → length (buffer service iface method payload flags) < 2 ^ 32
        → let call = rpc (length front) service iface method payload flags in
          let mem = memory front back (buffer service iface method payload flags) in
          let signed_in =
            (host_call (memory before after token) (set_session (length before) token) g).1 in
          let signed_out = (host_call none clear_session signed_in).1 in
          (host_call mem call signed_in
            ≡ posted service iface method payload flags entry
                (if (not (bit_and flags 2 == 0)) then some token else none)
                signed_in)
          × (host_call mem call signed_out
              ≡ posted service iface method payload flags entry none signed_out)
    unfolding host_call clear_session
    rpc-session token before after g entry text small declared room =
        let signed_in =
          (host_call (memory before after token) (set_session (length before) token) g).1 in
        let arrived : signed_in ≡ record g { session_token = some token } =
          ap (λ r. r.1) (calls-arrive before after token g 0 0 text small).2 in
        let known : get signed_in.services service ≡ some entry =
          ap (λ h. get h.services service) arrived ∙ declared in
        (
          rpc-posts signed_in entry known room
              ∙ ap
                  (λ t.
                    posted service iface method payload flags entry
                      (if (not (bit_and flags 2 == 0)) then t else none) signed_in)
                  (ap (λ h. h.session_token) arrived),
          rpc-posts (record signed_in { session_token = none }) entry known room
              ∙ ap
                  (λ t.
                    posted service iface method payload flags entry t
                      (record signed_in { session_token = none }))
                  (if-none (not (bit_and flags 2 == 0))),
        )
