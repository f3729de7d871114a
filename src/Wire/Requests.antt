-- ===== src/Wire/Requests.antt =====
-- An RPC from the SDK to the host.
use Prim.Native.Nat.{bit_and}
use wasibrowser.Prelude.{
  ℕ, ◌+◌, ◌≡◌, refl, [], ◌++◌, append_assoc, append-nil, arith, length, length-append, not, ◌==◌,
}
use wasibrowser.Bytes.{Bytes, ok, slice, u16_to_le, u16_at}
use wasibrowser.Bytes.Laws.{slice-append, u16_at-append}
use wasibrowser.Utf8.{IsUtf8}
use wasibrowser.Utf8.Laws.{from_utf8_lossy-of_utf8}
use wasibrowser.Abi.Rpc.{Refused, parse_request}
use wasibrowser.Sdk.Rpc.{as_u16, rpc_buffer}
use wasibrowser.Wire.{IsU16}

word :
    (bytes pre post : Bytes) (n off : ℕ)
    → bytes ≡ pre ++ (u16_to_le n ++ post)
    → IsU16 n
    → off ≡ length pre
    → u16_at {E = Refused} bytes off ≡ ok n
word bytes pre post n off e hn ho = rw e (u16_at-append pre post n off hn ho)

part :
    (bytes pre mid post : Bytes) (from to : ℕ)
    → bytes ≡ pre ++ (mid ++ post)
    → from ≡ length pre
    → to ≡ length pre + length mid
    → slice {E = Refused} bytes from to ≡ ok mid
part bytes pre mid post from to e hf ht = rw e (slice-append pre mid post from to hf ht)

module _ (service iface method payload : Bytes) (flags : ℕ)
    (utf8 : IsUtf8 service × IsUtf8 iface × IsUtf8 method)
    (short : IsU16 (length service)
      × IsU16 (length iface)
      × IsU16 (length method)
      × IsU16 flags) where
  n_s : as_u16 (length service) ≡ length service
  n_s = omega (arith, short.0)

  n_i : as_u16 (length iface) ≡ length iface
  n_i = omega (arith, short.1)

  n_m : as_u16 (length method) ≡ length method
  n_m = omega (arith, short.2)

  abbrev h : Bytes
  h =
      u16_to_le (length service)
      ++ (u16_to_le (length iface) ++ (u16_to_le (length method) ++ u16_to_le flags))

  abbrev buf : Bytes
  buf =
      u16_to_le (length service)
      ++ (u16_to_le (length iface)
          ++ (u16_to_le (length method)
              ++ (u16_to_le flags ++ (service ++ (iface ++ (method ++ payload))))))

  h_len : length h ≡ 8
  h_len = unfold u16_to_le in refl

  size : length buf ≡ 8 + (length service + (length iface + (length method + length payload)))
  size =
      unfold u16_to_le in
      omega (
        arith,
        length-append service (iface ++ (method ++ payload)),
        length-append iface (method ++ payload),
        length-append method payload,
      )

  w0 : u16_at {E = Refused} buf 0 ≡ ok (length service)
  w0 = word buf [] _ (length service) 0 refl short.0 refl

  w2 : u16_at {E = Refused} buf 2 ≡ ok (length iface)
  w2 =
      unfold u16_to_le in word buf (u16_to_le (length service)) _ (length iface) 2 refl short.1 refl

  w4 : u16_at {E = Refused} buf 4 ≡ ok (length method)
  w4 =
      unfold u16_to_le in
      word buf (u16_to_le (length service) ++ u16_to_le (length iface)) _ (length method) 4 refl
        short.2 refl

  w6 : u16_at {E = Refused} buf 6 ≡ ok flags
  w6 =
      unfold u16_to_le in
      word buf
        (u16_to_le (length service) ++ (u16_to_le (length iface) ++ u16_to_le (length method))) _
        flags 6 refl short.3 refl

  p_service : slice {E = Refused} buf 8 (8 + length service) ≡ ok service
  p_service =
      part buf h service (iface ++ (method ++ payload)) 8 _ (simp append_assoc)
        (omega (arith, h_len)) (omega (arith, h_len))

  p_iface :
      slice {E = Refused} buf (8 + length service) (8 + length service + length iface) ≡ ok iface
  p_iface =
      part buf (h ++ service) iface (method ++ payload) _ _ (simp append_assoc)
        (omega (arith, h_len, length-append h service))
        (omega (arith, h_len, length-append h service))

  p_method :
      slice {E = Refused} buf
        (8 + length service + length iface)
        (8 + length service + length iface + length method)
      ≡ ok method
  p_method =
      part buf (h ++ (service ++ iface)) method payload _ _ (simp append_assoc)
        (omega (arith, h_len, length-append h (service ++ iface), length-append service iface))
        (omega (arith, h_len, length-append h (service ++ iface), length-append service iface))

  p_payload :
      slice {E = Refused} buf (8 + length service + length iface + length method) (length buf)
      ≡ ok payload
  p_payload =
      let l = length-append h (service ++ (iface ++ method)) in
      let l' = length-append service (iface ++ method) in
      let l'' = length-append iface method in
      part buf (h ++ (service ++ (iface ++ method))) payload [] _ _
        (simp (append_assoc, append-nil)) (omega (arith, h_len, l, l', l''))
        (omega (arith, h_len, l, l', l'', size))

  -- A request with texts for names, each shorter than 2 ^ 16 bytes, is parsed by the host to the same
  -- service, interface, method and payload, and asks for the session exactly if bit 1 of its flags
  -- is set.
  pub parse_request-rpc_buffer :
      parse_request (rpc_buffer service iface method payload flags)
      ≡ ok (record {
        service = service;
        iface = iface;
        method = method;
        payload = payload;
        want_session = not (bit_and flags 2 == 0);
      })
  unfolding parse_request rpc_buffer
  parse_request-rpc_buffer =
      rw (n_s, n_i, n_m)
        (ground (
          arith,
          size,
          w0,
          w2,
          w4,
          w6,
          p_service,
          p_iface,
          p_method,
          p_payload,
          from_utf8_lossy-of_utf8 service utf8.0,
          from_utf8_lossy-of_utf8 iface utf8.1,
          from_utf8_lossy-of_utf8 method utf8.2,
        ))
