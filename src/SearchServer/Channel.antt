-- ===== src/SearchServer/Channel.antt =====
-- `canonical_bytes` and `verify_channel` of search-server/src/main.rs. An `i64` is its bit pattern;
-- the subtraction wraps, as in release mode.
pub mod Window
pub mod Decimal
use wasibrowser.Prelude.{
  ℕ, ◌+◌, ◌-◌, ◌*◌, ◌%◌, ◌^◌, Bool, true, false, Option, none, some, [], ◌∷◌, ◌++◌, not, ◌&&◌, ◌||◌,
  ◌==◌, ltb, leb, if◌then◌else◌, length, codes,
}
use wasibrowser.Bytes.{Bytes, Res, ok, err, ◌>>=◌}
use wasibrowser.SearchServer.{Verifier}

pub record RpcError : Type 0 where
  pub status : ℕ
  pub body : Bytes

abbrev pub sig_max_skew_ms : ℕ
sig_max_skew_ms = 60_000

-- `err(401, body)`
abbrev pub unauthorised : Bytes → RpcError
unauthorised body = record { status = 401; body = body }

abbrev pub missing_auth : RpcError
missing_auth = unauthorised (codes "missing channel auth (GWB-App-Key/Sig/Ts)")

abbrev pub bad_ts : RpcError
bad_ts = unauthorised (codes "bad GWB-Ts")

abbrev pub stale_ts : RpcError
stale_ts = unauthorised (codes "stale GWB-Ts (replay window)")

abbrev pub bad_app_key : RpcError
bad_app_key = unauthorised (codes "bad GWB-App-Key")

abbrev pub bad_sig : RpcError
bad_sig = unauthorised (codes "bad GWB-Sig")

abbrev pub not_verified : RpcError
not_verified = unauthorised (codes "channel signature does not verify")

abbrev pub is_digit : ℕ → Bool
is_digit c = leb b'0' c && leb c b'9'

-- The value of a text of digits behind digits of the value `acc`.
unfoldable pub digits : ℕ → Bytes → Option ℕ
digits acc [] = some acc
digits acc (c ∷ s) =
    let rest = digits (acc * 10 + (c - b'0')) s in if is_digit c then rest else none

unfoldable pub magnitude : Bytes → Option ℕ
unfolding digits
magnitude [] = none
magnitude (c ∷ s) = digits 0 (c ∷ s)

-- At most `limit`.
abbrev pub up_to : ℕ → Option ℕ → Option ℕ
up_to limit none = none
up_to limit (some n) = if leb n limit then some n else none

abbrev pub negated : Option ℕ → Option ℕ
negated none = none
negated (some n) = some ((2 ^ 64 - n) % 2 ^ 64)

-- `s.parse::<i64>()`
unfoldable pub parse_i64 : Bytes → Option ℕ
unfolding magnitude
parse_i64 [] = none
parse_i64 (c ∷ s) =
    if c == b'-'
    then negated (up_to (2 ^ 63) (magnitude s))
    else up_to (2 ^ 63 - 1) (magnitude (if c == b'+' then s else c ∷ s))

-- `a - b` on `i64`.
abbrev pub sub_i64 : ℕ → ℕ → ℕ
sub_i64 a b = (a + 2 ^ 64 - b) % 2 ^ 64

-- `skew > SIG_MAX_SKEW_MS || skew < -SIG_MAX_SKEW_MS`
unfoldable pub is_stale : ℕ → Bool
is_stale skew =
    (ltb skew (2 ^ 63) && ltb sig_max_skew_ms skew)
    || (leb (2 ^ 63) skew && ltb skew (2 ^ 64 - sig_max_skew_ms))

-- `iface\nmethod\nreq_id\nts\nhash`
unfoldable pub canonical_bytes : Bytes → Bytes → Bytes → Bytes → Bytes → Bytes
canonical_bytes iface method req_id ts hash =
    iface ++ (10 ∷ (method ++ (10 ∷ (req_id ++ (10 ∷ (ts ++ (10 ∷ hash)))))))

-- `.map_err(|_| e)?`
abbrev pub or_err : {A : Type 0} → RpcError → Option A → Res RpcError A
or_err e none = err e
or_err e (some a) = ok a

-- `bytes.try_into()` to an array of `n` bytes.
abbrev pub sized : ℕ → RpcError → Bytes → Res RpcError Bytes
sized n e bytes = if length bytes == n then ok bytes else err e

-- An early return with an error if the test holds.
abbrev pub fail_if : Bool → RpcError → Res RpcError (Unit {0})
fail_if true e = err e
fail_if false e = ok tt

abbrev pub is_empty : Bytes → Bool
is_empty [] = true
is_empty (c ∷ s) = false

module _ (V : Verifier) (now_ms : ℕ)
    (iface method req_id app_key_b64 sig_b64 ts_str body : Bytes) where
  unfoldable pub verify_signature : Res RpcError (Unit {0})
  unfolding canonical_bytes
  verify_signature = do
    pub_bytes ← or_err bad_app_key (V.decode app_key_b64)
    pub_bytes ← sized 32 bad_app_key pub_bytes
    vk ← or_err bad_app_key (V.key_from pub_bytes)
    sig_bytes ← or_err bad_sig (V.decode sig_b64)
    sig ← sized 64 bad_sig sig_bytes
    let msg = canonical_bytes iface method req_id ts_str (V.sha256_hex body)
    fail_if (not (V.verify_strict vk msg sig)) not_verified

  unfoldable pub verify_fresh : Res RpcError (Unit {0})
  unfolding parse_i64 is_stale verify_signature
  verify_fresh = do
    ts ← or_err bad_ts (parse_i64 ts_str)
    _ ← fail_if (is_stale (sub_i64 now_ms ts)) stale_ts
    verify_signature

  unfoldable pub verify_channel : Bool → Res RpcError (Unit {0})
  unfolding verify_fresh
  verify_channel require_channel =
      if not require_channel && is_empty app_key_b64
      then ok tt
      else if is_empty app_key_b64 || is_empty sig_b64 || is_empty ts_str
      then err missing_auth
      else verify_fresh
