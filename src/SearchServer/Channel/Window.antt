-- ===== src/SearchServer/Channel/Window.antt =====
-- What `verify_channel` of search-server/src/main.rs lets through.
use wasibrowser.Prelude.{
  ℕ, ◌+◌, ◌-◌, ◌^◌, ◌<◌, ◌≤◌, ◌≡◌, ◌⊎◌, inl, inr, refl, ap, ◌∙◌, Bool, true, false, Option, none,
  some, [], ◌∷◌, not, ◌||◌, ◌&&◌, ◌==◌, if◌then◌else◌, ltb, leb, ltb→lt, leb→le, length, Bool-cases,
  arith,
}
use wasibrowser.Bytes.{Bytes, Res, ok, err, ◌>>=◌}
use wasibrowser.Bytes.Laws.{bind-ok}
use wasibrowser.SearchServer.{Verifier}
use wasibrowser.SearchServer.Channel.{
  RpcError, parse_i64, sub_i64, is_stale, canonical_bytes, or_err, sized, fail_if, is_empty, bad_ts,
  stale_ts, bad_app_key, bad_sig, not_verified, missing_auth, verify_signature, verify_fresh,
  verify_channel,
}

-- The time `t`, an `i64` as its bits, is at most a minute from `now`, in the integers.
abbrev pub InWindow : ℕ → ℕ → Type 0
InWindow now t =
    ((t < 2 ^ 63) × (now ≤ t + 60_000) × (t ≤ now + 60_000))
    ⊎ ((2 ^ 63 ≤ t) × (now + (2 ^ 64 - t) ≤ 60_000))

is_stale-false : (skew : ℕ) → is_stale skew ≡ false → (skew ≤ 60_000) ⊎ (2 ^ 64 - 60_000 ≤ skew)
unfolding is_stale
is_stale-false skew h = elim (Bool-cases (ltb skew (2 ^ 63))) [
  | inl low ↦ inl (ground arith)
  | inr high ↦ inr (ground arith)
]

pub is_stale-InWindow :
    (now t : ℕ) → now < 2 ^ 62 → t < 2 ^ 64 → is_stale (sub_i64 now t) ≡ false → InWindow now t
is_stale-InWindow now t hn ht h = elim (Bool-cases (ltb t (2 ^ 63))) [
  | inl before ↦
      let lt : t < 2 ^ 63 = ltb→lt t (2 ^ 63) before in
      inl (
        lt,
        elim (is_stale-false (sub_i64 now t) h) [ inl low ↦ omega arith | inr high ↦ omega arith ],
        elim (is_stale-false (sub_i64 now t) h) [ inl low ↦ omega arith | inr high ↦ omega arith ],
      )
  | inr after ↦
      let ge : 2 ^ 63 ≤ t = ground arith in
      inr (
        ge,
        elim (is_stale-false (sub_i64 now t) h) [ inl low ↦ omega arith | inr high ↦ omega arith ],
      )
]

pub InWindow-is_stale :
    (now t : ℕ)
    → now < 2 ^ 62
    → t < 2 ^ 63
    → now ≤ t + 60_000
    → t ≤ now + 60_000
    → is_stale (sub_i64 now t) ≡ false
unfolding is_stale
InWindow-is_stale now t hn ht h h' = elim (Bool-cases (leb t now)) [
  | inl past ↦
      let skew : sub_i64 now t ≡ now - t = omega (arith, leb→le t now past) in
      rw skew (ground arith)
  | inr ahead ↦
      let le : now < t = ground arith in
      let skew : sub_i64 now t ≡ 2 ^ 64 - (t - now) = omega arith in rw skew (ground arith)
]

pub parse_i64-lt : (s : Bytes) (t : ℕ) → parse_i64 s ≡ some t → t < 2 ^ 64
unfolding parse_i64
parse_i64-lt [] t h = cc
parse_i64-lt (c ∷ s) t h = ground arith

or_err-ok : {A : Type 0} (e : RpcError) (o : Option A) (a : A) → or_err e o ≡ ok a → o ≡ some a
or_err-ok e none a h = cc
or_err-ok e (some b) a h = cc

fail_if-ok : (b : Bool) (e : RpcError) → fail_if b e ≡ ok tt → b ≡ false
fail_if-ok true e h = cc
fail_if-ok false e h = refl

sized-ok :
    (n : ℕ) (e : RpcError) (bytes bytes' : Bytes) → sized n e bytes ≡ ok bytes' → bytes ≡ bytes'
sized-ok n e bytes bytes' h = ground arith

not-false : (b : Bool) → not b ≡ false → b ≡ true
not-false true h = refl
not-false false h = cc

module _ (V : Verifier) (now : ℕ)
    (iface method req_id app_key_b64 sig_b64 ts_str body : Bytes) where
  -- The key that the request names has signed the interface, the method, the id, the time and the
  -- body, and the time is at most a minute away.
  pub record Authentic : Type 0 where
    pub ts : ℕ
    pub ts_read : parse_i64 ts_str ≡ some ts
    pub fresh : InWindow now ts
    pub pub_bytes : Bytes
    pub key_decoded : V.decode app_key_b64 ≡ some pub_bytes
    pub vk : V.Key
    pub key_read : V.key_from pub_bytes ≡ some vk
    pub sig : Bytes
    pub sig_decoded : V.decode sig_b64 ≡ some sig
    pub signed :
        V.verify_strict vk (canonical_bytes iface method req_id ts_str (V.sha256_hex body)) sig
        ≡ true

  verify_fresh-Authentic :
      now < 2 ^ 62
      → verify_fresh V now iface method req_id app_key_b64 sig_b64 ts_str body ≡ ok tt
      → Authentic
  unfolding verify_fresh verify_signature
  verify_fresh-Authentic hn h =
      let (ts, e1, h1) = bind-ok (or_err bad_ts (parse_i64 ts_str)) _ h in
      let (u1, e2, h2) = bind-ok (fail_if (is_stale (sub_i64 now ts)) stale_ts) _ h1 in
      let (raw, e3, h3) = bind-ok (or_err bad_app_key (V.decode app_key_b64)) _ h2 in
      let (key, e4, h4) = bind-ok (sized 32 bad_app_key raw) _ h3 in
      let (vk, e5, h5) = bind-ok (or_err bad_app_key (V.key_from key)) _ h4 in
      let (raw_sig, e6, h6) = bind-ok (or_err bad_sig (V.decode sig_b64)) _ h5 in
      let (sig, e7, h7) = bind-ok (sized 64 bad_sig raw_sig) _ h6 in
      let read = or_err-ok _ _ _ e1 in
      record {
        ts = ts;
        ts_read = read;
        fresh = is_stale-InWindow now ts hn (parse_i64-lt ts_str ts read) (fail_if-ok _ _ e2);
        pub_bytes = key;
        key_decoded = or_err-ok _ _ _ e3 ∙ ap some (sized-ok 32 _ raw key e4);
        vk = vk;
        key_read = or_err-ok _ _ _ e5;
        sig = sig;
        sig_decoded = or_err-ok _ _ _ e6 ∙ ap some (sized-ok 64 _ raw_sig sig e7);
        signed = not-false _ (fail_if-ok _ _ h7);
      }

  -- A required channel lets only authentic requests through.
  pub verify_channel-Authentic :
      now < 2 ^ 62
      → verify_channel V now iface method req_id app_key_b64 sig_b64 ts_str body true ≡ ok tt
      → Authentic
  unfolding verify_channel
  verify_channel-Authentic hn h =
      elim (Bool-cases (is_empty app_key_b64 || is_empty sig_b64 || is_empty ts_str)) [
        | inl missing ↦ absurd (ground arith)
        | inr complete ↦ verify_fresh-Authentic hn (rw complete at h)
      ]

-- A result that is no panic, and whose errors have the status 401.
pub data Refuses {A : Type 0} : Res RpcError A → Type 0 where
  passes : (a : A) → Refuses (ok a)
  refuses : (e : RpcError) → e.status ≡ 401 → Refuses (err e)

bind-Refuses :
    {A B : Type 0} (m : Res RpcError A) (f : A → Res RpcError B)
    → Refuses m
    → ((a : A) → Refuses (f a))
    → Refuses (m >>= f)
bind-Refuses m f (passes a) hf = hf a
bind-Refuses m f (refuses e h) hf = refuses e h

or_err-Refuses : {A : Type 0} (e : RpcError) (o : Option A) → e.status ≡ 401 → Refuses (or_err e o)
or_err-Refuses e none h = refuses e h
or_err-Refuses e (some a) h = passes a

fail_if-Refuses : (b : Bool) (e : RpcError) → e.status ≡ 401 → Refuses (fail_if b e)
fail_if-Refuses true e h = refuses e h
fail_if-Refuses false e h = passes tt

sized-Refuses : (n : ℕ) (e : RpcError) (bytes : Bytes) → e.status ≡ 401 → Refuses (sized n e bytes)
sized-Refuses n e bytes h = elim (Bool-cases (length bytes == n)) [
  | inl same ↦ rw same (passes bytes)
  | inr other ↦ rw other (refuses e h)
]

if-Refuses :
    {A : Type 0} (b : Bool) (r s : Res RpcError A)
    → Refuses r
    → Refuses s
    → Refuses (if b then r else s)
if-Refuses true r s hr hs = hr
if-Refuses false r s hr hs = hs

-- Whatever the request, the verification does not panic, and its errors have the status 401.
pub verify_channel-Refuses :
    (V : Verifier) (now : ℕ) (iface method req_id app_key_b64 sig_b64 ts_str body : Bytes)
    (required : Bool)
    → Refuses (verify_channel V now iface method req_id app_key_b64 sig_b64 ts_str body required)
unfolding verify_channel verify_fresh verify_signature
verify_channel-Refuses V now iface method req_id app_key_b64 sig_b64 ts_str body required =
    if-Refuses (not required && is_empty app_key_b64) (ok tt) _ (passes tt) (
      if-Refuses (is_empty app_key_b64 || is_empty sig_b64 || is_empty ts_str) (err missing_auth) _
        (refuses missing_auth refl)
        (bind-Refuses _ _ (or_err-Refuses bad_ts (parse_i64 ts_str) refl) λ ts.
          bind-Refuses _ _ (fail_if-Refuses (is_stale (sub_i64 now ts)) stale_ts refl) λ u.
            bind-Refuses _ _ (or_err-Refuses bad_app_key (V.decode app_key_b64) refl) λ raw.
              bind-Refuses _ _ (sized-Refuses 32 bad_app_key raw refl) λ key.
                bind-Refuses _ _ (or_err-Refuses bad_app_key (V.key_from key) refl) λ vk.
                  bind-Refuses _ _ (or_err-Refuses bad_sig (V.decode sig_b64) refl) λ raw_sig.
                    bind-Refuses _ _ (sized-Refuses 64 bad_sig raw_sig refl)
                      λ sig. fail_if-Refuses _ not_verified refl))
