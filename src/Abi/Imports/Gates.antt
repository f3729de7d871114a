-- ===== src/Abi/Imports/Gates.antt =====
-- What a guest can make the host do through its imports.
use wasibrowser.Prelude.{
  ℕ, ◌+◌, ◌≤◌, ◌≡◌, refl, sym, ap, ◌∙◌, true, Option, none, some, List, [], ◌∷◌, ◌++◌, ltb, length,
  codes, All, arith, Option-cases, Bool-cases, ◌⊎◌, inl, inr, if◌then◌else◌,
}
use wasibrowser.Bytes.{Bytes, Res, ok, err, panic, slice, u16_at}
use wasibrowser.Bytes.Laws.{slice-total, u16_at-total}
use wasibrowser.Bytes.Completes.{
  Completes, ok-Completes, err-Completes, eq_ok-Completes, if-Completes, bind-Completes,
}
use wasibrowser.Text.{trim_start_matches}
use wasibrowser.Map.{get, contains}
use wasibrowser.Map.Keys.{bytes_key}
use wasibrowser.Abi.{Op}
use wasibrowser.Abi.Decode.{DecodeError, decode_batch}
use wasibrowser.Abi.Decode.Safety.{decode_batch-Completes}
use wasibrowser.Abi.Shared.{Shared, ServiceEntry}
use wasibrowser.Abi.Rpc.{Refused, RpcRequest, parse_request, rpc_url}
use wasibrowser.Abi.Imports.{
  Effect, crash, host_line, console, http_get, rpc_post, nav_request, HostCall, submit,
  event_region, log, fetch, rpc_call, session_set, session_clear, request_frame, navigate,
  guest_bytes, Outcome, returns, submit_import, log_import, fetch_import, call_service, rpc_import,
  session_set_import, request_navigation, navigate_import, host_call,
}

u16-Completes :
    (buf : Bytes) (off : ℕ) → off + 2 ≤ length buf → Completes (u16_at {E = Refused} buf off)
u16-Completes buf off h = let (n, e) = u16_at-total buf off h in eq_ok-Completes _ n e

cut-Completes :
    (buf : Bytes) (from to : ℕ)
    → from ≤ to
    → to ≤ length buf
    → Completes (slice {E = Refused} buf from to)
cut-Completes buf from to h k = let (b, e) = slice-total buf from to h k in eq_ok-Completes _ b e

parse_request-Completes : (buf : Bytes) → Completes (parse_request buf)
unfolding parse_request
parse_request-Completes buf =
    if-Completes (ltb (length buf) 8) _ _ (λ _. err-Completes _)
      λ long. bind-Completes _ _ (u16-Completes buf 0 (ground arith)) λ s _.
        bind-Completes _ _ (u16-Completes buf 2 (ground arith)) λ i _.
          bind-Completes _ _ (u16-Completes buf 4 (ground arith)) λ m _.
            bind-Completes _ _ (u16-Completes buf 6 (ground arith)) λ flags _.
              if-Completes (ltb (length buf) (8 + s + i + m)) _ _ (λ _. err-Completes _)
                λ fits.
                  bind-Completes _ _ (cut-Completes buf 8 (8 + s) (omega arith) (ground arith))
                    λ service _.
                      bind-Completes _ _
                        (cut-Completes buf (8 + s) (8 + s + i) (omega arith) (ground arith))
                        λ iface _.
                          bind-Completes _ _
                            (cut-Completes buf (8 + s + i) (8 + s + i + m) (omega arith)
                              (ground arith))
                            λ method _.
                              bind-Completes _ _
                                (cut-Completes buf (8 + s + i + m) (length buf) (ground arith)
                                  (omega arith))
                                λ payload _. ok-Completes _

module _ {Q K : Type 0} where
  -- What `g` allows: no panic; a navigation in answer to a gesture, to a declared link and for the guest's own
  -- tab; a call of a declared service at the endpoint of the manifest, with the session token only
  -- if the request asks for it.
  abbrev pub Permitted : Shared Q K → Effect → Type 0
  Permitted g (nav_request r) =
      (g.gesture_active ≡ true)
      × (contains g.links (trim_start_matches (codes "web://") r.target) ≡ true)
      × (r.tab_id ≡ g.tab_id)
  Permitted g (rpc_post id url request session) =
      (entry : ServiceEntry) × (get g.services request.service ≡ some entry)
      × (url ≡ rpc_url entry.endpoint request.iface request.method)
      × ((request.want_session ≡ true) ⊎ (session ≡ none))
  Permitted g crash = ⊥
  Permitted g (host_line text) = ⊥
  Permitted g _ = Unit

  pub record SameRights (g g' : Shared Q K) : Type 0 where
    pub gesture : g'.gesture_active ≡ g.gesture_active
    pub links : g'.links ≡ g.links
    pub tab : g'.tab_id ≡ g.tab_id
    pub services : g'.services ≡ g.services

  -- The rights after a call, and its effects.
  abbrev pub Allows : Shared Q K → Outcome Q K → Type 0
  Allows g (value, g', out) = SameRights g g' × All (Permitted g) out

  pub same : (g : Shared Q K) → SameRights g g
  same g = record { gesture = refl; links = refl; tab = refl; services = refl }

  call_service-Allows : (request : RpcRequest) (g : Shared Q K) → Allows g (call_service request g)
  unfolding call_service
  call_service-Allows request g = elim (Option-cases (get g.services request.service)) [
    | inl e ↦ rw (e, call_service) (same g, tt)
    | inr (entry, e) ↦
        rw (e, call_service)
          (
            record { gesture = refl; links = refl; tab = refl; services = refl },
            ((entry, e, refl, token_if_wanted), tt),
          )
  ]
    where
      token_if_wanted :
          (request.want_session ≡ true)
          ⊎ ((if request.want_session then g.session_token else none) ≡ none)
      token_if_wanted = elim (Bool-cases request.want_session) [
        | inl wanted ↦ inl wanted
        | inr plain ↦ inr (rw plain refl)
      ]

  request_navigation-Allows :
      (target : Bytes) (flags : ℕ) (g : Shared Q K) → Allows g (request_navigation target flags g)
  unfolding request_navigation
  request_navigation-Allows target flags g = elim (Bool-cases g.gesture_active) [
    | inl active ↦
        elim (Bool-cases (contains g.links (trim_start_matches (codes "web://") target))) [
          | inl declared ↦ simp (active, declared) (same g, ((refl, refl, refl), tt))
          | inr unknown ↦ simp (active, unknown) (same g, tt)
        ]
    | inr idle ↦ simp idle (same g, tt)
  ]

  submit_import-Allows :
      (mem : Option Bytes) (ptr len : ℕ) (g : Shared Q K) → Allows g (submit_import mem ptr len g)
  unfolding submit_import
  submit_import-Allows mem ptr len g = elim (Option-cases (guest_bytes mem ptr len)) [
    | inl e ↦ rw (e, submit_import) (same g, tt)
    | inr (bytes, e) ↦
        rw (e, submit_import) (decoded (decode_batch bytes) (decode_batch-Completes bytes))
  ]
    where
      decoded :
          (r : Res DecodeError (List Op))
          → Completes r
          → Allows g (elim r [
            | ok ops ↦ returns 0 (record g { batches = g.batches ++ (ops ∷ []) })
            | err e ↦ returns 1 g
            | panic ↦ (0, g, crash ∷ [])
          ])
      decoded (ok ops) h =
          (record { gesture = refl; links = refl; tab = refl; services = refl }, tt)
      decoded (err e) h = (same g, tt)
      decoded panic h = absurd (h refl)

  rpc_import-Allows :
      (mem : Option Bytes) (ptr len : ℕ) (g : Shared Q K) → Allows g (rpc_import mem ptr len g)
  unfolding rpc_import
  rpc_import-Allows mem ptr len g = elim (Option-cases (guest_bytes mem ptr len)) [
    | inl e ↦ rw (e, rpc_import) (same g, tt)
    | inr (buf, e) ↦ rw (e, rpc_import) (parsed (parse_request buf) (parse_request-Completes buf))
  ]
    where
      parsed :
          (r : Res Refused RpcRequest)
          → Completes r
          → Allows g (elim r [
            | ok request ↦ call_service request g
            | err e ↦ returns 0 g
            | panic ↦ (0, g, crash ∷ [])
          ])
      parsed (ok request) h = call_service-Allows request g
      parsed (err e) h = (same g, tt)
      parsed panic h = absurd (h refl)

  pub host_call-Allows :
      (mem : Option Bytes) (call : HostCall) (g : Shared Q K) → Allows g (host_call mem call g)
  unfolding host_call
  host_call-Allows mem (submit ptr len) g = submit_import-Allows mem ptr len g
  host_call-Allows mem (rpc_call ptr len) g = rpc_import-Allows mem ptr len g
  host_call-Allows mem (navigate ptr len flags) g = elim (Option-cases (guest_bytes mem ptr len)) [
    | inl e ↦ rw (e, navigate_import) (same g, tt)
    | inr (bytes, e) ↦ rw (e, navigate_import) (request_navigation-Allows _ flags g)
  ]
  host_call-Allows mem (log level ptr len) g = elim (Option-cases (guest_bytes mem ptr len)) [
    | inl e ↦ rw (e, log_import) (same g, tt)
    | inr (bytes, e) ↦ rw (e, log_import) (same g, (tt, tt))
  ]
  host_call-Allows mem (fetch ptr len) g = elim (Option-cases (guest_bytes mem ptr len)) [
    | inl e ↦ rw (e, fetch_import) (same g, tt)
    | inr (bytes, e) ↦
        rw (e, fetch_import)
          (record { gesture = refl; links = refl; tab = refl; services = refl }, (tt, tt))
  ]
  host_call-Allows mem (session_set ptr len) g = elim (Option-cases (guest_bytes mem ptr len)) [
    | inl e ↦ rw (e, session_set_import) (same g, tt)
    | inr (bytes, e) ↦
        rw (e, session_set_import)
          (record { gesture = refl; links = refl; tab = refl; services = refl }, tt)
  ]
  host_call-Allows mem (event_region ptr len) g =
      (record { gesture = refl; links = refl; tab = refl; services = refl }, tt)
  host_call-Allows mem session_clear g =
      (record { gesture = refl; links = refl; tab = refl; services = refl }, tt)
  host_call-Allows mem request_frame g =
      (record { gesture = refl; links = refl; tab = refl; services = refl }, tt)

  Permitted-SameRights :
      (g g' : Shared Q K) (e : Effect) → SameRights g g' → Permitted g' e → Permitted g e
  Permitted-SameRights g g' (host_line text) s p = p
  Permitted-SameRights g g' (nav_request r) s (active, declared, tab) = ground arith
  Permitted-SameRights g g' (rpc_post id url request session) s (entry, found, at, token) =
      (entry, ap (λ m. get m request.service) (sym s.services) ∙ found, at, token)
  Permitted-SameRights g g' (console is_error text) s p = tt
  Permitted-SameRights g g' (http_get id url) s p = tt
  Permitted-SameRights g g' crash s p = p

  pub all-SameRights :
      (g g' : Shared Q K) (out : List Effect)
      → SameRights g g'
      → All (Permitted g') out
      → All (Permitted g) out
  all-SameRights g g' [] s p = tt
  all-SameRights g g' (e ∷ out) s (p, ps) =
      (Permitted-SameRights g g' e s p, all-SameRights g g' out s ps)

  pub SameRights-trans : (a b c : Shared Q K) → SameRights a b → SameRights b c → SameRights a c
  SameRights-trans a b c s t = record {
    gesture = t.gesture ∙ s.gesture;
    links = t.links ∙ s.links;
    tab = t.tab ∙ s.tab;
    services = t.services ∙ s.services;
  }
