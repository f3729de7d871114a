-- ===== src/SearchGuest/Replies.antt =====
-- Which answers the guest search-rs shows.
use wasibrowser.Prelude.{
  ℕ, ◌+◌, ◌≡◌, ◌⊎◌, inl, inr, refl, sym, ap, subst, ◌∙◌, Option, none, some, Bool, true, false,
  List, [], ◌∷◌, ◌==◌, ◌&&◌, not, if◌then◌else◌, codes, Bool-cases, arith,
}
use wasibrowser.Bytes.{Bytes}
use wasibrowser.Map.Keys.{bytes_eq}
use wasibrowser.Text.{trim}
use wasibrowser.Sdk.Kind
use wasibrowser.Sdk.Rpc.{rpc_buffer}
use wasibrowser.Sdk.Events.{Event}
use wasibrowser.SearchGuest.{
  App, Json, SearchHit, SearchResp, initial, el, text_el, fresh_id, set_class,
}
use wasibrowser.SearchGuest.Start.{
  start, start_card, start_head, start_bar, start_results, start_links,
}
use wasibrowser.SearchGuest.Handle.{
  Imports, set_status, render_hit, render_hits, render_empty, render_results, is_pending,
  show_parsed, show_reply, ask, submit_query, submit_search, follow_link, clicked, handled,
}

-- The imports, with the ids of the calls that the host has accepted, the last one first.
abbrev pub recorded : {H : Type 0} → Imports H → Imports (List ℕ × H)
recorded I = record {
  rpc_call =
      λ buf s. let (id, h) = I.rpc_call buf s.1 in (id, ((if id == 0 then s.0 else id ∷ s.0), h));
  navigate = λ target flags s. let (code, h) = I.navigate target flags s.1 in (code, (s.0, h));
  submit = λ buf s. let (status, h) = I.submit buf s.1 in (status, (s.0, h));
}

render_hits-pending :
    (i : ℕ) (hits : List SearchHit) (app : App)
    → (render_hits i hits app).pending_req_id ≡ app.pending_req_id
unfolding render_hits render_hit el text_el fresh_id set_class
render_hits-pending i [] app = refl
render_hits-pending i (hit ∷ hits) app = render_hits-pending (i + 1) hits (render_hit i hit app)

render_empty-pending :
    (hits : List SearchHit) (app : App)
    → (render_empty hits app).pending_req_id ≡ app.pending_req_id
unfolding render_empty el text_el fresh_id set_class
render_empty-pending [] app = refl
render_empty-pending (hit ∷ hits) app = refl

render_results-pending :
    (resp : SearchResp) (app : App) → (render_results resp app).pending_req_id ≡ app.pending_req_id
unfolding render_results set_status
render_results-pending resp app =
    render_empty-pending resp.results _ ∙ render_hits-pending 0 resp.results _

show_parsed-pending :
    (r : SearchResp ⊎ Bytes) (app : App) → (show_parsed r app).pending_req_id ≡ app.pending_req_id
unfolding show_parsed set_status
show_parsed-pending (inl resp) app = render_results-pending resp app
show_parsed-pending (inr message) app = refl

-- After an answer nothing is waited for.
show_reply-pending :
    (json : Json) (e : Event) (app : App) → (show_reply json e app).pending_req_id ≡ none
unfolding show_reply set_status
show_reply-pending json e app = elim (Bool-cases (not e.rpc_ok)) [
  | inl failed ↦ rw failed refl
  | inr fine ↦ rw fine (show_parsed-pending (json.from_str e.text) _)
]

-- An answer is waited for only if it is the one to the call that the host has accepted last.
abbrev pub IsLatest : Option ℕ → List ℕ → Type 0
IsLatest none ids = Unit
IsLatest (some id) [] = ⊥
IsLatest (some id) (last ∷ ids) = id ≡ last

module _ {H : Type 0} (I : Imports H) (json : Json) where
  -- What is true of the app and the calls that the host has accepted, at any time.
  abbrev pub IsOrderly : App × (List ℕ × H) → Type 0
  IsOrderly (app, (ids, h)) = IsLatest app.pending_req_id ids

  abbrev I' : Imports (List ℕ × H)
  I' = recorded I

  ask-IsOrderly :
      (q : Bytes) (app : App) (ids : List ℕ) (h : H)
      → IsOrderly (app, (ids, h))
      → IsOrderly (ask I' json q app (ids, h))
  unfolding ask set_status
  ask-IsOrderly q app ids h k =
      let buf : Bytes =
        rpc_buffer (codes "search") (codes "search.query.v1") (codes "search") (json.to_vec q) 0 in
      elim (Bool-cases ((I.rpc_call buf h).0 == 0)) [
        | inl refused ↦ rw refused k
        | inr accepted ↦ rw accepted refl
      ]

  submit_query-IsOrderly :
      (q : Bytes) (app : App) (ids : List ℕ) (h : H)
      → IsOrderly (app, (ids, h))
      → IsOrderly (submit_query I' json q app (ids, h))
  unfolding submit_query
  submit_query-IsOrderly [] app ids h k = k
  submit_query-IsOrderly (c ∷ q) app ids h k = ask-IsOrderly (c ∷ q) app ids h k

  submit_search-IsOrderly :
      (app : App) (ids : List ℕ) (h : H)
      → IsOrderly (app, (ids, h))
      → IsOrderly (submit_search I' json app (ids, h))
  unfolding submit_search
  submit_search-IsOrderly app ids h k = submit_query-IsOrderly (trim app.query_value) app ids h k

  follow_link-IsOrderly :
      (target : Bytes) (flags : ℕ) (app : App) (ids : List ℕ) (h : H)
      → IsOrderly (app, (ids, h))
      → IsOrderly (follow_link I' json target flags app (ids, h))
  unfolding follow_link set_status
  follow_link-IsOrderly target flags app ids h k =
      elim (Bool-cases ((I.navigate target flags h).0 == 0)) [
        | inl followed ↦ rw followed k
        | inr blocked ↦ rw blocked k
      ]

  if-IsOrderly :
      (b : Bool) (s t : App × (List ℕ × H))
      → IsOrderly s
      → IsOrderly t
      → IsOrderly (if b then s else t)
  if-IsOrderly true s t hs ht = hs
  if-IsOrderly false s t hs ht = ht

  clicked-IsOrderly :
      (listener : ℕ) (app : App) (ids : List ℕ) (h : H)
      → IsOrderly (app, (ids, h))
      → IsOrderly (clicked I' json listener app (ids, h))
  unfolding clicked
  clicked-IsOrderly listener app ids h k =
      if-IsOrderly (listener == app.go_btn) _ _ (submit_search-IsOrderly app ids h k) (
        if-IsOrderly (listener == app.link_shop) _ _ (follow_link-IsOrderly _ 0 app ids h k) (
          if-IsOrderly (listener == app.link_retailer) _ _ (follow_link-IsOrderly _ 1 app ids h k)
            k))

  handled-IsOrderly :
      (e : Event) (s : App × (List ℕ × H)) → IsOrderly s → IsOrderly (handled I' json e s.0 s.1)
  unfolding handled
  handled-IsOrderly e (app, (ids, h)) k =
      if-IsOrderly (e.kind == Kind.input && e.listener == app.input) _ _ k (
        if-IsOrderly
          (e.kind == Kind.key_down
            && (e.listener == app.input && (e.pressed && bytes_eq e.text (codes "Enter"))))
          _ _ (submit_search-IsOrderly app ids h k)
          (if-IsOrderly (e.kind == Kind.click) _ _ (clicked-IsOrderly e.listener app ids h k) (
            if-IsOrderly (e.kind == Kind.rpc_result && is_pending e.rpc_req_id app.pending_req_id) _
              _ (subst (λ o. IsLatest o ids) (sym (show_reply-pending json e app)) tt) k)))

  -- The state after some events.
  unfoldable pub after : List Event → App × (List ℕ × H) → App × (List ℕ × H)
  after [] s = s
  after (e ∷ es) s = after es (handled I' json e s.0 s.1)

  after-IsOrderly :
      (es : List Event) (s : App × (List ℕ × H)) → IsOrderly s → IsOrderly (after es s)
  unfolding after
  after-IsOrderly [] s k = k
  after-IsOrderly (e ∷ es) s k = after-IsOrderly es _ (handled-IsOrderly e s k)

  -- Nothing is waited for at the start.
  start-pending : (start initial).pending_req_id ≡ none
  unfolding start start_card start_head start_bar start_results start_links el text_el fresh_id
      set_class
  start-pending = refl

  abbrev pub begun : H → App × (List ℕ × H)
  begun h = (start initial, ([], h))

  -- A result that is shown is the one to the last of the calls, and it is the only one.
  abbrev pub IsShown : Event → App × (List ℕ × H) → Type 0
  IsShown e s =
      ((older : List ℕ) × (s.1.0 ≡ e.rpc_req_id ∷ older))
      × (handled I' json e s.0 s.1 ≡ (show_reply json e s.0, s.1))
      × ((e' : Event)
          → e'.kind ≡ Kind.rpc_result
          → handled I' json e' (show_reply json e s.0) s.1 ≡ (show_reply json e s.0, s.1))

  result-case :
      (e : Event) (app : App) (s : List ℕ × H)
      → e.kind ≡ Kind.rpc_result
      → handled I' json e app s ≡ (
          if is_pending e.rpc_req_id app.pending_req_id
          then (show_reply json e app, s)
          else (app, s))
  unfolding handled
  result-case e app s h = rw h refl

  pending-latest :
      (id : ℕ) (o : Option ℕ) (ids : List ℕ)
      → is_pending id o ≡ true
      → IsLatest o ids
      → (older : List ℕ) × (ids ≡ id ∷ older)
  unfolding is_pending
  pending-latest id none ids h k = absurd (ground arith)
  pending-latest id (some p) [] h k = absurd k
  pending-latest id (some p) (last ∷ ids) h k =
      let same : id ≡ last = ground arith in (ids, ap (λ x. x ∷ ids) (sym same))

  result-IsShown :
      (e : Event) (s : App × (List ℕ × H))
      → IsOrderly s
      → e.kind ≡ Kind.rpc_result
      → (handled I' json e s.0 s.1 ≡ s) ⊎ IsShown e s
  unfolding is_pending
  result-IsShown e (app, s) k h = elim (Bool-cases (is_pending e.rpc_req_id app.pending_req_id)) [
    | inr other ↦ inl (result-case e app s h ∙ rw other refl)
    | inl waited ↦ inr (
      pending-latest e.rpc_req_id app.pending_req_id s.0 waited k,
      result-case e app s h ∙ rw waited refl,
      λ e' h'.
          result-case e' (show_reply json e app) s h' ∙ rw (show_reply-pending json e app) refl,
    )
  ]

  -- Whatever events the guest has handled since its start, a result of a call changes nothing, or it
  -- is the result of the last call that the host has accepted: then its reply is shown, and any
  -- result that comes next changes nothing.
  pub after-IsShown :
      (es : List Event) (h : H) (e : Event)
      → e.kind ≡ Kind.rpc_result
      → (handled I' json e (after es (begun h)).0 (after es (begun h)).1 ≡ after es (begun h))
        ⊎ IsShown e (after es (begun h))
  after-IsShown es h e kind =
      result-IsShown e (after es (begun h))
        (after-IsOrderly es (begun h) (subst (λ o. IsLatest o []) (sym start-pending) tt)) kind
