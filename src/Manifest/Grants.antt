-- ===== src/Manifest/Grants.antt =====
-- What `resolve_manifest` of renderer/src/manifest.rs grants to an app.
use wasibrowser.Prelude.{
  ◌≡◌, refl, sym, ◌∙◌, subst, Bool, false, none, some, Option, List, [], ◌∷◌, ◌||◌, if◌then◌else◌,
  not, codes, Option-cases, Bool-cases, inl, inr, arith,
}
use wasibrowser.Bytes.{Bytes, ok, err, panic, ◌>>=◌}
use wasibrowser.Map.{Map, Set, get, insert, get-insert, contains, insert_key, contains-insert_key}
use wasibrowser.Map.Keys.{bytes_key, bytes_eq, bytes_eq_iff}
use wasibrowser.Text.{starts_with}
use wasibrowser.Abi.Shared.{ServiceEntry}
use wasibrowser.Manifest.{
  Json, ManifestResult, service_entry, add_services, add_links, services_of, links_of,
  resolve_manifest, manifest_path, resolve_bundle_path, or_default, ResolvedApp, required, str_at,
  missing_bundle,
}

abbrev pub result : {A : Type 0} → ManifestResult A → Option A
result (ok a) = some a
result (err e) = none
result panic = none

module _ (J : Json) where
  -- The last object that a manifest has under a service's name.
  unfoldable pub declared : List (Bytes × J.Value) → Bytes → Option J.Value
  declared [] name = none
  declared ((key, spec) ∷ specs) name = elim (declared specs name) [
    | some later ↦ some later
    | none ↦ if bytes_eq key name then some spec else none
  ]

  -- Whether a name is among the links of a manifest.
  unfoldable pub is_linked : List J.Value → Bytes → Bool
  is_linked [] name = false
  is_linked (v ∷ rest) name = elim (J.as_str v) [
    | none ↦ is_linked rest name
    | some link ↦ bytes_eq link name || is_linked rest name
  ]

  abbrev pub granted : Option J.Value → Bytes → Option ServiceEntry → Option ServiceEntry
  granted none name before = before
  granted (some spec) name before = result (service_entry J name spec)

  contains-add_links :
      (rest : List J.Value) (links : Set Bytes) (name : Bytes)
      → contains (add_links J rest links) name ≡ (contains links name || is_linked rest name)
  unfolding add_links is_linked
  contains-add_links [] links name = ground arith
  contains-add_links (v ∷ rest) links name = elim (Option-cases (J.as_str v)) [
    | inl e ↦ rw (add_links, is_linked, e) (contains-add_links rest links name)
    | inr (link, e) ↦
        rw (add_links, is_linked, e)
          (ground (
            arith,
            contains-add_links rest (insert_key links link) name,
            contains-insert_key links link name,
          ))
  ]

  -- The entry of one service is read, and the others are added.
  get-added :
      (key : Bytes) (spec : J.Value) (specs : List (Bytes × J.Value))
      (services after : Map Bytes ServiceEntry) (name : Bytes)
      → ((before : Map Bytes ServiceEntry)
          → add_services J specs before ≡ ok after
          → get after name ≡ granted (declared specs name) name (get before name))
      → (r : ManifestResult ServiceEntry) → service_entry J key spec ≡ r
      → (r >>= λ entry. add_services J specs (insert services key entry)) ≡ ok after
      → get after name ≡ granted (declared ((key, spec) ∷ specs) name) name (get services name)
  unfolding declared
  get-added key spec specs services after name ih (err x) found e = absurd (ground arith)
  get-added key spec specs services after name ih panic found e = absurd (ground arith)
  get-added key spec specs services after name ih (ok entry) found e =
      let next = ih (insert services key entry) e in
      elim (Option-cases (declared specs name)) [
        | inr (later, l) ↦
            rw (declared, l)
              (subst (λ d. get after name ≡ granted d name (get (insert services key entry) name)) l
                next)
        | inl l ↦
            let last : get after name ≡ get (insert services key entry) name =
              subst (λ d. get after name ≡ granted d name (get (insert services key entry) name)) l
                next in
            elim (Bool-cases (bytes_eq key name)) [
              | inl same ↦
                  rw (declared, l, same)
                    (last
                      ∙ (get-insert services key name entry
                          ∙ rw (same, ← (bytes_eq_iff key name).0 same, found) refl))
              | inr other ↦
                  rw (declared, l, other)
                    (last ∙ (get-insert services key name entry ∙ rw (other) refl))
            ]
      ]

  get-add_services :
      (specs : List (Bytes × J.Value)) (services after : Map Bytes ServiceEntry) (name : Bytes)
      → add_services J specs services ≡ ok after
      → get after name ≡ granted (declared specs name) name (get services name)
  unfolding add_services declared
  get-add_services [] services after name e = ground arith
  get-add_services ((key, spec) ∷ specs) services after name e =
      get-added key spec specs services after name
        (λ before. get-add_services specs before after name) (service_entry J key spec) refl e

  -- What an app has of the manifest `m`.
  abbrev pub Grants : J.Value → ResolvedApp → Type 0
  Grants m app =
      ((service : Bytes)
        → get app.services service ≡ granted (declared (services_of J m) service) service none)
      × ((link : Bytes) → contains app.links link ≡ is_linked (links_of J m) link)

  -- The app of a manifest, from its bundle and its services.
  abbrev built :
      J.Value
      → Bytes
      → Bytes
      → ManifestResult Bytes
      → ManifestResult (Map Bytes ServiceEntry)
      → ManifestResult ResolvedApp
  built m title root bundle services = bundle >>= λ b. services >>= λ s. ok (record {
    bundle_path = resolve_bundle_path b root;
    title = title;
    services = s;
    links = add_links J (links_of J m) [];
    dev_unverified = not (starts_with (codes "b3:") b);
  })

  built-Grants :
      (m : J.Value) (title root : Bytes) (app : ResolvedApp) (bundle : ManifestResult Bytes)
      (services : ManifestResult (Map Bytes ServiceEntry))
      → add_services J (services_of J m) [] ≡ services
      → built m title root bundle services ≡ ok app
      → Grants m app
  unfolding get contains
  built-Grants m title root app (err x) services a e = absurd (ground arith)
  built-Grants m title root app panic services a e = absurd (ground arith)
  built-Grants m title root app (ok b) (err x) a e = absurd (ground arith)
  built-Grants m title root app (ok b) panic a e = absurd (ground arith)
  built-Grants m title root app (ok b) (ok s) a e =
      let same : record {
        bundle_path = resolve_bundle_path b root;
        title = title;
        services = s;
        links = add_links J (links_of J m) [];
        dev_unverified = not (starts_with (codes "b3:") b);
      }
          ≡ app =
        ground arith in
      subst (Grants m) same (
        λ service. get-add_services (services_of J m) [] s service a,
        λ link. contains-add_links (links_of J m) [] link,
      )

  -- An app that resolves from the manifest `m` may call exactly the services that `m` declares, each
  -- with the entry of its last declaration, and link exactly to the texts among the links of `m`.
  pub resolve_manifest-Grants :
      (read : Bytes → Option J.Value) (name root : Bytes) (m : J.Value) (app : ResolvedApp)
      → read (manifest_path J name root) ≡ some m
      → resolve_manifest J read name root ≡ ok app
      → Grants m app
  unfolding resolve_manifest required
  resolve_manifest-Grants read name root m app found e =
      let bundle =
        required (missing_bundle (manifest_path J name root)) (str_at J m (codes "bundle")) in
      let services = add_services J (services_of J m) [] in
      let title = or_default name (str_at J m (codes "title")) in
      let same : resolve_manifest J read name root ≡ built m title root bundle services =
        rw (resolve_manifest, found) refl in
      built-Grants m title root app bundle services refl (sym same ∙ e)
