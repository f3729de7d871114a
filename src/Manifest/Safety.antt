-- ===== src/Manifest/Safety.antt =====
-- Resolving never panics.
use wasibrowser.Prelude.{Option, none, some, List, [], ◌∷◌, codes, Option-cases, inl, inr}
use wasibrowser.Bytes.{Bytes}
use wasibrowser.Bytes.Completes.{Completes, ok-Completes, err-Completes, bind-Completes}
use wasibrowser.Text.{strip_prefix}
use wasibrowser.Map.{Map, insert}
use wasibrowser.Map.Keys.{bytes_key}
use wasibrowser.Abi.Shared.{ServiceEntry}
use wasibrowser.Manifest.{
  Json, ManifestError, unreadable, missing_bundle, missing_iface, required, service_entry,
  add_services, services_of, manifest_path, resolve_manifest, resolve, str_at,
}

required-Completes : {A : Type 0} (e : ManifestError) (o : Option A) → Completes (required e o)
unfolding required
required-Completes e none = err-Completes _
required-Completes e (some a) = ok-Completes _

module _ (J : Json) where
  service_entry-Completes : (name : Bytes) (spec : J.Value) → Completes (service_entry J name spec)
  unfolding service_entry
  service_entry-Completes name spec = bind-Completes _ _ (required-Completes _ _) λ endpoint _.
      bind-Completes _ _ (required-Completes (missing_iface name) (str_at J spec (codes "iface")))
        λ iface _. ok-Completes _

  add_services-Completes :
      (specs : List (Bytes × J.Value)) (services : Map Bytes ServiceEntry)
      → Completes (add_services J specs services)
  unfolding add_services
  add_services-Completes [] services = ok-Completes _
  add_services-Completes ((name, spec) ∷ rest) services =
      bind-Completes _ _ (service_entry-Completes name spec)
        λ entry _. add_services-Completes rest (insert services name entry)

  pub resolve-Completes :
      (read : Bytes → Option J.Value) (env : Option Bytes) (target root : Bytes)
      → Completes (resolve J read env target root)
  unfolding resolve resolve_manifest
  resolve-Completes read env target root =
      elim (Option-cases (strip_prefix (codes "web://") target)) [
        | inl e ↦ rw (e, resolve) (ok-Completes _)
        | inr (name, e) ↦
            rw (e, resolve, resolve_manifest)
              (bind-Completes _ _
                (required-Completes (unreadable (manifest_path J name root))
                  (read (manifest_path J name root)))
                λ m _.
                  bind-Completes _ _
                    (required-Completes (missing_bundle (manifest_path J name root))
                      (str_at J m (codes "bundle")))
                    λ bundle _.
                      bind-Completes _ _ (add_services-Completes (services_of J m) [])
                        λ services _. ok-Completes _)
      ]
