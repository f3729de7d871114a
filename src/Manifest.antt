-- ===== src/Manifest.antt =====
-- renderer/src/manifest.rs: a navigation target is resolved to a bundle and its capabilities. The
-- file system and serde_json are parameters.
pub mod Grants
pub mod Safety
use wasibrowser.Prelude.{ℕ, Bool, true, false, Option, none, some, List, [], ◌∷◌, ◌++◌, not, codes}
use wasibrowser.Bytes.{Bytes, Res, ok, err, ◌>>=◌}
use wasibrowser.Map.{Map, Set, insert, insert_key}
use wasibrowser.Map.Keys.{bytes_key}
use wasibrowser.Text.{strip_prefix, starts_with, trim_end_matches, replace}
use wasibrowser.Abi.Shared.{ServiceEntry}

-- serde_json's `Value`, as the sources use it.
pub record Json : Type 1 where
  pub Value : Type 0
  pub get : Value → Bytes → Option Value
  pub as_str : Value → Option Bytes
  pub as_object : Value → Option (List (Bytes × Value))
  pub as_array : Value → Option (List Value)
  pub string : Bytes → Value
  pub object : List (Bytes × Value) → Value
  pub array : List Value → Value
  pub to_string_pretty : Value → Option Bytes

pub data ManifestError : Type 0 where
  unreadable : Bytes → ManifestError
  missing_bundle : Bytes → ManifestError
  missing_endpoint : (service : Bytes) → ManifestError
  missing_iface : (service : Bytes) → ManifestError

abbrev pub ManifestResult : Type 0 → Type 0
ManifestResult A = Res ManifestError A

pub record ResolvedApp : Type 0 where
  pub bundle_path : Bytes
  pub title : Bytes
  pub services : Map Bytes ServiceEntry
  pub links : Set Bytes
  pub dev_unverified : Bool

-- `.ok_or_else(|| anyhow!(..))?`
unfoldable pub required : {A : Type 0} → ManifestError → Option A → ManifestResult A
required e none = err e
required e (some a) = ok a

abbrev pub or_default : Bytes → Option Bytes → Bytes
or_default d none = d
or_default d (some s) = s

-- A `b3:` bundle stays as it is; both other branches of the source keep it too, up to `{root}`.
unfoldable pub resolve_bundle_path : Bytes → Bytes → Bytes
resolve_bundle_path bundle root = elim (starts_with (codes "b3:") bundle) [
  | true ↦ bundle
  | false ↦ replace (codes "{root}") root bundle
]

-- `env` is the variable `GWB_RPC_ENDPOINT`.
unfoldable pub dev_endpoint : Option Bytes → Bytes
dev_endpoint env = or_default (codes "http://127.0.0.1:8787") env

module _ (J : Json) where
  unfoldable pub str_at : J.Value → Bytes → Option Bytes
  str_at v key = elim (J.get v key) [ none ↦ none | some w ↦ J.as_str w ]

  unfoldable pub service_entry : Bytes → J.Value → ManifestResult ServiceEntry
  service_entry name spec = do
    endpoint ← required (missing_endpoint name) (str_at spec (codes "endpoint"))
    iface ← required (missing_iface name) (str_at spec (codes "iface"))
    ok (record {
      endpoint = endpoint;
      iface = iface;
      server_key = or_default [] (str_at spec (codes "key"));
    })

  -- The loop over the services, of which the last one of a name is kept.
  unfoldable pub add_services :
      List (Bytes × J.Value) → Map Bytes ServiceEntry → ManifestResult (Map Bytes ServiceEntry)
  add_services [] services = ok services
  add_services ((name, spec) ∷ rest) services = do
    entry ← service_entry name spec
    add_services rest (insert services name entry)

  -- The loop over the links; what is no text is passed over.
  unfoldable pub add_links : List J.Value → Set Bytes → Set Bytes
  add_links [] links = links
  add_links (v ∷ rest) links = elim (J.as_str v) [
    | none ↦ add_links rest links
    | some name ↦ add_links rest (insert_key links name)
  ]

  unfoldable pub services_of : J.Value → List (Bytes × J.Value)
  services_of m = elim (J.get m (codes "services")) [
    | none ↦ []
    | some v ↦ elim (J.as_object v) [ none ↦ [] | some obj ↦ obj ]
  ]

  unfoldable pub links_of : J.Value → List J.Value
  links_of m = elim (J.get m (codes "links")) [
    | none ↦ []
    | some v ↦ elim (J.as_array v) [ none ↦ [] | some arr ↦ arr ]
  ]

  -- `{manifest_root}/{name}.json`
  unfoldable pub manifest_path : Bytes → Bytes → Bytes
  manifest_path name root = trim_end_matches b'/' root ++ (codes "/" ++ (name ++ codes ".json"))

  -- `read` reads and parses a file.
  module _ (read : Bytes → Option J.Value) where
    unfoldable pub resolve_manifest : Bytes → Bytes → ManifestResult ResolvedApp
    resolve_manifest name root = do
      m ← required (unreadable (manifest_path name root)) (read (manifest_path name root))
      bundle ← required (missing_bundle (manifest_path name root)) (str_at m (codes "bundle"))
      services ← add_services (services_of m) []
      ok (record {
        bundle_path = resolve_bundle_path bundle root;
        title = or_default name (str_at m (codes "title"));
        services = services;
        links = add_links (links_of m) [];
        dev_unverified = not (starts_with (codes "b3:") bundle);
      })

    -- A bare wasm path gets the service `echo` alone, and no link.
    unfoldable pub resolve : Option Bytes → Bytes → Bytes → ManifestResult ResolvedApp
    resolve env target root = elim (strip_prefix (codes "web://") target) [
      | some name ↦ resolve_manifest name root
      | none ↦ ok (record {
        bundle_path = target;
        title = codes "WASIBrowser";
        services =
            (
              codes "echo",
              record { endpoint = dev_endpoint env; iface = codes "gwb.echo.v1"; server_key = [] },
            )
            ∷ [];
        links = [];
        dev_unverified = true;
      })
    ]
