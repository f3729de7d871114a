-- ===== src/Runs/Manifests.antt =====
-- A manifest of one service and one link.
use wasibrowser.Prelude.{◌≡◌, refl, true, Option, none, some, [], ◌∷◌, if◌then◌else◌, codes}
use wasibrowser.Bytes.{Bytes, ok}
use wasibrowser.Map.{insert, remove, insert_key, contains}
use wasibrowser.Map.Keys.{bytes_eq}
use wasibrowser.Text.{starts_with, trim_end_matches, replace, strip_prefix}
use wasibrowser.Manifest.{
  Json, ResolvedApp, service_entry, add_services, add_links, services_of, links_of,
  resolve_manifest, manifest_path, required, str_at, resolve_bundle_path,
}
use wasibrowser.Manifest.Grants.{Grants, resolve_manifest-Grants}

data Node : Type 0 where
  manifest : Node
  services : Node
  spec : Node
  links : Node
  text : Bytes → Node

abbrev member : Node → Bytes → Option Node
member manifest key =
    if bytes_eq key (codes "bundle")
    then some (text (codes "shop.wasm"))
    else if bytes_eq key (codes "services")
    then some services
    else if bytes_eq key (codes "links")
    then some links
    else none
member spec key = some (text key)
member services key = none
member links key = none
member (text s) key = none

abbrev text_of : Node → Option Bytes
text_of (text s) = some s
text_of manifest = none
text_of services = none
text_of spec = none
text_of links = none

abbrev json : Json
json = record {
  Value = Node;
  get = member;
  as_str = text_of;
  as_object = λ v. some ((codes "cart", spec) ∷ []);
  as_array = λ v. some (text (codes "bank") ∷ []);
  string = text;
  object = λ fields. spec;
  array = λ items. links;
  to_string_pretty = text_of;
}

abbrev app : ResolvedApp
app = record {
  bundle_path = codes "shop.wasm";
  title = codes "shop";
  services =
      (
        codes "cart",
        record { endpoint = codes "endpoint"; iface = codes "iface"; server_key = codes "key" },
      )
      ∷ [];
  links = codes "bank" ∷ [];
  dev_unverified = true;
}

app-resolved : resolve_manifest json (λ path. some manifest) (codes "shop") (codes "apps") ≡ ok app
unfolding resolve_manifest required str_at services_of add_services service_entry links_of add_links
    manifest_path resolve_bundle_path trim_end_matches replace starts_with insert remove insert_key
    contains bytes_eq strip_prefix
app-resolved = refl

resolve_manifest-Grants_example : Grants json manifest app
resolve_manifest-Grants_example =
    resolve_manifest-Grants json (λ path. some manifest) (codes "shop") (codes "apps") manifest app
      refl app-resolved
