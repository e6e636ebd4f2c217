-- ===== src/Cluster/Versions/Apps.antt =====
-- The versions of the apps: the tag that was seen last.
use pok.Cluster.Image.{split_image}
use pok.Cluster.Versions.{
  NodeInfo, ImagePod, Images, VersionsReport, is_app, add_image, add_images, add_pods,
  add_all_nodes, joined_sets, aspect_versions,
}
use pok.Cluster.Workloads.{msg}
use pok.Prelude.Bytes.{Bytes, bytes, bytes_key}
use pok.Prelude.Maps.{lookup, lookup-insert}
use pok.Prelude.Tests.{◌==◌, if◌then◌else◌, Bool-cases}
use pok.Prelude.{◌≡◌, refl, inl, inr, Bool, ◌&&◌, not, Option, none, some, List, [], ◌∷◌, arith}

-- The image is the app's, and has a tag.
abbrev pub is_image_of : Bytes → Bytes → Bytes → Bool
is_image_of name namespace image =
    is_app namespace && (not ((split_image image).1 == []) && (split_image image).0 == name)

abbrev pub last_image : Bytes → Bytes → List Bytes → Option Bytes → Option Bytes
last_image name namespace [] old = old
last_image name namespace (image ∷ images) old =
    last_image name namespace images
      (if is_image_of name namespace image then some (split_image image).1 else old)

-- The tag of the last image of the app, or the one before.
abbrev pub last_tag : Bytes → List ImagePod → Option Bytes → Option Bytes
last_tag name [] old = old
last_tag name (p ∷ pods) old = last_tag name pods (last_image name p.namespace p.images old)

apps-add_image :
    (name namespace image : Bytes) (seen : Images)
    → lookup name (add_image namespace image seen).apps ≡ (
        if is_image_of name namespace image
        then some (split_image image).1
        else lookup name seen.apps)
unfolding add_image
apps-add_image name namespace image seen = elim (Bool-cases ((split_image image).1 == [])) [
  | inl e ↦ rw (e, add_image) (ground arith)
  | inr e ↦ elim (Bool-cases (is_app namespace)) [
    | inl a ↦
        rw (e, a, add_image)
          (lookup-insert (split_image image).0 name (split_image image).1 seen.apps)
    | inr a ↦ rw (e, a, add_image) refl
  ]
]

apps-add_images :
    (name namespace : Bytes) (images : List Bytes) (seen : Images)
    → lookup name (add_images namespace images seen).apps
      ≡ last_image name namespace images (lookup name seen.apps)
unfolding add_images
apps-add_images name namespace [] seen = refl
apps-add_images name namespace (image ∷ images) seen = cc (
  apps-add_images name namespace images (add_image namespace image seen),
  apps-add_image name namespace image seen,
)

apps-add_pods :
    (name : Bytes) (pods : List ImagePod) (seen : Images)
    → lookup name (add_pods pods seen).apps ≡ last_tag name pods (lookup name seen.apps)
unfolding add_pods
apps-add_pods name [] seen = refl
apps-add_pods name (p ∷ pods) seen = cc (
  apps-add_pods name pods (add_images p.namespace p.images seen),
  apps-add_images name p.namespace p.images seen,
)

-- The report has for each app the tag of the last of its tagged images in the namespaces of apps,
-- and nothing for a name without one.
pub aspect_versions-apps :
    (go name : Bytes) (server : Option Bytes) (nodes : List NodeInfo) (pods : List ImagePod)
    → (r : VersionsReport) × ((aspect_versions go server (some nodes) (some pods)
          ≡ some (record { aspect = bytes "versions"; value = r }))
        × (lookup name r.apps ≡ last_tag name pods none))
unfolding aspect_versions msg lookup
aspect_versions-apps go name server nodes pods =
    let start : Images = record { platform = []; apps = [] } in
    let seen = add_pods pods start in
    (
      record {
        go = go;
        kubernetes = server;
        nodes = joined_sets (add_all_nodes nodes []);
        platform = seen.platform;
        apps = seen.apps;
      },
      (refl, apps-add_pods name pods start),
    )
