-- ===== src/Cluster/Image/Tests.antt =====
-- References with a registry's port, a tag and a digest.
use pok.Cluster.Image.{split_image}
use pok.Cluster.Image.Parts.{split_image-tagged}
use pok.Cluster.Text.{take, drop, index_byte, last_index_byte}
use pok.Prelude.Bytes.{bytes}
use pok.Prelude.Lists.{contains}
use pok.Prelude.{◌≡◌, refl, ◌∷◌, ◌++◌}

of_comment :
    split_image (bytes "quay.io/cilium/cilium:v1.20.3@sha256:ab")
    ≡ (bytes "cilium", bytes "v1.20.3")
unfolding split_image take drop index_byte last_index_byte
of_comment = refl

split_image-tagged_example :
    (split_image (bytes "reg:5000" ++ 47 ∷ (bytes "app" ++ 58 ∷ bytes "v1"))
      ≡ (bytes "app", bytes "v1"))
    × (split_image
          (bytes "reg:5000" ++ 47 ∷ (bytes "app" ++ 58 ∷ bytes "v1") ++ 64 ∷ bytes "sha256:ab")
        ≡ (bytes "app", bytes "v1"))
unfolding contains
split_image-tagged_example =
    split_image-tagged (bytes "reg:5000") (bytes "app") (bytes "v1") (bytes "sha256:ab") refl
      (refl, refl) refl (refl, refl)
