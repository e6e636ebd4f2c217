-- ===== src/Cluster/Versions/Kafka.antt =====
-- The image of Strimzi's Kafka, whose tag holds two versions.
use pok.Cluster.Image.{split_image}
use pok.Cluster.Text.{take, drop}
use pok.Cluster.Versions.{Images, is_app, has_prefix, index_of, add_platform, add_image}
use pok.Prelude.Bytes.{Bytes, bytes, bytes_beq, bytes_key}
use pok.Prelude.Lists.{length, contains}
use pok.Prelude.Maps.{Map, lookup, insert, lookup-insert}
use pok.Prelude.Tests.{◌==◌, nat_key, if◌then◌else◌}
use pok.Prelude.{ℕ, suc, ◌+◌, ◌≡◌, refl, false, some, [], ◌∷◌, ◌++◌, arith}

index_of-append :
    (operator kafka : Bytes)
    → contains 45 operator ≡ false
    → index_of (bytes "-kafka-") (operator ++ bytes "-kafka-" ++ kafka) ≡ some (length operator)
unfolding index_of has_prefix contains
index_of-append [] kafka h = refl
index_of-append (c ∷ operator) kafka h = ground (arith, index_of-append operator kafka)

suc_add : (n : ℕ) → suc n + 7 ≡ suc (n + 7)
suc_add n = omega arith

take_mark :
    (operator kafka : Bytes)
    → take (length operator) (operator ++ bytes "-kafka-" ++ kafka) ≡ operator
unfolding take
take_mark [] kafka = refl
take_mark (c ∷ operator) kafka = cc (take_mark operator kafka)

drop_mark :
    (operator kafka : Bytes)
    → drop (length operator + 7) (operator ++ bytes "-kafka-" ++ kafka) ≡ kafka
unfolding drop
drop_mark [] kafka = refl
drop_mark (c ∷ operator) kafka = rw (suc_add (length operator)) (drop_mark operator kafka)

tag_nonempty : (operator kafka : Bytes) → (operator ++ bytes "-kafka-" ++ kafka == []) ≡ false
unfolding bytes_beq
tag_nonempty [] kafka = refl
tag_nonempty (c ∷ operator) kafka = refl

add_platform-kafka :
    (image operator kafka : Bytes) (platform : Map Bytes Bytes)
    → contains 45 operator ≡ false
    → add_platform image (bytes "kafka") (operator ++ bytes "-kafka-" ++ kafka) platform
      ≡ insert (bytes "kafka") kafka (insert (bytes "strimzi") operator platform)
unfolding add_platform bytes_beq
add_platform-kafka image operator kafka platform h =
    rw (index_of-append operator kafka h, add_platform)
      (cc (take_mark operator kafka, drop_mark operator kafka))

platform-found :
    (image operator kafka : Bytes) (platform : Map Bytes Bytes)
    → contains 45 operator ≡ false
    → (k : Bytes)
    → lookup k (add_platform image (bytes "kafka") (operator ++ bytes "-kafka-" ++ kafka) platform)
      ≡ (if bytes "kafka" == k
          then some kafka
          else if bytes "strimzi" == k
          then some operator
          else lookup k platform)
platform-found image operator kafka platform h k = ground (
  arith,
  add_platform-kafka image operator kafka platform h,
  lookup-insert (bytes "kafka") k kafka (insert (bytes "strimzi") operator platform),
  lookup-insert (bytes "strimzi") k operator platform,
)

add_image-platform :
    (namespace image name tag : Bytes) (seen : Images)
    → split_image image ≡ (name, tag)
    → (tag == []) ≡ false
    → is_app namespace ≡ false
    → add_image namespace image seen
      ≡ record seen { platform = add_platform image name tag seen.platform }
unfolding add_image
add_image-platform namespace image name tag seen i e n = rw (i, e, n, add_image) refl

-- An image of Kafka outside the apps' namespaces, with the tag operator-kafka-version where the
-- operator's version has no dash, tells both versions, and changes no other entry and no app.
pub add_image-kafka :
    (namespace image operator kafka other : Bytes) (seen : Images)
    → is_app namespace ≡ false
    → split_image image ≡ (bytes "kafka", operator ++ bytes "-kafka-" ++ kafka)
    → contains 45 operator ≡ false
    → (lookup (bytes "strimzi") (add_image namespace image seen).platform ≡ some operator)
      × (lookup (bytes "kafka") (add_image namespace image seen).platform ≡ some kafka)
      × (lookup other (add_image namespace image seen).platform ≡ (
          if bytes "kafka" == other
          then some kafka
          else if bytes "strimzi" == other
          then some operator
          else lookup other seen.platform))
      × ((add_image namespace image seen).apps ≡ seen.apps)
unfolding bytes_beq
add_image-kafka namespace image operator kafka other seen n i h =
    let added =
      add_image-platform namespace image (bytes "kafka") (operator ++ bytes "-kafka-" ++ kafka) seen
        i (tag_nonempty operator kafka) n in
    let found = platform-found image operator kafka seen.platform h in
    (
      rw added (found (bytes "strimzi")),
      rw added (found (bytes "kafka")),
      rw added (found other),
      rw added refl,
    )
