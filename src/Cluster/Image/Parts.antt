-- ===== src/Cluster/Image/Parts.antt =====
-- The parts of a reference that `splitImage` finds.
use pok.Cluster.Image.{without_digest, last_element, split_tag, split_image}
use pok.Cluster.Text.{
  index_byte_absent, index_byte-append, last_index_byte-append, take-append, drop-append,
}
use pok.Prelude.Bytes.{Bytes}
use pok.Prelude.Lists.{contains, contains-append}
use pok.Prelude.Tests.{nat_key}
use pok.Prelude.{◌≡◌, refl, false, [], ◌∷◌, ◌++◌, arith}

without_digest-append :
    (ref digest : Bytes) → contains 64 ref ≡ false → without_digest (ref ++ 64 ∷ digest) ≡ ref
unfolding without_digest
without_digest-append ref digest h =
    rw (index_byte-append 64 ref digest h, without_digest) (take-append ref (64 ∷ digest))

without_digest_absent : (ref : Bytes) → contains 64 ref ≡ false → without_digest ref ≡ ref
unfolding without_digest
without_digest_absent ref h = rw (index_byte_absent 64 ref h, without_digest) refl

last_element-append :
    (dir name : Bytes) → contains 47 name ≡ false → last_element (dir ++ 47 ∷ name) ≡ name
unfolding last_element
last_element-append dir name h =
    rw (last_index_byte-append 47 dir name h, last_element) (drop-append dir 47 name)

split_tag-append :
    (name tag : Bytes) → contains 58 name ≡ false → split_tag (name ++ 58 ∷ tag) ≡ (name, tag)
unfolding split_tag
split_tag-append name tag h =
    rw (index_byte-append 58 name tag h, split_tag)
      (cc (take-append name (58 ∷ tag), drop-append name 58 tag))

split_tag_absent : (name : Bytes) → contains 58 name ≡ false → split_tag name ≡ (name, [])
unfolding split_tag
split_tag_absent name h = rw (index_byte_absent 58 name h, split_tag) refl

-- A path element of a reference: no slash, no at sign.
abbrev pub IsElement : Bytes → Type 0
IsElement s = (contains 47 s ≡ false) × (contains 64 s ≡ false)

tagged-IsElement :
    (name tag : Bytes) → IsElement name → IsElement tag → IsElement (name ++ 58 ∷ tag)
unfolding contains
tagged-IsElement name tag n t = (
  ground (arith, contains-append 47 name (58 ∷ tag), n.0, t.0),
  ground (arith, contains-append 64 name (58 ∷ tag), n.1, t.1),
)

path-plain :
    (dir element : Bytes)
    → contains 64 dir ≡ false
    → IsElement element
    → contains 64 (dir ++ 47 ∷ element) ≡ false
unfolding contains
path-plain dir element d e = ground (arith, contains-append 64 dir (47 ∷ element), e.1)

-- Of "dir/name:tag", with or without "@digest" behind it, the name and the tag are found, whatever
-- colons the directory has, such as that of a registry's port, and whatever the digest holds.
pub split_image-tagged :
    (dir name tag digest : Bytes)
    → contains 64 dir ≡ false
    → IsElement name
    → contains 58 name ≡ false
    → IsElement tag
    → (split_image (dir ++ 47 ∷ (name ++ 58 ∷ tag)) ≡ (name, tag))
      × (split_image (dir ++ 47 ∷ (name ++ 58 ∷ tag) ++ 64 ∷ digest) ≡ (name, tag))
unfolding split_image
split_image-tagged dir name tag digest d n c t =
    let e = tagged-IsElement name tag n t in
    let plain = path-plain dir (name ++ 58 ∷ tag) d e in
    (
      rw (without_digest_absent (dir ++ 47 ∷ (name ++ 58 ∷ tag)) plain)
          (rw (last_element-append dir (name ++ 58 ∷ tag) e.0) (split_tag-append name tag c)),
      rw (without_digest-append (dir ++ 47 ∷ (name ++ 58 ∷ tag)) digest plain)
          (rw (last_element-append dir (name ++ 58 ∷ tag) e.0) (split_tag-append name tag c)),
    )

-- Of "dir/name" and of "dir/name@digest" the tag is empty, although a digest has a colon.
pub split_image-untagged :
    (dir name digest : Bytes)
    → contains 64 dir ≡ false
    → IsElement name
    → contains 58 name ≡ false
    → (split_image (dir ++ 47 ∷ name) ≡ (name, []))
      × (split_image (dir ++ 47 ∷ name ++ 64 ∷ digest) ≡ (name, []))
unfolding split_image
split_image-untagged dir name digest d n c =
    let plain = path-plain dir name d n in
    (
      rw (without_digest_absent (dir ++ 47 ∷ name) plain)
          (rw (last_element-append dir name n.0) (split_tag_absent name c)),
      rw (without_digest-append (dir ++ 47 ∷ name) digest plain)
          (rw (last_element-append dir name n.0) (split_tag_absent name c)),
    )
