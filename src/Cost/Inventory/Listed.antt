-- ===== src/Cost/Inventory/Listed.antt =====
-- The resources of the inventory, against the instances that EC2 lists.
use pok.Cost.Estimate.{ComputeResource}
use pok.Cost.Inventory.{
  Tag, Instance, Volume, tag_value, compute_resource, resources_of, resources, inventory,
  volumes_by_instance,
}
use pok.Cost.Inventory.Joined.{text, volumes_of, to_string-text, index-volumes_by_instance}
use pok.Prelude.Bytes.{Bytes, bytes, bytes_beq, bytes_key}
use pok.Prelude.Tests.{◌==◌, eq_iff, Bool-cases, if◌then◌else◌}
use pok.Prelude.{
  ◌≡◌, ◌≢◌, ◌↔◌, refl, inl, inr, true, false, not, Option, none, some, List, [], ◌∷◌, ◌++◌, arith,
}

-- The value of the first tag that has the key, or "" where no tag has it.
pub data FirstTag (key : Bytes) : List Tag → Bytes → Type 0 where
  absent : FirstTag key [] []
  found : (t : Tag) (tags : List Tag) → t.key ≡ some key → FirstTag key (t ∷ tags) (text t.value)
  passed :
      (t : Tag) (tags : List Tag) (v : Bytes)
      → t.key ≢ some key
      → FirstTag key tags v
      → FirstTag key (t ∷ tags) v

-- What the inventory says of an instance.
pub record IsAbout (listed : List Volume) (inst : Instance) (r : ComputeResource) : Type 0 where
  pub instance_id : r.instance_id ≡ text inst.instance_id
  pub name : FirstTag (bytes "Name") inst.tags r.name
  pub instance_type : r.instance_type ≡ inst.instance_type
  pub kind : FirstTag (bytes "Kind") inst.tags r.kind
  pub state : r.state ≡ text inst.state
  pub running : (r.running ≡ true) ↔ (inst.state ≡ some (bytes "running"))
  pub has_public_ip : (r.has_public_ip ≡ false) ↔ (text inst.public_ip_address ≡ [])
  pub volumes :
      r.volumes
      ≡ (if text inst.instance_id == [] then [] else volumes_of (text inst.instance_id) listed)

-- One resource for each instance, in the same order.
abbrev pub AllAbout : List Volume → List Instance → List ComputeResource → Type 0
AllAbout volumes [] [] = Unit
AllAbout volumes (inst ∷ instances) (r ∷ inv) =
    IsAbout volumes inst r × AllAbout volumes instances inv
AllAbout volumes (inst ∷ instances) [] = ⊥
AllAbout volumes [] (r ∷ inv) = ⊥

-- The instances of all reservations.
abbrev pub all_instances : List (List Instance) → List Instance
all_instances [] = []
all_instances (instances ∷ reservations) = instances ++ all_instances reservations

text_iff :
    (s : Option Bytes) (word : Bytes)
    → (word == []) ≡ false
    → ((text s == word) ≡ true) ↔ (s ≡ some word)
text_iff none word ne = (λ h. ground (arith, h, eq_iff [] word, eq_iff word []), λ p. cc)
text_iff (some s) word ne =
    (λ h. ground (arith, (eq_iff s word).0 h), λ p. ground (arith, p, eq_iff s word))

FirstTag-tag_value :
    (key : Bytes) (tags : List Tag) → (key == []) ≡ false → FirstTag key tags (tag_value tags key)
unfolding tag_value
FirstTag-tag_value key [] ne = absent
FirstTag-tag_value key (t ∷ tags) ne = elim (Bool-cases (text t.key == key)) [
  | inl e ↦
      rw (to_string-text t.key, to_string-text t.value, e)
        (found t tags ((text_iff t.key key ne).0 e))
  | inr e ↦
      rw (to_string-text t.key, e)
        (passed t tags (tag_value tags key) (λ p. cc (e, (text_iff t.key key ne).1 p))
          (FirstTag-tag_value key tags ne))
]

compute_resource-IsAbout :
    (volumes : List Volume) (inst : Instance)
    → IsAbout volumes inst (compute_resource (volumes_by_instance (some volumes)) inst)
unfolding compute_resource bytes_beq
compute_resource-IsAbout volumes inst = record {
  instance_id = to_string-text inst.instance_id;
  name = FirstTag-tag_value (bytes "Name") inst.tags refl;
  instance_type = refl;
  kind = FirstTag-tag_value (bytes "Kind") inst.tags refl;
  state = to_string-text inst.state;
  running = rw (to_string-text inst.state) (text_iff inst.state (bytes "running") refl);
  has_public_ip =
      rw (to_string-text inst.public_ip_address) (empty_iff (text inst.public_ip_address));
  volumes =
      rw (to_string-text inst.instance_id)
        (index-volumes_by_instance (text inst.instance_id) volumes);
}
  where
    empty_iff : (s : Bytes) → (not (s == []) ≡ false) ↔ (s ≡ [])
    empty_iff s = (λ h. (eq_iff s []).0 (ground (arith, h)), λ p. ground (arith, (eq_iff s []).1 p))

AllAbout-append :
    (volumes : List Volume) (instances others : List Instance) (inv more : List ComputeResource)
    → AllAbout volumes instances inv
    → AllAbout volumes others more
    → AllAbout volumes (instances ++ others) (inv ++ more)
AllAbout-append volumes [] others [] more h k = k
AllAbout-append volumes (inst ∷ instances) others (r ∷ inv) more h k =
    (h.0, AllAbout-append volumes instances others inv more h.1 k)
AllAbout-append volumes (inst ∷ instances) others [] more h k = absurd h
AllAbout-append volumes [] others (r ∷ inv) more h k = absurd h

resources_of-AllAbout :
    (volumes : List Volume) (instances : List Instance)
    → AllAbout volumes instances (resources_of (volumes_by_instance (some volumes)) instances)
unfolding resources_of
resources_of-AllAbout volumes [] = tt
resources_of-AllAbout volumes (inst ∷ instances) =
    (compute_resource-IsAbout volumes inst, resources_of-AllAbout volumes instances)

resources-AllAbout :
    (volumes : List Volume) (reservations : List (List Instance))
    → AllAbout volumes
        (all_instances reservations)
        (resources (volumes_by_instance (some volumes)) reservations)
unfolding resources
resources-AllAbout volumes [] = tt
resources-AllAbout volumes (instances ∷ reservations) =
    AllAbout-append volumes instances (all_instances reservations)
      (resources_of (volumes_by_instance (some volumes)) instances)
      (resources (volumes_by_instance (some volumes)) reservations)
      (resources_of-AllAbout volumes instances) (resources-AllAbout volumes reservations)

-- When both listings succeed, the inventory has one resource for each listed instance, in the order
-- of the listing. It has the instance's id, type and state, the values of the first tags "Name" and
-- "Kind", runs exactly if the state is "running", has a public address exactly if one is listed, and,
-- if the instance has an id, has exactly the volumes that are attached to it, in the order of their
-- listing.
pub inventory-AllAbout :
    (volumes : List Volume) (reservations : List (List Instance))
    → (inv : List ComputeResource) × ((inventory (some reservations) (some volumes) ≡ some inv)
        × AllAbout volumes (all_instances reservations) inv)
unfolding inventory
inventory-AllAbout volumes reservations = (
  resources (volumes_by_instance (some volumes)) reservations,
  (refl, resources-AllAbout volumes reservations),
)
