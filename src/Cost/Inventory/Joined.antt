-- ===== src/Cost/Inventory/Joined.antt =====
-- The join of volumes and instances: what `volumesByInstance` finds for an instance.
use mathlib.Core.List.{append-nil, append_assoc}
use pok.Cost.Estimate.{StorageResource}
use pok.Cost.Inventory.{
  Volume, to_string, to_int32, storage_resource, attach, attach_all, join_volumes,
  volumes_by_instance,
}
use pok.Prelude.Bytes.{Bytes, bytes_beq, bytes_key}
use pok.Prelude.Int.{ℤ, pos}
use pok.Prelude.Maps.{Map, index, index-insert}
use pok.Prelude.Tests.{◌==◌, eq_iff, Bool-cases, if◌then◌else◌}
use pok.Prelude.{◌≡◌, ◌∙◌, refl, inl, inr, false, Option, none, some, List, [], ◌∷◌, ◌++◌, arith}

-- A nil pointer reads as "".
abbrev pub text : Option Bytes → Bytes
text none = []
text (some s) = s

-- And a nil number as 0.
abbrev pub number : Option ℤ → ℤ
number none = pos 0
number (some n) = n

abbrev pub volume_of : Volume → StorageResource
volume_of v = record {
  volume_id = text v.volume_id;
  volume_type = v.volume_type;
  size_gib = number v.size;
}

-- The volume, once for each of its attachments to the instance.
abbrev pub attached : Bytes → StorageResource → List (Option Bytes) → List StorageResource
attached id sr [] = []
attached id sr (a ∷ attachments) =
    let rest = attached id sr attachments in if text a == id then sr ∷ rest else rest

-- The volumes attached to the instance, in the order of the listing.
abbrev pub volumes_of : Bytes → List Volume → List StorageResource
volumes_of id [] = []
volumes_of id (v ∷ volumes) = attached id (volume_of v) v.attachments ++ volumes_of id volumes

pub to_string-text : (s : Option Bytes) → to_string s ≡ text s
unfolding to_string
to_string-text none = refl
to_string-text (some s) = refl

to_int32-number : (n : Option ℤ) → to_int32 n ≡ number n
unfolding to_int32
to_int32-number none = refl
to_int32-number (some n) = refl

storage_resource-volume_of : (v : Volume) → storage_resource v ≡ volume_of v
unfolding storage_resource
storage_resource-volume_of v = rw (to_string-text v.volume_id, to_int32-number v.size) refl

index-attach :
    (id : Bytes) (sr : StorageResource) (a : Option Bytes) (m : Map Bytes (List StorageResource))
    → (id == []) ≡ false
    → index [] id (attach sr a m)
      ≡ (if text a == id then index [] id m ++ sr ∷ [] else index [] id m)
unfolding attach
index-attach id sr a m ne = ground (
  arith,
  index-insert [] (to_string a) id (index [] (to_string a) m ++ sr ∷ []) m,
  to_string-text a,
  eq_iff (text a) id,
  eq_iff (text a) [],
  eq_iff id [],
)

index-attach_all :
    (id : Bytes) (sr : StorageResource) (attachments : List (Option Bytes))
    (m : Map Bytes (List StorageResource))
    → (id == []) ≡ false
    → index [] id (attach_all sr attachments m) ≡ index [] id m ++ attached id sr attachments
unfolding attach_all
index-attach_all id sr [] m ne = rw (append-nil (index [] id m)) refl
index-attach_all id sr (a ∷ attachments) m ne = ground (
  arith,
  index-attach_all id sr attachments (attach sr a m) ne,
  index-attach id sr a m ne,
  append_assoc (index [] id m) (sr ∷ []) (attached id sr attachments),
)

index-join_volumes :
    (id : Bytes) (volumes : List Volume) (m : Map Bytes (List StorageResource))
    → (id == []) ≡ false
    → index [] id (join_volumes volumes m) ≡ index [] id m ++ volumes_of id volumes
unfolding join_volumes
index-join_volumes id [] m ne = rw (append-nil (index [] id m)) refl
index-join_volumes id (v ∷ volumes) m ne = rw (storage_resource-volume_of v) (
    cc (
      index-join_volumes id volumes (attach_all (volume_of v) v.attachments m) ne,
      index-attach_all id (volume_of v) v.attachments m ne,
      append_assoc (index [] id m) (attached id (volume_of v) v.attachments)
          (volumes_of id volumes),
    ))

-- Nothing is attached to an empty id.
attach-empty :
    (sr : StorageResource) (a : Option Bytes) (m : Map Bytes (List StorageResource))
    → index [] [] (attach sr a m) ≡ index [] [] m
unfolding attach
attach-empty sr a m =
    ground (arith, index-insert [] (to_string a) [] (index [] (to_string a) m ++ sr ∷ []) m)

attach_all-empty :
    (sr : StorageResource) (attachments : List (Option Bytes))
    (m : Map Bytes (List StorageResource))
    → index [] [] (attach_all sr attachments m) ≡ index [] [] m
unfolding attach_all
attach_all-empty sr [] m = refl
attach_all-empty sr (a ∷ attachments) m =
    attach_all-empty sr attachments (attach sr a m) ∙ attach-empty sr a m

join_volumes-empty :
    (volumes : List Volume) (m : Map Bytes (List StorageResource))
    → index [] [] (join_volumes volumes m) ≡ index [] [] m
unfolding join_volumes
join_volumes-empty [] m = refl
join_volumes-empty (v ∷ volumes) m =
    join_volumes-empty volumes (attach_all (storage_resource v) v.attachments m)
    ∙ attach_all-empty (storage_resource v) v.attachments m

-- An instance with an id gets exactly the volumes attached to it, in the order of the listing, and
-- one without an id gets none.
pub index-volumes_by_instance :
    (id : Bytes) (volumes : List Volume)
    → index [] id (volumes_by_instance (some volumes))
      ≡ (if id == [] then [] else volumes_of id volumes)
unfolding volumes_by_instance index
index-volumes_by_instance id volumes = elim (Bool-cases (id == [])) [
  | inl e ↦ rw ((eq_iff id []).0 e) (unfold bytes_beq in join_volumes-empty volumes [])
  | inr ne ↦ rw ne (index-join_volumes id volumes [] ne)
]
