-- ===== src/Cost/Inventory.antt =====
-- The inventory that the EC2 API lists: `inventory`, `volumesByInstance` and `tagValue` of
-- apps/awscost/poller.go. A `*string` is an option, read by `aws.ToString`.
pub mod Joined
pub mod Listed
use pok.Cost.Estimate.{StorageResource, ComputeResource}
use pok.Prelude.Bytes.{Bytes, bytes, bytes_key}
use pok.Prelude.Int.{ℤ, pos}
use pok.Prelude.Maps.{Map, index, insert}
use pok.Prelude.Tests.{◌==◌, if◌then◌else◌}
use pok.Prelude.{Bool, not, Option, none, some, List, [], ◌∷◌, ◌++◌}

unfoldable pub to_string : Option Bytes → Bytes
to_string none = []
to_string (some s) = s

unfoldable pub to_int32 : Option ℤ → ℤ
to_int32 none = pos 0
to_int32 (some n) = n

-- The fields of the EC2 API's answers that the poller reads.
pub record Tag : Type 0 where
  pub key : Option Bytes
  pub value : Option Bytes

pub record Instance : Type 0 where
  pub instance_id : Option Bytes
  pub instance_type : Bytes
  -- nil, or the name in it
  pub state : Option Bytes
  pub tags : List Tag
  pub public_ip_address : Option Bytes

pub record Volume : Type 0 where
  pub volume_id : Option Bytes
  pub volume_type : Bytes
  pub size : Option ℤ
  -- the instance of each attachment
  pub attachments : List (Option Bytes)

unfoldable pub tag_value : List Tag → Bytes → Bytes
unfolding to_string
tag_value [] key = []
tag_value (t ∷ tags) key =
    let rest = tag_value tags key in if to_string t.key == key then to_string t.value else rest

unfoldable pub storage_resource : Volume → StorageResource
unfolding to_string to_int32
storage_resource v = record {
  volume_id = to_string v.volume_id;
  volume_type = v.volume_type;
  size_gib = to_int32 v.size;
}

-- m[id] = append(m[id], sr)
unfoldable pub attach :
    StorageResource
    → Option Bytes
    → Map Bytes (List StorageResource)
    → Map Bytes (List StorageResource)
unfolding to_string
attach sr a m =
    if not (to_string a == [])
    then insert (to_string a) (index [] (to_string a) m ++ sr ∷ []) m
    else m

unfoldable pub attach_all :
    StorageResource
    → List (Option Bytes)
    → Map Bytes (List StorageResource)
    → Map Bytes (List StorageResource)
unfolding attach
attach_all sr [] m = m
attach_all sr (a ∷ attachments) m = attach_all sr attachments (attach sr a m)

unfoldable pub join_volumes :
    List Volume → Map Bytes (List StorageResource) → Map Bytes (List StorageResource)
unfolding attach_all storage_resource
join_volumes [] m = m
join_volumes (v ∷ volumes) m =
    join_volumes volumes (attach_all (storage_resource v) v.attachments m)

-- `none` is a nil answer.
unfoldable pub volumes_by_instance : Option (List Volume) → Map Bytes (List StorageResource)
unfolding join_volumes
volumes_by_instance none = []
volumes_by_instance (some volumes) = join_volumes volumes []

unfoldable pub compute_resource : Map Bytes (List StorageResource) → Instance → ComputeResource
unfolding tag_value to_string
compute_resource vols_by_instance inst =
    let id = to_string inst.instance_id in
    let state = to_string inst.state in
    record {
      instance_id = id;
      name = tag_value inst.tags (bytes "Name");
      instance_type = inst.instance_type;
      kind = tag_value inst.tags (bytes "Kind");
      state = state;
      running = state == bytes "running";
      has_public_ip = not (to_string inst.public_ip_address == []);
      volumes = index [] id vols_by_instance;
    }

unfoldable pub resources_of :
    Map Bytes (List StorageResource) → List Instance → List ComputeResource
unfolding compute_resource
resources_of vols_by_instance [] = []
resources_of vols_by_instance (inst ∷ instances) =
    compute_resource vols_by_instance inst ∷ resources_of vols_by_instance instances

-- Over the reservations, each with its instances.
unfoldable pub resources :
    Map Bytes (List StorageResource) → List (List Instance) → List ComputeResource
unfolding resources_of
resources vols_by_instance [] = []
resources vols_by_instance (instances ∷ reservations) =
    resources_of vols_by_instance instances ++ resources vols_by_instance reservations

-- From what DescribeInstances and DescribeVolumes return, `none` being an error.
unfoldable pub inventory :
    Option (List (List Instance)) → Option (List Volume) → Option (List ComputeResource)
unfolding resources volumes_by_instance
inventory none dv = none
inventory (some reservations) none = none
inventory (some reservations) (some volumes) =
    some (resources (volumes_by_instance (some volumes)) reservations)
