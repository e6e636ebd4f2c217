-- ===== src/Cost/Estimate.antt =====
-- The daily cost samples of an inventory: apps/awscost/estimate.go. A `map[string]string` literal
-- has distinct keys, so it is the list of its entries.
pub mod Labels
pub mod Complete
pub mod Stopped
mod Tests
use pok.Cost.Attrs.{Attrs, merge_attrs, or_unknown}
use pok.Prelude.Decimal.{format_int}
use pok.Prelude.Floats.{Floats}
use pok.Prelude.Bytes.{Bytes, bytes}
use pok.Prelude.Int.{ℤ, pos}
use pok.Prelude.Tests.{if◌then◌else◌}
use pok.Prelude.{Bool, true, false, Option, none, some, List, [], ◌∷◌, ◌++◌}

abbrev pub hours_per_month : ℤ
hours_per_month = pos 730

abbrev pub hours_per_day : ℤ
hours_per_day = pos 24

abbrev pub component_compute : Bytes
component_compute = bytes "compute"

abbrev pub component_storage : Bytes
component_storage = bytes "storage"

abbrev pub component_public_ipv4 : Bytes
component_public_ipv4 = bytes "public_ipv4"

abbrev pub metric_daily : Bytes
metric_daily = bytes "daily"

pub record StorageResource : Type 0 where
  pub volume_id : Bytes
  pub volume_type : Bytes
  pub size_gib : ℤ

pub record ComputeResource : Type 0 where
  pub instance_id : Bytes
  pub name : Bytes
  pub instance_type : Bytes
  pub kind : Bytes
  pub state : Bytes
  pub running : Bool
  pub has_public_ip : Bool
  pub volumes : List StorageResource

-- The labels that every sample of an instance has.
unfoldable pub base_attrs : ComputeResource → Attrs
base_attrs r =
    (bytes "instance_id", r.instance_id)
    ∷ (bytes "name", or_unknown r.name)
    ∷ (bytes "kind", or_unknown r.kind)
    ∷ (bytes "state", or_unknown r.state)
    ∷ []

module _ (F : Floats) where
  pub record Sample : Type 0 where
    pub metric : Bytes
    pub value : F.Float
    pub attrs : Attrs

  pub record PriceSource : Type 0 where
    pub instance_hourly : Bytes → Option F.Float
    pub ebs_gb_month : Bytes → Option F.Float
    pub public_ipv4_hourly : F.Float

  unfoldable pub daily : F.Float → Attrs → Sample
  daily hourly attrs = record {
    metric = metric_daily;
    value = F.mul hourly (F.of_int hours_per_day);
    attrs = attrs;
  }

  module _ (prices : PriceSource) where
    -- `none` where the instance runs and its rate is unknown.
    unfoldable pub hourly_rate : ComputeResource → Option F.Float
    hourly_rate r =
        if r.running then prices.instance_hourly r.instance_type else some (F.of_int (pos 0))

    unfoldable pub compute : ComputeResource → Attrs → List Sample
    unfolding hourly_rate daily
    compute r base = elim (hourly_rate r) [
      | none ↦ []
      | some hourly ↦
          daily hourly (
            merge_attrs base (
              (bytes "cost.component", component_compute)
              ∷ (bytes "instance_type", r.instance_type)
              ∷ []))
          ∷ []
    ]

    unfoldable pub storage_sample : StorageResource → F.Float → Attrs → Sample
    unfolding daily
    storage_sample v gb_month base =
        daily (F.div (F.mul gb_month (F.of_int v.size_gib)) (F.of_int hours_per_month)) (
          merge_attrs base (
            (bytes "cost.component", component_storage)
            ∷ (bytes "volume_id", v.volume_id)
            ∷ (bytes "volume_type", v.volume_type)
            ∷ (bytes "size_gib", format_int v.size_gib)
            ∷ []))

    -- A volume type without a rate is skipped.
    unfoldable pub storage : List StorageResource → Attrs → List Sample
    unfolding storage_sample
    storage [] base = []
    storage (v ∷ volumes) base =
        let rest = storage volumes base in
        elim (prices.ebs_gb_month v.volume_type) [
          | none ↦ rest
          | some gb_month ↦ storage_sample v gb_month base ∷ rest
        ]

    unfoldable pub public_ipv4 : ComputeResource → Attrs → List Sample
    unfolding daily
    public_ipv4 r base =
        if r.has_public_ip
        then daily prices.public_ipv4_hourly
            (merge_attrs base ((bytes "cost.component", component_public_ipv4) ∷ []))
          ∷ []
        else []

    -- The body of the loop of `Estimator.Compute`.
    unfoldable pub samples_of : ComputeResource → List Sample
    unfolding compute storage public_ipv4
    samples_of r =
        compute r (base_attrs r) ++ storage r.volumes (base_attrs r) ++ public_ipv4 r (base_attrs r)

    -- `Estimator.Compute`.
    unfoldable pub compute_all : List ComputeResource → List Sample
    unfolding samples_of
    compute_all [] = []
    compute_all (r ∷ instances) = samples_of r ++ compute_all instances
