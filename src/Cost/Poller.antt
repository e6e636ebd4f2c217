-- ===== src/Cost/Poller.antt =====
-- The two cycles of apps/awscost/poller.go. What a cycle reads from AWS is given beside it: whether
-- the credentials can be retrieved and what each listing returns, `none` being an error. A gauge
-- call of the `Emitter` is a value, and a cycle returns those it makes, in order.
pub mod Ensured
pub mod Emitted
pub mod Degraded
pub mod Actual
mod Tests
use pok.Cost.Attrs.{Attrs, with_cost_type, copy_into}
use pok.Cost.Estimate.{StorageResource, ComputeResource, Sample, compute_all}
use pok.Prelude.Floats.{Floats}
use pok.Cost.Inventory.{Instance, Volume, to_string, inventory}
use pok.Cost.Prices.{Request, Pricer, ensure_instance, ensure_ebs, price_source}
use pok.Prelude.Bytes.{Bytes, bytes, bytes_key}
use pok.Prelude.Int.{pos}
use pok.Prelude.Maps.{Map, lookup, insert}
use pok.Prelude.Tests.{if◌then◌else◌}
use pok.Prelude.{Bool, true, false, Option, none, some, List, [], ◌∷◌, ◌++◌}

unfoldable pub estimated_metric : Bytes → Bytes
estimated_metric suffix = bytes "aws.cost.estimated." ++ suffix ++ bytes ".usd"

abbrev pub metric_credentials_ok : Bytes
metric_credentials_ok = bytes "aws.cost.poller.credentials_ok"

-- Cost Explorer's answer, by day: its start and the groups, each with its keys and its metrics.
pub record MetricValue : Type 0 where
  pub amount : Option Bytes
  pub unit : Option Bytes

pub record Group : Type 0 where
  pub group_keys : List Bytes
  pub metrics : Map Bytes MetricValue

pub record ByTime : Type 0 where
  -- the time period and its start, both of which may be nil
  pub start : Option (Option Bytes)
  pub groups : List Group

unfoldable pub date_of : Option (Option Bytes) → Bytes
unfolding to_string
date_of none = []
date_of (some start) = to_string start

-- groups[groupKeys[i]] = key, for the keys that have a name
unfoldable pub label_groups : List Bytes → List Bytes → Attrs → Attrs
label_groups [] group_keys groups = groups
label_groups (key ∷ keys) [] groups = groups
label_groups (key ∷ keys) (name ∷ group_keys) groups =
    label_groups keys group_keys (insert name key groups)

module _ (F : Floats) where
  pub record Gauge : Type 0 where
    pub name : Bytes
    pub value : F.Float
    pub attrs : Attrs

  unfoldable pub bool_gauge : Bool → F.Float
  bool_gauge b = if b then F.of_int (pos 1) else F.of_int (pos 0)

  unfoldable pub credentials_gauge : Bool → Gauge
  unfolding bool_gauge
  credentials_gauge ok = record {
    name = metric_credentials_ok;
    value = bool_gauge ok;
    attrs = (bytes "provider", bytes "imds") ∷ [];
  }

  unfoldable pub estimated_gauge : Sample F → Gauge
  unfolding estimated_metric with_cost_type
  estimated_gauge s = record {
    name = estimated_metric s.metric;
    value = s.value;
    attrs = with_cost_type s.attrs (bytes "estimated");
  }

  unfoldable pub emit_samples : List (Sample F) → List Gauge
  unfolding estimated_gauge
  emit_samples [] = []
  emit_samples (s ∷ samples) = estimated_gauge s ∷ emit_samples samples

  module _ (decode : Bytes → Option (List (List Bytes)))
      (get_products : List Request → Request → Option (List Bytes)) where
    -- An error is only logged.
    unfoldable pub ensure_volumes :
        List StorageResource → Pricer F decode get_products → Pricer F decode get_products
    unfolding ensure_ebs
    ensure_volumes [] p = p
    ensure_volumes (v ∷ volumes) p =
        ensure_volumes volumes (ensure_ebs F decode get_products v.volume_type p).1

    unfoldable pub ensure_prices :
        List ComputeResource → Pricer F decode get_products → Pricer F decode get_products
    unfolding ensure_volumes ensure_instance
    ensure_prices [] p = p
    ensure_prices (r ∷ instances) p =
        ensure_prices instances
          (ensure_volumes r.volumes (ensure_instance F decode get_products r.instance_type p).1)

    -- The inventory part of a cycle.
    unfoldable pub emit_inventory :
        Option (List ComputeResource)
        → Pricer F decode get_products
        → List Gauge × (Bool × Pricer F decode get_products)
    unfolding ensure_prices emit_samples
    emit_inventory none p = ([], (false, p))
    emit_inventory (some inv) p =
        let p' = ensure_prices inv p in
        (emit_samples (compute_all F (price_source F p'.book) inv), (true, p'))

    -- `EmitEstimated`: the gauges, whether the error is nil, and the pricer.
    unfoldable pub emit_estimated :
        Bool
        → Option (List (List Instance))
        → Option (List Volume)
        → Pricer F decode get_products
        → List Gauge × (Bool × Pricer F decode get_products)
    unfolding credentials_gauge emit_inventory
    emit_estimated credentials di dv p =
        if credentials
        then (
          credentials_gauge credentials ∷ (emit_inventory (inventory di dv) p).0,
          (emit_inventory (inventory di dv) p).1,
        )
        else (credentials_gauge credentials ∷ [], (true, p))

  pub record CostRecord : Type 0 where
    pub date : Bytes
    pub groups : Attrs
    pub amount : F.Float
    pub unit : Bytes

  -- A group without the metric is skipped; an amount that does not parse is what ParseFloat returns.
  unfoldable pub group_records : Bytes → Bytes → List Bytes → List Group → List CostRecord
  unfolding label_groups to_string
  group_records date metric group_keys [] = []
  group_records date metric group_keys (g ∷ groups) =
      let rest = group_records date metric group_keys groups in
      elim (lookup metric g.metrics) [
        | none ↦ rest
        | some mv ↦
            record {
              date = date;
              groups = label_groups g.group_keys group_keys [];
              amount = (F.parse_float (to_string mv.amount)).0;
              unit = to_string mv.unit;
            }
            ∷ rest
      ]

  unfoldable pub cost_records : Bytes → List Bytes → List ByTime → List CostRecord
  unfolding group_records date_of
  cost_records metric group_keys [] = []
  cost_records metric group_keys (by_time ∷ results) =
      group_records (date_of by_time.start) metric group_keys by_time.groups
      ++ cost_records metric group_keys results

  unfoldable pub actual_gauge : CostRecord → Gauge
  unfolding copy_into with_cost_type
  actual_gauge rec = record {
    name = bytes "aws.cost.actual.daily.usd";
    value = rec.amount;
    attrs =
        with_cost_type (copy_into rec.groups ((bytes "usage_date", rec.date) ∷ []))
          (bytes "actual");
  }

  unfoldable pub emit_records : List CostRecord → List Gauge
  unfolding actual_gauge
  emit_records [] = []
  emit_records (rec ∷ records) = actual_gauge rec ∷ emit_records records

  -- `EmitActual`: the gauges, and whether the error is nil. `none` is an error of GetCostAndUsage.
  unfoldable pub emit_actual : Bool → Option (List ByTime) → List Gauge × Bool
  unfolding emit_records cost_records
  emit_actual credentials out =
      if credentials
      then elim out [
        | none ↦ ([], false)
        | some results ↦ (
          emit_records (
              cost_records (bytes "UnblendedCost") (bytes "service" ∷ bytes "instance_type" ∷ [])
                results),
          true,
        )
      ]
      else ([], true)
