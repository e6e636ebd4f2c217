-- ===== src/Cost/Estimate/Stopped.antt =====
-- A stopped instance: its compute time costs nothing, its volumes and its address what they cost.
use mathlib.Core.List.{map-append}
use pok.Cost.Attrs.{Attrs}
use pok.Cost.Estimate.{
  ComputeResource, StorageResource, Sample, PriceSource, base_attrs, hourly_rate, daily, compute,
  storage_sample, storage, public_ipv4, samples_of,
}
use pok.Prelude.Floats.{Floats}
use pok.Prelude.Bytes.{bytes}
use pok.Prelude.Int.{pos}
use pok.Prelude.{◌≡◌, refl, false, List, [], ◌∷◌, ◌++◌, map, arith}

-- The same instance after it was stopped.
abbrev pub stop : ComputeResource → ComputeResource
stop r = record r { running = false; state = bytes "stopped" }

module _ (F : Floats) (prices : PriceSource F) where
  abbrev pub value_of : Sample F → F.Float
  value_of s = s.value

  storage_values :
      (volumes : List StorageResource) (base other : Attrs)
      → map value_of (storage F prices volumes base) ≡ map value_of (storage F prices volumes other)
  unfolding storage storage_sample daily
  storage_values [] base other = refl
  storage_values (v ∷ volumes) base other = ground (arith, storage_values volumes base other)

  public_ipv4_values :
      (r : ComputeResource) (base other : Attrs)
      → map value_of (public_ipv4 F prices (stop r) base)
        ≡ map value_of (public_ipv4 F prices r other)
  unfolding public_ipv4 daily
  public_ipv4_values r base other = ground arith

  stopped_values :
      (r : ComputeResource)
      → map value_of (compute F prices (stop r) (base_attrs (stop r)))
        ≡ F.mul (F.of_int (pos 0)) (F.of_int (pos 24)) ∷ []
  unfolding compute hourly_rate daily
  stopped_values r = refl

  -- A stopped instance has a compute sample of 0 hours' cost whatever is known of its type's rate,
  -- and is charged for storage and address what it was charged before.
  pub samples_of-stop :
      (r : ComputeResource)
      → map value_of (samples_of F prices (stop r))
        ≡ F.mul (F.of_int (pos 0)) (F.of_int (pos 24))
          ∷ map value_of
              (storage F prices r.volumes (base_attrs r) ++ public_ipv4 F prices r (base_attrs r))
  unfolding samples_of
  samples_of-stop r = cc (
    map-append value_of
        (compute F prices (stop r) (base_attrs (stop r))
          ++ storage F prices r.volumes (base_attrs (stop r)))
        (public_ipv4 F prices (stop r) (base_attrs (stop r))),
    map-append value_of (compute F prices (stop r) (base_attrs (stop r)))
        (storage F prices r.volumes (base_attrs (stop r))),
    map-append value_of (storage F prices r.volumes (base_attrs r))
        (public_ipv4 F prices r (base_attrs r)),
    stopped_values r,
    storage_values r.volumes (base_attrs (stop r)) (base_attrs r),
    public_ipv4_values r (base_attrs (stop r)) (base_attrs r),
  )
