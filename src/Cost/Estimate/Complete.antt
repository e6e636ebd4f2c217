-- ===== src/Cost/Estimate/Complete.antt =====
-- How many samples an inventory gives: one for each thing that can cost.
use pok.Cost.Attrs.{Attrs}
use pok.Cost.Estimate.{
  ComputeResource, StorageResource, PriceSource, hourly_rate, compute, storage, public_ipv4,
  samples_of, base_attrs, compute_all,
}
use pok.Prelude.Floats.{Floats}
use pok.Prelude.Lists.{length, length-append, All}
use pok.Prelude.Tests.{if◌then◌else◌}
use pok.Prelude.{ℕ, ◌+◌, ◌≡◌, ◌≢◌, refl, none, List, [], ◌∷◌, ◌++◌, arith}

-- What can cost of an instance: itself, also if it does not run, when its sample is 0, its volumes,
-- and its public address if it has one.
abbrev pub charges : List ComputeResource → ℕ
charges [] = 0
charges (r ∷ instances) =
    1 + length r.volumes + (if r.has_public_ip then 1 else 0) + charges instances

module _ (F : Floats) (prices : PriceSource F) where
  abbrev pub IsPricedVolume : StorageResource → Type 0
  IsPricedVolume v = prices.ebs_gb_month v.volume_type ≢ none

  -- Every rate that the instance needs is known.
  abbrev pub IsPriced : ComputeResource → Type 0
  IsPriced r = (hourly_rate F prices r ≢ none) × All IsPricedVolume r.volumes

  length-compute :
      (r : ComputeResource) (base : Attrs)
      → hourly_rate F prices r ≢ none
      → length (compute F prices r base) ≡ 1
  unfolding compute
  length-compute r base h = ground arith

  length-storage :
      (volumes : List StorageResource) (base : Attrs)
      → All IsPricedVolume volumes
      → length (storage F prices volumes base) ≡ length volumes
  unfolding storage
  length-storage [] base h = refl
  length-storage (v ∷ volumes) base h = ground (arith, length-storage volumes base h.1)

  pub length-public_ipv4 :
      (r : ComputeResource) (base : Attrs)
      → length (public_ipv4 F prices r base) ≡ (if r.has_public_ip then 1 else 0)
  unfolding public_ipv4
  length-public_ipv4 r base = ground arith

  -- When every rate is known, the samples are as many as the things that can cost.
  pub length-compute_all :
      (instances : List ComputeResource)
      → All IsPriced instances
      → length (compute_all F prices instances) ≡ charges instances
  unfolding compute_all samples_of
  length-compute_all [] h = refl
  length-compute_all (r ∷ instances) h = ground (
    arith,
    length-append (samples_of F prices r) (compute_all F prices instances),
    length-append (compute F prices r (base_attrs r))
        (storage F prices r.volumes (base_attrs r) ++ public_ipv4 F prices r (base_attrs r)),
    length-append (storage F prices r.volumes (base_attrs r))
        (public_ipv4 F prices r (base_attrs r)),
    length-compute r (base_attrs r) h.0.0,
    length-storage r.volumes (base_attrs r) h.0.1,
    length-public_ipv4 r (base_attrs r),
    length-compute_all instances h.1,
  )
