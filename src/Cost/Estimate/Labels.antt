-- ===== src/Cost/Estimate/Labels.antt =====
-- What the labels of the samples say.
use pok.Cost.Attrs.{Attrs, or_unknown, merge_attrs, copy_into}
use pok.Prelude.Decimal.{format_int}
use pok.Prelude.Floats.{Floats}
use pok.Cost.Estimate.{
  ComputeResource, StorageResource, Sample, PriceSource, metric_daily, component_compute,
  component_storage, component_public_ipv4, base_attrs, hourly_rate, daily, compute, storage_sample,
  storage, public_ipv4, samples_of, compute_all,
}
use pok.Prelude.Bytes.{bytes, bytes_beq, bytes_key}
use pok.Prelude.Int.{pos}
use pok.Prelude.Lists.{All, All-append, All-imp, All-if, IsIn, first, later}
use pok.Prelude.Maps.{lookup, insert}
use pok.Prelude.Tests.{Option-cases}
use pok.Prelude.{◌≡◌, refl, inl, inr, true, some, List, [], ◌∷◌, ◌++◌}

-- The labels that name the instance, none of them empty where a tag or a state is missing.
pub record NamesInstance (r : ComputeResource) (attrs : Attrs) : Type 0 where
  pub instance_id : lookup (bytes "instance_id") attrs ≡ some r.instance_id
  pub name : lookup (bytes "name") attrs ≡ some (or_unknown r.name)
  pub kind : lookup (bytes "kind") attrs ≡ some (or_unknown r.kind)
  pub state : lookup (bytes "state") attrs ≡ some (or_unknown r.state)

module _ (F : Floats) (prices : PriceSource F) where
  -- What a sample's value and its own labels must be, for each of the three components.
  pub data IsCharge (r : ComputeResource) (s : Sample F) : Type 0 where
    for_compute :
        (hourly : F.Float)
        → hourly_rate F prices r ≡ some hourly
        → s.value ≡ F.mul hourly (F.of_int (pos 24))
        → lookup (bytes "cost.component") s.attrs ≡ some component_compute
        → lookup (bytes "instance_type") s.attrs ≡ some r.instance_type
        → IsCharge r s
    for_storage :
        (v : StorageResource) (gb_month : F.Float)
        → IsIn v r.volumes
        → prices.ebs_gb_month v.volume_type ≡ some gb_month
        → s.value
          ≡ F.mul
              (F.div (F.mul gb_month (F.of_int v.size_gib)) (F.of_int (pos 730)))
              (F.of_int (pos 24))
        → lookup (bytes "cost.component") s.attrs ≡ some component_storage
        → lookup (bytes "volume_id") s.attrs ≡ some v.volume_id
        → lookup (bytes "size_gib") s.attrs ≡ some (format_int v.size_gib)
        → IsCharge r s
    for_public_ipv4 :
        r.has_public_ip ≡ true
        → s.value ≡ F.mul prices.public_ipv4_hourly (F.of_int (pos 24))
        → lookup (bytes "cost.component") s.attrs ≡ some component_public_ipv4
        → IsCharge r s

  pub record IsSampleOf (r : ComputeResource) (s : Sample F) : Type 0 where
    pub metric : s.metric ≡ metric_daily
    pub names : NamesInstance r s.attrs
    pub charge : IsCharge r s

  compute_sample-IsSampleOf :
      (r : ComputeResource) (hourly : F.Float)
      → hourly_rate F prices r ≡ some hourly
      → IsSampleOf r (
          daily F hourly (
            merge_attrs (base_attrs r) (
              (bytes "cost.component", component_compute)
              ∷ (bytes "instance_type", r.instance_type)
              ∷ [])))
  unfolding daily base_attrs merge_attrs copy_into insert lookup bytes_beq
  compute_sample-IsSampleOf r hourly h = record {
    metric = refl;
    names = record { instance_id = refl; name = refl; kind = refl; state = refl };
    charge = for_compute hourly h refl refl refl;
  }

  compute-IsSampleOf :
      (r : ComputeResource) → All (IsSampleOf r) (compute F prices r (base_attrs r))
  unfolding compute
  compute-IsSampleOf r = elim (Option-cases (hourly_rate F prices r)) [
    | inl unknown ↦ rw (unknown, All) tt
    | inr (hourly, known) ↦ rw (known, All) (compute_sample-IsSampleOf r hourly known, tt)
  ]

  storage_sample-IsSampleOf :
      (r : ComputeResource) (v : StorageResource) (gb_month : F.Float)
      → IsIn v r.volumes
      → prices.ebs_gb_month v.volume_type ≡ some gb_month
      → IsSampleOf r (storage_sample F prices v gb_month (base_attrs r))
  unfolding storage_sample daily base_attrs merge_attrs copy_into insert lookup bytes_beq
  storage_sample-IsSampleOf r v gb_month i h = record {
    metric = refl;
    names = record { instance_id = refl; name = refl; kind = refl; state = refl };
    charge = for_storage v gb_month i h refl refl refl refl;
  }

  storage-IsSampleOf :
      (r : ComputeResource) (volumes : List StorageResource)
      → ((v : StorageResource) → IsIn v volumes → IsIn v r.volumes)
      → All (IsSampleOf r) (storage F prices volumes (base_attrs r))
  unfolding storage
  storage-IsSampleOf r [] sub = tt
  storage-IsSampleOf r (v ∷ volumes) sub = elim (Option-cases (prices.ebs_gb_month v.volume_type)) [
    | inl unknown ↦ rw (unknown, All) (storage-IsSampleOf r volumes λ w i. sub w (later i))
    | inr (gb_month, known) ↦
        rw (known, All)
          (
            storage_sample-IsSampleOf r v gb_month (sub v first) known,
            storage-IsSampleOf r volumes λ w i. sub w (later i),
          )
  ]

  public_ipv4_sample-IsSampleOf :
      (r : ComputeResource)
      → r.has_public_ip ≡ true
      → IsSampleOf r (
          daily F prices.public_ipv4_hourly
            (merge_attrs (base_attrs r) ((bytes "cost.component", component_public_ipv4) ∷ [])))
  unfolding daily base_attrs merge_attrs copy_into insert lookup bytes_beq
  public_ipv4_sample-IsSampleOf r h = record {
    metric = refl;
    names = record { instance_id = refl; name = refl; kind = refl; state = refl };
    charge = for_public_ipv4 h refl refl;
  }

  public_ipv4-IsSampleOf :
      (r : ComputeResource) → All (IsSampleOf r) (public_ipv4 F prices r (base_attrs r))
  unfolding public_ipv4
  public_ipv4-IsSampleOf r =
      All-if (IsSampleOf r) r.has_public_ip
        (daily F prices.public_ipv4_hourly
            (merge_attrs (base_attrs r) ((bytes "cost.component", component_public_ipv4) ∷ []))
          ∷ [])
        λ h. (public_ipv4_sample-IsSampleOf r h, tt)

  samples_of-IsSampleOf : (r : ComputeResource) → All (IsSampleOf r) (samples_of F prices r)
  unfolding samples_of
  samples_of-IsSampleOf r =
      All-append (IsSampleOf r)
        (compute F prices r (base_attrs r) ++ storage F prices r.volumes (base_attrs r))
        (public_ipv4 F prices r (base_attrs r))
        (All-append (IsSampleOf r) (compute F prices r (base_attrs r))
          (storage F prices r.volumes (base_attrs r)) (compute-IsSampleOf r)
          (storage-IsSampleOf r r.volumes λ v i. i))
        (public_ipv4-IsSampleOf r)

  -- Some instance of the inventory that a sample is about.
  abbrev pub IsBilled : List ComputeResource → Sample F → Type 0
  IsBilled instances s = (r : ComputeResource) × (IsIn r instances × IsSampleOf r s)

  -- Each sample is about an instance of the inventory that its labels name, and its value is the
  -- daily cost of that instance's compute time, of one of its volumes or of its public address, by
  -- the rates of the price source.
  pub compute_all-IsBilled :
      (instances : List ComputeResource) → All (IsBilled instances) (compute_all F prices instances)
  unfolding compute_all
  compute_all-IsBilled [] = tt
  compute_all-IsBilled (r ∷ instances) =
      All-append (IsBilled (r ∷ instances)) (samples_of F prices r) (compute_all F prices instances)
        (All-imp (IsSampleOf r) (IsBilled (r ∷ instances)) (samples_of F prices r)
          (λ s c. (r, (first, c))) (samples_of-IsSampleOf r))
        (All-imp (IsBilled instances) (IsBilled (r ∷ instances)) (compute_all F prices instances)
          (λ s b. (b.0, (later b.1.0, b.1.1))) (compute_all-IsBilled instances))
