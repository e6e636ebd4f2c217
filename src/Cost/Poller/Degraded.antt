-- ===== src/Cost/Poller/Degraded.antt =====
-- What an estimate cycle emits when some of AWS does not answer.
use pok.Cost.Attrs.{Attrs}
use pok.Cost.Estimate.Complete.{length-public_ipv4}
use pok.Cost.Estimate.{
  ComputeResource, StorageResource, hourly_rate, compute, storage, public_ipv4, samples_of,
  base_attrs, compute_all,
}
use pok.Cost.Inventory.{Instance, Volume, inventory}
use pok.Cost.Poller.Emitted.{length-emit_samples}
use pok.Cost.Poller.Ensured.{ensure_prices-Grows}
use pok.Cost.Poller.{Gauge, credentials_gauge, ensure_prices, emit_inventory, emit_estimated}
use pok.Cost.Prices.Grown.{Grows, Grows-refl}
use pok.Cost.Prices.{Request, Pricer, PriceBook, price_source}
use pok.Prelude.Bytes.{Bytes, bytes_key}
use pok.Prelude.Floats.{Floats}
use pok.Prelude.Lists.{length, length-append}
use pok.Prelude.Maps.{Map, lookup, has, has_of_lookup, has_of_missing}
use pok.Prelude.Tests.{Option-cases, if◌then◌else◌}
use pok.Prelude.{
  ℕ, ◌+◌, ◌≡◌, ◌⊎◌, ◌∙◌, refl, inl, inr, Bool, true, false, ◌||◌, not, Option, none, some, List, [],
  ◌∷◌, ◌++◌, arith,
}

module _ (F : Floats) where
  -- One for a rate that the book has.
  abbrev known : Bytes → Map Bytes F.Float → ℕ
  known t rates = if has t rates then 1 else 0

  abbrev covered_volumes : PriceBook F → List StorageResource → ℕ
  covered_volumes b [] = 0
  covered_volumes b (v ∷ volumes) = known v.volume_type b.ebs_rates + covered_volumes b volumes

  -- What the book covers of an inventory: the instances that run and have a rate, those that do not
  -- run, the volumes that have a rate, and the public addresses.
  abbrev pub covered : PriceBook F → List ComputeResource → ℕ
  covered b [] = 0
  covered b (r ∷ inv) =
      (if r.running then known r.instance_type b.instance_rates else 1)
      + covered_volumes b r.volumes
      + (if r.has_public_ip then 1 else 0)
      + covered b inv

  length-compute :
      (b : PriceBook F) (r : ComputeResource) (base : Attrs)
      → length (compute F (price_source F b) r base)
        ≡ (if r.running then known r.instance_type b.instance_rates else 1)
  unfolding compute hourly_rate price_source
  length-compute b r base = elim (Option-cases (lookup r.instance_type b.instance_rates)) [
    | inl e ↦ ground (arith, e, has_of_missing r.instance_type b.instance_rates e)
    | inr (v, e) ↦ ground (arith, e, has_of_lookup r.instance_type v b.instance_rates e)
  ]

  length-storage :
      (b : PriceBook F) (volumes : List StorageResource) (base : Attrs)
      → length (storage F (price_source F b) volumes base) ≡ covered_volumes b volumes
  unfolding storage price_source
  length-storage b [] base = refl
  length-storage b (v ∷ volumes) base = elim (Option-cases (lookup v.volume_type b.ebs_rates)) [
    | inl e ↦
        ground (arith, e, has_of_missing v.volume_type b.ebs_rates e, length-storage b volumes base)
    | inr (p, e) ↦
        ground
          (arith, e, has_of_lookup v.volume_type p b.ebs_rates e, length-storage b volumes base)
  ]

  length-compute_all :
      (b : PriceBook F) (inv : List ComputeResource)
      → length (compute_all F (price_source F b) inv) ≡ covered b inv
  unfolding compute_all samples_of
  length-compute_all b [] = refl
  length-compute_all b (r ∷ inv) = ground (
    arith,
    length-append (samples_of F (price_source F b) r) (compute_all F (price_source F b) inv),
    length-append (compute F (price_source F b) r (base_attrs r)) (
        storage F (price_source F b) r.volumes (base_attrs r)
        ++ public_ipv4 F (price_source F b) r (base_attrs r)),
    length-append (storage F (price_source F b) r.volumes (base_attrs r))
        (public_ipv4 F (price_source F b) r (base_attrs r)),
    length-compute b r (base_attrs r),
    length-storage b r.volumes (base_attrs r),
    length-public_ipv4 F (price_source F b) r (base_attrs r),
    length-compute_all b inv,
  )

  -- Both listings succeed.
  abbrev pub is_listed : {A B : Type 0} → Option A → Option B → Bool
  is_listed none dv = false
  is_listed (some reservations) none = false
  is_listed (some reservations) (some volumes) = true

  -- The resources of the inventory, if there is one.
  abbrev pub resources_in : Option (List ComputeResource) → List ComputeResource
  resources_in none = []
  resources_in (some inv) = inv

  module _ (decode : Bytes → Option (List (List Bytes)))
      (get_products : List Request → Request → Option (List Bytes)) where
    inventory_listed :
        (di : Option (List (List Instance))) (dv : Option (List Volume))
        → ((is_listed di dv ≡ true) × ((inv : List ComputeResource) × (inventory di dv ≡ some inv)))
          ⊎ ((is_listed di dv ≡ false) × (inventory di dv ≡ none))
    unfolding inventory
    inventory_listed none dv = inr (refl, refl)
    inventory_listed (some reservations) none = inr (refl, refl)
    inventory_listed (some reservations) (some volumes) = inl (refl, (_, refl))

    -- Whatever AWS answers, a cycle emits the credentials gauge, and with credentials one gauge more
    -- for each thing in the inventory that the pricer's book covers after the cycle: an instance that
    -- does not run, or whose type has a rate, a volume whose type has a rate, and a public address.
    -- There are none of these if a listing failed. The cycle is an error exactly if it had credentials
    -- and a listing failed. No rate is lost or changed, and unless it had credentials and both
    -- listings succeeded the pricer is left as it was.
    pub length-emit_estimated_any :
        (credentials : Bool) (di : Option (List (List Instance))) (dv : Option (List Volume))
        (p : Pricer F decode get_products)
        → let r = emit_estimated F decode get_products credentials di dv p in
          ((others : List (Gauge F)) × (r.0 ≡ credentials_gauge F credentials ∷ others)
            × (length others
                ≡ (if credentials then covered r.1.1.book (resources_in (inventory di dv)) else 0)))
          × (r.1.0 ≡ (not credentials || is_listed di dv))
          × Grows F p.book r.1.1.book
          × (((credentials ≡ true) × (is_listed di dv ≡ true)) ⊎ (r.1.1 ≡ p))
    unfolding emit_estimated emit_inventory
    length-emit_estimated_any false di dv p =
        (([], refl, refl), refl, Grows-refl F p.book, inr refl)
    length-emit_estimated_any true di dv p = elim (inventory_listed di dv) [
      | inr (l, e) ↦ rw (e, l) (([], refl, refl), refl, Grows-refl F p.book, inr refl)
      | inl (l, (inv, e)) ↦
          let p' = ensure_prices F decode get_products inv p in
          rw (e, l)
            (
              (
                _,
                refl,
                length-emit_samples F (compute_all F (price_source F p'.book) inv)
                    ∙ length-compute_all p'.book inv,
              ),
              refl,
              ensure_prices-Grows F decode get_products inv p,
              inl (refl, refl),
            )
    ]
